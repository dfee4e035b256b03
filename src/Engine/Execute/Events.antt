-- ===== src/Engine/Execute/Events.antt =====
-- The events by which an execution ends.
use intent_execution_layer.Common.{
  ℕ, zero, suc, ◌+◌, ◌*◌, ◌≡◌, refl, ◌∙◌, ap, Bool, true, false, not, ◌||◌, List, [], ◌∷◌, ◌++◌,
  some, if◌then◌else◌, leb, ℤ, pos_part, ◌⊎◌, count_if, count_if-append, arith, inl, inr,
  Bool-cases, Option-cases,
}
use intent_execution_layer.Text.{Text, text}
use intent_execution_layer.Text.Number.{to_decimal}
use intent_execution_layer.Float.{FloatOps}
use intent_execution_layer.Platform.{Platform}
use intent_execution_layer.Intent.{Intent, Verdict, valid, invalid, success, status_eq}
use intent_execution_layer.Execution.{ExecutionResult, ns_per_ms}
use intent_execution_layer.Event.{
  Event, EventBus, EventType, EventPriority, event_type_eq, event_type_value, execution_finished,
  publish,
}
use intent_execution_layer.Registry.{Adapter}
use intent_execution_layer.Engine.{
  Effect, published, logged, EngineState, Machine, emit, log_all, publish_event,
  build_fast_path_key,
}
use intent_execution_layer.Engine.FastPath.{
  has_no_snapshot, find_entry, is_unusable, try_fast_path, update_fast_path,
}
use intent_execution_layer.Engine.Recovery.{
  initial_result, max_retries_of, effective_timeout_ms, should_retry, run_round, announce_retry,
  run_rounds, execute_with_recovery,
}

pub Verdict-cases : (v : Verdict) → (v ≡ valid) ⊎ ((why : Text) × (v ≡ invalid why))
Verdict-cases valid = inl refl
Verdict-cases (invalid why) = inr (why, refl)

-- An Error or an ExecutionFinished event
abbrev pub ends_execution : EventType → Bool
ends_execution type = event_type_eq type EventType.error || event_type_eq type execution_finished

-- Such an event, of a source that is counted
abbrev pub is_counted : (Text → Bool) → Effect → Bool
is_counted from (published event) = if from event.source then ends_execution event.type else false
is_counted from (logged message) = false
is_counted from (Effect.decision_logged t a g s r f) = false
is_counted from (Effect.failure_logged t c m) = false
is_counted from (Effect.execution_logged trace) = false

abbrev pub endings_from : {W : Type 0} → (Text → Bool) → EngineState W → ℕ
endings_from from s = count_if (is_counted from) s.effects

abbrev pub endings : {W : Type 0} → EngineState W → ℕ
endings s = endings_from (λ source. true) s

module _ {W : Type 0} where
  pub effects-try_fast_path :
      (machine : Machine W) (platform : Platform) (i : Intent) (s : EngineState W)
      → (try_fast_path machine platform i s).1.effects ≡ s.effects
  unfolding try_fast_path
  effects-try_fast_path machine platform i s = elim (Bool-cases (has_no_snapshot i)) [
    | inl e ↦ rw (e, try_fast_path) refl
    | inr e ↦ elim (Option-cases (find_entry (build_fast_path_key platform i) s.fast_path)) [
      | inl f ↦ rw (e, f, try_fast_path) refl
      | inr (entry, f) ↦ elim (Bool-cases (is_unusable i (machine.steady_now s.world).0 entry)) [
        | inl u ↦ rw (e, f, u, try_fast_path) refl
        | inr u ↦ rw (e, f, u, try_fast_path) refl
      ]
    ]
  ]

  pub effects-update_fast_path :
      (machine : Machine W) (platform : Platform) (i : Intent) (a : Adapter W) (b : Bool)
      (s : EngineState W)
      → (update_fast_path machine platform i a b s).effects ≡ s.effects
  unfolding update_fast_path
  effects-update_fast_path machine platform i a b s =
      elim (Bool-cases (not b || has_no_snapshot i)) [
        | inl e ↦ rw (e, update_fast_path) refl
        | inr e ↦ rw (e, update_fast_path) refl
      ]

module _ {W : Type 0} (machine : Machine W) (bus : EventBus W) (ops : FloatOps) where
  effects-run_round :
      (a : Adapter W) (i : Intent) (timeout : ℤ) (deadline attempt : ℕ) (s : EngineState W)
      → (run_round machine bus ops a i timeout deadline attempt s).1.effects ≡ s.effects
  unfolding run_round
  effects-run_round a i timeout deadline attempt s = refl

module _ (from : Text → Bool) (own : from (text "ExecutionEngine") ≡ true) {W : Type 0} where
  pub endings-emit :
      (e : Effect) (s : EngineState W)
      → endings_from from (emit e s) ≡ endings_from from s + (if is_counted from e then 1 else 0)
  unfolding emit
  endings-emit e s = ground (arith, count_if-append (is_counted from) s.effects (e ∷ []))

  pub endings-log_all :
      (messages : List Text) (s : EngineState W)
      → endings_from from (log_all messages s) ≡ endings_from from s
  unfolding log_all
  endings-log_all [] s = refl
  endings-log_all (m ∷ messages) s =
      omega (arith, endings-log_all messages (emit (logged m) s), endings-emit (logged m) s)

  pub endings-publish_event :
      (machine : Machine W) (bus : EventBus W) (type : EventType) (message : Text)
      (priority : EventPriority) (s : EngineState W)
      → endings_from from (publish_event machine bus type message priority s)
        ≡ endings_from from s + (if ends_execution type then 1 else 0)
  unfolding publish_event
  endings-publish_event machine bus type message priority s =
      let (now, w) = machine.system_now s.world in
      let event : Event = record {
        type = type;
        source = text "ExecutionEngine";
        message = message;
        timestamp = now;
        priority = priority;
      } in
      let counted : (if from (text "ExecutionEngine") then ends_execution type else false)
          ≡ ends_execution type =
        rw own refl in
      let (w', messages) = publish event now bus w in
      endings-log_all messages (emit (published event) (record s { world = w' }))
      ∙ endings-emit (published event) (record s { world = w' })
      ∙ ap (λ b. endings_from from s + (if b then 1 else 0)) counted

module _ (from : Text → Bool) (own : from (text "ExecutionEngine") ≡ true) {W : Type 0}
    (machine : Machine W) (bus : EventBus W) (ops : FloatOps) where
  endings-announce_retry :
      (a : Adapter W) (attempt : ℕ) (s : EngineState W)
      → endings_from from (announce_retry machine bus ops a attempt s) ≡ endings_from from s
  unfolding announce_retry event_type_eq event_type_value
  endings-announce_retry a attempt s =
      let message = text "Retrying intent execution using adapter " ++ a.name in
      omega (
        arith,
        endings-publish_event from own machine bus EventType.execution_retry
            (text "Retry attempt " ++ to_decimal (attempt + 1)) EventPriority.high
            (emit (logged message) s),
        endings-emit from own (logged message) s,
      )

  endings-run_rounds :
      (a : Adapter W) (i : Intent) (timeout : ℤ) (deadline left attempt : ℕ)
      (last : ExecutionResult) (s : EngineState W)
      → endings_from from (run_rounds machine bus ops a i timeout deadline left attempt last s).1
        ≡ endings_from from s
  unfolding run_rounds
  endings-run_rounds a i timeout deadline zero attempt last s = refl
  endings-run_rounds a i timeout deadline (suc left) attempt last s =
      let (now, w) = machine.steady_now s.world in
      let s1 : EngineState W = record s { world = w } in
      let (r, s2) = run_round machine bus ops a i timeout deadline attempt s1 in
      let kept =
        ap (count_if (is_counted from))
          (effects-run_round machine bus ops a i timeout deadline attempt s1) in
      elim (Bool-cases (leb deadline now)) [
        | inl e ↦ rw (e, run_rounds) refl
        | inr e ↦ elim (Bool-cases (status_eq r.status success || not (should_retry i r attempt))) [
          | inl f ↦ rw (e, f, run_rounds) kept
          | inr f ↦
              rw (e, f, run_rounds)
                (endings-run_rounds a i timeout deadline left (attempt + 1) r
                    (announce_retry machine bus ops a attempt s2)
                  ∙ endings-announce_retry a attempt s2
                  ∙ kept)
        ]
      ]

  pub endings-execute_with_recovery :
      (a : Adapter W) (i : Intent) (override : ℤ) (s : EngineState W)
      → endings_from from (execute_with_recovery machine bus ops (some a) i override s).1
        ≡ endings_from from s
  unfolding execute_with_recovery
  endings-execute_with_recovery a i override s =
      let (start, w) = machine.steady_now s.world in
      let timeout = effective_timeout_ms i.constraints override in
      endings-run_rounds a i timeout (start + pos_part timeout * (max_retries_of i + 1) * ns_per_ms)
        (max_retries_of i + 1) 0 initial_result (record s { world = w })
