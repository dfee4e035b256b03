-- ===== src/Engine/Execute/Ending.antt =====
-- An execution ends by one event.
use intent_execution_layer.Common.{
  ℕ, Bool, true, ◌+◌, ◌≡◌, refl, ◌∙◌, ap, not, ◌&&◌, ◌||◌, List, [], ◌∷◌, ◌++◌, Option, none, some,
  if◌then◌else◌, ◌==◌, ℤ, count_if, arith, inl, inr, Bool-cases, Option-cases,
}
use intent_execution_layer.Text.{Text, text}
use intent_execution_layer.Intent.{Intent, is_valid, action_to_string, failed, status_eq}
use intent_execution_layer.Execution.{ExecutionResult, is_success}
use intent_execution_layer.Event.{
  EventType, EventPriority, event_type_eq, event_type_value, execution_finished,
}
use intent_execution_layer.Registry.{Adapter}
use intent_execution_layer.Engine.{
  Effect, logged, EngineState, emit, publish_event, new_trace_id, primary_target_text,
}
use intent_execution_layer.Engine.FastPath.{try_fast_path, update_fast_path}
use intent_execution_layer.Engine.Recovery.{execute_with_recovery}
use intent_execution_layer.Engine.Execute.{
  Surroundings, trace_of, refused_result, ranked_scores, log_execution, refuse_invalid,
  refuse_unresolved, choose_adapter, announce_fallback, run_fallbacks, run_chosen, completed_result,
  conclude, execute_resolved, execute_valid, execute_internal,
}
use intent_execution_layer.Engine.Execute.Events.{
  Verdict-cases, is_counted, endings_from, endings, endings-emit, endings-publish_event,
  effects-try_fast_path, effects-update_fast_path, endings-execute_with_recovery,
}

module _ (from : Text → Bool) (own : from (text "ExecutionEngine") ≡ true) {W : Type 0}
    (env : Surroundings W) where
  open env use {machine, bus, platform, ops}

  endings-announce_fallback :
      (a : Adapter W) (s : EngineState W)
      → endings_from from (announce_fallback env a s) ≡ endings_from from s
  unfolding announce_fallback event_type_eq event_type_value
  endings-announce_fallback a s =
      let message = text "Trying fallback adapter: " ++ a.name in
      omega (
        arith,
        endings-publish_event from own machine bus EventType.execution_fallback
            (text "Fallback adapter selected: " ++ a.name) EventPriority.high
            (emit (logged message) s),
        endings-emit from own (logged message) s,
      )

  endings-run_fallbacks :
      (tried : ℕ) (i : Intent) (override : ℤ) (candidates : List (Adapter W)) (s : EngineState W)
      → endings_from from (run_fallbacks env tried i override candidates s).1 ≡ endings_from from s
  unfolding run_fallbacks
  endings-run_fallbacks tried i override [] s = refl
  endings-run_fallbacks tried i override (a ∷ candidates) s =
      let s0 = announce_fallback env a s in
      let (r, s') = execute_with_recovery machine bus ops (some a) i override s0 in
      let kept : endings_from from s' ≡ endings_from from s =
        endings-execute_with_recovery from own machine bus ops a i override s0
        ∙ endings-announce_fallback a s in
      elim (Bool-cases (a.address == tried || not (a.can_execute i))) [
        | inl e ↦ rw (e, run_fallbacks) (endings-run_fallbacks tried i override candidates s)
        | inr e ↦ elim (Bool-cases (is_success r)) [
          | inl f ↦ rw (e, f, run_fallbacks) kept
          | inr f ↦
              rw (e, f, run_fallbacks) (endings-run_fallbacks tried i override candidates s' ∙ kept)
        ]
      ]

  endings-run_chosen :
      (i : Intent) (override : ℤ) (a : Adapter W) (s : EngineState W)
      → endings_from from (run_chosen env i override a s).1 ≡ endings_from from s
  unfolding run_chosen
  endings-run_chosen i override a s =
      let (r, s1) = execute_with_recovery machine bus ops (some a) i override s in
      let kept = endings-execute_with_recovery from own machine bus ops a i override s in
      let (found, s2) = run_fallbacks env a.address i override s1.registry.adapters s1 in
      let tried = endings-run_fallbacks a.address i override s1.registry.adapters s1 ∙ kept in
      elim (Bool-cases (status_eq r.status failed && i.constraints.allow_fallback)) [
        | inr e ↦ rw (e, run_chosen) kept
        | inl e ↦ elim (Option-cases found) [
          | inl f ↦ rw (e, f, run_chosen) tried
          | inr (c, f) ↦ rw (e, f, run_chosen) tried
        ]
      ]

  endings-log_execution :
      (t : Text) (i : Intent) (r : ExecutionResult) (s : EngineState W)
      → endings_from from (log_execution env t i r s) ≡ endings_from from s
  unfolding log_execution
  endings-log_execution t i r s =
      let (now, w) = machine.system_now s.world in
      omega (
        arith,
        endings-emit from own (Effect.execution_logged (trace_of env t i r now))
            (record s { world = w }),
      )

  endings-refuse_invalid :
      (t why : Text) (s : EngineState W)
      → endings_from from (refuse_invalid env t why s).1 ≡ endings_from from s + 1
  unfolding refuse_invalid event_type_eq event_type_value
  endings-refuse_invalid t why s =
      let s1 = emit (logged (text "Intent validation failed: " ++ why)) s in
      let s2 = emit (Effect.failure_logged t (text "validator") why) s1 in
      omega (
        arith,
        endings-emit from own (logged (text "Intent validation failed: " ++ why)) s,
        endings-emit from own (Effect.failure_logged t (text "validator") why) s1,
        endings-publish_event from own machine bus EventType.error
            (text "Intent validation failed: " ++ why) EventPriority.high s2,
      )

  endings-refuse_unresolved :
      (t : Text) (i : Intent) (s : EngineState W)
      → endings_from from (refuse_unresolved env t i s).1 ≡ endings_from from s + 1
  unfolding refuse_unresolved event_type_eq event_type_value
  endings-refuse_unresolved t i s =
      let message = text "No adapter available for action: " ++ action_to_string i.action in
      let r = refused_result (text "none") message t in
      let s1 =
        publish_event machine bus EventType.error (text "No adapter available for intent")
          EventPriority.high s in
      let failure = Effect.failure_logged t (text "adapter-resolution") message in
      omega (
        arith,
        endings-publish_event from own machine bus EventType.error
            (text "No adapter available for intent") EventPriority.high s,
        endings-emit from own failure s1,
        endings-log_execution t i r (emit failure s1),
      )

  endings-conclude :
      (t : Text) (i : Intent) (a : Adapter W) (r : ExecutionResult) (s : EngineState W)
      → endings_from from (conclude env t i a r s) ≡ endings_from from s + 1
  unfolding conclude event_type_eq event_type_value
  endings-conclude t i a r s =
      let cached = update_fast_path machine platform i a (is_success r) s in
      let s1 = log_execution env t i r cached in
      let failure = Effect.failure_logged t (text "ExecutionEngine") r.message in
      let message =
        (if is_success r then text "Execution completed" else text "Execution failed")
        ++ text ": "
        ++ r.message in
      let kept =
        endings-log_execution t i r cached
        ∙ ap (count_if (is_counted from))
            (effects-update_fast_path machine platform i a (is_success r) s) in
      elim (Bool-cases (status_eq r.status failed)) [
        | inl e ↦
            rw (e, conclude)
              (omega (
                arith,
                endings-publish_event from own machine bus execution_finished message
                    EventPriority.high (emit failure s1),
                endings-emit from own failure s1,
                kept,
              ))
        | inr e ↦
            rw (e, conclude)
              (omega (
                arith,
                endings-publish_event from own machine bus execution_finished message
                    EventPriority.medium s1,
                kept,
              ))
      ]

  endings-execute_resolved :
      (t : Text) (i : Intent) (override : ℤ) (chosen : Option (Adapter W)) (s : EngineState W)
      → endings_from from (execute_resolved env t i override chosen s).1 ≡ endings_from from s + 1
  unfolding execute_resolved
  endings-execute_resolved t i override none s = endings-refuse_unresolved t i s
  endings-execute_resolved t i override (some a) s =
      let ((r, used, fallback), s1) = run_chosen env i override a s in
      let result = completed_result env t fallback used r in
      omega (arith, endings-conclude t i used result s1, endings-run_chosen i override a s)

  endings-choose_adapter :
      (i : Intent) (s : EngineState W)
      → endings_from from (choose_adapter env i s).2 ≡ endings_from from s
  unfolding choose_adapter
  endings-choose_adapter i s =
      let (cached, s1) = try_fast_path machine platform i s in
      let kept = ap (count_if (is_counted from)) (effects-try_fast_path machine platform i s) in
      elim (Option-cases cached) [
        | inl e ↦ rw (e, choose_adapter) kept
        | inr (a, e) ↦ rw (e, choose_adapter) kept
      ]

  endings-execute_valid :
      (t : Text) (i : Intent) (override : ℤ) (s : EngineState W)
      → endings_from from (execute_valid env t i override s).1 ≡ endings_from from s + 1
  unfolding execute_valid event_type_eq event_type_value
  endings-execute_valid t i override s =
      let s1 =
        publish_event machine bus EventType.execution_started (text "Execution started")
          EventPriority.high s in
      let (chosen, decision, s2) = choose_adapter env i s1 in
      let note =
        Effect.decision_logged t i.action (primary_target_text i) decision.selected_adapter
          (ranked_scores decision.candidates) decision.used_fast_path in
      omega (
        arith,
        endings-publish_event from own machine bus EventType.execution_started
            (text "Execution started") EventPriority.high s,
        endings-choose_adapter i s1,
        endings-emit from own note s2,
        endings-execute_resolved t i override chosen (emit note s2),
      )

  -- One event that says it is over is published, if the engine is a source that is counted.
  pub endings_from-execute_internal :
      (i : Intent) (override : ℤ) (s : EngineState W)
      → endings_from from (execute_internal env i override s).1 ≡ endings_from from s + 1
  unfolding execute_internal new_trace_id
  endings_from-execute_internal i override s =
      let (t, s1) = new_trace_id machine s in
      elim (Verdict-cases (is_valid i)) [
        | inl e ↦ rw (e, execute_internal) (endings-execute_valid t i override s1)
        | inr (why, e) ↦ rw (e, execute_internal) (endings-refuse_invalid t why s1)
      ]

-- Every execution publishes exactly one event that says it is over, an error or the finish, whatever
-- the intent, the time budget, the adapters, the cache and the handlers are.
pub endings-execute_internal :
    {W : Type 0} (env : Surroundings W) (i : Intent) (override : ℤ) (s : EngineState W)
    → endings (execute_internal env i override s).1 ≡ endings s + 1
endings-execute_internal env i override s =
    endings_from-execute_internal (λ source. true) refl env i override s
