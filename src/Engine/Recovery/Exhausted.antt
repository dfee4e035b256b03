-- ===== src/Engine/Recovery/Exhausted.antt =====
-- A run with recovery does not give up early.
use intent_execution_layer.Common.{
  ℕ, zero, suc, ◌+◌, ◌*◌, ◌≡◌, refl, Bool, true, not, ◌&&◌, ◌||◌, leb, some, ℤ, pos_part, arith,
  inl, inr, Bool-cases,
}
use intent_execution_layer.Text.{text, text_eq}
use intent_execution_layer.Text.Equality.{text_eq_refl}
use intent_execution_layer.Float.{FloatOps}
use intent_execution_layer.Intent.{Intent, success, partial, status_eq}
use intent_execution_layer.Execution.{ExecutionResult, ns_per_ms}
use intent_execution_layer.Event.{EventBus}
use intent_execution_layer.Registry.{Adapter}
use intent_execution_layer.Engine.{EngineState, Machine}
use intent_execution_layer.Engine.Recovery.{
  effective_timeout_ms, max_retries_of, should_retry, initial_result, run_round, announce_retry,
  run_rounds, execute_with_recovery,
}

-- The execution succeeded, or succeeded partly where that is enough, or every retry was made, or the
-- time of all rounds was over before a round could start.
unfoldable pub is_exhausted : Intent → ExecutionResult → Bool
is_exhausted i r =
    status_eq r.status success
    || (status_eq r.status partial && not i.constraints.requires_verification)
    || leb (max_retries_of i + 1) r.attempts
    || text_eq r.message (text "Cumulative timeout exceeded")

not_retried-exhausted :
    (i : Intent) (r : ExecutionResult) (attempt : ℕ)
    → r.attempts ≡ attempt + 1
    → (status_eq r.status success || not (should_retry i r attempt)) ≡ true
    → is_exhausted i r ≡ true
unfolding is_exhausted should_retry
not_retried-exhausted i r attempt h k = ground arith

timed_out-exhausted :
    (i : Intent) (r : ExecutionResult)
    → r.message ≡ text "Cumulative timeout exceeded"
    → is_exhausted i r ≡ true
unfolding is_exhausted
timed_out-exhausted i r h = rw h (ground (arith, text_eq_refl (text "Cumulative timeout exceeded")))

all_made-exhausted :
    (i : Intent) (r : ExecutionResult) → r.attempts ≡ max_retries_of i + 1 → is_exhausted i r ≡ true
unfolding is_exhausted
all_made-exhausted i r h = ground arith

module _ {W : Type 0} (machine : Machine W) (bus : EventBus W) (ops : FloatOps) where
  run_rounds-exhausted :
      (adapter : Adapter W) (i : Intent) (timeout : ℤ) (deadline left attempt : ℕ)
      (last : ExecutionResult) (s : EngineState W)
      → left + attempt ≡ max_retries_of i + 1
      → last.attempts ≡ attempt
      → is_exhausted i (run_rounds machine bus ops adapter i timeout deadline left attempt last s).0
        ≡ true
  unfolding run_rounds run_round
  run_rounds-exhausted adapter i timeout deadline zero attempt last s rounds h =
      all_made-exhausted i last (omega arith)
  run_rounds-exhausted adapter i timeout deadline (suc left) attempt last s rounds h =
      let (now, w) = machine.steady_now s.world in
      let s1 : EngineState W = record s { world = w } in
      let (r, s2) = run_round machine bus ops adapter i timeout deadline attempt s1 in
      elim (Bool-cases (leb deadline now)) [
        | inl e ↦ rw (e, run_rounds) (timed_out-exhausted i _ refl)
        | inr e ↦ elim (Bool-cases (status_eq r.status success || not (should_retry i r attempt))) [
          | inl f ↦ rw (e, f, run_rounds) (not_retried-exhausted i r attempt refl f)
          | inr f ↦
              rw (e, f, run_rounds)
                (run_rounds-exhausted adapter i timeout deadline left (attempt + 1) r
                  (announce_retry machine bus ops adapter attempt s2) (omega arith) refl)
        ]
      ]

  -- Running an adapter with recovery does not give up early: it ends in success, or in partial success
  -- where the intent requires no verification, or after one attempt more than the intent's retries,
  -- or with the message that the time of all rounds is over.
  pub execute_with_recovery_exhausted :
      (adapter : Adapter W) (i : Intent) (override : ℤ) (s : EngineState W)
      → is_exhausted i (execute_with_recovery machine bus ops (some adapter) i override s).0 ≡ true
  unfolding execute_with_recovery
  execute_with_recovery_exhausted adapter i override s =
      let timeout = effective_timeout_ms i.constraints override in
      let (start, w) = machine.steady_now s.world in
      let deadline = start + pos_part timeout * (max_retries_of i + 1) * ns_per_ms in
      run_rounds-exhausted adapter i timeout deadline (max_retries_of i + 1) 0 initial_result
        (record s { world = w }) (omega arith) refl
