-- ===== src/Engine/Recovery/Bounds.antt =====
-- The bounds on a run with recovery.
use intent_execution_layer.Common.{
  ℕ, zero, suc, ◌+◌, ◌*◌, ◌≤◌, ◌≡◌, refl, Bool, true, false, not, ◌&&◌, ◌||◌, some, if◌then◌else◌,
  leb, is_empty, ℤ, pos, pos_part, ltb_ℤ, leb_ℤ, arith, inl, inr, Bool-cases, ◌≤ℤ◌,
}
use intent_execution_layer.Text.{Text}
use intent_execution_layer.Float.{FloatOps}
use intent_execution_layer.Intent.{Intent, Constraints, success, status_eq}
use intent_execution_layer.Execution.{ExecutionResult, is_success, elapsed_ms, ns_per_ms}
use intent_execution_layer.Event.{EventBus}
use intent_execution_layer.Registry.{Adapter}
use intent_execution_layer.Engine.{EngineState, Machine}
use intent_execution_layer.Engine.Recovery.{
  effective_timeout_ms, max_retries_of, should_retry, initial_result, fail_with, complete_result,
  check_deadline, run_round, announce_retry, run_rounds, execute_with_recovery,
}

-- Where the intent's timeout is positive, as validation requires, a round may take no longer than
-- it, and an override that is positive no longer than the override; a round always may take some time.
pub effective_timeout_bounds :
    (c : Constraints) (override : ℤ)
    → (pos 1 ≤ℤ effective_timeout_ms c override)
      × ((ltb_ℤ (pos 0) c.timeout_ms && ltb_ℤ c.timeout_ms (effective_timeout_ms c override))
          ≡ false)
      × ((ltb_ℤ (pos 0) override && ltb_ℤ override (effective_timeout_ms c override)) ≡ false)
unfolding effective_timeout_ms
effective_timeout_bounds c override = (ground arith, ground arith, ground arith)

-- The result fails, or it took no longer than the timeout.
unfoldable pub is_timely : ℤ → ExecutionResult → Bool
is_timely timeout r = not (is_success r) || leb_ℤ r.duration timeout

not_slow-timely :
    (timeout : ℤ) (r : ExecutionResult)
    → ltb_ℤ timeout r.duration ≡ false
    → is_timely timeout r ≡ true
unfolding is_timely
not_slow-timely timeout r h = ground arith

complete_result-timely :
    (name : Text) (timeout : ℤ) (elapsed : ℕ) (r : ExecutionResult)
    → is_timely timeout (complete_result name timeout elapsed r) ≡ true
unfolding is_timely complete_result fail_with
complete_result-timely name timeout elapsed r =
    let timed : ExecutionResult =
      if leb_ℤ r.duration (pos 0) then record r { duration = pos elapsed } else r in
    let named : ExecutionResult =
      if is_empty timed.method then record timed { method = name } else timed in
    elim (Bool-cases (ltb_ℤ timeout named.duration)) [
      | inl e ↦ rw e refl
      | inr e ↦ rw e (not_slow-timely timeout named e)
    ]

check_deadline-timely :
    (timeout : ℤ) (deadline now : ℕ) (r : ExecutionResult)
    → is_timely timeout r ≡ true
    → is_timely timeout (check_deadline deadline now r) ≡ true
unfolding is_timely check_deadline fail_with
check_deadline-timely timeout deadline now r h =
    elim (Bool-cases (leb deadline now && not (status_eq r.status success))) [
      | inl e ↦ rw e refl
      | inr e ↦ rw e h
    ]

module _ {W : Type 0} (machine : Machine W) (bus : EventBus W) (ops : FloatOps) where
  run_round-timely :
      (adapter : Adapter W) (i : Intent) (timeout : ℤ) (deadline attempt : ℕ) (s : EngineState W)
      → is_timely timeout (run_round machine bus ops adapter i timeout deadline attempt s).0 ≡ true
  unfolding run_round is_timely
  run_round-timely adapter i timeout deadline attempt s =
      let (begin, w1) = machine.steady_now s.world in
      let (r, w2) = adapter.execute i w1 in
      let (end, w3) = machine.steady_now w2 in
      let (now, w4) = machine.steady_now w3 in
      check_deadline-timely timeout deadline now
        (complete_result adapter.name timeout (elapsed_ms begin end) r)
        (complete_result-timely adapter.name timeout (elapsed_ms begin end) r)

  run_rounds-timely :
      (adapter : Adapter W) (i : Intent) (timeout : ℤ) (deadline left attempt : ℕ)
      (last : ExecutionResult) (s : EngineState W)
      → is_timely timeout last ≡ true
      → is_timely timeout
          (run_rounds machine bus ops adapter i timeout deadline left attempt last s).0
        ≡ true
  unfolding run_rounds is_timely
  run_rounds-timely adapter i timeout deadline zero attempt last s h = h
  run_rounds-timely adapter i timeout deadline (suc left) attempt last s h =
      let (now, w) = machine.steady_now s.world in
      let s1 : EngineState W = record s { world = w } in
      let (r, s2) = run_round machine bus ops adapter i timeout deadline attempt s1 in
      let timely = run_round-timely adapter i timeout deadline attempt s1 in
      elim (Bool-cases (leb deadline now)) [
        | inl e ↦ rw (e, run_rounds, is_timely) refl
        | inr e ↦ elim (Bool-cases (status_eq r.status success || not (should_retry i r attempt))) [
          | inl f ↦ rw (e, f, run_rounds) timely
          | inr f ↦
              rw (e, f, run_rounds)
                (run_rounds-timely adapter i timeout deadline left (attempt + 1) r
                  (announce_retry machine bus ops adapter attempt s2) timely)
        ]
      ]

  run_rounds-attempts :
      (adapter : Adapter W) (i : Intent) (timeout : ℤ) (deadline left attempt : ℕ)
      (last : ExecutionResult) (s : EngineState W)
      → last.attempts ≤ attempt
      → (run_rounds machine bus ops adapter i timeout deadline left attempt last s).0.attempts
        ≤ attempt + left
  unfolding run_rounds run_round
  run_rounds-attempts adapter i timeout deadline zero attempt last s h = omega arith
  run_rounds-attempts adapter i timeout deadline (suc left) attempt last s h =
      let (now, w) = machine.steady_now s.world in
      let s1 : EngineState W = record s { world = w } in
      let (r, s2) = run_round machine bus ops adapter i timeout deadline attempt s1 in
      let more =
        run_rounds-attempts adapter i timeout deadline left (attempt + 1) r
          (announce_retry machine bus ops adapter attempt s2) (omega arith) in
      elim (Bool-cases (leb deadline now)) [
        | inl e ↦ rw (e, run_rounds) (omega arith)
        | inr e ↦ elim (Bool-cases (status_eq r.status success || not (should_retry i r attempt))) [
          | inl f ↦ rw (e, f, run_rounds) (omega arith)
          | inr f ↦ rw (e, f, run_rounds) (omega arith)
        ]
      ]

  -- Running an adapter with recovery reports at most one attempt more than the intent's retries, and
  -- a result that succeeds, or partly succeeds, took no longer than the effective timeout.
  pub execute_with_recovery_bounds :
      (adapter : Adapter W) (i : Intent) (override : ℤ) (s : EngineState W)
      → ((execute_with_recovery machine bus ops (some adapter) i override s).0.attempts
          ≤ max_retries_of i + 1)
        × (is_timely
              (effective_timeout_ms i.constraints override)
              (execute_with_recovery machine bus ops (some adapter) i override s).0
            ≡ true)
  unfolding execute_with_recovery is_timely
  execute_with_recovery_bounds adapter i override s =
      let timeout = effective_timeout_ms i.constraints override in
      let (start, w) = machine.steady_now s.world in
      let deadline = start + pos_part timeout * (max_retries_of i + 1) * ns_per_ms in
      (
        omega (
          arith,
          run_rounds-attempts adapter i timeout deadline (max_retries_of i + 1) 0 initial_result
              (record s { world = w }) (omega arith),
        ),
        run_rounds-timely adapter i timeout deadline (max_retries_of i + 1) 0 initial_result
            (record s { world = w }) refl,
      )
