-- ===== src/Engine/Recovery.antt =====
-- ExecuteWithRecovery and ShouldRetry of core/execution/src/ExecutionEngine.cpp: an adapter is run
-- until it succeeds, may not be retried, or the time of all rounds is used up. Times are unbounded,
-- where the source's nanoseconds are 64 bits wide, and so is the number of rounds.
pub mod Bounds
pub mod Exhausted
use intent_execution_layer.Common.{
  ℕ, zero, suc, ◌+◌, ◌*◌, Bool, true, false, not, ◌&&◌, ◌||◌, List, [], ◌∷◌, ◌++◌, Option, none,
  some, if◌then◌else◌, ltb, leb, ◌==◌, is_empty, ℤ, pos, pos_part, ltb_ℤ, leb_ℤ, min_ℤ,
}
use intent_execution_layer.Text.{Text, text}
use intent_execution_layer.Text.Number.{to_decimal}
use intent_execution_layer.Float.{FloatOps}
use intent_execution_layer.Intent.{Intent, Constraints, success, failed, partial, status_eq}
use intent_execution_layer.Execution.{ExecutionResult, elapsed_ms, ns_per_ms}
use intent_execution_layer.Event.{EventBus, execution_retry, high}
use intent_execution_layer.Registry.{Adapter}
use intent_execution_layer.Registry.Record.{record_execution}
use intent_execution_layer.Engine.{EngineState, Machine, emit, logged, publish_event}

-- The milliseconds that one round may take; an override that is not positive is none.
unfoldable pub effective_timeout_ms : Constraints → ℤ → ℤ
effective_timeout_ms c override =
    let timeout =
      if ltb_ℤ (pos 0) override
      then (if ltb_ℤ (pos 0) c.timeout_ms then min_ℤ c.timeout_ms override else override)
      else c.timeout_ms in
    if leb_ℤ timeout (pos 0) then pos 1 else timeout

-- std::max(0, intent.constraints.maxRetries)
abbrev pub max_retries_of : Intent → ℕ
max_retries_of i = pos_part i.constraints.max_retries

unfoldable pub should_retry : Intent → ExecutionResult → ℕ → Bool
should_retry i last attempt =
    if leb (max_retries_of i) attempt
    then false
    else if status_eq last.status success
    then false
    else not (status_eq last.status partial && not i.constraints.requires_verification)

-- A result before anything ran: the source's member initialisers
abbrev pub initial_result : ExecutionResult
initial_result = record {
  status = failed;
  verified = false;
  used_fallback = false;
  method = [];
  message = [];
  duration = pos 0;
  attempts = 0;
  trace_id = [];
}

-- The result fails, with a further message.
unfoldable pub fail_with : Text → ExecutionResult → ExecutionResult
fail_with why r = record r {
  status = failed;
  verified = false;
  message = (if is_empty r.message then [] else r.message ++ text "; ") ++ why;
}

-- What a round makes of the adapter's result once it has returned
unfoldable pub complete_result : Text → ℤ → ℕ → ExecutionResult → ExecutionResult
unfolding fail_with
complete_result name timeout elapsed r =
    let timed = if leb_ℤ r.duration (pos 0) then record r { duration = pos elapsed } else r in
    let named = if is_empty timed.method then record timed { method = name } else timed in
    if ltb_ℤ timeout named.duration then fail_with (text "Timeout exceeded") named else named

-- What it makes of it at the time `now`
unfoldable pub check_deadline : ℕ → ℕ → ExecutionResult → ExecutionResult
unfolding fail_with
check_deadline deadline now r =
    if leb deadline now && not (status_eq r.status success)
    then fail_with (text "Cumulative timeout exceeded") r
    else r

module _ {W : Type 0} (machine : Machine W) (bus : EventBus W) (ops : FloatOps) where
  -- One round: the adapter's run and the statistics
  unfoldable pub run_round :
      Adapter W → Intent → ℤ → ℕ → ℕ → EngineState W → ExecutionResult × EngineState W
  run_round adapter i timeout deadline attempt s =
      let (begin, w1) = machine.steady_now s.world in
      let (r, w2) = adapter.execute i w1 in
      let (end, w3) = machine.steady_now w2 in
      let (now, w4) = machine.steady_now w3 in
      let completed = complete_result adapter.name timeout (elapsed_ms begin end) r in
      let checked = check_deadline deadline now completed in
      let last : ExecutionResult = record checked { attempts = attempt + 1 } in
      let (registry, w5) = record_execution ops machine.steady_now adapter last s.registry w4 in
      (last, record s { world = w5; registry = registry })

  unfoldable pub announce_retry : Adapter W → ℕ → EngineState W → EngineState W
  announce_retry adapter attempt s =
      publish_event machine bus execution_retry (text "Retry attempt " ++ to_decimal (attempt + 1))
        high (emit (logged (text "Retrying intent execution using adapter " ++ adapter.name)) s)

  -- The loop, with the rounds that are left
  unfoldable pub run_rounds :
      Adapter W
      → Intent
      → ℤ
      → ℕ
      → ℕ
      → ℕ
      → ExecutionResult
      → EngineState W
      → ExecutionResult × EngineState W
  run_rounds adapter i timeout deadline zero attempt last s = (last, s)
  run_rounds adapter i timeout deadline (suc left) attempt last s =
      let (now, w) = machine.steady_now s.world in
      let s1 = record s { world = w } in
      elim (leb deadline now) [
        | true ↦ (
          record last {
            status = failed;
            verified = false;
            method = adapter.name;
            message = text "Cumulative timeout exceeded";
            attempts = attempt;
          },
          s1,
        )
        | false ↦
            let (r, s2) = run_round adapter i timeout deadline attempt s1 in
            elim (status_eq r.status success || not (should_retry i r attempt)) [
              | true ↦ (r, s2)
              | false ↦
                  run_rounds adapter i timeout deadline left (attempt + 1) r
                    (announce_retry adapter attempt s2)
            ]
      ]

  unfoldable pub execute_with_recovery :
      Option (Adapter W) → Intent → ℤ → EngineState W → ExecutionResult × EngineState W
  execute_with_recovery none i override s =
      (record initial_result { message = text "Null adapter"; method = text "none" }, s)
  execute_with_recovery (some adapter) i override s =
      let timeout = effective_timeout_ms i.constraints override in
      let (start, w) = machine.steady_now s.world in
      let deadline = start + pos_part timeout * (max_retries_of i + 1) * ns_per_ms in
      run_rounds adapter i timeout deadline (max_retries_of i + 1) 0 initial_result
        (record s { world = w })
