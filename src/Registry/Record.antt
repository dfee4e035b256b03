-- ===== src/Registry/Record.antt =====
-- RecordExecution of core/execution/src/Adapter.cpp: the statistics of an adapter after an execution.
use intent_execution_layer.Common.{
  ℕ, ◌+◌, ◌≡◌, refl, List, [], ◌∷◌, none, some, arith, if◌then◌else◌, ◌==◌, ltb_ℤ, pos,
}
use intent_execution_layer.Float.{FloatOps, zero_f, one_f}
use intent_execution_layer.Execution.{ExecutionResult, is_success}
use intent_execution_layer.Registry.{
  Adapter, AdapterRuntime, AdapterRegistry, find_runtime, put_runtime, clamp_01,
}

module _ (ops : FloatOps) where
  open ops use {add, sub, mul, of_int}

  -- The new statistics: a weight of 0.25 for the outcome, 0.20 for the latency, if it is positive,
  -- and 0.15 for the adapter's own confidence
  unfoldable pub updated_runtime :
      {W : Type 0} → Adapter W → ExecutionResult → ℕ → AdapterRuntime → AdapterRuntime
  updated_runtime adapter result now runtime =
      let succeeded = is_success result in
      record runtime {
        success_count = if succeeded then runtime.success_count + 1 else runtime.success_count;
        failure_count = if succeeded then runtime.failure_count else runtime.failure_count + 1;
        reliability_ema =
            add (mul 0x3e80_0000 (if succeeded then one_f else zero_f))
              (mul (sub one_f 0x3e80_0000) runtime.reliability_ema);
        latency_ema_ms =
            if ltb_ℤ (pos 0) result.duration
            then add (mul 0x3e4c_cccd (of_int result.duration))
                (mul (sub one_f 0x3e4c_cccd) runtime.latency_ema_ms)
            else runtime.latency_ema_ms;
        confidence =
            add (mul 0x3e19_999a (clamp_01 adapter.score.confidence))
              (mul 0x3f59_999a runtime.confidence);
        last_updated = now;
      }

  -- RecordExecution; the clock is read for an adapter that has statistics
  unfoldable pub record_execution :
      {W : Type 0}
      → (W → ℕ × W)
      → Adapter W
      → ExecutionResult
      → AdapterRegistry W
      → W
      → AdapterRegistry W × W
  record_execution clock adapter result registry w =
      elim (find_runtime adapter.address registry.runtime_by_adapter) [
        | none ↦ (registry, w)
        | some runtime ↦
            let (now, w') = clock w in
            (
              record registry {
                runtime_by_adapter =
                    put_runtime adapter.address (updated_runtime adapter result now runtime)
                      registry.runtime_by_adapter;
              },
              w',
            )
      ]

  find_runtime-put_runtime :
      (a b : ℕ) (r : AdapterRuntime) (m : List (ℕ × AdapterRuntime))
      → find_runtime b (put_runtime a r m) ≡ (if a == b then some r else find_runtime b m)
  unfolding find_runtime put_runtime
  find_runtime-put_runtime a b r [] = refl
  find_runtime-put_runtime a b r ((c, t) ∷ m) = ground (arith, find_runtime-put_runtime a b r m)

  updated_runtime-counts :
      {W : Type 0} (adapter : Adapter W) (result : ExecutionResult) (now : ℕ) (r : AdapterRuntime)
      → ((updated_runtime adapter result now r).success_count
          ≡ r.success_count + (if is_success result then 1 else 0))
        × ((updated_runtime adapter result now r).failure_count
            ≡ r.failure_count + (if is_success result then 0 else 1))
  unfolding updated_runtime
  updated_runtime-counts adapter result now r = ground arith

  -- Recording the outcome of an adapter that has statistics changes the statistics of that adapter
  -- only, counts the outcome once, as a success or as a failure, and keeps the list of adapters.
  pub record_execution_counts :
      {W : Type 0} (clock : W → ℕ × W) (adapter : Adapter W) (result : ExecutionResult)
      (registry : AdapterRegistry W) (w : W) (r : AdapterRuntime) (b : ℕ)
      → find_runtime adapter.address registry.runtime_by_adapter ≡ some r
      → (s : AdapterRuntime) × (find_runtime b
            (record_execution clock adapter result registry w).0.runtime_by_adapter
          ≡ (if adapter.address == b then some s else find_runtime b registry.runtime_by_adapter))
        × (s.success_count ≡ r.success_count + (if is_success result then 1 else 0))
        × (s.failure_count ≡ r.failure_count + (if is_success result then 0 else 1))
        × ((record_execution clock adapter result registry w).0.adapters ≡ registry.adapters)
  unfolding record_execution
  record_execution_counts clock adapter result registry w r b h =
      let s = updated_runtime adapter result (clock w).0 r in
      let (wins, losses) = updated_runtime-counts adapter result (clock w).0 r in
      (
        s,
        rw (h, record_execution)
            (find_runtime-put_runtime adapter.address b s registry.runtime_by_adapter),
        wins,
        losses,
        rw (h, record_execution) refl,
      )
