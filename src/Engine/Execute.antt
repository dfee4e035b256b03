-- ===== src/Engine/Execute.antt =====
-- Execute, ExecuteWithBudget and ExecuteInternal of core/execution/src/ExecutionEngine.cpp.
pub mod Events
pub mod Ending
pub mod Answer
use intent_execution_layer.Common.{
  ℕ, Bool, true, false, not, ◌&&◌, ◌||◌, List, [], ◌∷◌, ◌++◌, Option, none, some, if◌then◌else◌,
  ltb, leb, ◌==◌, is_empty, ℤ, pos, negsuc, ltb_ℤ, min_ℤ,
}
use intent_execution_layer.Text.{Text, text}
use intent_execution_layer.Float.{Float, FloatOps}
use intent_execution_layer.Platform.{Platform}
use intent_execution_layer.Intent.{
  Intent, Verdict, valid, invalid, is_valid, failed, status_eq, action_to_string, status_to_string,
}
use intent_execution_layer.Execution.{ExecutionResult, is_success}
use intent_execution_layer.Event.{
  EventBus, EventType, execution_started, execution_fallback, execution_finished, high, medium,
}
use intent_execution_layer.Registry.{Adapter, AdapterDecision, AdapterDecisionCandidate}
use intent_execution_layer.Registry.Resolve.{resolve_best}
use intent_execution_layer.Engine.{
  EngineState, Machine, ExecutionTrace, emit, logged, failure_logged, decision_logged,
  execution_logged, publish_event, new_trace_id, primary_target_text,
}
use intent_execution_layer.Engine.FastPath.{try_fast_path, update_fast_path}
use intent_execution_layer.Engine.Recovery.{execute_with_recovery, initial_result}

-- The scores of the candidates that match
unfoldable pub ranked_scores : List AdapterDecisionCandidate → List (Text × Float)
ranked_scores [] = []
ranked_scores (c ∷ candidates) =
    let rest = ranked_scores candidates in
    if c.matched then (c.adapter_name, c.final_score) ∷ rest else rest

-- The result of an execution that runs no adapter
unfoldable pub refused_result : Text → Text → Text → ExecutionResult
refused_result method message trace_id = record initial_result {
  method = method;
  message = message;
  trace_id = trace_id;
}

-- What the engine uses and does not change: the clocks, the bus, the platform, the float arithmetic
pub record Surroundings (W : Type 0) : Type 0 where
  pub machine : Machine W
  pub bus : EventBus W
  pub platform : Platform
  pub ops : FloatOps

module _ {W : Type 0} (env : Surroundings W) where
  open env use {machine, bus, platform, ops}

  unfoldable pub trace_of : Text → Intent → ExecutionResult → ℕ → ExecutionTrace
  trace_of trace_id i r now = record {
    trace_id = trace_id;
    intent = action_to_string i.action;
    target = primary_target_text i;
    adapter = r.method;
    duration_ms = r.duration;
    status = status_to_string r.status;
    message = r.message;
    verified = r.verified;
    attempts = r.attempts;
    snapshot_version = i.context.snapshot_version;
    control_frame = i.context.control_frame;
    timestamp = now;
  }

  -- telemetry_.LogExecution(ExecutionTrace{…, system_clock::now()})
  unfoldable pub log_execution : Text → Intent → ExecutionResult → EngineState W → EngineState W
  log_execution trace_id i r s =
      let (now, w) = machine.system_now s.world in
      emit (execution_logged (trace_of trace_id i r now)) (record s { world = w })

  -- The intent is not valid.
  unfoldable pub refuse_invalid : Text → Text → EngineState W → ExecutionResult × EngineState W
  refuse_invalid trace_id why s = (
    refused_result (text "validator") why trace_id,
    publish_event machine bus EventType.error (text "Intent validation failed: " ++ why) high (
        emit (failure_logged trace_id (text "validator") why)
          (emit (logged (text "Intent validation failed: " ++ why)) s)),
  )

  -- No adapter takes the intent.
  unfoldable pub refuse_unresolved : Text → Intent → EngineState W → ExecutionResult × EngineState W
  refuse_unresolved trace_id i s =
      let message = text "No adapter available for action: " ++ action_to_string i.action in
      let r = refused_result (text "none") message trace_id in
      (
        r,
        log_execution trace_id i r (
            emit (failure_logged trace_id (text "adapter-resolution") message) (
              publish_event machine bus EventType.error (text "No adapter available for intent")
                high s)),
      )

  -- TryFastPath, and ResolveBest where it finds nothing; with the decision
  unfoldable pub choose_adapter :
      Intent → EngineState W → Option (Adapter W) × AdapterDecision × EngineState W
  choose_adapter i s =
      let (cached, s1) = try_fast_path machine platform i s in
      elim cached [
        | some adapter ↦ (
          some adapter,
          record { selected_adapter = adapter.name; candidates = []; used_fast_path = true },
          s1,
        )
        | none ↦
            let (best, decision, w) = resolve_best ops machine.steady_now s1.registry i s1.world in
            (best, decision, record s1 { world = w })
      ]

  unfoldable pub announce_fallback : Adapter W → EngineState W → EngineState W
  announce_fallback candidate s =
      publish_event machine bus execution_fallback
        (text "Fallback adapter selected: " ++ candidate.name) high
        (emit (logged (text "Trying fallback adapter: " ++ candidate.name)) s)

  -- The loop over the registered adapters: the first fallback that succeeds, with its result
  unfoldable pub run_fallbacks :
      ℕ
      → Intent
      → ℤ
      → List (Adapter W)
      → EngineState W
      → Option (Adapter W × ExecutionResult) × EngineState W
  run_fallbacks tried i override [] s = (none, s)
  run_fallbacks tried i override (candidate ∷ candidates) s =
      elim (candidate.address == tried || not (candidate.can_execute i)) [
        | true ↦ run_fallbacks tried i override candidates s
        | false ↦
            let (r, s') =
              execute_with_recovery machine bus ops (some candidate) i override
                (announce_fallback candidate s) in
            elim (is_success r) [
              | true ↦ (some (candidate, r), s')
              | false ↦ run_fallbacks tried i override candidates s'
            ]
      ]

  -- The result, the adapter that gave it and whether it is a fallback
  unfoldable pub run_chosen :
      Intent → ℤ → Adapter W → EngineState W → (ExecutionResult × Adapter W × Bool) × EngineState W
  run_chosen i override adapter s =
      let (r, s1) = execute_with_recovery machine bus ops (some adapter) i override s in
      elim (status_eq r.status failed && i.constraints.allow_fallback) [
        | false ↦ ((r, adapter, false), s1)
        | true ↦
            let (found, s2) = run_fallbacks adapter.address i override s1.registry.adapters s1 in
            elim found [
              | none ↦ ((r, adapter, false), s2)
              | some (candidate, r') ↦ ((r', candidate, true), s2)
            ]
      ]

  unfoldable pub completed_result : Text → Bool → Adapter W → ExecutionResult → ExecutionResult
  completed_result trace_id fallback used r =
      let traced : ExecutionResult = record r { trace_id = trace_id; used_fallback = fallback } in
      if is_empty traced.method then record traced { method = used.name } else traced

  -- The end of an execution: the fast path, the telemetry and the last event
  unfoldable pub conclude :
      Text → Intent → Adapter W → ExecutionResult → EngineState W → EngineState W
  conclude trace_id i used r s =
      let s1 =
        log_execution trace_id i r (update_fast_path machine platform i used (is_success r) s) in
      let s2 =
        if status_eq r.status failed
        then emit (failure_logged trace_id (text "ExecutionEngine") r.message) s1
        else s1 in
      publish_event machine bus execution_finished
        ((if is_success r then text "Execution completed" else text "Execution failed")
          ++ text ": "
          ++ r.message)
        (if status_eq r.status failed then high else medium) s2

  unfoldable pub execute_resolved :
      Text → Intent → ℤ → Option (Adapter W) → EngineState W → ExecutionResult × EngineState W
  execute_resolved trace_id i override none s = refuse_unresolved trace_id i s
  execute_resolved trace_id i override (some adapter) s =
      let ((r, used, fallback), s1) = run_chosen i override adapter s in
      let result = completed_result trace_id fallback used r in
      (result, conclude trace_id i used result s1)

  unfoldable pub execute_valid : Text → Intent → ℤ → EngineState W → ExecutionResult × EngineState W
  execute_valid trace_id i override s =
      let s1 = publish_event machine bus execution_started (text "Execution started") high s in
      let (chosen, decision, s2) = choose_adapter i s1 in
      execute_resolved trace_id i override chosen (
        emit
          (decision_logged trace_id i.action (primary_target_text i) decision.selected_adapter
            (ranked_scores decision.candidates) decision.used_fast_path)
          s2)

  -- ExecuteInternal
  unfoldable pub execute_internal : Intent → ℤ → EngineState W → ExecutionResult × EngineState W
  execute_internal i override s =
      let (trace_id, s1) = new_trace_id machine s in
      elim (is_valid i) [
        | invalid why ↦ refuse_invalid trace_id why s1
        | valid ↦ execute_valid trace_id i override s1
      ]

  -- Execute
  unfoldable pub execute : Intent → EngineState W → ExecutionResult × EngineState W
  execute i s = execute_internal i (negsuc 0) s

  -- ExecuteWithBudget; the largest `int` is the largest override.
  unfoldable pub execute_with_budget : Intent → ℤ → EngineState W → ExecutionResult × EngineState W
  execute_with_budget i budget s =
      execute_internal i (if ltb_ℤ (pos 0) budget then min_ℤ budget (pos 0x7fff_ffff) else negsuc 0)
        s
