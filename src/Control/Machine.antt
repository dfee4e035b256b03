-- ===== src/Control/Machine.antt =====
-- The sections of the control runtime's threads as the steps of a machine: the threads take turns at
-- sections, in any order.
pub mod Invariant
use intent_execution_layer.Common.{ℕ, Bool, false, [], Option, ℤ, pos}
use intent_execution_layer.Text.{Text}
use intent_execution_layer.Intent.{Intent}
use intent_execution_layer.Event.{Event}
use intent_execution_layer.Control.{
  ControlPriority, ControlRuntimeConfig, QueuedIntent, Observation, ObservationMetrics, Feedback,
  RuntimeState, bump,
}
use intent_execution_layer.Control.Queue.{enqueue_intent, pop_intent, requeue}
use intent_execution_layer.Control.Lifecycle.{
  reset_state, start, request_stop, handle_event, begin_frame,
}
use intent_execution_layer.Control.Decision.{count_decisions}
use intent_execution_layer.Control.Frame.{
  record_observation, store_feedback, count_correction, end_frame,
}

abbrev default_config : ControlRuntimeConfig
default_config = record {
  target_frame_ms = pos 16;
  max_frames = 0;
  observation_interval_ms = pos 8;
  decision_budget_ms = pos 2;
}

-- A runtime as it is constructed
unfoldable pub initial_state : RuntimeState
initial_state = record (reset_state default_config 0) { running = false; runtime_id = [] }

-- One step for each section under the mutex that changes the state; the values that a thread brings
-- into it are arbitrary.
pub data Step : RuntimeState → RuntimeState → Type 0 where
  started :
      {s : RuntimeState} (config : ControlRuntimeConfig) (millis : ℕ) (failure : Option Text)
      (adapter_name : Text)
      → Step s (start config millis failure adapter_name s).2
  stopped : {s : RuntimeState} → Step s (request_stop s)
  ended : {s : RuntimeState} → Step s (record s { running = false })
  enqueued :
      {s : RuntimeState} (i : Intent) (priority : ControlPriority) (now : ℕ)
      → Step s (enqueue_intent i priority now s).1
  told : {s : RuntimeState} (event : Event) → Step s (handle_event event s)
  frame_begun : {s : RuntimeState} → Step s (begin_frame s).2
  observed :
      {s : RuntimeState} (found : Option Observation) (metrics : ObservationMetrics)
      → Step s (record_observation found metrics s).1
  popped : {s : RuntimeState} → Step s (pop_intent s).1
  requeued : {s : RuntimeState} (queued : QueuedIntent) → Step s (requeue queued s)
  stored : {s : RuntimeState} (feedback : Feedback) → Step s (store_feedback feedback s)
  corrected : {s : RuntimeState} → Step s (count_correction s)
  decided :
      {s : RuntimeState} (accepted : ℕ) (timed_out : Bool)
      → Step s (count_decisions accepted timed_out s)
  executed :
      {s : RuntimeState} (trace_id : Text)
      → Step s (record s { intents_executed = bump s.intents_executed; last_trace_id = trace_id })
  frame_ended :
      {s : RuntimeState} (frame_ms : ℤ) (cycle_ms : ℕ) → Step s (end_frame frame_ms cycle_ms s)

-- The states that a runtime gets to
pub data Reachable : RuntimeState → Type 0 where
  constructed : Reachable initial_state
  stepped : {s s' : RuntimeState} → Reachable s → Step s s' → Reachable s'

-- A sequence of steps from one state to another
pub data Leads (origin : RuntimeState) : RuntimeState → Type 0 where
  here : Leads origin origin
  next : {s s' : RuntimeState} → Leads origin s → Step s s' → Leads origin s'
