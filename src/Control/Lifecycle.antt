-- ===== src/Control/Lifecycle.antt =====
-- Start, Stop, Status and HandleEvent of the control runtime
-- (core/execution/src/ControlRuntime.cpp), and the section with which a frame begins.
use intent_execution_layer.Common.{
  ℕ, ◌-◌, Bool, true, false, not, ◌||◌, [], ◌++◌, Option, none, some, if◌then◌else◌, ltb, is_empty,
  ℤ, pos, ltb_ℤ, half_ℤ,
}
use intent_execution_layer.Text.{Text, text}
use intent_execution_layer.Text.Number.{to_decimal}
use intent_execution_layer.Double.{Double, DoubleOps, zero_d}
use intent_execution_layer.Event.{
  Event, EventPriority, ui_changed, file_system_changed, event_type_eq,
}
use intent_execution_layer.Control.{
  ControlRuntimeConfig, ObservationMetrics, RuntimeState, bump, clamp_frame_ms,
  clamp_decision_budget_ms,
}
use intent_execution_layer.Control.Latency.{compute_percentiles}

-- BuildRuntimeId, from the milliseconds of the system clock
unfoldable pub build_runtime_id : ℕ → Text
build_runtime_id millis = text "runtime-" ++ to_decimal millis

no_metrics : ObservationMetrics
no_metrics = record {
  samples = 0;
  last_capture_ms = pos 0;
  latest_frame_id = 0;
  last_vision_capture_ms = pos 0;
  last_vision_detection_ms = pos 0;
  last_vision_merge_ms = pos 0;
  average_vision_capture_ms = zero_d;
  average_vision_detection_ms = zero_d;
  average_vision_merge_ms = zero_d;
  estimated_fps = zero_d;
  adapter_name = [];
}

-- The fields as Start sets them
unfoldable pub reset_state : ControlRuntimeConfig → ℕ → RuntimeState
unfolding no_metrics
reset_state config millis = record {
  running = true;
  stop_requested = false;
  config = record config {
    target_frame_ms = clamp_frame_ms config.target_frame_ms;
    decision_budget_ms = clamp_decision_budget_ms config.decision_budget_ms;
  };
  runtime_id = build_runtime_id millis;
  next_sequence = 1;
  version = 0;
  frames_executed = 0;
  intents_executed = 0;
  dropped_frames = 0;
  high_priority_events = 0;
  medium_priority_events = 0;
  low_priority_events = 0;
  pending_high_events = 0;
  pending_medium_events = 0;
  pending_low_events = 0;
  pending_ui_refresh = false;
  pending_fs_refresh = false;
  last_cycle_ms = pos 0;
  last_trace_id = [];
  high_queue = [];
  medium_queue = [];
  low_queue = [];
  cycle_latencies_ms = [];
  observed = record {
    latest_snapshot_version = 0;
    latest_observation_sequence = 0;
    metrics = no_metrics;
    last_vision_logged_sequence = 0;
  };
  feedback_history = [];
  decision_intents_produced = 0;
  decision_timeouts = 0;
  feedback_samples = 0;
  feedback_mismatches = 0;
  feedback_corrections = 0;
}

-- observationConfig_.sampleIntervalMs
unfoldable pub sample_interval_ms : ControlRuntimeConfig → ℤ
sample_interval_ms config =
    if ltb_ℤ config.observation_interval_ms (pos 1)
    then (let half = half_ℤ config.target_frame_ms in if ltb_ℤ (pos 1) half then half else pos 1)
    else config.observation_interval_ms

-- Start: whether it started, the message, and the state. The observation pipeline starts or gives a
-- message why it does not; the name is that of its adapter. The threads are not part of the state.
unfoldable pub start :
    ControlRuntimeConfig → ℕ → Option Text → Text → RuntimeState → Bool × Text × RuntimeState
start config millis pipeline_failure adapter_name s = elim s.running [
  | true ↦ (false, text "control runtime already running", s)
  | false ↦
      let reset = reset_state config millis in
      elim pipeline_failure [
        | some why ↦ (
          false,
          text "control runtime failed to start observation pipeline: " ++ why,
          record reset { running = false; stop_requested = true },
        )
        | none ↦
            let named : ObservationMetrics = record reset.observed.metrics {
              adapter_name = adapter_name;
            } in
            (
              true,
              text "control runtime started",
              record reset { observed = record reset.observed { metrics = named } },
            )
      ]
]

pub record ControlRuntimeSummary : Type 0 where
  pub was_active : Bool
  pub runtime_id : Text
  pub frames_executed : ℕ
  pub intents_executed : ℕ
  pub dropped_frames : ℕ
  pub p50_latency_ms : Double
  pub p95_latency_ms : Double
  pub p99_latency_ms : Double

-- The first section of Stop
unfoldable pub request_stop : RuntimeState → RuntimeState
request_stop s = record s { stop_requested = true; running = false }

-- The last section of Stop
unfoldable pub summarize : DoubleOps → RuntimeState → ControlRuntimeSummary
summarize ops s =
    let (p50, p95, p99) = compute_percentiles ops s.cycle_latencies_ms in
    record {
      was_active = not (is_empty s.runtime_id);
      runtime_id = s.runtime_id;
      frames_executed = s.frames_executed;
      intents_executed = s.intents_executed;
      dropped_frames = s.dropped_frames;
      p50_latency_ms = p50;
      p95_latency_ms = p95;
      p99_latency_ms = p99;
    }

unfoldable pub count_event : EventPriority → RuntimeState → RuntimeState
count_event EventPriority.high s = record s { pending_high_events = bump s.pending_high_events }
count_event EventPriority.medium s = record s {
  pending_medium_events = bump s.pending_medium_events;
}
count_event EventPriority.low s = record s { pending_low_events = bump s.pending_low_events }

-- HandleEvent
unfoldable pub handle_event : Event → RuntimeState → RuntimeState
unfolding count_event
handle_event event s = elim s.running [
  | false ↦ s
  | true ↦
      let s1 = count_event event.priority s in
      record s1 {
        pending_ui_refresh = event_type_eq event.type ui_changed || s1.pending_ui_refresh;
        pending_fs_refresh = event_type_eq event.type file_system_changed || s1.pending_fs_refresh;
      }
]

-- The event that a frame takes
unfoldable pub take_event : RuntimeState → RuntimeState
take_event s =
    if ltb 0 s.pending_high_events
    then record s {
      pending_high_events = s.pending_high_events - 1;
      high_priority_events = bump s.high_priority_events;
    }
    else if ltb 0 s.pending_medium_events
    then record s {
      pending_medium_events = s.pending_medium_events - 1;
      medium_priority_events = bump s.medium_priority_events;
    }
    else if ltb 0 s.pending_low_events
    then record s {
      pending_low_events = s.pending_low_events - 1;
      low_priority_events = bump s.low_priority_events;
    }
    else s

-- The section with which a frame begins: whether it refreshes the UI and the file system
unfoldable pub begin_frame : RuntimeState → Bool × Bool × RuntimeState
begin_frame s =
    let s1 =
      take_event
        (record s { version = bump s.version; frames_executed = bump s.frames_executed }) in
    (
      s1.pending_ui_refresh,
      s1.pending_fs_refresh,
      record s1 { pending_ui_refresh = false; pending_fs_refresh = false },
    )
