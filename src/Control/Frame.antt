-- ===== src/Control/Frame.antt =====
-- A frame of the control runtime (the body of RunLoop of core/execution/src/ControlRuntime.cpp), as
-- it runs when no other thread changes the state between its sections. A reading of a clock that the
-- source does not use is left out.
pub mod Sections
pub mod Keeps
pub mod Correction
use intent_execution_layer.Common.{
  ℕ, ◌+◌, ◌-◌, ◌*◌, ◌/◌, ◌%◌, ◌^◌, Bool, true, false, not, ◌&&◌, ◌||◌, List, [], ◌∷◌, Option, none,
  some, if◌then◌else◌, ltb, ◌==◌, is_empty, ℤ, pos, ltb_ℤ, sub_ℤ, to_int,
}
use intent_execution_layer.Text.{Text, text}
use intent_execution_layer.Double.{Double, DoubleOps, double_lt, zero_d}
use intent_execution_layer.Intent.{Intent, Context, assign}
use intent_execution_layer.Execution.{ExecutionResult, is_success, elapsed_ms}
use intent_execution_layer.Control.{
  ControlPriority, high, QueuedIntent, Observation, VisionTiming, FeedbackDelta, Feedback, Observed,
  ObservationMetrics, RuntimeState, bump, is_likely_mismatch, should_schedule_correction,
}
use intent_execution_layer.Control.Queue.{enqueue_intent, pop_intent, requeue}
use intent_execution_layer.Control.Latency.{push_latency, push_feedback}
use intent_execution_layer.Control.Lifecycle.{begin_frame}
use intent_execution_layer.Control.Decision.{effective_version}

-- VisionLatencySample (core/telemetry/include/Telemetry.h)
pub record VisionLatencySample : Type 0 where
  pub frame_id : ℕ
  pub environment_sequence : ℕ
  pub capture_ms : Double
  pub detection_ms : Double
  pub merge_ms : Double
  pub total_ms : Double
  pub simulated : Bool
  pub timestamp : ℕ

-- LatencyBreakdownSample
pub record LatencyBreakdownSample : Type 0 where
  pub frame : ℕ
  pub trace_id : Text
  pub observation_ms : Double
  pub perception_ms : Double
  pub queue_wait_ms : Double
  pub execution_ms : Double
  pub verification_ms : Double
  pub total_ms : Double
  pub timestamp : ℕ

-- What a frame calls: the clocks, the intent registry, the observation pipeline, the telemetry, the
-- execution engine, the decision thread and the execution observer
pub record FramePort (W : Type 0) : Type 0 where
  pub steady_now : W → ℕ × W
  pub system_now : W → ℕ × W
  pub refresh_ui_incremental : W → W
  pub refresh_file_system_incremental : W → W
  pub refresh : W → W
  -- ObservationPipeline::Latest
  pub latest : W → Option Observation
  -- the state of a valid IntentRegistry::LastSnapshot, with its perception
  pub last_snapshot : W → Option Observation
  pub metrics : W → ObservationMetrics
  pub log_vision_sample : VisionLatencySample → W → W
  pub log_latency_breakdown : LatencyBreakdownSample → W → W
  pub submit_decision_state : Observation → ℕ → W → W
  pub execute_with_budget : Intent → ℤ → W → ExecutionResult × W
  pub record_interaction : Text → W → W
  pub observe_execution : Intent → ExecutionResult → Option FeedbackDelta → Bool → W → W
  -- the wait for a time of the steady clock, which a stop ends early
  pub wait_until : ℕ → W → W

-- std::max
max_double : Double → Double → Double
max_double a b = if double_lt a b then b else a

-- ComputeFeedbackDelta (core/execution/src/DecisionInterfaces.cpp); the clock does not run backwards
unfoldable pub compute_feedback_delta : DoubleOps → Observation → Observation → FeedbackDelta
compute_feedback_delta ops before after = record {
  signature_changed = not (before.ui_signature == after.ui_signature);
  focus_ratio_delta = ops.sub after.focus_ratio before.focus_ratio;
  occupancy_ratio_delta = ops.sub after.occupancy_ratio before.occupancy_ratio;
  capture_skew_ms = pos (elapsed_ms before.captured_at after.captured_at);
}

-- The intent that is executed once more
unfoldable pub corrective_intent : Intent → Intent
corrective_intent i = record i { params = assign i.params (text "feedback_retry") (text "1") }

-- The context of an intent, filled in from the synchronized state
unfoldable pub synchronize_context : ℕ → Option Observation → Context → Context
synchronize_context frame none c = record c { control_frame = frame }
synchronize_context frame (some o) c =
    let e = o.environment in
    record c {
      control_frame = frame;
      snapshot_version =
          if c.snapshot_version == 0 then effective_version e else c.snapshot_version;
      snapshot_ticks =
          if c.snapshot_ticks == 0 && ltb 0 e.sequence then e.sequence else c.snapshot_ticks;
      window_title = if is_empty c.window_title then e.active_window_title else c.window_title;
      application = if is_empty c.application then e.active_process_path else c.application;
      cursor = e.cursor_position;
    }

-- The number of the section that writes what was observed
observed_version : Option Observation → ℕ
observed_version none = 0
observed_version (some o) = effective_version o.environment

observed_sequence : Option Observation → ℕ
observed_sequence none = 0
observed_sequence (some o) = o.environment.sequence

-- The section that writes what was observed; whether the vision is logged
unfoldable pub record_observation :
    Option Observation → ObservationMetrics → RuntimeState → Bool × RuntimeState
unfolding observed_version observed_sequence
record_observation found metrics s =
    let sequence = observed_sequence found in
    let log = ltb 0 sequence && not (sequence == s.observed.last_vision_logged_sequence) in
    let named : ObservationMetrics = record metrics {
      adapter_name =
          if is_empty metrics.adapter_name
          then s.observed.metrics.adapter_name
          else metrics.adapter_name;
    } in
    (
      log,
      record s {
        observed = record {
          latest_snapshot_version = observed_version found;
          latest_observation_sequence = sequence;
          metrics = named;
          last_vision_logged_sequence =
              if log then sequence else s.observed.last_vision_logged_sequence;
        };
      },
    )

-- The section that stores a feedback
unfoldable pub store_feedback : Feedback → RuntimeState → RuntimeState
store_feedback feedback s = record s {
  feedback_history = push_feedback feedback s.feedback_history;
  feedback_samples = bump s.feedback_samples;
  feedback_mismatches =
      if feedback.mismatch then bump s.feedback_mismatches else s.feedback_mismatches;
}

-- The section that counts a correction
unfoldable pub count_correction : RuntimeState → RuntimeState
count_correction s = record s { feedback_corrections = bump s.feedback_corrections }

-- The correction of a mismatch: it is enqueued with the highest priority, and counted if it is taken.
unfoldable pub schedule_correction : Intent → ℕ → RuntimeState → RuntimeState
unfolding count_correction
schedule_correction i now s =
    let (taken, s') = enqueue_intent (corrective_intent i) high now s in
    elim taken [ false ↦ s' | true ↦ count_correction s' ]

-- The section at the end of a frame; a cycle that takes longer than a frame drops one.
unfoldable pub end_frame : ℤ → ℕ → RuntimeState → RuntimeState
end_frame frame_ms cycle_ms s = record s {
  last_cycle_ms = pos cycle_ms;
  cycle_latencies_ms = push_latency (pos cycle_ms) s.cycle_latencies_ms;
  dropped_frames =
      if ltb_ℤ frame_ms (pos cycle_ms) then bump s.dropped_frames else s.dropped_frames;
}

module _ {W : Type 0} (ops : DoubleOps) (port : FramePort W) where
  open port use {steady_now, system_now}

  -- static_cast<double>(duration_cast<microseconds>(end - begin).count()) / 1000.0
  micros_ms : ℕ → ℕ → Double
  micros_ms begin end = ops.div (ops.of_int (pos ((end - begin) / 1000))) (ops.of_int (pos 1000))

  -- What the frame does about the changes it was told of
  refresh_registry : Bool → Bool → ℕ → W → W
  refresh_registry ui fs frame w =
      let w1 = if ui then port.refresh_ui_incremental w else w in
      let w2 = if fs then port.refresh_file_system_incremental w1 else w1 in
      if not ui && not fs && frame % 120 == 1 then port.refresh w2 else w2

  -- The latest state: the pipeline's, or else that of the registry's snapshot
  look_up_state : W → Option Observation
  look_up_state w = elim (port.latest w) [ some o ↦ some o | none ↦ port.last_snapshot w ]

  vision_sample : Observation → VisionLatencySample
  vision_sample o = record {
    frame_id = o.frame_id;
    environment_sequence = o.environment.sequence;
    capture_ms = ops.of_int o.vision_timing.capture_ms;
    detection_ms = ops.of_int o.vision_timing.detection_ms;
    merge_ms = ops.of_int o.vision_timing.merge_ms;
    total_ms = ops.of_int o.vision_timing.total_ms;
    simulated = o.screen_simulated;
    timestamp = o.captured_at;
  }

  report_state : Bool → Option Observation → ℕ → W → W
  unfolding vision_sample
  report_state log none frame w = w
  report_state log (some o) frame w =
      port.submit_decision_state o frame
        (if log then port.log_vision_sample (vision_sample o) w else w)

  perception_ms_of : Option Observation → Double
  perception_ms_of none = zero_d
  perception_ms_of (some o) = ops.of_int o.perception_ms

  feedback_of : Intent → ExecutionResult → ℕ → ℕ → Observation → Observation → Feedback
  feedback_of i r frame now before after =
      let delta = compute_feedback_delta ops before after in
      record {
        intent = i;
        status = r.status;
        before = before;
        after = after;
        delta = delta;
        mismatch = is_success r && is_likely_mismatch i delta before after;
        trace_id = r.trace_id;
        frame = frame;
        timestamp = now;
      }

  -- The feedback of an execution, where the state before and after it is known
  feedback_after : Intent → ExecutionResult → ℕ → Option Observation → W → Option Feedback × W
  unfolding look_up_state feedback_of
  feedback_after i r frame none w = (none, w)
  feedback_after i r frame (some before) w = elim (look_up_state w) [
    | none ↦ (none, w)
    | some after ↦
        let (now, w') = system_now w in (some (feedback_of i r frame now before after), w')
  ]

  -- What is done with the feedback: it is stored, and a mismatch may be corrected.
  unfoldable pub take_feedback :
      Intent → ExecutionResult → Option Feedback → RuntimeState → W → RuntimeState × W
  take_feedback i r none s w = (s, w)
  take_feedback i r (some feedback) s w =
      let s1 = store_feedback feedback s in
      elim (feedback.mismatch && is_success r && should_schedule_correction i) [
        | false ↦ (s1, w)
        | true ↦ let (now, w') = steady_now w in (schedule_correction i now s1, w')
      ]

  delta_of : Option Feedback → Option FeedbackDelta × Bool
  delta_of none = (none, false)
  delta_of (some feedback) = (some feedback.delta, feedback.mismatch)

  -- The execution of an intent in the time that is left of the frame
  unfoldable pub execute_in_frame :
      Intent
      → ℕ
      → ℕ
      → ℕ
      → ℤ
      → Double
      → ObservationMetrics
      → Option Observation
      → RuntimeState
      → W
      → RuntimeState × W
  unfolding micros_ms max_double perception_ms_of feedback_after delta_of
  execute_in_frame i frame frame_start enqueued_at budget lookup_ms metrics found s w =
      let prepared : Intent = record i { context = synchronize_context frame found i.context } in
      let (dequeued, w1) = steady_now w in
      let (started, w2) = steady_now w1 in
      let (r, w3) = port.execute_with_budget prepared budget w2 in
      let (finished, w4) = steady_now w3 in
      let w5 =
        if is_success r && not (is_empty prepared.id)
        then port.record_interaction prepared.id w4
        else w4 in
      let (now, w6) = system_now w5 in
      let w7 =
        port.log_latency_breakdown
          (record {
            frame = frame;
            trace_id = r.trace_id;
            observation_ms = max_double lookup_ms (ops.of_int metrics.last_capture_ms);
            perception_ms = perception_ms_of found;
            queue_wait_ms = max_double zero_d (micros_ms enqueued_at dequeued);
            execution_ms = max_double (ops.of_int r.duration) (micros_ms started finished);
            verification_ms = zero_d;
            total_ms = max_double zero_d (micros_ms frame_start finished);
            timestamp = now;
          })
          w6 in
      let (feedback, w8) = feedback_after prepared r frame found w7 in
      let (s1, w9) = take_feedback prepared r feedback s w8 in
      let (delta, mismatch) = delta_of feedback in
      (
        record s1 { intents_executed = bump s1.intents_executed; last_trace_id = r.trace_id },
        port.observe_execution prepared r delta mismatch w9,
      )

  -- What a frame does with the entry that it takes, if there is one
  unfoldable pub serve :
      Option QueuedIntent
      → ℕ
      → ℕ
      → ℤ
      → Double
      → ObservationMetrics
      → Option Observation
      → RuntimeState
      → W
      → RuntimeState × W
  serve none frame frame_start frame_ms lookup_ms metrics found s w = (s, w)
  serve (some queued) frame frame_start frame_ms lookup_ms metrics found s w =
      let (now, w1) = steady_now w in
      let budget = sub_ℤ frame_ms (to_int (elapsed_ms frame_start now)) in
      elim (ltb_ℤ (pos 0) budget) [
        | false ↦ (requeue queued s, w1)
        | true ↦
            execute_in_frame queued.intent frame frame_start queued.enqueued_at budget lookup_ms
              metrics found s w1
      ]

  -- The body of the loop; `frame_ms` is at least 1.
  unfoldable pub run_frame : ℤ → RuntimeState → W → RuntimeState × W
  unfolding refresh_registry look_up_state report_state micros_ms
  run_frame frame_ms s w =
      let (frame_start, w1) = steady_now w in
      let (ui, fs, s1) = begin_frame s in
      let frame = s1.frames_executed in
      let (lookup_start, w2) = steady_now (refresh_registry ui fs frame w1) in
      let found = look_up_state w2 in
      let (lookup_end, w3) = steady_now w2 in
      let metrics = port.metrics w3 in
      let (log, s2) = record_observation found metrics s1 in
      let w4 = report_state log found frame w3 in
      let (popped, s3) = pop_intent s2 in
      let (s4, w5) =
        serve popped frame frame_start frame_ms (micros_ms lookup_start lookup_end) metrics found s3
          w4 in
      let (frame_end, w6) = steady_now w5 in
      (end_frame frame_ms (elapsed_ms frame_start frame_end) s4, w6)
