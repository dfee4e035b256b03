-- ===== src/Control.antt =====
-- core/execution/include/ControlRuntime.h and the parts of core/execution/src/ControlRuntime.cpp that
-- its threads share: the state, the queues' entries, and the helpers at the top of the file. Counters
-- are 64 bits wide, and times of the steady clock are nanoseconds. Each section under the lock is one
-- function on the state.
pub mod Queue
pub mod Latency
pub mod Lifecycle
pub mod Decision
pub mod Frame
pub mod Loop
pub mod Machine
use intent_execution_layer.Common.{
  ℕ, ◌+◌, ◌%◌, ◌^◌, Bool, true, false, not, ◌&&◌, ◌||◌, List, [], Option, none, some, if◌then◌else◌,
  ◌==◌, ℤ, pos, ltb_ℤ, length,
}
use intent_execution_layer.Text.{Text, text, text_eq, normalize_ascii_lower}
use intent_execution_layer.Double.{Double, DoubleOps, double_lt, double_abs}
use intent_execution_layer.Platform.{Platform, narrow}
use intent_execution_layer.Intent.{
  Intent, IntentAction, activate, set_value, select, create, delete, move, ExecutionStatus,
  find_value,
}
use intent_execution_layer.Ui.{EnvironmentState}

pub data ControlPriority : Type 0 where
  high medium low : ControlPriority

abbrev pub priority_value : ControlPriority → ℕ
priority_value high = 0
priority_value medium = 1
priority_value low = 2

pub record ControlRuntimeConfig : Type 0 where
  pub target_frame_ms : ℤ
  pub max_frames : ℕ
  pub observation_interval_ms : ℤ
  pub decision_budget_ms : ℤ

pub record QueuedIntent : Type 0 where
  pub intent : Intent
  pub priority : ControlPriority
  pub sequence : ℕ
  pub enqueued_at : ℕ

-- VisionTiming, in milliseconds
pub record VisionTiming : Type 0 where
  pub capture_ms : ℤ
  pub detection_ms : ℤ
  pub merge_ms : ℤ
  pub total_ms : ℤ

-- The fields of EnvironmentState that the control runtime reads: those of Ui.EnvironmentState, the
-- number of file system entries, and what is read of the perception and of the vision.
pub record Observation : Type 0 where
  pub environment : EnvironmentState
  pub captured_at : ℕ
  pub file_system_entries : ℕ
  pub ui_signature : ℕ
  pub focus_ratio : Double
  pub occupancy_ratio : Double
  pub perception_ms : ℤ
  pub frame_id : ℕ
  pub screen_simulated : Bool
  pub vision_timing : VisionTiming

-- FeedbackDelta (core/execution/include/DecisionInterfaces.h)
pub record FeedbackDelta : Type 0 where
  pub signature_changed : Bool
  pub focus_ratio_delta : Double
  pub occupancy_ratio_delta : Double
  pub capture_skew_ms : ℤ

-- Feedback
pub record Feedback : Type 0 where
  pub intent : Intent
  pub status : ExecutionStatus
  pub before : Observation
  pub after : Observation
  pub delta : FeedbackDelta
  pub mismatch : Bool
  pub trace_id : Text
  pub frame : ℕ
  pub timestamp : ℕ

-- The fields of ObservationPipelineMetrics (core/execution/include/EnvironmentAdapter.h) that are read
pub record ObservationMetrics : Type 0 where
  pub samples : ℕ
  pub last_capture_ms : ℤ
  pub latest_frame_id : ℕ
  pub last_vision_capture_ms : ℤ
  pub last_vision_detection_ms : ℤ
  pub last_vision_merge_ms : ℤ
  pub average_vision_capture_ms : Double
  pub average_vision_detection_ms : Double
  pub average_vision_merge_ms : Double
  pub estimated_fps : Double
  pub adapter_name : Text

-- What the runtime keeps of the observations
pub record Observed : Type 0 where
  pub latest_snapshot_version : ℕ
  pub latest_observation_sequence : ℕ
  pub metrics : ObservationMetrics
  pub last_vision_logged_sequence : ℕ

-- The fields of ControlRuntime under its mutex
pub record RuntimeState : Type 0 where
  pub running : Bool
  pub stop_requested : Bool
  pub config : ControlRuntimeConfig
  pub runtime_id : Text
  pub next_sequence : ℕ
  pub version : ℕ
  pub frames_executed : ℕ
  pub intents_executed : ℕ
  pub dropped_frames : ℕ
  pub high_priority_events : ℕ
  pub medium_priority_events : ℕ
  pub low_priority_events : ℕ
  pub pending_high_events : ℕ
  pub pending_medium_events : ℕ
  pub pending_low_events : ℕ
  pub pending_ui_refresh : Bool
  pub pending_fs_refresh : Bool
  pub last_cycle_ms : ℤ
  pub last_trace_id : Text
  pub high_queue : List QueuedIntent
  pub medium_queue : List QueuedIntent
  pub low_queue : List QueuedIntent
  pub cycle_latencies_ms : List ℤ
  pub observed : Observed
  pub feedback_history : List Feedback
  pub decision_intents_produced : ℕ
  pub decision_timeouts : ℕ
  pub feedback_samples : ℕ
  pub feedback_mismatches : ℕ
  pub feedback_corrections : ℕ

-- ++ on a counter of 64 bits
unfoldable pub bump : ℕ → ℕ
bump n = (n + 1) % 2 ^ 64

-- ClampFrameMs
unfoldable pub clamp_frame_ms : ℤ → ℤ
clamp_frame_ms value =
    if ltb_ℤ value (pos 1) then pos 1 else if ltb_ℤ (pos 1000) value then pos 1000 else value

-- ClampDecisionBudgetMs
unfoldable pub clamp_decision_budget_ms : ℤ → ℤ
clamp_decision_budget_ms value =
    if ltb_ℤ value (pos 1) then pos 1 else if ltb_ℤ (pos 200) value then pos 200 else value

priority_of_hint : Text → ControlPriority
priority_of_hint value =
    if text_eq value (text "high")
    then high
    else if text_eq value (text "medium")
    then medium
    else low

-- ParseControlPriorityHint; its ToAsciiLower is NormalizeAsciiLower
unfoldable pub parse_control_priority_hint : Platform → Intent → ControlPriority
unfolding priority_of_hint
parse_control_priority_hint platform i =
    elim (find_value (text "control_priority") i.params.values) [
      | none ↦ low
      | some hint ↦ priority_of_hint (normalize_ascii_lower (narrow platform hint))
    ]

-- IsStateChangeExpected
unfoldable pub is_state_change_expected : IntentAction → Bool
is_state_change_expected activate = true
is_state_change_expected set_value = true
is_state_change_expected select = true
is_state_change_expected create = true
is_state_change_expected delete = true
is_state_change_expected move = true
is_state_change_expected IntentAction.unknown = false

-- 0.001
abbrev ratio_threshold : Double
ratio_threshold = 0x3f50_624d_d2f1_a9fc

-- IsLikelyMismatch
unfoldable pub is_likely_mismatch : Intent → FeedbackDelta → Observation → Observation → Bool
is_likely_mismatch i delta before after =
    if not (is_state_change_expected i.action)
    then false
    else (let ui_changed =
          not (length before.environment.ui_elements == length after.environment.ui_elements) in
        let file_changed = not (before.file_system_entries == after.file_system_entries) in
        let perception_changed =
          delta.signature_changed
          || double_lt ratio_threshold (double_abs delta.focus_ratio_delta)
          || double_lt ratio_threshold (double_abs delta.occupancy_ratio_delta) in
        not ui_changed && not file_changed && not perception_changed)

marked_as_retry : Option Text → Bool
marked_as_retry none = false
marked_as_retry (some marker) =
    text_eq marker (text "1") || text_eq marker (text "true") || text_eq marker (text "yes")

-- ShouldScheduleCorrection
unfoldable pub should_schedule_correction : Intent → Bool
unfolding marked_as_retry
should_schedule_correction i =
    not (marked_as_retry (find_value (text "feedback_retry") i.params.values))
