-- ===== src/Tests/ControlRuns.antt =====
-- A runtime with two queued intents, and its frames.
use intent_execution_layer.Common.{
  ℕ, ◌+◌, ◌-◌, ◌≤◌, ◌≡◌, refl, true, false, ◌&&◌, List, [], ◌∷◌, none, some, pos, ℤ, ltb_ℤ, ◌≤ℤ◌,
  any, length, arith, if◌then◌else◌,
}
use intent_execution_layer.Common.Sort.{sort}
use intent_execution_layer.Text.{text}
use intent_execution_layer.Intent.{success}
use intent_execution_layer.Ui.{EnvironmentState}
use intent_execution_layer.Control.{
  ControlPriority, high, medium, low, ControlRuntimeConfig, QueuedIntent, Observation, Feedback,
  ObservationMetrics, RuntimeState,
}
use intent_execution_layer.Control.Queue.{enqueue_intent, pop_high, pop_intent, requeue}
use intent_execution_layer.Control.Queue.Refines.{
  contents, insert_behind, take_first, is_ranked, enqueue_intent-insert_behind,
  pop_intent-take_first,
}
use intent_execution_layer.Control.Queue.Ranked.{requeue-pop_intent}
use intent_execution_layer.Control.Lifecycle.{reset_state, start}
use intent_execution_layer.Control.Latency.{max_latency_samples, max_feedback_history, pick}
use intent_execution_layer.Control.Latency.Percentiles.{same_latency, pick_lem}
use intent_execution_layer.Control.Decision.{count_decisions, decision_pass}
use intent_execution_layer.Control.Decision.Accepted.{acceptable, decision_pass-acceptable}
use intent_execution_layer.Control.Frame.{
  FramePort, compute_feedback_delta, corrective_intent, take_feedback,
}
use intent_execution_layer.Control.Frame.Correction.{take_feedback-corrective_intent}
use intent_execution_layer.Control.Loop.{run_loop}
use intent_execution_layer.Control.Loop.Ends.{run_loop_ends}
use intent_execution_layer.Control.Machine.{initial_state, Step, Reachable}
use intent_execution_layer.Control.Machine.Invariant.{Reachable-IsSafe}
use intent_execution_layer.Tests.{
  ascii_platform, rough_doubles, click, nameless, result_of, ok_button,
}

abbrev three_frames : ControlRuntimeConfig
three_frames = record {
  target_frame_ms = pos 16;
  max_frames = 3;
  observation_interval_ms = pos 8;
  decision_budget_ms = pos 2;
}

abbrev queued_click : ControlPriority → QueuedIntent
queued_click priority = record {
  intent = click;
  priority = priority;
  sequence = 1;
  enqueued_at = 0;
}

abbrev busy : RuntimeState
busy = record (reset_state three_frames 0) {
  high_queue = queued_click high ∷ [];
  low_queue = queued_click low ∷ [];
}

busy_ranked : is_ranked busy ≡ true
unfolding is_ranked reset_state
busy_ranked = refl

enqueue_intent-insert_behind_example :
    ((enqueue_intent click medium 5 busy).0 ≡ busy.running)
    × (contents (enqueue_intent click medium 5 busy).1 ≡ (
        if busy.running
        then insert_behind
            (record {
              intent = click;
              priority = medium;
              sequence = busy.next_sequence;
              enqueued_at = 5;
            })
            (contents busy)
        else contents busy))
enqueue_intent-insert_behind_example = enqueue_intent-insert_behind click medium 5 busy busy_ranked

pop_intent-take_first_example :
    ((pop_intent busy).0, contents (pop_intent busy).1) ≡ take_first (contents busy)
pop_intent-take_first_example = pop_intent-take_first busy

busy_pops : (pop_intent busy).0 ≡ some (queued_click high)
unfolding pop_intent pop_high reset_state
busy_pops = refl

requeue-pop_intent_example :
    contents (requeue (queued_click high) (pop_intent busy).1)
    ≡ record (queued_click high) { sequence = 0 } ∷ contents (pop_intent busy).1
requeue-pop_intent_example = requeue-pop_intent (queued_click high) busy busy_ranked busy_pops

abbrev started_runtime : RuntimeState
started_runtime = (start three_frames 0 none (text "registry") initial_state).2

abbrev reached : RuntimeState
reached = count_decisions 1 true (enqueue_intent click high 5 started_runtime).1

reached_in_three : Reachable reached
reached_in_three =
    Reachable.stepped
      (Reachable.stepped
        (Reachable.stepped Reachable.constructed
          (Step.started three_frames 0 none (text "registry")))
        (Step.enqueued click high 5))
      (Step.decided 1 true)

Reachable-IsSafe_example :
    (is_ranked reached ≡ true)
    × (length reached.cycle_latencies_ms ≤ max_latency_samples)
    × (length reached.feedback_history ≤ max_feedback_history)
    × ((reached.running && reached.stop_requested) ≡ false)
Reachable-IsSafe_example = Reachable-IsSafe reached reached_in_three

abbrev history : List ℤ
history = pos 16 ∷ pos 3 ∷ pos 20 ∷ []

pick_lem_example :
    (pick (sort ltb_ℤ history) 50 ≤ℤ pick (sort ltb_ℤ history) 95)
    × (pick (sort ltb_ℤ history) 95 ≤ℤ pick (sort ltb_ℤ history) 99)
    × (any (same_latency (pick (sort ltb_ℤ history) 50)) history ≡ true)
    × (any (same_latency (pick (sort ltb_ℤ history) 95)) history ≡ true)
    × (any (same_latency (pick (sort ltb_ℤ history) 99)) history ≡ true)
pick_lem_example = pick_lem history refl

abbrev empty_screen : EnvironmentState
empty_screen = record {
  sequence = 4;
  source_snapshot_version = 0;
  active_window_title = text "Main";
  active_process_path = text "app";
  cursor_position = record { x = pos 1; y = pos 2 };
  ui_elements = ok_button ∷ [];
}

decision_pass-acceptable_example :
    (length (
        contents (
          decision_pass ascii_platform
            (text "rules")
            2
            empty_screen
            9
            (click ∷ nameless ∷ [])
            true
            busy))
      ≡ length (contents busy) + acceptable busy.running (click ∷ nameless ∷ []))
    × (is_ranked (
          decision_pass ascii_platform
            (text "rules")
            2
            empty_screen
            9
            (click ∷ nameless ∷ [])
            true
            busy)
        ≡ true)
decision_pass-acceptable_example =
    decision_pass-acceptable ascii_platform (text "rules") 2 empty_screen 9 (click ∷ nameless ∷ [])
      true busy busy_ranked

abbrev no_samples : ObservationMetrics
no_samples = record {
  samples = 0;
  last_capture_ms = pos 0;
  latest_frame_id = 0;
  last_vision_capture_ms = pos 0;
  last_vision_detection_ms = pos 0;
  last_vision_merge_ms = pos 0;
  average_vision_capture_ms = 0;
  average_vision_detection_ms = 0;
  average_vision_merge_ms = 0;
  estimated_fps = 0;
  adapter_name = [];
}

-- The world is the time in nanoseconds; an execution takes a millisecond, and nothing is observed.
abbrev blind : FramePort ℕ
blind = record {
  steady_now = λ w. (w, w + 1);
  system_now = λ w. (w, w + 1);
  refresh_ui_incremental = λ w. w;
  refresh_file_system_incremental = λ w. w;
  refresh = λ w. w;
  latest = λ w. none;
  last_snapshot = λ w. none;
  metrics = λ w. no_samples;
  log_vision_sample = λ sample w. w;
  log_latency_breakdown = λ sample w. w;
  submit_decision_state = λ o frame w. w;
  execute_with_budget = λ i budget w. (result_of success, w + 1_000_000);
  record_interaction = λ id w. w;
  observe_execution = λ i r delta mismatch w. w;
  wait_until = λ t w. t;
}

abbrev unchanged : Observation
unchanged = record {
  environment = empty_screen;
  captured_at = 0;
  file_system_entries = 2;
  ui_signature = 7;
  focus_ratio = 0;
  occupancy_ratio = 0;
  perception_ms = pos 1;
  frame_id = 1;
  screen_simulated = false;
  vision_timing = record {
    capture_ms = pos 1;
    detection_ms = pos 1;
    merge_ms = pos 1;
    total_ms = pos 3;
  };
}

-- An execution that succeeded and changed nothing
abbrev no_effect : Feedback
no_effect = record {
  intent = corrective_intent click;
  status = success;
  before = unchanged;
  after = unchanged;
  delta = compute_feedback_delta rough_doubles unchanged unchanged;
  mismatch = true;
  trace_id = text "t";
  frame = 2;
  timestamp = 9;
}

take_feedback-corrective_intent_example :
    (contents
        (take_feedback rough_doubles blind
          (corrective_intent click)
          (result_of success)
          (some no_effect)
          busy
          0).0
      ≡ contents busy)
    × ((take_feedback rough_doubles blind
          (corrective_intent click)
          (result_of success)
          (some no_effect)
          busy
          0).0.feedback_corrections
        ≡ busy.feedback_corrections)
take_feedback-corrective_intent_example =
    take_feedback-corrective_intent rough_doubles blind click (result_of success) (some no_effect)
      busy 0

busy_goes_on : busy.stop_requested ≡ false
unfolding reset_state
busy_goes_on = refl

run_loop_ends_example :
    (s' : RuntimeState) × (w' : ℕ) × (run_loop rough_doubles blind
        (busy.config.max_frames - busy.frames_executed + 1)
        busy
        0
      ≡ some (s', w'))
    × (s'.frames_executed ≡ busy.config.max_frames)
    × (s'.running ≡ false)
    × (s'.stop_requested ≡ true)
unfolding reset_state
run_loop_ends_example =
    run_loop_ends rough_doubles blind busy 0 busy_goes_on (omega arith) (omega arith) (omega arith)
