-- ===== src/Sequence/Macro.antt =====
-- MacroExecutor of core/execution/src/ActionSequence.cpp. The engine, the clock and the sleep are
-- given as functions on the state of the world.
pub mod Rule
pub mod Counts
pub mod Stopping
pub mod Planned
use intent_execution_layer.Common.{
  ℕ, zero, suc, ◌+◌, Bool, true, false, not, ◌&&◌, ◌||◌, List, [], ◌∷◌, ◌++◌, Option, none, some,
  if◌then◌else◌, is_empty, ltb, ◌==◌, ℤ, pos, ltb_ℤ,
}
use intent_execution_layer.Text.{Text, text}
use intent_execution_layer.Intent.{Intent, action_to_string}
use intent_execution_layer.Execution.{ExecutionResult, is_success, elapsed_ms}
use intent_execution_layer.Ui.{EnvironmentState, is_target_visible}
use intent_execution_layer.Sequence.{ActionStep, ActionSequence}

-- What the executor calls: ExecutionEngine::Execute, the steady clock, and sleep_for.
pub record Runner (W : Type 0) : Type 0 where
  pub execute : Intent → W → ExecutionResult × W
  pub now : W → ℕ × W
  pub sleep : ℤ → W → W

pub record ActionSequenceResult : Type 0 where
  pub success : Bool
  pub sequence_id : Text
  pub completed_steps : ℕ
  pub attempted_steps : ℕ
  pub total_duration : ℕ
  pub step_results : List ExecutionResult
  pub message : Text

-- The variables of the loops
pub record Progress (W : Type 0) : Type 0 where
  pub world : W
  pub completed : ℕ
  pub attempted : ℕ
  pub results : List ExecutionResult
  pub message : Text
  pub stop_requested : Bool

with_names : Intent → Intent
with_names i = record i {
  name = if is_empty i.name then action_to_string i.action else i.name;
  source = if is_empty i.source then text "stream" else i.source;
}

with_state : Option EnvironmentState → Intent → Intent
with_state none i = i
with_state (some state) i = record i {
  context = record (i.context) {
    snapshot_version =
        if state.source_snapshot_version == 0
        then state.sequence
        else state.source_snapshot_version;
    snapshot_ticks = state.sequence;
    window_title = state.active_window_title;
    application = state.active_process_path;
    cursor = state.cursor_position;
  };
}

-- The intent that a repetition executes
unfoldable pub prepare_intent : Option EnvironmentState → Intent → Intent
unfolding with_names with_state
prepare_intent state i = with_state state (with_names i)

visible_in : Option EnvironmentState → Text → Bool
visible_in none target = false
visible_in (some state) target = is_target_visible state target

-- A step with no condition runs its intent; one with a condition runs it or the alternative, if any.
unfoldable pub selected_intent : Option EnvironmentState → ActionStep → Option Intent
unfolding visible_in
selected_intent state step =
    if is_empty step.if_target_visible || visible_in state step.if_target_visible
    then some step.intent
    else step.else_intent

-- std::max<std::size_t>(1U, step.repeatCount)
abbrev pub repetitions : ActionStep → ℕ
repetitions step = if ltb 1 step.repeat_count then step.repeat_count else 1

module _ {W : Type 0} (runner : Runner W) where
  -- The counters and the list of results after one execution
  unfoldable pub record_result : ExecutionResult → W → Progress W → Progress W
  record_result r w p = record p {
    world = w;
    attempted = p.attempted + 1;
    completed = if is_success r then p.completed + 1 else p.completed;
    results = p.results ++ r ∷ [];
  }

  unfoldable pub request_stop : ExecutionResult → Progress W → Progress W
  request_stop r p = record p { message = r.message; stop_requested = true }

  unfoldable pub delay_after : ActionStep → Progress W → Progress W
  delay_after step p =
      if ltb_ℤ (pos 0) step.delay_after_ms
      then record p { world = runner.sleep step.delay_after_ms p.world }
      else p

  -- The loop over the repetitions that are left; it breaks off when a required step fails.
  unfoldable pub run_repetitions : ℕ → Bool → ActionStep → Intent → Progress W → Progress W
  run_repetitions zero stop_on_failure step i p = p
  run_repetitions (suc left) stop_on_failure step i p =
      let (r, w) = runner.execute i p.world in
      let p' = record_result r w p in
      elim (not (is_success r) && (stop_on_failure && step.required)) [
        | true ↦ request_stop r p'
        | false ↦ run_repetitions left stop_on_failure step i (delay_after step p')
      ]

  unfoldable pub run_step : Option EnvironmentState → Bool → ActionStep → Progress W → Progress W
  run_step state stop_on_failure step p = elim (selected_intent state step) [
    | none ↦ p
    | some i ↦ run_repetitions (repetitions step) stop_on_failure step (prepare_intent state i) p
  ]

  -- The loop over the steps
  unfoldable pub run_steps :
      Option EnvironmentState → Bool → List ActionStep → Progress W → Progress W
  run_steps state stop_on_failure [] p = p
  run_steps state stop_on_failure (step ∷ steps) p = elim p.stop_requested [
    | true ↦ p
    | false ↦ run_steps state stop_on_failure steps (run_step state stop_on_failure step p)
  ]

  unfoldable pub start_progress : W → Progress W
  start_progress w = record {
    world = w;
    completed = 0;
    attempted = 0;
    results = [];
    message = [];
    stop_requested = false;
  }

  -- What Execute makes of the loop variables at the end
  unfoldable pub finish : Text → ℕ → ℕ → Progress W → ActionSequenceResult
  finish sequence_id started_at finished_at p =
      let succeeded = p.attempted == 0 || p.completed == p.attempted in
      record {
        success = succeeded;
        sequence_id = sequence_id;
        completed_steps = p.completed;
        attempted_steps = p.attempted;
        total_duration = elapsed_ms started_at finished_at;
        step_results = p.results;
        message =
            if is_empty p.message
            then (if succeeded
                then text "sequence_completed"
                else text "sequence_completed_with_failures")
            else p.message;
      }

  -- MacroExecutor::Execute
  unfoldable pub execute_sequence :
      ActionSequence → Option EnvironmentState → W → ActionSequenceResult × W
  execute_sequence sequence state w =
      if is_empty sequence.steps
      then (
        record {
          success = false;
          sequence_id = sequence.id;
          completed_steps = 0;
          attempted_steps = 0;
          total_duration = 0;
          step_results = [];
          message = text "Sequence has no steps";
        },
        w,
      )
      else (let (started_at, w1) = runner.now w in
          let p = run_steps state sequence.stop_on_failure sequence.steps (start_progress w1) in
          let (finished_at, w2) = runner.now p.world in
          (finish sequence.id started_at finished_at p, w2))
