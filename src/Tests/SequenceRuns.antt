-- ===== src/Tests/SequenceRuns.antt =====
-- A sequence that is parsed, and sequences that are run.
use intent_execution_layer.Sequence.OnEngine.{engine_runner, endings-execute_sequence}
use intent_execution_layer.Engine.Execute.Events.{endings}
use intent_execution_layer.Platform.{wide}
use intent_execution_layer.Text.Number.{parse_unsigned}
use intent_execution_layer.Common.{
  ℕ, ◌+◌, ◌*◌, ◌≤◌, ◌≡◌, refl, true, false, not, [], ◌∷◌, none, all, All, length, count_if,
}
use intent_execution_layer.Text.{
  Text, text, split, trim, trim_end, trim_start, is_space, text_eq, normalize_ascii_lower,
  find_char, split_step,
}
use intent_execution_layer.Intent.{
  failed, success, action_eq, intent_action_from_string, action_to_string,
}
use intent_execution_layer.Execution.{is_success}
use intent_execution_layer.Sequence.{
  ActionSequence, new_step, build_intent_from_action_args, build_target, apply_step_token,
  apply_step_tokens, apply_timing_tokens, with_ui_target, with_action, key_value,
}
use intent_execution_layer.Sequence.Steps.{IsBoundedStep}
use intent_execution_layer.Sequence.Parse.{
  parse_action_sequence_dsl, parse_dsl_steps, parse_steps, parse_raw_step, parse_loop, parse_plain,
  parse_fields,
}
use intent_execution_layer.Sequence.Parse.Bounds.{
  is_blank, parse_action_sequence_dsl-IsBounded, parse_action_sequence_dsl_complete,
}
use intent_execution_layer.Sequence.Macro.{Runner, execute_sequence}
use intent_execution_layer.Sequence.Macro.Counts.{IsTallied, execute_sequence-IsTallied}
use intent_execution_layer.Sequence.Macro.Stopping.{succeeds_but_last, execute_sequence_stops}
use intent_execution_layer.Sequence.Macro.Planned.{planned, execute_sequence-eq-planned}
use intent_execution_layer.Sequence.Limits.{parsed_run_limit}
use intent_execution_layer.Tests.{quiet, idle, ascii_platform, click, nameless, result_of}

-- An engine that needs a millisecond, and fails where the action is unknown
abbrev picky : Runner ℕ
picky = record {
  execute = λ i w. (
    result_of (elim (action_eq i.action nameless.action) [ true ↦ failed | false ↦ success ]),
    w + 1_000_000,
  );
  now = λ w. (w, w);
  sleep = λ ms w. w;
}

abbrev strict : ActionSequence
strict = record {
  id = text "s";
  steps =
      record (new_step click (text "a")) { repeat_count = 2 }
      ∷ new_step nameless (text "b")
      ∷ new_step click (text "c")
      ∷ [];
  stop_on_failure = true;
}

abbrev lenient : ActionSequence
lenient = record strict { stop_on_failure = false }

execute_sequence_stops_example :
    succeeds_but_last (execute_sequence picky strict none 0).0.step_results ≡ true
unfolding new_step
execute_sequence_stops_example =
    execute_sequence_stops picky strict none 0 refl (refl, (refl, (refl, tt)))

execute_sequence-IsTallied_example :
    IsTallied (execute_sequence picky strict none 0).0
    × ((execute_sequence picky strict none 0).0.success
        ≡ all is_success (execute_sequence picky strict none 0).0.step_results)
execute_sequence-IsTallied_example = execute_sequence-IsTallied picky strict none 0 refl

execute_sequence-eq-planned_example :
    (execute_sequence picky lenient none 0).0.attempted_steps ≡ planned none lenient.steps
execute_sequence-eq-planned_example = execute_sequence-eq-planned picky lenient none 0 refl

abbrev script : Text
script = text "loop|3|activate:OK; select|List|after=5"

script_parses : (parse_action_sequence_dsl ascii_platform script click).1 ≡ none
unfolding parse_action_sequence_dsl parse_dsl_steps trim trim_end trim_start text is_space
    parse_steps split parse_raw_step text_eq normalize_ascii_lower parse_loop parse_unsigned
    build_intent_from_action_args intent_action_from_string build_target parse_plain
    action_to_string parse_fields apply_step_token apply_step_tokens apply_timing_tokens
    with_ui_target with_action key_value find_char wide split_step
script_parses = refl

parsed_run_limit_example :
    (execute_sequence picky
      (parse_action_sequence_dsl ascii_platform script click).0
      none
      0).0.attempted_steps
    ≤ 128 * count_if (λ raw. not (is_blank raw)) (split script b';')
parsed_run_limit_example = parsed_run_limit picky ascii_platform script click none 0 script_parses

parse_action_sequence_dsl_complete_example :
    (length (parse_action_sequence_dsl ascii_platform script click).0.steps
      ≡ count_if (λ raw. not (is_blank raw)) (split script b';'))
    × (1 ≤ length (parse_action_sequence_dsl ascii_platform script click).0.steps)
parse_action_sequence_dsl_complete_example =
    parse_action_sequence_dsl_complete ascii_platform script click script_parses

parse_action_sequence_dsl-IsBounded_example :
    All (IsBoundedStep click) (parse_action_sequence_dsl ascii_platform script click).0.steps
parse_action_sequence_dsl-IsBounded_example =
    parse_action_sequence_dsl-IsBounded ascii_platform script click

endings-execute_sequence_example :
    endings (execute_sequence (engine_runner quiet (λ ms w. w)) strict none idle).1
    ≡ endings idle
      + (execute_sequence (engine_runner quiet (λ ms w. w)) strict none idle).0.attempted_steps
endings-execute_sequence_example = endings-execute_sequence quiet (λ ms w. w) strict none idle
