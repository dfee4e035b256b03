-- ===== src/Sequence/Limits.antt =====
-- The parser and the executor together.
use intent_execution_layer.Common.{
  ◌*◌, ◌≤◌, ◌≡◌, not, List, [], ◌∷◌, Option, none, arith, All, length, count_if,
}
use intent_execution_layer.Text.{Text, split}
use intent_execution_layer.Platform.{Platform}
use intent_execution_layer.Intent.{Intent}
use intent_execution_layer.Ui.{EnvironmentState}
use intent_execution_layer.Sequence.{ActionStep}
use intent_execution_layer.Sequence.Steps.{IsBoundedStep}
use intent_execution_layer.Sequence.Parse.{parse_action_sequence_dsl}
use intent_execution_layer.Sequence.Parse.Bounds.{
  is_blank, parse_action_sequence_dsl-IsBounded, parse_action_sequence_dsl_complete,
}
use intent_execution_layer.Sequence.Macro.{Runner, execute_sequence}
use intent_execution_layer.Sequence.Macro.Planned.{planned, planned_of, execute_sequence-le-planned}

planned_of-le :
    (t : Intent) (state : Option EnvironmentState) (step : ActionStep)
    → IsBoundedStep t step
    → planned_of state step ≤ 128
unfolding planned_of
planned_of-le t state step b = ground (arith, b.repeat_high)

planned-le :
    (t : Intent) (state : Option EnvironmentState) (steps : List ActionStep)
    → All (IsBoundedStep t) steps
    → planned state steps ≤ 128 * length steps
unfolding planned
planned-le t state [] b = omega arith
planned-le t state (step ∷ steps) b =
    omega (arith, planned_of-le t state step b.0, planned-le t state steps b.1)

-- Running a sequence that the parser has accepted makes at most 128 executions for each part of the
-- text between `;` that is not blank.
pub parsed_run_limit :
    {W : Type 0} (runner : Runner W) (platform : Platform) (sequence_dsl : Text) (t : Intent)
    (state : Option EnvironmentState) (w : W)
    → (parse_action_sequence_dsl platform sequence_dsl t).1 ≡ none
    → (execute_sequence runner
        (parse_action_sequence_dsl platform sequence_dsl t).0
        state
        w).0.attempted_steps
      ≤ 128 * count_if (λ raw. not (is_blank raw)) (split sequence_dsl b';')
parsed_run_limit runner platform sequence_dsl t state w h =
    let sequence = (parse_action_sequence_dsl platform sequence_dsl t).0 in
    omega (
      arith,
      execute_sequence-le-planned runner sequence state w,
      planned-le t state sequence.steps
          (parse_action_sequence_dsl-IsBounded platform sequence_dsl t),
      parse_action_sequence_dsl_complete platform sequence_dsl t h,
    )
