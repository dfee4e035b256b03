-- ===== src/Sequence/Parse.antt =====
-- ParseActionSequenceDsl of core/execution/src/ActionSequence.cpp: steps between `;`, their fields
-- between `|`, the arguments of a nested action between `:`.
pub mod Bounds
use intent_execution_layer.Common.{
  ℕ, suc, List, [], ◌∷◌, ◌++◌, Option, none, some, if◌then◌else◌, is_empty, true, Bool, ◌==◌, ltb,
}
use intent_execution_layer.Outcome.{Outcome, ok, error, ◌>>=◌}
use intent_execution_layer.Text.{Text, text, text_eq, normalize_ascii_lower, trim, split}
use intent_execution_layer.Text.Number.{parse_unsigned, to_decimal}
use intent_execution_layer.Platform.{Platform, wide}
use intent_execution_layer.Intent.{Intent, action_to_string}
use intent_execution_layer.Sequence.{
  ActionStep, ActionSequence, new_step, build_intent_from_action_args, bounded_repeat,
  apply_step_tokens,
}

-- A message with the number of the step, which counts from 1
numbered : Text → ℕ → Text
numbered message index = message ++ to_decimal (suc index)

-- The nested parser's message behind the step's own
within : Text → Outcome Intent → Outcome Intent
within prefix (ok i) = ok i
within prefix (error message) = error (prefix ++ (text ": " ++ message))

-- BuildIntentFromActionArgs(templateIntent, Split(Trim(field), ':'), …)
nested_action : Platform → Intent → Text → Text → Outcome Intent
unfolding within
nested_action platform template_intent prefix field =
    within prefix (build_intent_from_action_args platform template_intent (split (trim field) b':'))

-- The else-expression, if the field is there and not blank
else_action : Platform → Intent → ℕ → List Text → Outcome (Option Intent)
unfolding nested_action numbered
else_action platform template_intent index [] = ok none
else_action platform template_intent index (field ∷ fields) =
    if is_empty (trim field) then ok none else (do
      else_intent ←
          nested_action platform template_intent
            (numbered (text "Invalid else-expression in step ") index) field
      ok (some else_intent))

-- The fields from the fifth on are step tokens.
abbrev behind_first : List Text → List Text
behind_first [] = []
behind_first (field ∷ fields) = fields

conditional_step : Text → Intent → Option Intent → ActionStep
unfolding new_step
conditional_step target then_intent else_intent = record (new_step then_intent []) {
  if_target_visible = target;
  else_intent = else_intent;
}

labelled : Text → ActionStep → ActionStep
labelled label step = record step { label = label }

-- The branch for `if_visible`, on the fields behind the first
unfoldable pub parse_if_visible : Platform → Intent → ℕ → List Text → Outcome ActionStep
unfolding else_action conditional_step labelled
parse_if_visible platform template_intent index (target ∷ then_field ∷ fields) = do
  then_intent ←
      nested_action platform template_intent
        (numbered (text "Invalid then-expression in step ") index) then_field
  else_intent ← else_action platform template_intent index fields
  ok (
      labelled (text "if_visible") (
        apply_step_tokens (behind_first fields)
          (conditional_step (wide platform (trim target)) then_intent else_intent)))
parse_if_visible platform template_intent index _ =
    error (numbered (text "if_visible requires target and then-expression in step ") index)

-- The count of a loop: a number that is not 0
loop_count : ℕ → Option ℕ → Outcome ℕ
unfolding numbered
loop_count index none = error (numbered (text "Invalid loop count in step ") index)
loop_count index (some repeat) =
    if repeat == 0 then error (numbered (text "Invalid loop count in step ") index) else ok repeat

repeated_step : Intent → ℕ → ActionStep
unfolding new_step
repeated_step intent repeat = record (new_step intent (text "loop")) {
  repeat_count = bounded_repeat repeat;
}

-- The branch for `loop`, on the fields behind the first
unfoldable pub parse_loop : Platform → Intent → ℕ → List Text → Outcome ActionStep
unfolding loop_count nested_action repeated_step
parse_loop platform template_intent index (count ∷ expression ∷ fields) = do
  repeat ← loop_count index (parse_unsigned (trim count))
  loop_intent ←
      nested_action platform template_intent
        (numbered (text "Invalid loop expression in step ") index) expression
  ok (apply_step_tokens fields (repeated_step loop_intent repeat))
parse_loop platform template_intent index _ =
    error (numbered (text "loop requires count and expression in step ") index)

trim_all : List Text → List Text
trim_all [] = []
trim_all (field ∷ fields) = trim field ∷ trim_all fields

-- Any other step: its fields are the arguments of one action, and step tokens too.
unfoldable pub parse_plain : Platform → Intent → ℕ → List Text → Outcome ActionStep
unfolding within numbered trim_all new_step
parse_plain platform template_intent index fields = do
  step_intent ←
      within (numbered (text "Invalid sequence step ") index)
        (build_intent_from_action_args platform template_intent (trim_all fields))
  ok (apply_step_tokens fields (new_step step_intent (action_to_string step_intent.action)))

-- The body of the loop for a raw step that is not blank, on its fields
unfoldable pub parse_fields : Platform → Intent → ℕ → List Text → Outcome (Option ActionStep)
parse_fields platform template_intent index [] = ok none
parse_fields platform template_intent index (first ∷ fields) = do
  let head = normalize_ascii_lower (trim first)
  step ←
      (if text_eq head (text "if_visible")
        then parse_if_visible platform template_intent index fields
        else if text_eq head (text "loop")
        then parse_loop platform template_intent index fields
        else parse_plain platform template_intent index (first ∷ fields))
  ok (some step)

-- The body of the loop; a blank step is skipped
unfoldable pub parse_raw_step : Platform → Intent → ℕ → Text → Outcome (Option ActionStep)
unfolding parse_fields
parse_raw_step platform template_intent index raw =
    if is_empty (trim raw)
    then ok none
    else parse_fields platform template_intent index (split (trim raw) b'|')

-- The steps that were pushed before the loop ended, and the message if it ended by an error
pub record ParseOutput : Type 0 where
  pub steps : List ActionStep
  pub failure : Option Text

unfoldable pub parse_steps : Platform → Intent → ℕ → List Text → List ActionStep → ParseOutput
parse_steps platform template_intent index [] steps = record { steps = steps; failure = none }
parse_steps platform template_intent index (raw ∷ raws) steps =
    elim (parse_raw_step platform template_intent index raw) [
      | error message ↦ record { steps = steps; failure = some message }
      | ok found ↦ elim found [
        | none ↦ parse_steps platform template_intent (suc index) raws steps
        | some step ↦ parse_steps platform template_intent (suc index) raws (steps ++ step ∷ [])
      ]
    ]

-- The check behind the loop
require_steps : ParseOutput → ParseOutput
require_steps output = elim output.failure [
  | some message ↦ output
  | none ↦
      if is_empty output.steps
      then record output { failure = some (text "No valid steps parsed from sequence DSL") }
      else output
]

-- The checks and the loop of ParseActionSequenceDsl
unfoldable pub parse_dsl_steps : Platform → Text → Intent → ParseOutput
unfolding require_steps
parse_dsl_steps platform sequence_dsl template_intent =
    if is_empty (trim sequence_dsl)
    then record { steps = []; failure = some (text "sequence DSL is empty") }
    else require_steps (parse_steps platform template_intent 0 (split sequence_dsl b';') [])

-- ParseActionSequenceDsl: what it leaves in `sequence`, and the message if it returns false
unfoldable pub parse_action_sequence_dsl : Platform → Text → Intent → ActionSequence × Option Text
parse_action_sequence_dsl platform sequence_dsl template_intent =
    let output = parse_dsl_steps platform sequence_dsl template_intent in
    (
      record { id = text "sequence-dsl"; steps = output.steps; stop_on_failure = true },
      output.failure,
    )
