-- ===== src/Sequence.antt =====
-- core/execution/include/ActionSequence.h and the parser of core/execution/src/ActionSequence.cpp.
pub mod Parse
pub mod Tokens
pub mod Steps
pub mod Macro
pub mod Limits
pub mod OnEngine
use intent_execution_layer.Common.{
  ℕ, zero, suc, Bool, true, false, ◌&&◌, List, [], ◌∷◌, ◌++◌, Option, none, some, replicate, leb,
  if◌then◌else◌, is_empty, length, take, drop, ℤ, pos, leb_ℤ, ltb_ℤ, ltb, not, ◌||◌, ◌≤◌, ◌+◌, ◌==◌,
}
use intent_execution_layer.Outcome.{Outcome, ok, error}
use intent_execution_layer.Text.{Text, text, text_eq, find_char, normalize_ascii_lower, trim}
use intent_execution_layer.Text.Number.{parse_int, parse_unsigned}
use intent_execution_layer.Platform.{Platform, wide}
use intent_execution_layer.Intent.{
  Intent, IntentAction, activate, set_value, select, create, delete, move, ui_element,
  file_system_path, Params, assign, action_to_string, intent_action_from_string,
}

pub record ActionStep : Type 0 where
  pub intent : Intent
  pub label : Text
  pub delay_after_ms : ℤ
  pub required : Bool
  pub repeat_count : ℕ
  pub if_target_visible : Text
  pub else_intent : Option Intent

pub record ActionSequence : Type 0 where
  pub id : Text
  pub steps : List ActionStep
  pub stop_on_failure : Bool

-- `ActionStep step;` with its intent and label set
unfoldable pub new_step : Intent → Text → ActionStep
new_step intent label = record {
  intent = intent;
  label = label;
  delay_after_ms = pos 0;
  required = true;
  repeat_count = 1;
  if_target_visible = [];
  else_intent = none;
}

-- BuildRepeatedSequence; the loop makes at least one step
unfoldable pub build_repeated_sequence : Intent → ℕ → Text → ActionSequence
unfolding new_step
build_repeated_sequence template_intent count sequence_id = record {
  id = if is_empty sequence_id then text "sequence-repeat" else sequence_id;
  steps = replicate (if ltb 1 count then count else 1) (
      new_step template_intent (
        if is_empty template_intent.name
        then action_to_string template_intent.action
        else template_intent.name));
  stop_on_failure = true;
}

-- A token `key=value` with something on both sides of its first `=`: the key in lower case, and the
-- value, both trimmed
unfoldable pub key_value : Text → Option (Text × Text)
key_value token = elim (find_char b'=' token) [
  | none ↦ none
  | some separator ↦
      if separator == 0 || leb (length token) (separator + 1)
      then none
      else some
          (normalize_ascii_lower (trim (take separator token)), trim (drop (suc separator) token))
]

with_timeout : Intent → Option ℤ → Intent
with_timeout i none = i
with_timeout i (some timeout_ms) =
    if ltb_ℤ (pos 0) timeout_ms
    then record i { constraints = record (i.constraints) { timeout_ms = timeout_ms } }
    else i

with_retries : Intent → Option ℤ → Intent
with_retries i none = i
with_retries i (some retries) =
    if leb_ℤ (pos 0) retries
    then record i { constraints = record (i.constraints) { max_retries = retries } }
    else i

set_param : Platform → Intent → Text → Text → Intent
set_param platform i key value = record i { params = assign i.params key (wide platform value) }

-- The keys that the chain of tests in ApplyIntentTimingToken tells apart
pub data TimingKey : Type 0 where
  delay hold sequence timeout retries other : TimingKey

timing_key : Text → TimingKey
timing_key key =
    if text_eq key (text "delay") || text_eq key (text "delay_ms")
    then delay
    else if text_eq key (text "hold") || text_eq key (text "hold_ms")
    then hold
    else if text_eq key (text "sequence") || text_eq key (text "sequence_ms")
    then sequence
    else if text_eq key (text "timeout") || text_eq key (text "timeout_ms")
    then timeout
    else if text_eq key (text "retries") || text_eq key (text "max_retries")
    then retries
    else TimingKey.other

apply_timing : Platform → TimingKey → Text → Intent → Intent
unfolding with_timeout with_retries set_param
apply_timing platform key [] i = i
apply_timing platform delay (c ∷ value) i = set_param platform i (text "delay_ms") (c ∷ value)
apply_timing platform hold (c ∷ value) i = set_param platform i (text "hold_ms") (c ∷ value)
apply_timing platform sequence (c ∷ value) i = set_param platform i (text "sequence_ms") (c ∷ value)
apply_timing platform timeout (c ∷ value) i = with_timeout i (parse_int (c ∷ value))
apply_timing platform retries (c ∷ value) i = with_retries i (parse_int (c ∷ value))
apply_timing platform TimingKey.other (c ∷ value) i = i

-- ApplyIntentTimingToken
unfoldable pub apply_intent_timing_token : Platform → Text → Intent → Intent
unfolding apply_timing timing_key
apply_intent_timing_token platform token i = elim (key_value token) [
  | none ↦ i
  | some (key, value) ↦ apply_timing platform (timing_key key) value i
]

-- The loop over the arguments behind the required ones
unfoldable pub apply_timing_tokens : Platform → List Text → Intent → Intent
apply_timing_tokens platform [] i = i
apply_timing_tokens platform (token ∷ tokens) i =
    apply_timing_tokens platform tokens (apply_intent_timing_token platform token i)

-- The target and parameters that a case of the switch sets
unfoldable pub with_ui_target : Platform → Text → Intent → Intent
with_ui_target platform target i = record i {
  target = record (i.target) { type = ui_element; label = wide platform target };
}

unfoldable pub with_path_target : Platform → Text → Intent → Intent
with_path_target platform path i = record i {
  target = record (i.target) {
    type = file_system_path;
    path = wide platform path;
    label = wide platform path;
  };
  params = assign i.params (text "path") (wide platform path);
}

-- The switch over the action, on the arguments behind the first
unfoldable pub build_target : Platform → Intent → IntentAction → List Text → Outcome Intent
unfolding set_param
build_target platform parsed activate (target ∷ tokens) =
    ok (apply_timing_tokens platform tokens (with_ui_target platform target parsed))
build_target platform parsed activate [] = error (text "UI action requires target")
build_target platform parsed select (target ∷ tokens) =
    ok (apply_timing_tokens platform tokens (with_ui_target platform target parsed))
build_target platform parsed select [] = error (text "UI action requires target")
build_target platform parsed set_value (target ∷ value ∷ tokens) = ok (
    apply_timing_tokens platform tokens
      (set_param platform (with_ui_target platform target parsed) (text "value") value))
build_target platform parsed set_value _ = error (text "set_value requires target and value")
build_target platform parsed create (path ∷ tokens) =
    ok (apply_timing_tokens platform tokens (with_path_target platform path parsed))
build_target platform parsed create [] = error (text "Filesystem action requires path")
build_target platform parsed delete (path ∷ tokens) =
    ok (apply_timing_tokens platform tokens (with_path_target platform path parsed))
build_target platform parsed delete [] = error (text "Filesystem action requires path")
build_target platform parsed move (path ∷ destination ∷ tokens) = ok (
    apply_timing_tokens platform tokens
      (set_param platform (with_path_target platform path parsed) (text "destination") destination))
build_target platform parsed move _ = error (text "move requires path and destination")
build_target platform parsed IntentAction.unknown args = error (text "Unsupported action")

unfoldable pub with_action : Intent → IntentAction → Intent
with_action template_intent action = record template_intent {
  name = action_to_string action;
  action = action;
  source = if is_empty template_intent.source then text "stream" else template_intent.source;
}

build_action : Platform → Intent → Text → IntentAction → List Text → Outcome Intent
build_action platform template_intent head IntentAction.unknown args =
    error (text "Unknown action: " ++ trim head)
build_action platform template_intent head action args =
    build_target platform (with_action template_intent action) action args

-- BuildIntentFromActionArgs
unfoldable pub build_intent_from_action_args : Platform → Intent → List Text → Outcome Intent
unfolding build_action
build_intent_from_action_args platform template_intent [] = error (text "Action step is empty")
build_intent_from_action_args platform template_intent (head ∷ args) =
    build_action platform template_intent head (intent_action_from_string (trim head)) args

with_delay : ActionStep → Option ℤ → ActionStep
with_delay step none = step
with_delay step (some ms) = if leb_ℤ (pos 0) ms then record step { delay_after_ms = ms } else step

abbrev pub max_repeat : ℕ
max_repeat = 128

-- std::min<std::size_t>(count, 128U)
unfoldable pub bounded_repeat : ℕ → ℕ
bounded_repeat count = if ltb max_repeat count then max_repeat else count

with_repeat : ActionStep → Option ℕ → ActionStep
with_repeat step none = step
with_repeat step (some count) =
    if ltb 0 count then record step { repeat_count = bounded_repeat count } else step

-- The three values that make a step optional
is_negative_word : Text → Bool
is_negative_word value =
    text_eq value (text "false") || text_eq value (text "0") || text_eq value (text "no")

-- The keys that ApplyStepToken tells apart
pub data StepKey : Type 0 where
  after required repeat other : StepKey

step_key : Text → StepKey
step_key key =
    if text_eq key (text "after") || text_eq key (text "delay_after_ms")
    then after
    else if text_eq key (text "required")
    then required
    else if text_eq key (text "repeat")
    then repeat
    else StepKey.other

apply_step_option : StepKey → Text → ActionStep → ActionStep
unfolding with_delay with_repeat is_negative_word
apply_step_option after value step = with_delay step (parse_int value)
apply_step_option required value step = record step {
  required = not (is_negative_word (normalize_ascii_lower value));
}
apply_step_option repeat value step = with_repeat step (parse_unsigned value)
apply_step_option StepKey.other value step = step

-- ApplyStepToken
unfoldable pub apply_step_token : Text → ActionStep → ActionStep
unfolding apply_step_option step_key
apply_step_token token step = elim (key_value token) [
  | none ↦ step
  | some (key, value) ↦ apply_step_option (step_key key) value step
]

-- The loops over the fields behind the expressions of a step
unfoldable pub apply_step_tokens : List Text → ActionStep → ActionStep
apply_step_tokens [] step = step
apply_step_tokens (field ∷ fields) step =
    apply_step_tokens fields (apply_step_token (trim field) step)
