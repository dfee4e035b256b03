-- ===== src/Intent/Json.antt =====
-- The JSON parts of core/intent/src/Intent.cpp: EscapeJson, the two extraction helpers,
-- and Intent::Deserialize.
pub mod Serialize
pub mod Escape
pub mod Extract
pub mod Deserialize
use intent_execution_layer.Common.{
  ℕ, suc, ◌+◌, Bool, ◌||◌, ◌&&◌, List, [], ◌∷◌, ◌++◌, Option, none, some, ◌==◌, leb, if◌then◌else◌,
  length, take, drop,
}
use intent_execution_layer.Common.Optional.{◌>>=◌, value_or}
use intent_execution_layer.Text.{Text, text, text_eq, find, find_char, normalize_ascii_lower}
use intent_execution_layer.Float.{Float, one_f}
use intent_execution_layer.Platform.{Platform, wide}
use intent_execution_layer.Intent.{
  Intent, IntentAction, activate, set_value, select, create, delete, move, TargetType, ui_element,
  file_system_path, Params, assign, action_to_string, intent_action_from_string, default_intent,
  Verdict, valid, invalid, is_valid,
}

-- The switch of EscapeJson, on one byte
escape_byte : ℕ → Text
escape_byte ch =
    if ch == b'"'
    then b'\\' ∷ b'"' ∷ []
    else if ch == b'\\'
    then b'\\' ∷ b'\\' ∷ []
    else if ch == b'\n'
    then b'\\' ∷ b'n' ∷ []
    else if ch == b'\r'
    then b'\\' ∷ b'r' ∷ []
    else if ch == b'\t'
    then b'\\' ∷ b't' ∷ []
    else ch ∷ []

unfoldable pub escape_json : Text → Text
unfolding escape_byte
escape_json [] = []
escape_json (ch ∷ value) = escape_byte ch ++ escape_json value

-- "\"" + key + "\""
unfoldable pub key_pattern : Text → Text
key_pattern key = b'"' ∷ (key ++ b'"' ∷ [])

-- The text behind the first occurrence of the byte
unfoldable pub after_char : ℕ → Text → Option Text
after_char c s = do at ← find_char c s; some (drop (suc at) s)

-- The text behind the colon that follows the first occurrence of the quoted key
unfoldable pub after_key : Text → Text → Option Text
after_key payload key = do
  key_pos ← find (key_pattern key) payload
  after_char b':' (drop (key_pos + length (key_pattern key)) payload)

unfoldable pub extract_json_string : Text → Text → Option Text
extract_json_string payload key = do
  member ← after_key payload key
  opened ← after_char b'"' member
  second_quote ← find_char b'"' opened
  some (take second_quote opened)

is_json_space : ℕ → Bool
is_json_space c = c == b' ' || c == b'\t' || c == b'\n' || c == b'\r'

-- payload.find_first_not_of(" \t\n\r", …)
skip_spaces : Text → Text
unfolding is_json_space
skip_spaces [] = []
skip_spaces (c ∷ s) = let rest = skip_spaces s in if is_json_space c then rest else c ∷ s

is_number_byte : ℕ → Bool
is_number_byte ch = leb b'0' ch && leb ch b'9' || ch == b'-' || ch == b'+' || ch == b'.'

-- The loop of ExtractJsonFloat that finds the end of the token
number_token : Text → Text
unfolding is_number_byte
number_token [] = []
number_token (ch ∷ s) = let rest = number_token s in if is_number_byte ch then ch ∷ rest else []

parse_token : Platform → Text → Option Float
parse_token platform [] = none
parse_token platform (ch ∷ s) = platform.stof (ch ∷ s)

unfoldable pub extract_json_float : Platform → Text → Text → Option Float
unfolding skip_spaces number_token parse_token
extract_json_float platform payload key = do
  member ← after_key payload key
  parse_token platform (number_token (skip_spaces member))

unfoldable pub target_type_from_action : IntentAction → TargetType
target_type_from_action activate = ui_element
target_type_from_action set_value = ui_element
target_type_from_action select = ui_element
target_type_from_action create = file_system_path
target_type_from_action delete = file_system_path
target_type_from_action move = file_system_path
target_type_from_action IntentAction.unknown = TargetType.unknown

unfoldable pub parse_target_type : Text → TargetType
parse_target_type value =
    if text_eq (normalize_ascii_lower value) (text "ui")
    then ui_element
    else if text_eq (normalize_ascii_lower value) (text "fs")
    then file_system_path
    else if text_eq (normalize_ascii_lower value) (text "filesystem")
    then file_system_path
    else TargetType.unknown

-- The target type that the action implies stands in for one that is missing or not understood.
or_from_action : IntentAction → TargetType → TargetType
unfolding target_type_from_action
or_from_action action ui_element = ui_element
or_from_action action file_system_path = file_system_path
or_from_action action TargetType.unknown = target_type_from_action action

unfoldable pub resolve_target_type : IntentAction → Option Text → TargetType
unfolding or_from_action
resolve_target_type action none = target_type_from_action action
resolve_target_type action (some token) = or_from_action action (parse_target_type token)

-- A parameter is set if the payload has it.
unfoldable pub copy_param : Platform → Text → Text → Params → Params
copy_param platform payload key params = elim (extract_json_string payload key) [
  | none ↦ params
  | some value ↦ assign params key (wide platform value)
]

unfoldable pub param_keys : List Text
unfolding text
param_keys =
    text "value"
    ∷ text "path"
    ∷ text "destination"
    ∷ text "move_x"
    ∷ text "move_y"
    ∷ text "aim_dx"
    ∷ text "aim_dy"
    ∷ text "look_dx"
    ∷ text "look_dy"
    ∷ text "fire"
    ∷ text "interact"
    ∷ []

unfoldable pub copy_params : Platform → Text → List Text → Params → Params
unfolding copy_param
copy_params platform payload [] params = params
copy_params platform payload (key ∷ keys) params =
    copy_params platform payload keys (copy_param platform payload key params)

-- The intent that Deserialize has filled in before it validates
unfoldable pub read_intent : Platform → Text → Text → Intent
unfolding default_intent resolve_target_type copy_params
read_intent platform payload action_token =
    let action : IntentAction = intent_action_from_string action_token in
    record default_intent {
      id = value_or (extract_json_string payload (text "id")) [];
      name = value_or (extract_json_string payload (text "name")) (action_to_string action);
      action = action;
      target = record (default_intent.target) {
        type = resolve_target_type action (extract_json_string payload (text "type"));
        label = wide platform (value_or (extract_json_string payload (text "label")) []);
        automation_id =
            wide platform (value_or (extract_json_string payload (text "automationId")) []);
        path = wide platform (value_or (extract_json_string payload (text "path")) []);
        node_id = value_or (extract_json_string payload (text "nodeId")) [];
      };
      params = copy_params platform payload param_keys default_intent.params;
      confidence = value_or (extract_json_float platform payload (text "confidence")) one_f;
      source = value_or (extract_json_string payload (text "source")) (text "api");
    }

accept : Intent → Verdict → Option Intent
accept i valid = some i
accept i (invalid message) = none

-- Intent::Deserialize
unfoldable pub deserialize : Platform → Text → Option Intent
unfolding accept
deserialize platform payload = do
  action_token ← extract_json_string payload (text "action")
  let i = read_intent platform payload action_token
  accept i (is_valid i)
