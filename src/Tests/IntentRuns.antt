-- ===== src/Tests/IntentRuns.antt =====
-- Intents, their names and their JSON at short texts.
use intent_execution_layer.Common.{
  ◌≡◌, ◌↔◌, refl, true, [], ◌∷◌, ◌++◌, some, none, all, if◌then◌else◌,
}
use intent_execution_layer.Text.{
  Text, text, text_eq, find, find_char, normalize_ascii_lower, starts_with,
}
use intent_execution_layer.Text.Find.{absent_before}
use intent_execution_layer.Intent.{
  Intent, is_valid, valid, intent_action_from_string, assign, assign_value, find_value, has,
  default_intent, action_to_string,
}
use intent_execution_layer.Float.{float_lt}
use intent_execution_layer.Platform.{wide}
use intent_execution_layer.Intent.Valid.{IsWellFormed, is_valid_iff}
use intent_execution_layer.Intent.Json.{
  escape_json, key_pattern, extract_json_string, extract_json_float, after_key, after_char,
  resolve_target_type, target_type_from_action, copy_params, copy_param, param_keys, read_intent,
  deserialize,
}
use intent_execution_layer.Intent.Json.Escape.{
  read_string_body, is_writable, is_plain, read_string_body-escape_json,
}
use intent_execution_layer.Intent.Json.Serialize.{string_member}
use intent_execution_layer.Intent.Json.Extract.{extract-quoted_value}
use intent_execution_layer.Tests.{ascii_platform, click}

is_valid_iff_example : (is_valid click ≡ valid) ↔ IsWellFormed click
is_valid_iff_example = is_valid_iff click

read_string_body-escape_json_example :
    read_string_body (escape_json (text "say \"hi\""))
    ≡ (if all is_writable (text "say \"hi\"") then some (text "say \"hi\"") else none)
read_string_body-escape_json_example = read_string_body-escape_json (text "say \"hi\"")

backspace_stays_bare : read_string_body (escape_json (8 ∷ [])) ≡ none
unfolding escape_json
backspace_stays_bare = refl

click_plain : all is_plain (text "click") ≡ true
unfolding text
click_plain = refl

quoted_first :
    absent_before
      (key_pattern (text "name"))
      (text "{")
      (string_member (text "name") (text "click" ++ b'"' ∷ text "me") ++ text "}")
    ≡ true
unfolding key_pattern string_member escape_json text starts_with
quoted_first = refl

extract-quoted_value_example :
    extract_json_string
      (text "{" ++ (string_member (text "name") (text "click" ++ b'"' ∷ text "me") ++ text "}"))
      (text "name")
    ≡ some (text "click" ++ b'\\' ∷ [])
extract-quoted_value_example =
    extract-quoted_value (text "{") (text "name") (text "click") (text "me") (text "}") quoted_first
      click_plain

abbrev payload : Text
payload = text "{\"action\":\"activate\",\"label\":\"OK\",\"value\":\"v\"}"

abbrev read_back : Intent
read_back = read_intent ascii_platform payload (text "activate")

payload_accepted : deserialize ascii_platform payload ≡ some read_back
unfolding deserialize is_valid read_intent extract_json_string extract_json_float after_key
    after_char find find_char key_pattern starts_with text text_eq intent_action_from_string
    normalize_ascii_lower resolve_target_type target_type_from_action copy_params copy_param
    param_keys assign assign_value find_value has default_intent float_lt action_to_string wide
payload_accepted = refl
