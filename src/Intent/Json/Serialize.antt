-- ===== src/Intent/Json/Serialize.antt =====
-- Intent::Serialize of core/intent/src/Intent.cpp.
use intent_execution_layer.Common.{
  suc, Bool, true, false, List, [], ◌∷◌, ◌++◌, if◌then◌else◌, is_empty, ℤ, pos, negsuc,
}
use intent_execution_layer.Text.{Text, text}
use intent_execution_layer.Text.Number.{to_decimal}
use intent_execution_layer.Platform.{Platform, narrow}
use intent_execution_layer.Intent.{
  Intent, TargetType, ui_element, file_system_path, Target, Constraints, action_to_string,
}
use intent_execution_layer.Intent.Json.{escape_json, key_pattern}

bool_to_json : Bool → Text
bool_to_json true = text "true"
bool_to_json false = text "false"

int_to_string : ℤ → Text
int_to_string (pos n) = to_decimal n
int_to_string (negsuc n) = b'-' ∷ to_decimal (suc n)

target_type_to_json : TargetType → Text
target_type_to_json ui_element = text "ui"
target_type_to_json file_system_path = text "fs"
target_type_to_json TargetType.unknown = text "unknown"

-- "key":"escaped value"
unfoldable pub string_member : Text → Text → Text
unfolding key_pattern
string_member key value = key_pattern key ++ (b':' ∷ b'"' ∷ (escape_json value ++ b'"' ∷ []))

-- "key":value
raw_member : Text → Text → Text
raw_member key value = key_pattern key ++ (b':' ∷ value)

-- Members, or the entries of the parameter map, with commas between them
comma_separated : List Text → Text
comma_separated [] = []
comma_separated (m ∷ []) = m
comma_separated (m ∷ n ∷ ms) = m ++ (b',' ∷ comma_separated (n ∷ ms))

json_object : List Text → Text
unfolding comma_separated
json_object members = b'{' ∷ (comma_separated members ++ b'}' ∷ [])

param_members : Platform → List (Text × Text) → List Text
param_members platform [] = []
param_members platform ((key, value) ∷ rest) =
    string_member (escape_json key) (narrow platform value) ∷ param_members platform rest

serialize_target : Platform → Target → Text
unfolding bool_to_json int_to_string target_type_to_json raw_member json_object
serialize_target platform t = json_object (
    string_member (text "type") (target_type_to_json t.type)
    ∷ string_member (text "label") (narrow platform t.label)
    ∷ string_member (text "automationId") (narrow platform t.automation_id)
    ∷ string_member (text "path") (narrow platform t.path)
    ∷ string_member (text "nodeId") t.node_id
    ∷ raw_member (text "depth") (int_to_string t.hierarchy_depth)
    ∷ raw_member (text "focused") (bool_to_json t.focused)
    ∷ raw_member (text "x") (int_to_string t.screen_center.x)
    ∷ raw_member (text "y") (int_to_string t.screen_center.y)
    ∷ [])

serialize_constraints : Constraints → Text
unfolding bool_to_json int_to_string raw_member json_object
serialize_constraints c = json_object (
    raw_member (text "timeoutMs") (int_to_string c.timeout_ms)
    ∷ raw_member (text "maxRetries") (int_to_string c.max_retries)
    ∷ raw_member (text "requiresVerification") (bool_to_json c.requires_verification)
    ∷ raw_member (text "allowFallback") (bool_to_json c.allow_fallback)
    ∷ [])

serialized_name : Intent → Text
serialized_name i = if is_empty i.name then action_to_string i.action else i.name

-- Intent::Serialize
unfoldable pub serialize : Platform → Intent → Text
unfolding serialized_name serialize_target serialize_constraints param_members
serialize platform i = json_object (
    string_member (text "id") i.id
    ∷ string_member (text "name") (serialized_name i)
    ∷ string_member (text "action") (action_to_string i.action)
    ∷ string_member (text "source") i.source
    ∷ raw_member (text "confidence") (platform.float_to_string i.confidence)
    ∷ raw_member (text "target") (serialize_target platform i.target)
    ∷ raw_member (text "params") (json_object (param_members platform i.params.values))
    ∷ raw_member (text "constraints") (serialize_constraints i.constraints)
    ∷ [])
