-- ===== src/Intent/Json/Deserialize.antt =====
-- What Deserialize accepts, and what it fills in.
use mathlib.Core.Option
use intent_execution_layer.Common.{
  ◌≡◌, Bool, false, ◌||◌, List, [], ◌∷◌, Option, none, some, if◌then◌else◌,
}
use intent_execution_layer.Text.{Text, text, text_eq}
use intent_execution_layer.Common.Optional.{value_or}
use intent_execution_layer.Float.{one_f}
use intent_execution_layer.Platform.{Platform, wide}
use intent_execution_layer.Intent.{
  Intent, action_to_string, intent_action_from_string, find_value, default_intent,
}
use intent_execution_layer.Intent.Json.{
  extract_json_string, extract_json_float, resolve_target_type,
}

-- Whether the key is one of the list
abbrev pub mem_key : Text → List Text → Bool
mem_key key [] = false
mem_key key (k ∷ keys) = text_eq k key || mem_key key keys

or_else : Option Text → Option Text → Option Text
or_else none o = o
or_else (some v) o = some v

-- The keys of the parameters that are read
abbrev pub known_keys : List Text
known_keys =
    text "value"
    ∷ text "path"
    ∷ text "destination"
    ∷ text "move_x"
    ∷ text "move_y"
    ∷ text "aim_dx"
    ∷ text "aim_dy"
    ∷ text "look_dx"
    ∷ text "look_dy"
    ∷ text "fire"
    ∷ text "interact"
    ∷ []

-- The fields of an intent that a payload with the given strings and the given number stands for
pub record IsReadFrom (platform : Platform) (payload token : Text) (i : Intent) : Type 0 where
  pub action_read : i.action ≡ intent_action_from_string token
  pub id_read : i.id ≡ value_or (extract_json_string payload (text "id")) []
  pub name_read :
      i.name
      ≡ value_or
          (extract_json_string payload (text "name"))
          (action_to_string (intent_action_from_string token))
  pub type_read :
      i.target.type
      ≡ resolve_target_type
          (intent_action_from_string token)
          (extract_json_string payload (text "type"))
  pub label_read :
      i.target.label ≡ wide platform (value_or (extract_json_string payload (text "label")) [])
  pub automation_id_read :
      i.target.automation_id
      ≡ wide platform (value_or (extract_json_string payload (text "automationId")) [])
  pub path_read :
      i.target.path ≡ wide platform (value_or (extract_json_string payload (text "path")) [])
  pub node_id_read : i.target.node_id ≡ value_or (extract_json_string payload (text "nodeId")) []
  pub params_read :
      (key : Text)
      → find_value key i.params.values ≡ (
          if mem_key key known_keys
          then Option.map (wide platform) (extract_json_string payload key)
          else none)
  pub confidence_read :
      i.confidence ≡ value_or (extract_json_float platform payload (text "confidence")) one_f
  pub source_read : i.source ≡ value_or (extract_json_string payload (text "source")) (text "api")
  pub constraints_kept : i.constraints ≡ default_intent.constraints
  pub context_kept : i.context ≡ default_intent.context
