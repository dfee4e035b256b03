-- ===== src/Capability.antt =====
-- core/capability/include/CapabilityExtractor.h, core/capability/src/CapabilityExtractor.cpp without
-- its log line, and core/intent/src/IntentNormalizer.cpp: what a snapshot allows to do, and the
-- intents for it.
pub mod Normal
use intent_execution_layer.Common.{
  ℕ, ◌*◌, ◌%◌, ◌^◌, Bool, true, false, not, ◌&&◌, ◌||◌, List, [], ◌∷◌, ◌++◌, map, if◌then◌else◌,
  is_empty,
}
use intent_execution_layer.Text.{Text, text}
use intent_execution_layer.Double.{Double, DoubleOps, one_d}
use intent_execution_layer.Platform.{Platform}
use intent_execution_layer.Intent.{
  Intent, IntentAction, TargetType, ui_element, file_system_path, action_to_string, assign_value,
  default_intent,
}
use intent_execution_layer.Ui.{
  UiElement, UiControlType, button, text_box, menu, menu_item, combo_box, list_item, document,
  window,
}
use intent_execution_layer.Engine.{xor_bits}
use intent_execution_layer.Intents.{hex_of}

pub data CapabilityAction : Type 0 where
  activate set_value select create delete move : CapabilityAction

pub record Capability : Type 0 where
  pub id : Text
  pub action : CapabilityAction
  pub target : Text
  pub parameters : List (Text × Text)
  pub confidence : Double
  pub source : Text

-- The fields of FileSystemEntry (core/observer/include/ObserverEngine.h) that are read
pub record FileSystemEntry : Type 0 where
  pub path : Text
  pub is_directory : Bool

-- ToString
unfoldable pub capability_to_string : CapabilityAction → Text
capability_to_string activate = text "activate"
capability_to_string set_value = text "set_value"
capability_to_string select = text "select"
capability_to_string create = text "create"
capability_to_string delete = text "delete"
capability_to_string move = text "move"

-- 0.99, 0.98 and 0.96
abbrev pub activate_confidence : Double
activate_confidence = 0x3fef_ae14_7ae1_47ae

abbrev pub set_value_confidence : Double
set_value_confidence = 0x3fef_5c28_f5c2_8f5c

abbrev pub select_confidence : Double
select_confidence = 0x3fee_b851_eb85_1eb8

is_button : UiControlType → Bool
is_button button = true
is_button text_box = false
is_button menu = false
is_button menu_item = false
is_button combo_box = false
is_button list_item = false
is_button document = false
is_button window = false
is_button UiControlType.unknown = false

is_text_box : UiControlType → Bool
is_text_box text_box = true
is_text_box button = false
is_text_box menu = false
is_text_box menu_item = false
is_text_box combo_box = false
is_text_box list_item = false
is_text_box document = false
is_text_box window = false
is_text_box UiControlType.unknown = false

is_choice : UiControlType → Bool
is_choice menu = true
is_choice menu_item = true
is_choice combo_box = true
is_choice list_item = true
is_choice button = false
is_choice text_box = false
is_choice document = false
is_choice window = false
is_choice UiControlType.unknown = false

-- A capability before its id is set
unfoldable pub new_capability :
    CapabilityAction → Text → List (Text × Text) → Double → Text → Capability
new_capability action target parameters confidence source = record {
  id = [];
  action = action;
  target = target;
  parameters = parameters;
  confidence = confidence;
  source = source;
}

-- The text by which an element is named
unfoldable pub capability_target : UiElement → Text
capability_target e = if not (is_empty e.name) then e.name else e.automation_id

-- The body of the loop of ExtractUiCapabilities, for a target that is not empty
unfoldable pub element_capabilities : UiElement → Text → List Capability
unfolding is_button is_text_box is_choice
element_capabilities e target =
    (if is_button e.control_type && e.supports_invoke
      then new_capability activate target [] activate_confidence (text "uia") ∷ []
      else [])
    ++ ((if is_text_box e.control_type && e.supports_value
          then new_capability set_value target ((text "value", []) ∷ []) set_value_confidence
              (text "uia")
            ∷ []
          else [])
        ++ (if is_choice e.control_type && (e.supports_selection || e.supports_invoke)
            then new_capability select target [] select_confidence (text "uia") ∷ []
            else []))

-- ExtractUiCapabilities
unfoldable pub extract_ui_capabilities : List UiElement → List Capability
extract_ui_capabilities [] = []
extract_ui_capabilities (e ∷ elements) =
    let target = capability_target e in
    let rest = extract_ui_capabilities elements in
    if is_empty target then rest else element_capabilities e target ++ rest

-- The loop of ExtractFileCapabilities
unfoldable pub extract_entries : List FileSystemEntry → List Capability
extract_entries [] = []
extract_entries (entry ∷ entries) =
    let rest = extract_entries entries in
    if entry.is_directory
    then rest
    else new_capability delete entry.path ((text "path", entry.path) ∷ []) one_d (text "filesystem")
      ∷ new_capability move entry.path
          (assign_value (text "operation") (text "rename_or_move")
            (assign_value (text "destination") [] ((text "path", entry.path) ∷ [])))
          one_d (text "filesystem")
      ∷ rest

-- ExtractFileCapabilities
unfoldable pub extract_file_capabilities : List FileSystemEntry → List Capability
extract_file_capabilities entries =
    new_capability create (text "filesystem") ((text "path", []) ∷ []) one_d (text "filesystem")
    ∷ extract_entries entries

-- BuildCapabilityId
unfoldable pub build_capability_id : Platform → Capability → Text
build_capability_id platform c =
    let seed =
      xor_bits 64
        (xor_bits 64 (platform.hash_string (capability_to_string c.action))
          ((platform.hash_wstring c.target * 2) % 2 ^ 64))
        ((platform.hash_string c.source * 4) % 2 ^ 64) in
    text "cap-" ++ hex_of 16 seed []

with_capability_id : Platform → Capability → Capability
with_capability_id platform c = record c { id = build_capability_id platform c }

-- Extract
unfoldable pub extract : Platform → List UiElement → List FileSystemEntry → List Capability
unfolding with_capability_id
extract platform elements entries =
    map (with_capability_id platform)
      (extract_ui_capabilities elements ++ extract_file_capabilities entries)

-- ToIntentAction
unfoldable pub to_intent_action : CapabilityAction → IntentAction
to_intent_action activate = IntentAction.activate
to_intent_action set_value = IntentAction.set_value
to_intent_action select = IntentAction.select
to_intent_action create = IntentAction.create
to_intent_action delete = IntentAction.delete
to_intent_action move = IntentAction.move

-- The type of the target of an action
unfoldable pub normalized_target_type : IntentAction → TargetType
normalized_target_type IntentAction.create = file_system_path
normalized_target_type IntentAction.delete = file_system_path
normalized_target_type IntentAction.move = file_system_path
normalized_target_type IntentAction.activate = ui_element
normalized_target_type IntentAction.set_value = ui_element
normalized_target_type IntentAction.select = ui_element
normalized_target_type IntentAction.unknown = ui_element

normalized_path : TargetType → Text → Text
normalized_path file_system_path target = target
normalized_path ui_element target = []
normalized_path TargetType.unknown target = []

-- Normalize
unfoldable pub normalize : DoubleOps → Capability → Intent
unfolding normalized_path
normalize ops c =
    let action = to_intent_action c.action in
    let type = normalized_target_type action in
    record default_intent {
      action = action;
      name = action_to_string action;
      target = record default_intent.target {
        type = type;
        path = normalized_path type c.target;
        label = c.target;
      };
      params = record { values = c.parameters };
      confidence = ops.to_float c.confidence;
      source = c.source;
    }
