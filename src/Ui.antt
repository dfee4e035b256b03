-- ===== src/Ui.antt =====
-- core/accessibility/include/UiElement.h, the parts of EnvironmentState
-- (core/execution/include/EnvironmentAdapter.h) that the modelled code reads, and IsTargetVisible of
-- core/execution/src/DecisionInterfaces.cpp.
use intent_execution_layer.Common.{ℕ, Bool, false, ◌||◌, List, [], ◌∷◌, ℤ, if◌then◌else◌, is_empty}
use intent_execution_layer.Text.{Text, text_eq, normalize_ascii_lower}
use intent_execution_layer.Intent.{Point}

pub data UiControlType : Type 0 where
  unknown window button text_box menu menu_item combo_box list_item document : UiControlType

pub record Rect : Type 0 where
  pub left : ℤ
  pub top : ℤ
  pub right : ℤ
  pub bottom : ℤ

pub record UiElement : Type 0 where
  pub id : Text
  pub parent_id : Text
  pub name : Text
  pub automation_id : Text
  pub class_name : Text
  pub control_type : UiControlType
  pub bounds : Rect
  pub depth : ℤ
  pub is_enabled : Bool
  pub is_offscreen : Bool
  pub is_visible : Bool
  pub is_collapsed : Bool
  pub is_hidden : Bool
  pub is_focused : Bool
  pub supports_invoke : Bool
  pub supports_value : Bool
  pub supports_selection : Bool
  pub access_key : Text
  pub accelerator_key : Text
  pub value : Text
  pub children : List Text
  pub last_interaction_ticks : ℕ

pub record EnvironmentState : Type 0 where
  pub sequence : ℕ
  pub source_snapshot_version : ℕ
  pub active_window_title : Text
  pub active_process_path : Text
  pub cursor_position : Point
  pub ui_elements : List UiElement

-- The loop of IsTargetVisible
unfoldable pub any_element_named : Text → List UiElement → Bool
any_element_named target [] = false
any_element_named target (e ∷ elements) =
    text_eq (normalize_ascii_lower e.name) target
    || text_eq (normalize_ascii_lower e.automation_id) target
    || any_element_named target elements

-- IsTargetVisible; its ToLower is NormalizeAsciiLower on wide characters
unfoldable pub is_target_visible : EnvironmentState → Text → Bool
unfolding any_element_named
is_target_visible state target =
    if is_empty target
    then false
    else any_element_named (normalize_ascii_lower target) state.ui_elements
