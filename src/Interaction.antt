-- ===== src/Interaction.antt =====
-- core/interaction/include/InteractionGraph.h: the nodes of the user interface and what is planned
-- for them, and the helpers of core/interaction/src/InteractionGraph.cpp on the types of nodes.
pub mod Paths
pub mod Plan
pub mod Build
pub mod Delta
pub mod Generate
use intent_execution_layer.Common.{ℕ, Bool, List, ◌||◌, if◌then◌else◌, ◌&&◌, not, is_empty}
use intent_execution_layer.Text.{Text, text, text_eq}
use intent_execution_layer.Double.{Double}
use intent_execution_layer.Intent.{IntentAction, activate, set_value, select}
use intent_execution_layer.Ui.{
  UiControlType, button, text_box, menu, menu_item, combo_box, list_item, document, window, Rect,
}

pub record NodeId : Type 0 where
  pub stable_id : Text
  pub signature : ℕ

pub record InteractionDescriptor : Type 0 where
  pub id : Text
  pub node_id : NodeId
  pub label : Text
  pub type : Text
  pub parent_id : Text
  pub source : Text
  pub ui_element_id : Text
  pub automation_id : Text
  pub shortcut : Text
  pub access_key : Text
  pub bounds : Rect
  pub children : List Text
  pub command_node : Bool

pub record InteractionState : Type 0 where
  pub visible : Bool
  pub enabled : Bool
  pub offscreen : Bool
  pub collapsed : Bool
  pub hidden : Bool
  pub sequence : ℕ
  pub confidence : Double

pub record PlanStep : Type 0 where
  pub id : Text
  pub action : Text
  pub target_id : Text
  pub argument : Text
  pub requires_visible : Bool

pub record ExecutionPlan : Type 0 where
  pub id : Text
  pub steps : List PlanStep
  pub executable : Bool
  pub reason : Text

pub record RevealStrategy : Type 0 where
  pub required : Bool
  pub guaranteed : Bool
  pub reason : Text
  pub steps : List PlanStep

pub record NodeIntentBinding : Type 0 where
  pub node_id : Text
  pub action : IntentAction
  pub plan : ExecutionPlan
  pub reveal : RevealStrategy

pub record GraphDelta : Type 0 where
  pub from_version : ℕ
  pub to_version : ℕ
  pub changed : Bool
  pub reset_required : Bool
  pub added_nodes : List Text
  pub updated_nodes : List Text
  pub removed_nodes : List Text

pub record CommandNode : Type 0 where
  pub id : Text
  pub name : Text
  pub shortcut : Text
  pub source : Text

pub record InteractionNode : Type 0 where
  pub id : Text
  pub label : Text
  pub type : Text
  pub visible : Bool
  pub enabled : Bool
  pub offscreen : Bool
  pub collapsed : Bool
  pub hidden : Bool
  pub children : List Text
  pub parent_id : Text
  pub source : Text
  pub ui_element_id : Text
  pub shortcut : Text
  pub bounds : Rect
  pub confidence : Double
  pub node_id : NodeId
  pub descriptor : InteractionDescriptor
  pub state : InteractionState
  pub execution_plan : ExecutionPlan
  pub reveal_strategy : RevealStrategy
  pub intent_binding : NodeIntentBinding

pub record InteractionEdge : Type 0 where
  pub from : Text
  pub to : Text

pub record InteractionGraph : Type 0 where
  pub sequence : ℕ
  pub version : ℕ
  pub signature : ℕ
  pub nodes : List (Text × InteractionNode)
  pub edges : List InteractionEdge
  pub commands : List CommandNode
  pub valid : Bool

-- NodeTypeFromControl
unfoldable pub node_type_from_control : UiControlType → Text
unfolding text
node_type_from_control button = text "button"
node_type_from_control text_box = text "text_box"
node_type_from_control menu = text "menu"
node_type_from_control menu_item = text "menu_item"
node_type_from_control combo_box = text "combo_box"
node_type_from_control list_item = text "list_item"
node_type_from_control document = text "document"
node_type_from_control window = text "window"
node_type_from_control UiControlType.unknown = text "unknown"

-- IsInteractiveNodeType
unfoldable pub is_interactive_node_type : Text → Bool
is_interactive_node_type type =
    text_eq type (text "button")
    || text_eq type (text "text_box")
    || text_eq type (text "menu")
    || text_eq type (text "menu_item")
    || text_eq type (text "combo_box")
    || text_eq type (text "list_item")
    || text_eq type (text "document")
    || text_eq type (text "command")

-- ActionForNodeType
unfoldable pub action_for_node_type : Text → IntentAction
action_for_node_type type =
    if text_eq type (text "text_box") || text_eq type (text "document")
    then set_value
    else if text_eq type (text "menu")
        || text_eq type (text "menu_item")
        || text_eq type (text "combo_box")
        || text_eq type (text "list_item")
    then select
    else activate

-- IsNodeRevealed of core/execution/src/RevealExecutor.cpp
unfoldable pub is_node_revealed : InteractionNode → Bool
is_node_revealed node = not node.hidden && not node.offscreen && not node.collapsed && node.visible
