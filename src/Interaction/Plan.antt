-- ===== src/Interaction/Plan.antt =====
-- What is planned for a node: how it is revealed, and how it is acted on
-- (core/interaction/src/InteractionGraph.cpp).
pub mod Laws
use intent_execution_layer.Common.{
  ℕ, zero, suc, ◌+◌, ◌-◌, ◌*◌, ◌/◌, ◌%◌, ◌^◌, Bool, true, false, not, ◌&&◌, ◌||◌, List, [], ◌∷◌,
  ◌++◌, if◌then◌else◌, ◌==◌, is_empty, length, ltb,
}
use intent_execution_layer.Text.{Text, text, text_eq}
use intent_execution_layer.Text.Number.{to_decimal}
use intent_execution_layer.Intent.{IntentAction, action_to_string}
use intent_execution_layer.Engine.{xor_bits}
use intent_execution_layer.Interaction.{
  NodeId, InteractionDescriptor, InteractionState, PlanStep, ExecutionPlan, RevealStrategy,
  NodeIntentBinding, InteractionNode, is_interactive_node_type, action_for_node_type,
}

-- The loop of StableHash, FNV-1a on 64 bits
hash_bytes : Text → ℕ → ℕ
hash_bytes [] hash = hash
hash_bytes (ch ∷ input) hash = hash_bytes input ((xor_bits 64 hash ch * 1099511628211) % 2 ^ 64)

unfoldable pub stable_hash : Text → ℕ
unfolding hash_bytes
stable_hash input = let hash = hash_bytes input 1469598103934665603 in if hash == 0 then 1 else hash

-- The digit that std::hex prints
hex_digit : ℕ → ℕ
hex_digit d = if ltb d 10 then b'0' + d else b'a' + (d - 10)

-- The last `n` hexadecimal digits, before `tail`
hex_digits : ℕ → ℕ → Text → Text
unfolding hex_digit
hex_digits zero value tail = tail
hex_digits (suc n) value tail = hex_digits n (value / 16) (hex_digit (value % 16) ∷ tail)

-- HexFromHash: sixteen digits
unfoldable pub hex_from_hash : ℕ → Text
unfolding hex_digits
hex_from_hash value = hex_digits 16 value []

-- BuildStepId
unfoldable pub build_step_id : Text → Text → Text → ℕ → Text
build_step_id node_id action target_id index =
    text "step-"
    ++ hex_from_hash (
        stable_hash
          (node_id ++ text "|" ++ action ++ text "|" ++ target_id ++ text "|" ++ to_decimal index))

-- MakeStep with the id of BuildStepId
unfoldable pub make_step : Text → Text → Text → ℕ → Text → Bool → PlanStep
make_step node_id action target_id index argument requires_visible = record {
  id = build_step_id node_id action target_id index;
  action = action;
  target_id = target_id;
  argument = argument;
  requires_visible = requires_visible;
}

-- steps.push_back(…) under a condition; the index of a step is the number of those before it.
unfoldable pub push_step : Bool → Text → Text → Text → List PlanStep → List PlanStep
push_step condition node_id action target_id steps =
    if condition
    then steps ++ make_step node_id action target_id (length steps) [] false ∷ []
    else steps

unfoldable pub reveal_steps : InteractionNode → List PlanStep
reveal_steps node =
    let expanded =
      push_step (node.collapsed && not (is_empty node.parent_id)) node.id (text "expand_parent")
        node.parent_id [] in
    let focused =
      push_step (node.hidden && not (is_empty node.parent_id)) node.id (text "focus_parent")
        node.parent_id expanded in
    let scrolled = push_step node.offscreen node.id (text "scroll_into_view") node.id focused in
    push_step (is_empty scrolled) node.id (text "probe_visibility") node.id scrolled

-- BuildRevealStrategy
unfoldable pub build_reveal_strategy : InteractionNode → RevealStrategy
build_reveal_strategy node =
    if not (node.hidden || node.offscreen || node.collapsed)
    then record { required = false; guaranteed = true; reason = text "already_visible"; steps = [] }
    else (let steps = reveal_steps node in
        let guaranteed = not (is_empty steps) in
        record {
          required = true;
          guaranteed = guaranteed;
          reason = if guaranteed then text "reveal_required" else text "reveal_unavailable";
          steps = steps;
        })

-- The last step of a plan
unfoldable pub final_step : InteractionNode → ℕ → PlanStep
final_step node index =
    if is_interactive_node_type node.type
    then make_step node.id (action_to_string (action_for_node_type node.type)) node.id index
        node.shortcut true
    else make_step node.id (text "observe") node.id index [] false

-- Whether the plan can be executed, and the reason
unfoldable pub plan_verdict : InteractionNode → RevealStrategy → Bool × Text
plan_verdict node reveal =
    if not (is_interactive_node_type node.type)
    then (false, text "non_interactive")
    else if not node.enabled
    then (false, text "node_disabled")
    else if reveal.required && not reveal.guaranteed
    then (false, text "reveal_unavailable")
    else (true, if reveal.required then text "ready_with_reveal" else text "ready")

-- BuildExecutionPlan
unfoldable pub build_execution_plan : InteractionNode → RevealStrategy → ExecutionPlan
build_execution_plan node reveal =
    let (executable, reason) = plan_verdict node reveal in
    record {
      id = text "plan-" ++ node.id;
      steps = reveal.steps ++ final_step node (length reveal.steps) ∷ [];
      executable = executable;
      reason = reason;
    }

-- BuildIntentBinding
unfoldable pub build_intent_binding :
    InteractionNode → ExecutionPlan → RevealStrategy → NodeIntentBinding
build_intent_binding node plan reveal = record {
  node_id = node.id;
  action =
      if is_interactive_node_type node.type
      then action_for_node_type node.type
      else IntentAction.unknown;
  plan = plan;
  reveal = reveal;
}

describe : InteractionNode → InteractionDescriptor
describe node = record {
  id = node.id;
  node_id = node.node_id;
  label = node.label;
  type = node.type;
  parent_id = node.parent_id;
  source = node.source;
  ui_element_id = node.ui_element_id;
  automation_id = node.ui_element_id;
  shortcut = node.shortcut;
  access_key = [];
  bounds = node.bounds;
  children = node.children;
  command_node = text_eq node.type (text "command");
}

state_of : InteractionNode → ℕ → InteractionState
state_of node sequence = record {
  visible = node.visible;
  enabled = node.enabled;
  offscreen = node.offscreen;
  collapsed = node.collapsed;
  hidden = node.hidden;
  sequence = sequence;
  confidence = node.confidence;
}

-- PopulateNodeContracts
unfoldable pub populate_node_contracts : ℕ → InteractionNode → InteractionNode
unfolding describe state_of
populate_node_contracts sequence node =
    let reveal = build_reveal_strategy node in
    let plan = build_execution_plan node reveal in
    record node {
      descriptor = describe node;
      state = state_of node sequence;
      reveal_strategy = reveal;
      execution_plan = plan;
      intent_binding = build_intent_binding node plan reveal;
    }
