-- ===== src/Interaction/Generate.antt =====
-- The intents that a graph offers, and the lookups in it
-- (core/interaction/src/InteractionGraph.cpp).
pub mod Laws
use intent_execution_layer.Common.{
  ℕ, Bool, true, false, not, ◌&&◌, ◌||◌, List, [], ◌∷◌, ◌++◌, Option, none, some, if◌then◌else◌,
  is_empty, length, leb, pos, add_ℤ, half_ℤ,
}
use intent_execution_layer.Common.Sort.{sort}
use intent_execution_layer.Text.{Text, text, text_lt}
use intent_execution_layer.Text.Number.{to_decimal}
use intent_execution_layer.Text.Dict.{lookup, keys}
use intent_execution_layer.Platform.{Platform, wide}
use intent_execution_layer.Double.{Double, DoubleOps, double_lt, zero_d, clamp_unit}
use intent_execution_layer.Intent.{
  Intent, IntentAction, ui_element, Params, Point, action_eq, action_to_string, assign,
  default_intent,
}
use intent_execution_layer.Ui.{Rect}
use intent_execution_layer.Interaction.{
  PlanStep, ExecutionPlan, RevealStrategy, NodeIntentBinding, InteractionNode, InteractionGraph,
  action_for_node_type, is_interactive_node_type,
}

-- FindNode
unfoldable pub find_node : InteractionGraph → Text → Option InteractionNode
find_node graph node_id = lookup node_id graph.nodes

-- GetExecutionPlan
unfoldable pub get_execution_plan : InteractionGraph → Text → Option ExecutionPlan
get_execution_plan graph node_id = elim (lookup node_id graph.nodes) [
  | none ↦ none
  | some node ↦ some node.execution_plan
]

-- GetRevealStrategy
unfoldable pub get_reveal_strategy : InteractionGraph → Text → Option RevealStrategy
get_reveal_strategy graph node_id = elim (lookup node_id graph.nodes) [
  | none ↦ none
  | some node ↦ some node.reveal_strategy
]

-- GetIntentBinding
unfoldable pub get_intent_binding : InteractionGraph → Text → Option NodeIntentBinding
get_intent_binding graph node_id = elim (lookup node_id graph.nodes) [
  | none ↦ none
  | some node ↦ some node.intent_binding
]

-- The action of an intent: the bound one, or that of the node's type
unfoldable pub generated_action : InteractionNode → IntentAction
generated_action node =
    if action_eq node.intent_binding.action IntentAction.unknown
    then action_for_node_type node.type
    else node.intent_binding.action

-- intent.target.screenCenter; the sums of the bounds are `int`s.
screen_center_of : Rect → Point
screen_center_of r = record { x = half_ℤ (add_ℤ r.left r.right); y = half_ℤ (add_ℤ r.top r.bottom) }

-- if (condition) { intent.params.values[key] = value }
assign_if : Bool → Text → Text → Params → Params
assign_if condition key value params = if condition then assign params key value else params

first_action : Platform → List PlanStep → Params → Params
first_action platform [] params = params
first_action platform (step ∷ steps) params =
    assign params (text "next_step") (wide platform step.action)

bool_text : Bool → Text
bool_text b = if b then text "true" else text "false"

generated_params : Platform → InteractionNode → Params
unfolding assign_if bool_text first_action
generated_params platform node =
    let plan = node.execution_plan in
    let reveal = node.reveal_strategy in
    let p0 : Params = record { values = [] } in
    let p1 =
      assign_if (not (is_empty node.shortcut)) (text "shortcut") (wide platform node.shortcut) p0 in
    let p2 = assign_if (not node.enabled) (text "requires_enable") (text "true") p1 in
    let p3 = assign_if (not node.visible) (text "target_visibility") (text "hidden") p2 in
    let planned = not (is_empty plan.id) in
    let p4 = assign_if planned (text "plan_id") (wide platform plan.id) p3 in
    let p5 = assign_if planned (text "plan_step_count") (to_decimal (length plan.steps)) p4 in
    let p6 = assign_if planned (text "plan_executable") (bool_text plan.executable) p5 in
    let p7 = assign_if reveal.required (text "reveal_required") (text "true") p6 in
    let p8 =
      assign_if reveal.required (text "reveal_step_count") (to_decimal (length reveal.steps)) p7 in
    first_action platform plan.steps p8

-- The number that is clamped to [0,1]
reported_confidence : InteractionNode → Double
reported_confidence node =
    if double_lt zero_d node.state.confidence then node.state.confidence else node.confidence

-- The guards of the loop
unfoldable pub offers_intent : Bool → InteractionNode → Bool
offers_intent include_hidden node =
    not (not include_hidden && node.hidden) && is_interactive_node_type node.type

module _ (platform : Platform) (ops : DoubleOps) where
  -- GenerateIntent
  unfoldable pub generate_intent : InteractionNode → Intent
  unfolding screen_center_of generated_params reported_confidence
  generate_intent node =
      let action = generated_action node in
      let name = action_to_string action in
      record {
        id = text "uig-intent-" ++ node.id ++ text "-" ++ name;
        name = name;
        action = action;
        target = record {
          type = ui_element;
          label = wide platform node.label;
          automation_id = [];
          path = [];
          node_id = node.id;
          hierarchy_depth = pos 0;
          screen_center = screen_center_of node.bounds;
          focused = false;
        };
        params = generated_params platform node;
        context = default_intent.context;
        constraints = record default_intent.constraints {
          requires_verification = true;
          allow_fallback = true;
        };
        confidence = ops.to_float (clamp_unit (reported_confidence node));
        source = if is_empty node.source then text "UIA" else node.source;
      }

  -- The loop of GenerateIntents
  unfoldable pub generate_from : InteractionGraph → Bool → ℕ → List Text → List Intent → List Intent
  generate_from graph include_hidden max_intents [] intents = intents
  generate_from graph include_hidden max_intents (node_id ∷ node_ids) intents =
      elim (lookup node_id graph.nodes) [
        | none ↦ generate_from graph include_hidden max_intents node_ids intents
        | some node ↦ elim (offers_intent include_hidden node) [
          | false ↦ generate_from graph include_hidden max_intents node_ids intents
          | true ↦
              let pushed = intents ++ generate_intent node ∷ [] in
              elim (leb max_intents (length pushed)) [
                | true ↦ pushed
                | false ↦ generate_from graph include_hidden max_intents node_ids pushed
              ]
        ]
      ]

  -- GenerateIntents
  unfoldable pub generate_intents : InteractionGraph → Bool → ℕ → List Intent
  generate_intents graph include_hidden max_intents =
      generate_from graph include_hidden max_intents (sort text_lt (keys graph.nodes)) []
