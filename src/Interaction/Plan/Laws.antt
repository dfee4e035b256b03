-- ===== src/Interaction/Plan/Laws.antt =====
-- What a plan holds, and when it can be executed.
use intent_execution_layer.Common.{
  ◌+◌, ◌≡◌, refl, Bool, true, false, not, ◌&&◌, ◌||◌, List, [], ◌∷◌, if◌then◌else◌, is_empty,
  length, count_if, count_if-append, length-append, ◌∙◌, ap, arith, Bool-cases, inl, inr,
}
use intent_execution_layer.Text.{Text, text}
use intent_execution_layer.Interaction.{PlanStep, InteractionNode, is_interactive_node_type}
use intent_execution_layer.Interaction.Plan.{
  make_step, push_step, reveal_steps, build_reveal_strategy, final_step, plan_verdict,
  build_execution_plan,
}

push_step-nonempty :
    (c : Bool) (n a t : Text) (steps : List PlanStep)
    → is_empty (push_step c n a t steps) ≡ (is_empty steps && not c)
unfolding push_step
push_step-nonempty c n a t [] = ground arith
push_step-nonempty c n a t (s ∷ steps) = ground arith

push_step-hidden :
    (c : Bool) (n a t : Text) (steps : List PlanStep)
    → count_if (λ s. s.requires_visible) (push_step c n a t steps)
      ≡ count_if (λ s. s.requires_visible) steps
unfolding push_step make_step
push_step-hidden c n a t steps = ground (
  arith,
  count_if-append (λ s. s.requires_visible) steps (make_step n a t (length steps) [] false ∷ []),
)

reveal_steps-nonempty : (node : InteractionNode) → is_empty (reveal_steps node) ≡ false
unfolding reveal_steps
reveal_steps-nonempty node =
    let scrolled = push_step node.offscreen node.id (text "scroll_into_view") node.id (
      push_step (node.hidden && not (is_empty node.parent_id)) node.id (text "focus_parent")
        node.parent_id
        (push_step (node.collapsed && not (is_empty node.parent_id)) node.id (text "expand_parent")
          node.parent_id [])) in
    push_step-nonempty (is_empty scrolled) node.id (text "probe_visibility") node.id scrolled
    ∙ and_not (is_empty scrolled)
  where
    and_not : (b : Bool) → (b && not b) ≡ false
    and_not true = refl
    and_not false = refl

reveal_steps-hidden :
    (node : InteractionNode) → count_if (λ s. s.requires_visible) (reveal_steps node) ≡ 0
unfolding reveal_steps
reveal_steps-hidden node = simp push_step-hidden refl

-- The reveal strategy of a node is required exactly if the node is hidden, off the screen or
-- collapsed, it has steps exactly if it is required, none of them needs the node to be visible, and
-- it is always guaranteed.
pub build_reveal_strategy_lem :
    (node : InteractionNode)
    → ((build_reveal_strategy node).required ≡ (node.hidden || node.offscreen || node.collapsed))
      × (is_empty (build_reveal_strategy node).steps
          ≡ not (node.hidden || node.offscreen || node.collapsed))
      × (count_if (λ s. s.requires_visible) (build_reveal_strategy node).steps ≡ 0)
      × ((build_reveal_strategy node).guaranteed ≡ true)
unfolding build_reveal_strategy
build_reveal_strategy_lem node =
    elim (Bool-cases (node.hidden || node.offscreen || node.collapsed)) [
      | inl e ↦ rw e (
        refl,
        reveal_steps-nonempty node,
        reveal_steps-hidden node,
        ap not (reveal_steps-nonempty node),
      )
      | inr e ↦ rw e (refl, refl, refl, refl)
    ]

-- The plan of a node is executable exactly if the node's type is interactive and the node is enabled,
-- and it is the reveal steps, of which none needs the node to be visible, followed by one step that
-- does if the type is interactive.
pub build_execution_plan_lem :
    (node : InteractionNode)
    → ((build_execution_plan node (build_reveal_strategy node)).executable
        ≡ (is_interactive_node_type node.type && node.enabled))
      × (length (build_execution_plan node (build_reveal_strategy node)).steps
          ≡ length (build_reveal_strategy node).steps + 1)
      × (count_if
            (λ s. s.requires_visible)
            (build_execution_plan node (build_reveal_strategy node)).steps
          ≡ (if is_interactive_node_type node.type then 1 else 0))
unfolding build_execution_plan plan_verdict final_step make_step
build_execution_plan_lem node =
    let reveal = build_reveal_strategy node in
    let (required, nonempty, hidden, guaranteed) = build_reveal_strategy_lem node in
    let last = final_step node (length reveal.steps) in
    (
      ground (arith, guaranteed),
      length-append reveal.steps (last ∷ []),
      count_if-append (λ s. s.requires_visible) reveal.steps (last ∷ []) ∙ ground (arith, hidden),
    )
