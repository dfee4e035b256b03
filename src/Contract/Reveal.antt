-- ===== src/Contract/Reveal.antt =====
-- RevealExecutor (core/execution/src/RevealExecutor.cpp): the steps that make a node visible, each
-- with its retries. A step count is an `int` of the source, at most the number of steps times six.
pub mod Laws
pub mod Outcome
use intent_execution_layer.Common.{
  ℕ, zero, suc, ◌+◌, Bool, true, false, not, ◌&&◌, ◌||◌, List, [], ◌∷◌, ◌++◌, Option, none, some,
  if◌then◌else◌, is_empty, ℤ, pos, negsuc, ltb,
}
use intent_execution_layer.Common.Optional.{value_or}
use intent_execution_layer.Text.{Text, text, text_eq}
use intent_execution_layer.Platform.{Platform, wide}
use intent_execution_layer.Float.{one_f}
use intent_execution_layer.Intent.{
  Intent, Params, activate, ui_element, action_to_string, assign, default_intent,
}
use intent_execution_layer.Execution.{ExecutionResult, is_success}
use intent_execution_layer.Interaction.{PlanStep, InteractionNode, is_node_revealed}
use intent_execution_layer.Contract.{Port, RevealExecutionResult, initial_reveal, lookup_node}

-- std::clamp(maxRetriesPerStep, 0, 5)
unfoldable pub bounded_retries : ℤ → ℕ
bounded_retries (pos n) = if ltb 5 n then 5 else n
bounded_retries (negsuc n) = 0

-- The node that a step is about
unfoldable pub step_node_id : InteractionNode → PlanStep → Text
step_node_id source step = if is_empty step.target_id then source.id else step.target_id

reveal_params : Platform → PlanStep → Params
reveal_params platform step =
    let p : Params =
      assign (record { values = [] }) (text "reveal_action") (wide platform step.action) in
    if is_empty step.argument then p else assign p (text "argument") (wide platform step.argument)

-- BuildRevealIntent
unfoldable pub build_reveal_intent :
    Platform → InteractionNode → InteractionNode → PlanStep → Intent
unfolding reveal_params
build_reveal_intent platform source target step = record default_intent {
  action = activate;
  name = action_to_string activate;
  source = text "reveal_executor";
  confidence = one_f;
  target = record default_intent.target {
    type = ui_element;
    label = wide platform (if is_empty target.label then source.label else target.label);
    node_id = step_node_id source step;
  };
  constraints = record {
    timeout_ms = pos 1200;
    max_retries = pos 0;
    requires_verification = false;
    allow_fallback = true;
  };
  params = reveal_params platform step;
}

-- What an execution of a step changes in the result
unfoldable pub count_attempt : ExecutionResult → RevealExecutionResult → RevealExecutionResult
count_attempt x r = record r {
  total_step_attempts = r.total_step_attempts + 1;
  fallback_used = r.fallback_used || x.used_fallback;
  fallback_step_count =
      if x.used_fallback then r.fallback_step_count + 1 else r.fallback_step_count;
  step_results = r.step_results ++ x ∷ [];
}

-- refreshedNode.has_value() && IsNodeRevealed(*refreshedNode)
unfoldable pub found_revealed : Option InteractionNode → Bool
found_revealed none = false
found_revealed (some node) = is_node_revealed node

module _ {W : Type 0} (platform : Platform) (port : Port W) where
  -- The loop over the attempts that are left; whether one of them succeeded
  unfoldable pub run_attempts :
      ℕ → InteractionNode → PlanStep → RevealExecutionResult → W → Bool × RevealExecutionResult × W
  run_attempts zero node step r w = (false, r, w)
  run_attempts (suc left) node step r w =
      let (found, w1) = lookup_node platform port (step_node_id node step) w in
      let (x, w2) =
        port.execute (build_reveal_intent platform node (value_or found node) step) w1 in
      elim (is_success x) [
        | true ↦ (true, count_attempt x r, w2)
        | false ↦ run_attempts left node step (count_attempt x r) w2
      ]

  -- One step, after it is counted
  unfoldable pub run_reveal_step :
      ℕ → InteractionNode → PlanStep → RevealExecutionResult → W → Bool × RevealExecutionResult × W
  run_reveal_step retries node step r w = elim (text_eq step.action (text "probe_visibility")) [
    | true ↦
        let (found, w') = lookup_node platform port node.id w in
        (found_revealed found, record r { total_step_attempts = r.total_step_attempts + 1 }, w')
    | false ↦ run_attempts (retries + 1) node step r w
  ]

  -- The last lookup
  unfoldable pub verify_reveal :
      InteractionNode → RevealExecutionResult → W → RevealExecutionResult × W
  verify_reveal node r w =
      let (found, w') = lookup_node platform port node.id w in
      (
        if found_revealed found
            then record r { success = true; message = text "reveal_completed" }
            else record r { success = false; message = text "reveal_verification_failed" },
        w',
      )

  -- The loop over the steps, and what follows it
  unfoldable pub run_reveal_steps :
      ℕ → InteractionNode → List PlanStep → RevealExecutionResult → W → RevealExecutionResult × W
  run_reveal_steps retries node [] r w = verify_reveal node r w
  run_reveal_steps retries node (step ∷ steps) r w =
      let (completed, r', w') =
        run_reveal_step retries node step (record r { attempted_steps = r.attempted_steps + 1 })
          w in
      elim completed [
        | true ↦
            run_reveal_steps retries node steps
              (record r' { completed_steps = r'.completed_steps + 1 }) w'
        | false ↦
            (record r' { success = false; message = text "reveal_step_failed:" ++ step.id }, w')
      ]

  -- Execute
  unfoldable pub reveal : InteractionNode → ℤ → W → RevealExecutionResult × W
  reveal node max_retries_per_step w = elim (node.reveal_strategy.required) [
    | false ↦ (record initial_reveal { message = text "reveal_not_required" }, w)
    | true ↦ elim (is_node_revealed node) [
      | true ↦ (record initial_reveal { attempted = true; message = text "already_revealed" }, w)
      | false ↦
          run_reveal_steps (bounded_retries max_retries_per_step) node node.reveal_strategy.steps
            (record initial_reveal { attempted = true }) w
    ]
  ]
