-- ===== src/Contract/Reveal/Laws.antt =====
-- How much a reveal does, and what its result says.
use intent_execution_layer.Common.{
  ℕ, zero, suc, ◌+◌, ◌*◌, ◌≤◌, ◌≡◌, List, [], ◌∷◌, length, length-append, ℤ, pos, negsuc, arith,
  inl, inr, Bool-cases,
}
use intent_execution_layer.Common.Optional.{value_or}
use intent_execution_layer.Text.{text, text_eq}
use intent_execution_layer.Platform.{Platform}
use intent_execution_layer.Execution.{ExecutionResult, is_success}
use intent_execution_layer.Interaction.{PlanStep, InteractionNode, is_node_revealed}
use intent_execution_layer.Contract.{Port, RevealExecutionResult, lookup_node}
use intent_execution_layer.Contract.Reveal.{
  bounded_retries, step_node_id, build_reveal_intent, count_attempt, found_revealed, run_attempts,
  run_reveal_step, verify_reveal, run_reveal_steps, reveal,
}

bounded_retries-le : (n : ℤ) → bounded_retries n ≤ 5
unfolding bounded_retries
bounded_retries-le (pos n) = ground arith
bounded_retries-le (negsuc n) = omega arith

-- From `r` to `r'` at most `n` attempts were counted, of which those that executed an intent added a
-- result, and at most these a fallback; no step was counted.
abbrev Attempts : ℕ → RevealExecutionResult → RevealExecutionResult → Type 0
Attempts n r r' =
    (r'.attempted_steps ≡ r.attempted_steps)
    × (r'.completed_steps ≡ r.completed_steps)
    × (r'.total_step_attempts ≤ r.total_step_attempts + n)
    × (length r'.step_results + r.total_step_attempts
        ≤ length r.step_results + r'.total_step_attempts)
    × (r'.fallback_step_count + length r.step_results
        ≤ r.fallback_step_count + length r'.step_results)

module _ {W : Type 0} (platform : Platform) (port : Port W) where
  count_attempt-Attempts :
      (x : ExecutionResult) (r : RevealExecutionResult) → Attempts 1 r (count_attempt x r)
  unfolding count_attempt
  count_attempt-Attempts x r = ground (arith, length-append r.step_results (x ∷ []))

  run_attempts-Attempts :
      (left : ℕ) (node : InteractionNode) (step : PlanStep) (r : RevealExecutionResult) (w : W)
      → Attempts left r (run_attempts platform port left node step r w).1
  unfolding run_attempts
  run_attempts-Attempts zero node step r w = omega arith
  run_attempts-Attempts (suc left) node step r w =
      let (found, w1) = lookup_node platform port (step_node_id node step) w in
      let (x, w2) =
        port.execute (build_reveal_intent platform node (value_or found node) step) w1 in
      let once = count_attempt-Attempts x r in
      elim (Bool-cases (is_success x)) [
        | inl e ↦ rw (run_attempts, e) (omega (arith, once))
        | inr e ↦
            rw (run_attempts, e)
              (omega (arith, once, run_attempts-Attempts left node step (count_attempt x r) w2))
      ]

  pub run_reveal_step-Attempts :
      (retries : ℕ) (node : InteractionNode) (step : PlanStep) (r : RevealExecutionResult) (w : W)
      → Attempts (retries + 1) r (run_reveal_step platform port retries node step r w).1
  unfolding run_reveal_step
  run_reveal_step-Attempts retries node step r w =
      elim (Bool-cases (text_eq step.action (text "probe_visibility"))) [
        | inl e ↦ rw (run_reveal_step, e) (omega arith)
        | inr e ↦ rw (run_reveal_step, e) (run_attempts-Attempts (retries + 1) node step r w)
      ]

  -- From `r` to the end of a reveal that has `n` more steps
  abbrev Reveals : ℕ → RevealExecutionResult → RevealExecutionResult → Type 0
  Reveals n r r' =
      (r'.attempted_steps ≤ r.attempted_steps + n)
      × (r'.completed_steps + r.attempted_steps ≤ r.completed_steps + r'.attempted_steps)
      × (r.completed_steps + r'.attempted_steps ≤ r'.completed_steps + r.attempted_steps + 1)
      × (r'.total_step_attempts ≤ r.total_step_attempts + n * 6)
      × (length r'.step_results + r.total_step_attempts
          ≤ length r.step_results + r'.total_step_attempts)
      × (r'.fallback_step_count + length r.step_results
          ≤ r.fallback_step_count + length r'.step_results)

  verify_reveal-Reveals :
      (node : InteractionNode) (r : RevealExecutionResult) (w : W)
      → Reveals 0 r (verify_reveal platform port node r w).0
  unfolding verify_reveal
  verify_reveal-Reveals node r w =
      elim (Bool-cases (found_revealed (lookup_node platform port node.id w).0)) [
        | inl e ↦ rw e (omega arith)
        | inr e ↦ rw e (omega arith)
      ]

  run_reveal_steps-Reveals :
      (retries : ℕ) (node : InteractionNode) (steps : List PlanStep) (r : RevealExecutionResult)
      (w : W)
      → retries ≤ 5
      → Reveals (length steps) r (run_reveal_steps platform port retries node steps r w).0
  unfolding run_reveal_steps
  run_reveal_steps-Reveals retries node [] r w h = verify_reveal-Reveals node r w
  run_reveal_steps-Reveals retries node (step ∷ steps) r w h =
      let counted : RevealExecutionResult = record r { attempted_steps = r.attempted_steps + 1 } in
      let (completed, r', w') = run_reveal_step platform port retries node step counted w in
      let once = run_reveal_step-Attempts retries node step counted w in
      elim (Bool-cases completed) [
        | inl e ↦
            let later =
              run_reveal_steps-Reveals retries node steps
                (record r' { completed_steps = r'.completed_steps + 1 }) w' h in
            rw (run_reveal_steps, e) (omega (arith, once, later))
        | inr e ↦ rw (run_reveal_steps, e) (omega (arith, once))
      ]

  -- A reveal attempts at most the steps of the node's strategy, and completes all of those that it
  -- attempts or all but the last. It makes at most six attempts for each step of the strategy, holds
  -- at most one result for each attempt, and counts at most as many fallbacks as it holds results.
  pub reveal_bounds :
      (node : InteractionNode) (retries : ℤ) (w : W)
      → let r = (reveal platform port node retries w).0 in
        (r.attempted_steps ≤ length node.reveal_strategy.steps)
        × (r.completed_steps ≤ r.attempted_steps)
        × (r.attempted_steps ≤ r.completed_steps + 1)
        × (r.total_step_attempts ≤ length node.reveal_strategy.steps * 6)
        × (length r.step_results ≤ r.total_step_attempts)
        × (r.fallback_step_count ≤ length r.step_results)
  unfolding reveal
  reveal_bounds node retries w = elim (Bool-cases node.reveal_strategy.required) [
    | inr e ↦ rw (reveal, e) (omega arith)
    | inl e ↦ elim (Bool-cases (is_node_revealed node)) [
      | inl v ↦ rw (reveal, e, v) (omega arith)
      | inr v ↦
          rw (reveal, e, v)
            (omega (
              arith,
              run_reveal_steps-Reveals (bounded_retries retries) node node.reveal_strategy.steps _ w
                  (bounded_retries-le retries),
            ))
    ]
  ]
