-- ===== src/Contract/Reveal/Outcome.antt =====
-- What the success and the message of a reveal say.
use intent_execution_layer.Common.{
  ℕ, ◌+◌, ◌≡◌, refl, true, false, not, ◌&&◌, List, [], ◌∷◌, ◌++◌, length, ℤ, ◌==◌, arith, inl, inr,
  Bool-cases,
}
use intent_execution_layer.Text.{Text, text, text_eq}
use intent_execution_layer.Platform.{Platform}
use intent_execution_layer.Interaction.{PlanStep, InteractionNode, is_node_revealed}
use intent_execution_layer.Contract.{Port, RevealExecutionResult, initial_reveal, lookup_node}
use intent_execution_layer.Contract.Execute.{can_defer}
use intent_execution_layer.Contract.Reveal.{
  bounded_retries, found_revealed, run_reveal_step, verify_reveal, run_reveal_steps, reveal,
}
use intent_execution_layer.Contract.Reveal.Laws.{run_reveal_step-Attempts}

step_failed_message :
    (id : Text)
    → text_eq (text "reveal_step_failed:" ++ id) (text "reveal_verification_failed") ≡ false
unfolding text_eq text
step_failed_message id = refl

module _ {W : Type 0} (platform : Platform) (port : Port W) where
  -- A success needs all of the `n` steps and a last lookup that finds the node revealed; a failed
  -- verification is a failure after which no step is left open.
  abbrev EndsWell : InteractionNode → ℕ → RevealExecutionResult × W → Type 0
  EndsWell node n end =
      let r = end.0 in
      (r.success ≡ true
        → (r.completed_steps ≡ n)
          × ((w : W) × (found_revealed (lookup_node platform port node.id w).0 ≡ true)
              × (end.1 ≡ (lookup_node platform port node.id w).1)))
      × (text_eq r.message (text "reveal_verification_failed")
          ≡ (not r.success && r.completed_steps == r.attempted_steps))

  verify_reveal-EndsWell :
      (node : InteractionNode) (n : ℕ) (r : RevealExecutionResult) (w : W)
      → r.completed_steps ≡ r.attempted_steps
      → r.completed_steps ≡ n
      → EndsWell node n (verify_reveal platform port node r w)
  unfolding verify_reveal text_eq text
  verify_reveal-EndsWell node n r w h k =
      elim (Bool-cases (found_revealed (lookup_node platform port node.id w).0)) [
        | inl e ↦ rw (verify_reveal, e) (λ s. (k, (w, e, refl)), refl)
        | inr e ↦ rw (verify_reveal, e) (λ s. cc, ground (arith, h))
      ]

  run_reveal_steps-EndsWell :
      (retries : ℕ) (node : InteractionNode) (n : ℕ) (steps : List PlanStep)
      (r : RevealExecutionResult) (w : W)
      → r.completed_steps ≡ r.attempted_steps
      → r.completed_steps + length steps ≡ n
      → EndsWell node n (run_reveal_steps platform port retries node steps r w)
  unfolding run_reveal_steps
  run_reveal_steps-EndsWell retries node n [] r w h k =
      verify_reveal-EndsWell node n r w h (omega (arith, k))
  run_reveal_steps-EndsWell retries node n (step ∷ steps) r w h k =
      let counted : RevealExecutionResult = record r { attempted_steps = r.attempted_steps + 1 } in
      let (completed, r', w') = run_reveal_step platform port retries node step counted w in
      let once = run_reveal_step-Attempts platform port retries node step counted w in
      elim (Bool-cases completed) [
        | inl e ↦
            let next : RevealExecutionResult = record r' {
              completed_steps = r'.completed_steps + 1;
            } in
            rw (run_reveal_steps, e)
              (run_reveal_steps-EndsWell retries node n steps next w' (omega (arith, once, h))
                (omega (arith, once, k)))
        | inr e ↦
            let open_step : (r'.completed_steps == r'.attempted_steps) ≡ false =
              ground (arith, once, h) in
            rw (run_reveal_steps, e, step_failed_message step.id, open_step) (λ s. cc, refl)
      ]

  reveal-EndsWell :
      (node : InteractionNode) (retries : ℤ) (w : W)
      → node.reveal_strategy.required ≡ true
      → is_node_revealed node ≡ false
      → EndsWell node (length node.reveal_strategy.steps) (reveal platform port node retries w)
  unfolding reveal
  reveal-EndsWell node retries w required hidden =
      rw (reveal, required, hidden)
        (run_reveal_steps-EndsWell (bounded_retries retries) node
          (length node.reveal_strategy.steps) node.reveal_strategy.steps
          (record initial_reveal { attempted = true }) w refl (omega arith))

  -- A reveal of a node that needs one and is not revealed yet succeeds only if it completed all the
  -- steps of the strategy and the last lookup of the node, with which it ends, finds it revealed.
  pub reveal_success :
      (node : InteractionNode) (retries : ℤ) (w : W)
      → node.reveal_strategy.required ≡ true
      → is_node_revealed node ≡ false
      → (reveal platform port node retries w).0.success ≡ true
      → ((reveal platform port node retries w).0.completed_steps
          ≡ length node.reveal_strategy.steps)
        × ((u : W) × (found_revealed (lookup_node platform port node.id u).0 ≡ true)
            × ((reveal platform port node retries w).1 ≡ (lookup_node platform port node.id u).1))
  reveal_success node retries w required hidden = (reveal-EndsWell node retries w required hidden).0

  -- The message of a reveal of such a node says that the verification failed exactly if the reveal
  -- failed with no attempted step left incomplete: a contract defers every failure but that of a step.
  reveal_deferral :
      (node : InteractionNode) (retries : ℤ) (w : W)
      → node.reveal_strategy.required ≡ true
      → is_node_revealed node ≡ false
      → let r = (reveal platform port node retries w).0 in
        can_defer r ≡ (not r.success && r.completed_steps == r.attempted_steps)
  unfolding can_defer
  reveal_deferral node retries w required hidden =
      ground (arith, (reveal-EndsWell node retries w required hidden).1)
