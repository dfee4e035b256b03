-- ===== src/Sequence/Macro/Rule.antt =====
-- An induction rule for the loops of the macro executor: one predicate while the run goes on, one
-- after a required step has failed.
use intent_execution_layer.Common.{
  ℕ, zero, suc, ◌≡◌, refl, ◌⊎◌, inl, inr, Bool, true, false, not, ◌&&◌, List, [], ◌∷◌, Option,
  arith, All, Bool-cases, Option-cases,
}
use intent_execution_layer.Intent.{Intent}
use intent_execution_layer.Execution.{ExecutionResult, is_success}
use intent_execution_layer.Ui.{EnvironmentState}
use intent_execution_layer.Sequence.{ActionStep}
use intent_execution_layer.Sequence.Macro.{
  Runner, Progress, prepare_intent, selected_intent, repetitions, record_result, request_stop,
  delay_after, run_repetitions, run_step, run_steps,
}

-- Whether the result ends the run
abbrev pub breaks_off : Bool → ActionStep → ExecutionResult → Bool
breaks_off stop_on_failure step r = not (is_success r) && (stop_on_failure && step.required)

module _ {W : Type 0} (runner : Runner W) (stop_on_failure : Bool) (Suits : ActionStep → Type 0)
    (Going Done : Progress W → Type 0)
    (goes_on : (step : ActionStep) (r : ExecutionResult) (w : W) (p : Progress W)
      → Suits step
      → breaks_off stop_on_failure step r ≡ false
      → Going p
      → Going (delay_after runner step (record_result runner r w p)))
    (ends : (step : ActionStep) (r : ExecutionResult) (w : W) (p : Progress W)
      → Suits step
      → breaks_off stop_on_failure step r ≡ true
      → Going p
      → Done (request_stop runner r (record_result runner r w p))) where
  abbrev pub Ended : Progress W → Type 0
  Ended p = ((p.stop_requested ≡ false) × Going p) ⊎ ((p.stop_requested ≡ true) × Done p)

  stays_on :
      (step : ActionStep) (r : ExecutionResult) (w : W) (p : Progress W)
      → p.stop_requested ≡ false
      → (delay_after runner step (record_result runner r w p)).stop_requested ≡ false
  unfolding delay_after record_result
  stays_on step r w p h = ground arith

  stops :
      (r : ExecutionResult) (w : W) (p : Progress W)
      → (request_stop runner r (record_result runner r w p)).stop_requested ≡ true
  unfolding request_stop
  stops r w p = refl

  run_repetitions-Ended :
      (left : ℕ) (step : ActionStep) (i : Intent) (p : Progress W)
      → Suits step
      → p.stop_requested ≡ false
      → Going p
      → Ended (run_repetitions runner left stop_on_failure step i p)
  unfolding run_repetitions
  run_repetitions-Ended zero step i p s h g = inl (h, g)
  run_repetitions-Ended (suc left) step i p s h g =
      let (r, w) = runner.execute i p.world in
      elim (Bool-cases (breaks_off stop_on_failure step r)) [
        | inl e ↦ rw (e, run_repetitions) (inr (stops r w p, ends step r w p s e g))
        | inr e ↦
            rw (e, run_repetitions)
              (run_repetitions-Ended left step i
                (delay_after runner step (record_result runner r w p)) s (stays_on step r w p h)
                (goes_on step r w p s e g))
      ]

  run_step-Ended :
      (state : Option EnvironmentState) (step : ActionStep) (p : Progress W)
      → Suits step
      → p.stop_requested ≡ false
      → Going p
      → Ended (run_step runner state stop_on_failure step p)
  unfolding run_step
  run_step-Ended state step p s h g = elim (Option-cases (selected_intent state step)) [
    | inl e ↦ rw (e, run_step) (inl (h, g))
    | inr (i, e) ↦
        rw (e, run_step)
          (run_repetitions-Ended (repetitions step) step (prepare_intent state i) p s h g)
  ]

  pub run_steps-Ended :
      (state : Option EnvironmentState) (steps : List ActionStep) (p : Progress W)
      → All Suits steps
      → Ended p
      → Ended (run_steps runner state stop_on_failure steps p)
  unfolding run_steps
  run_steps-Ended state [] p s e = e
  run_steps-Ended state (step ∷ steps) p s (inl (h, g)) =
      rw (h, run_steps)
        (run_steps-Ended state steps (run_step runner state stop_on_failure step p) s.1
          (run_step-Ended state step p s.0 h g))
  run_steps-Ended state (step ∷ steps) p s (inr (h, d)) = rw (h, run_steps) (inr (h, d))
