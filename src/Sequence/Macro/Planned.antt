-- ===== src/Sequence/Macro/Planned.antt =====
-- How many executions a sequence plans, and how many are made.
use intent_execution_layer.Common.{
  ℕ, zero, suc, ◌+◌, ◌≤◌, ◌≡◌, refl, ◌∙◌, inl, inr, Bool, true, false, List, [], ◌∷◌, Option, none,
  some, arith, is_empty, Bool-cases, Option-cases,
}
use intent_execution_layer.Intent.{Intent}
use intent_execution_layer.Execution.{ExecutionResult}
use intent_execution_layer.Ui.{EnvironmentState}
use intent_execution_layer.Sequence.{ActionStep, ActionSequence}
use intent_execution_layer.Sequence.Macro.{
  Runner, Progress, selected_intent, prepare_intent, repetitions, record_result, request_stop,
  delay_after, run_repetitions, run_step, run_steps, start_progress, finish, execute_sequence,
}
use intent_execution_layer.Sequence.Macro.Rule.{breaks_off}

-- The executions of a step: its repetitions, if it selects an intent
unfoldable pub planned_of : Option EnvironmentState → ActionStep → ℕ
planned_of state step = elim (selected_intent state step) [ none ↦ 0 | some i ↦ repetitions step ]

unfoldable pub planned : Option EnvironmentState → List ActionStep → ℕ
planned state [] = 0
planned state (step ∷ steps) = planned_of state step + planned state steps

-- The attempts so far are at most the planned ones, and as many if the run does not stop on failure.
record Within (stop_on_failure : Bool) (from budget : ℕ) {W : Type 0} (p : Progress W)
    : Type 0 where
  at_most : p.attempted ≤ from + budget
  exact : stop_on_failure ≡ false → p.attempted ≡ from + budget
  unstopped : stop_on_failure ≡ false → p.stop_requested ≡ false

module _ {W : Type 0} (runner : Runner W) (stop_on_failure : Bool) where
  attempt :
      (step : ActionStep) (r : ExecutionResult) (w : W) (p : Progress W)
      → ((delay_after runner step (record_result runner r w p)).attempted ≡ p.attempted + 1)
        × ((delay_after runner step (record_result runner r w p)).stop_requested ≡ p.stop_requested)
  unfolding delay_after record_result
  attempt step r w p = ground arith

  stopped_attempt :
      (r : ExecutionResult) (w : W) (p : Progress W)
      → (request_stop runner r (record_result runner r w p)).attempted ≡ p.attempted + 1
  unfolding request_stop record_result
  stopped_attempt r w p = refl

  run_repetitions-Within :
      (left : ℕ) (step : ActionStep) (i : Intent) (p : Progress W)
      → (stop_on_failure ≡ false → p.stop_requested ≡ false)
      → Within stop_on_failure p.attempted left
          (run_repetitions runner left stop_on_failure step i p)
  unfolding run_repetitions
  run_repetitions-Within zero step i p u = record {
    at_most = omega arith;
    exact = λ k. omega arith;
    unstopped = u;
  }
  run_repetitions-Within (suc left) step i p u =
      let (r, w) = runner.execute i p.world in
      let next = delay_after runner step (record_result runner r w p) in
      let (one_more, same) = attempt step r w p in
      elim (Bool-cases (breaks_off stop_on_failure step r)) [
        | inl e ↦
            rw (e, run_repetitions)
              (record {
                at_most = omega (arith, stopped_attempt r w p);
                exact = λ k. ground (arith, e);
                unstopped = λ k. ground (arith, e);
              })
        | inr e ↦
            let ih = run_repetitions-Within left step i next (λ k. same ∙ u k) in
            rw (e, run_repetitions)
              (record {
                at_most = omega (arith, ih.at_most, one_more);
                exact = λ k. omega (arith, ih.exact k, one_more);
                unstopped = ih.unstopped;
              })
      ]

  run_step-Within :
      (state : Option EnvironmentState) (step : ActionStep) (p : Progress W)
      → (stop_on_failure ≡ false → p.stop_requested ≡ false)
      → Within stop_on_failure p.attempted
          (planned_of state step)
          (run_step runner state stop_on_failure step p)
  unfolding run_step planned_of
  run_step-Within state step p u = elim (Option-cases (selected_intent state step)) [
    | inl e ↦
        rw (e, run_step, planned_of)
          (record { at_most = omega arith; exact = λ k. omega arith; unstopped = u })
    | inr (i, e) ↦
        rw (e, run_step, planned_of)
          (run_repetitions-Within (repetitions step) step (prepare_intent state i) p u)
  ]

  run_steps-Within :
      (state : Option EnvironmentState) (steps : List ActionStep) (p : Progress W)
      → (stop_on_failure ≡ false → p.stop_requested ≡ false)
      → Within stop_on_failure p.attempted
          (planned state steps)
          (run_steps runner state stop_on_failure steps p)
  unfolding run_steps planned
  run_steps-Within state [] p u = record {
    at_most = omega arith;
    exact = λ k. omega arith;
    unstopped = u;
  }
  run_steps-Within state (step ∷ steps) p u = elim (Bool-cases p.stop_requested) [
    | inl e ↦
        rw (e, run_steps) (record { at_most = omega arith; exact = λ k. cc (u k); unstopped = u })
    | inr e ↦
        let first = run_step-Within state step p u in
        let ih =
          run_steps-Within state steps (run_step runner state stop_on_failure step p)
            first.unstopped in
        rw (e, run_steps)
          (record {
            at_most = omega (arith, first.at_most, ih.at_most);
            exact = λ k. omega (arith, first.exact k, ih.exact k);
            unstopped = ih.unstopped;
          })
  ]

  starts :
      (w : W)
      → ((start_progress runner w).attempted ≡ 0)
        × ((start_progress runner w).stop_requested ≡ false)
  unfolding start_progress
  starts w = (refl, refl)

module _ {W : Type 0} (runner : Runner W) where
  finished-Within :
      (sequence : ActionSequence) (state : Option EnvironmentState) (w : W)
      → is_empty sequence.steps ≡ false
      → Within sequence.stop_on_failure 0 (planned state sequence.steps) (
          run_steps runner state sequence.stop_on_failure sequence.steps
            (start_progress runner (runner.now w).1))
  finished-Within sequence state w h =
      let p = start_progress runner (runner.now w).1 in
      let (none_yet, running) = starts runner sequence.stop_on_failure (runner.now w).1 in
      let run =
        run_steps-Within runner sequence.stop_on_failure state sequence.steps p (λ k. running) in
      record {
        at_most = omega (arith, run.at_most, none_yet);
        exact = λ k. omega (arith, run.exact k, none_yet);
        unstopped = run.unstopped;
      }

  attempted_of :
      (sequence : ActionSequence) (state : Option EnvironmentState) (w : W)
      → is_empty sequence.steps ≡ false
      → (execute_sequence runner sequence state w).0.attempted_steps
        ≡ (run_steps runner state sequence.stop_on_failure sequence.steps
            (start_progress runner (runner.now w).1)).attempted
  unfolding execute_sequence finish
  attempted_of sequence state w h = rw h refl

  attempted_nothing :
      (sequence : ActionSequence) (state : Option EnvironmentState) (w : W)
      → is_empty sequence.steps ≡ true
      → ((execute_sequence runner sequence state w).0.attempted_steps ≡ 0)
        × (planned state sequence.steps ≡ 0)
  unfolding execute_sequence planned
  attempted_nothing sequence state w h = ground arith

  -- A run never makes more executions than its steps plan: the repetitions of each step, once at
  -- least, if the step selects an intent.
  pub execute_sequence-le-planned :
      (sequence : ActionSequence) (state : Option EnvironmentState) (w : W)
      → (execute_sequence runner sequence state w).0.attempted_steps ≤ planned state sequence.steps
  execute_sequence-le-planned sequence state w = elim (Bool-cases (is_empty sequence.steps)) [
    | inl e ↦ omega (arith, attempted_nothing sequence state w e)
    | inr e ↦
        omega (arith, attempted_of sequence state w e, (finished-Within sequence state w e).at_most)
  ]

  -- A run that does not stop on failure makes all the executions that its steps plan.
  pub execute_sequence-eq-planned :
      (sequence : ActionSequence) (state : Option EnvironmentState) (w : W)
      → sequence.stop_on_failure ≡ false
      → (execute_sequence runner sequence state w).0.attempted_steps ≡ planned state sequence.steps
  execute_sequence-eq-planned sequence state w k = elim (Bool-cases (is_empty sequence.steps)) [
    | inl e ↦ omega (arith, attempted_nothing sequence state w e)
    | inr e ↦
        omega (arith, attempted_of sequence state w e, (finished-Within sequence state w e).exact k)
  ]
