-- ===== src/Sequence/Macro/Counts.antt =====
-- The counters of a run agree with the list of results.
use intent_execution_layer.Common.{
  ℕ, ◌≡◌, refl, ◌⊎◌, inl, inr, Bool, false, List, [], ◌∷◌, Option, arith, length, length-append,
  count_if, count_if-append, count_if-le, all, all-eq-count_if, All, is_empty, Bool-cases, ltb_ℤ,
  pos,
}
use intent_execution_layer.Execution.{ExecutionResult, is_success}
use intent_execution_layer.Ui.{EnvironmentState}
use intent_execution_layer.Sequence.{ActionStep, ActionSequence}
use intent_execution_layer.Sequence.Macro.{
  Runner, ActionSequenceResult, Progress, record_result, request_stop, delay_after, run_steps,
  start_progress, finish, execute_sequence,
}
use intent_execution_layer.Sequence.Macro.Rule.{run_steps-Ended}

module _ {W : Type 0} where
  record IsCounted (p : Progress W) : Type 0 where
    attempts : p.attempted ≡ length p.results
    completions : p.completed ≡ count_if is_success p.results

  module _ (runner : Runner W) where
    record_result-IsCounted :
        (r : ExecutionResult) (w : W) (p : Progress W)
        → IsCounted p
        → IsCounted (record_result runner r w p)
    unfolding record_result
    record_result-IsCounted r w p c = record {
      attempts = omega (arith, c.attempts, length-append p.results (r ∷ []));
      completions = ground (arith, c.completions, count_if-append is_success p.results (r ∷ []));
    }

    delay_after-IsCounted :
        (step : ActionStep) (p : Progress W) → IsCounted p → IsCounted (delay_after runner step p)
    unfolding delay_after
    delay_after-IsCounted step p c = elim (Bool-cases (ltb_ℤ (pos 0) step.delay_after_ms)) [
      | inl e ↦ rw e (record { attempts = c.attempts; completions = c.completions })
      | inr e ↦ rw e c
    ]

    request_stop-IsCounted :
        (r : ExecutionResult) (p : Progress W) → IsCounted p → IsCounted (request_stop runner r p)
    unfolding request_stop
    request_stop-IsCounted r p c = record { attempts = c.attempts; completions = c.completions }

    start_progress-IsCounted : (w : W) → IsCounted (start_progress runner w)
    unfolding start_progress
    start_progress-IsCounted w = record { attempts = refl; completions = refl }

    every_step_suits : (steps : List ActionStep) → All (λ step. Unit {0}) steps
    every_step_suits [] = tt
    every_step_suits (step ∷ steps) = (tt, every_step_suits steps)

    run_steps-IsCounted :
        (state : Option EnvironmentState) (stop_on_failure : Bool) (steps : List ActionStep)
        (p : Progress W)
        → p.stop_requested ≡ false
        → IsCounted p
        → IsCounted (run_steps runner state stop_on_failure steps p)
    run_steps-IsCounted state stop_on_failure steps p h c = either (
        run_steps-Ended runner stop_on_failure (λ step. Unit {0}) IsCounted IsCounted
          (λ step r w q s e k.
            delay_after-IsCounted step (record_result runner r w q)
              (record_result-IsCounted r w q k))
          (λ step r w q s e k.
            request_stop-IsCounted r (record_result runner r w q) (record_result-IsCounted r w q k))
          state steps p (every_step_suits steps) (inl (h, c)))
      where
        either : {A B C : Type 0} → (A × C) ⊎ (B × C) → C
        either (inl (a, c)) = c
        either (inr (b, c)) = c

starts : {W : Type 0} (runner : Runner W) (w : W) → (start_progress runner w).stop_requested ≡ false
unfolding start_progress
starts runner w = refl

-- The tallies that a caller reads off the result
pub record IsTallied (r : ActionSequenceResult) : Type 0 where
  pub attempts : r.attempted_steps ≡ length r.step_results
  pub completions : r.completed_steps ≡ count_if is_success r.step_results

finish-IsTallied :
    {W : Type 0} (runner : Runner W) (sequence : ActionSequence) (begin end : ℕ) (p : Progress W)
    → IsCounted p
    → IsTallied (finish runner sequence.id begin end p)
      × ((finish runner sequence.id begin end p).success
          ≡ all is_success (finish runner sequence.id begin end p).step_results)
unfolding finish
finish-IsTallied runner sequence begin end p c = (
  record { attempts = c.attempts; completions = c.completions },
  ground (
    arith,
    c.attempts,
    c.completions,
    all-eq-count_if is_success p.results,
    count_if-le is_success p.results,
  ),
)

-- Of a sequence that has steps, the result counts each execution once as attempted, and once as
-- completed if it succeeded, and is a success exactly if all executions succeeded.
pub execute_sequence-IsTallied :
    {W : Type 0} (runner : Runner W) (sequence : ActionSequence) (state : Option EnvironmentState)
    (w : W)
    → is_empty sequence.steps ≡ false
    → IsTallied (execute_sequence runner sequence state w).0
      × ((execute_sequence runner sequence state w).0.success
          ≡ all is_success (execute_sequence runner sequence state w).0.step_results)
unfolding execute_sequence
execute_sequence-IsTallied runner sequence state w h = rw h (
    finish-IsTallied runner sequence _ _ _ (
      run_steps-IsCounted runner state sequence.stop_on_failure sequence.steps _
        (starts runner (runner.now w).1) (start_progress-IsCounted runner (runner.now w).1)))
