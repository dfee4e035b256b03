-- ===== src/Sequence/Macro/Stopping.antt =====
-- A sequence that stops on failure executes nothing after a required step has failed.
use intent_execution_layer.Common.{
  ◌≡◌, refl, inl, inr, Bool, true, false, ◌&&◌, List, [], ◌∷◌, ◌++◌, Option, arith, all, all-append,
  All, is_empty, Bool-cases,
}
use intent_execution_layer.Execution.{ExecutionResult, is_success}
use intent_execution_layer.Ui.{EnvironmentState}
use intent_execution_layer.Sequence.{ActionStep, ActionSequence}
use intent_execution_layer.Sequence.Macro.{
  Runner, Progress, record_result, request_stop, delay_after, run_steps, start_progress, finish,
  execute_sequence,
}
use intent_execution_layer.Sequence.Macro.Rule.{Ended, breaks_off, run_steps-Ended}

-- Every result but the last is a success.
abbrev pub succeeds_but_last : List ExecutionResult → Bool
succeeds_but_last [] = true
succeeds_but_last (r ∷ []) = true
succeeds_but_last (r ∷ s ∷ rs) = is_success r && succeeds_but_last (s ∷ rs)

succeeds_but_last-append :
    (rs : List ExecutionResult) (r : ExecutionResult)
    → all is_success rs ≡ true
    → succeeds_but_last (rs ++ r ∷ []) ≡ true
succeeds_but_last-append [] r h = refl
succeeds_but_last-append (a ∷ []) r h = ground arith
succeeds_but_last-append (a ∷ b ∷ rs) r h = ground (arith, succeeds_but_last-append (b ∷ rs) r)

succeeds_but_last-all :
    (rs : List ExecutionResult) → all is_success rs ≡ true → succeeds_but_last rs ≡ true
succeeds_but_last-all [] h = refl
succeeds_but_last-all (a ∷ []) h = refl
succeeds_but_last-all (a ∷ b ∷ rs) h = ground (arith, succeeds_but_last-all (b ∷ rs))

abbrev pub IsRequired : ActionStep → Type 0
IsRequired step = step.required ≡ true

module _ {W : Type 0} (runner : Runner W) where
  abbrev AllSucceeded : Progress W → Type 0
  AllSucceeded p = all is_success p.results ≡ true

  abbrev LastFailed : Progress W → Type 0
  LastFailed p = succeeds_but_last p.results ≡ true

  goes_on :
      (step : ActionStep) (r : ExecutionResult) (w : W) (p : Progress W)
      → IsRequired step
      → breaks_off true step r ≡ false
      → AllSucceeded p
      → AllSucceeded (delay_after runner step (record_result runner r w p))
  unfolding delay_after record_result
  goes_on step r w p s e g = ground (arith, all-append is_success p.results (r ∷ []))

  ends :
      (step : ActionStep) (r : ExecutionResult) (w : W) (p : Progress W)
      → IsRequired step
      → breaks_off true step r ≡ true
      → AllSucceeded p
      → LastFailed (request_stop runner r (record_result runner r w p))
  unfolding request_stop record_result
  ends step r w p s e g = succeeds_but_last-append p.results r g

  start_Ended :
      (w : W)
      → Ended runner true IsRequired AllSucceeded LastFailed goes_on ends (start_progress runner w)
  unfolding start_progress
  start_Ended w = inl (refl, refl)

  last_failed :
      (p : Progress W)
      → Ended runner true IsRequired AllSucceeded LastFailed goes_on ends p
      → succeeds_but_last p.results ≡ true
  last_failed p (inl (h, g)) = succeeds_but_last-all p.results g
  last_failed p (inr (h, g)) = g

  -- When a sequence stops on failure and all its steps are required, every execution but the last has
  -- succeeded: nothing is executed after a failure.
  pub execute_sequence_stops :
      (sequence : ActionSequence) (state : Option EnvironmentState) (w : W)
      → sequence.stop_on_failure ≡ true
      → All IsRequired sequence.steps
      → succeeds_but_last (execute_sequence runner sequence state w).0.step_results ≡ true
  unfolding execute_sequence finish
  execute_sequence_stops sequence state w stop required =
      elim (Bool-cases (is_empty sequence.steps)) [
        | inl e ↦ rw e refl
        | inr e ↦
            let p = start_progress runner (runner.now w).1 in
            rw (e, stop)
              (last_failed (run_steps runner state true sequence.steps p) (
                run_steps-Ended runner true IsRequired AllSucceeded LastFailed goes_on ends state
                  sequence.steps p required (start_Ended (runner.now w).1)))
      ]
