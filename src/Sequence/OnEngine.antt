-- ===== src/Sequence/OnEngine.antt =====
-- The macro executor with the execution engine below it, as MacroExecutor is built from an
-- ExecutionEngine.
use intent_execution_layer.Common.{
  ℕ, zero, suc, ◌+◌, ◌≡◌, refl, Bool, not, ◌&&◌, List, [], ◌∷◌, Option, ℤ, pos, ltb_ℤ, is_empty,
  arith, inl, inr, Bool-cases, Option-cases,
}
use intent_execution_layer.Intent.{Intent}
use intent_execution_layer.Execution.{is_success}
use intent_execution_layer.Ui.{EnvironmentState}
use intent_execution_layer.Engine.{EngineState}
use intent_execution_layer.Engine.Execute.{Surroundings, execute}
use intent_execution_layer.Engine.Execute.Events.{endings}
use intent_execution_layer.Engine.Execute.Ending.{endings-execute_internal}
use intent_execution_layer.Sequence.{ActionStep, ActionSequence}
use intent_execution_layer.Sequence.Macro.{
  Runner, Progress, prepare_intent, selected_intent, repetitions, record_result, request_stop,
  delay_after, run_repetitions, run_step, run_steps, start_progress, finish, execute_sequence,
}

-- The engine's Execute, the steady clock and a sleep that acts on the world
unfoldable pub engine_runner : {W : Type 0} → Surroundings W → (ℤ → W → W) → Runner (EngineState W)
engine_runner env sleep = record {
  execute = λ i s. execute env i s;
  now = λ s. let (now, w) = env.machine.steady_now s.world in (now, record s { world = w });
  sleep = λ ms s. record s { world = sleep ms s.world };
}

module _ {W : Type 0} (env : Surroundings W) (sleep : ℤ → W → W) where
  -- The run from `p` to `q` ended as many executions as it attempted.
  abbrev Balanced : Progress (EngineState W) → Progress (EngineState W) → Type 0
  Balanced p q = endings q.world + p.attempted ≡ endings p.world + q.attempted

  endings-execute :
      (i : Intent) (s : EngineState W)
      → endings ((engine_runner env sleep).execute i s).1 ≡ endings s + 1
  unfolding engine_runner execute
  endings-execute i s = endings-execute_internal env i _ s

  delay_after-Balanced :
      (step : ActionStep) (p : Progress (EngineState W))
      → Balanced p (delay_after (engine_runner env sleep) step p)
  unfolding delay_after engine_runner
  delay_after-Balanced step p = elim (Bool-cases (ltb_ℤ (pos 0) step.delay_after_ms)) [
    | inl e ↦ rw e refl
    | inr e ↦ rw e refl
  ]

  run_repetitions-Balanced :
      (left : ℕ) (stop_on_failure : Bool) (step : ActionStep) (i : Intent)
      (p : Progress (EngineState W))
      → Balanced p (run_repetitions (engine_runner env sleep) left stop_on_failure step i p)
  unfolding run_repetitions record_result request_stop
  run_repetitions-Balanced zero stop_on_failure step i p = refl
  run_repetitions-Balanced (suc left) stop_on_failure step i p =
      let (r, s) = (engine_runner env sleep).execute i p.world in
      let once = record_result (engine_runner env sleep) r s p in
      let ended = endings-execute i p.world in
      elim (Bool-cases (not (is_success r) && (stop_on_failure && step.required))) [
        | inl e ↦ rw (e, run_repetitions) (omega (arith, ended))
        | inr e ↦
            rw (e, run_repetitions)
              (omega (
                arith,
                ended,
                delay_after-Balanced step once,
                run_repetitions-Balanced left stop_on_failure step i
                    (delay_after (engine_runner env sleep) step once),
              ))
      ]

  run_step-Balanced :
      (state : Option EnvironmentState) (stop_on_failure : Bool) (step : ActionStep)
      (p : Progress (EngineState W))
      → Balanced p (run_step (engine_runner env sleep) state stop_on_failure step p)
  unfolding run_step
  run_step-Balanced state stop_on_failure step p =
      elim (Option-cases (selected_intent state step)) [
        | inl e ↦ rw (e, run_step) refl
        | inr (i, e) ↦
            rw (e, run_step)
              (run_repetitions-Balanced (repetitions step) stop_on_failure step
                (prepare_intent state i) p)
      ]

  run_steps-Balanced :
      (state : Option EnvironmentState) (stop_on_failure : Bool) (steps : List ActionStep)
      (p : Progress (EngineState W))
      → Balanced p (run_steps (engine_runner env sleep) state stop_on_failure steps p)
  unfolding run_steps
  run_steps-Balanced state stop_on_failure [] p = refl
  run_steps-Balanced state stop_on_failure (step ∷ steps) p = elim (Bool-cases p.stop_requested) [
    | inl e ↦ rw (e, run_steps) refl
    | inr e ↦
        let q = run_step (engine_runner env sleep) state stop_on_failure step p in
        rw (e, run_steps)
          (omega (
            arith,
            run_step-Balanced state stop_on_failure step p,
            run_steps-Balanced state stop_on_failure steps q,
          ))
  ]

  -- A run of a sequence on the engine publishes as many events that say an execution is over as it
  -- reports attempted steps.
  pub endings-execute_sequence :
      (sequence : ActionSequence) (state : Option EnvironmentState) (s : EngineState W)
      → endings (execute_sequence (engine_runner env sleep) sequence state s).1
        ≡ endings s
          + (execute_sequence (engine_runner env sleep) sequence state s).0.attempted_steps
  unfolding execute_sequence engine_runner start_progress finish
  endings-execute_sequence sequence state s =
      let runner = engine_runner env sleep in
      let (started_at, s1) = runner.now s in
      elim (Bool-cases (is_empty sequence.steps)) [
        | inl e ↦ rw e (omega arith)
        | inr e ↦ rw e (
            omega (
              arith,
              run_steps-Balanced state sequence.stop_on_failure sequence.steps
                  (start_progress runner s1),
            ))
      ]
