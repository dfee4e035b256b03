-- ===== src/Contract/OnEngine.antt =====
-- The execution contract with the execution engine and the intent registry below it, as
-- ExecutionContract is built from an ExecutionEngine and an IntentRegistry.
use intent_execution_layer.Common.{
  ℕ, zero, suc, ◌+◌, ◌≡◌, refl, ap, Bool, true, false, ◌||◌, List, [], ◌∷◌, Option, none, some,
  length, length-append, ℤ, pos, arith, inl, inr, Bool-cases, if◌then◌else◌, is_empty,
}
use intent_execution_layer.Common.Optional.{value_or}
use intent_execution_layer.Text.{Text, text, text_eq}
use intent_execution_layer.Intent.{Intent}
use intent_execution_layer.Execution.{is_success}
use intent_execution_layer.Interaction.{PlanStep, InteractionNode, is_node_revealed}
use intent_execution_layer.Engine.{EngineState}
use intent_execution_layer.Engine.Execute.{Surroundings, execute}
use intent_execution_layer.Engine.Execute.Events.{endings_from}
use intent_execution_layer.Engine.Execute.Ending.{endings_from-execute_internal}
use intent_execution_layer.Intents.{RegistrySnapshot, IntentsState, RegistryPort}
use intent_execution_layer.Intents.Refresh.{refresh}
use intent_execution_layer.Contract.Shared.{registry_port, endings_from-refresh}
use intent_execution_layer.Contract.{
  ObserverSnapshot, Port, RevealExecutionResult, initial_reveal, ExecutionContractResult,
  initial_contract, lookup_node,
}
use intent_execution_layer.Contract.Reveal.{
  bounded_retries, step_node_id, build_reveal_intent, found_revealed, count_attempt, run_attempts,
  run_reveal_step, verify_reveal, run_reveal_steps, reveal,
}
use intent_execution_layer.Contract.Execute.{
  can_defer, verify_outcome, execute_verified, continue_revealed, continue_resolved,
  execute_contract,
}

-- LastSnapshot, as the contract reads it
snapshot_of : RegistrySnapshot → ObserverSnapshot
snapshot_of snapshot = record {
  valid = snapshot.valid;
  sequence = snapshot.sequence;
  ui_elements = snapshot.ui_elements;
}

-- The engine's Execute and the registry's Refresh, which act on one world and publish on one bus
unfoldable pub engine_port :
    {W G : Type 0}
    → Surroundings W
    → RegistryPort W G
    → (Text → W → Bool)
    → Port (IntentsState (EngineState W) G)
unfolding snapshot_of
engine_port env p exists = record {
  execute = λ i s. let (r, world) = execute env i s.world in (r, record s { world = world });
  refresh = λ s. refresh (registry_port env p) s;
  last_snapshot = λ s. snapshot_of s.last_snapshot;
  exists = λ path s. exists path s.world.world;
}

-- The number of executions that a contract with this result ran
unfoldable pub executions_of : ExecutionContractResult → ℕ
executions_of c =
    length c.reveal.step_results
    + (if text_eq c.stage (text "verified") || text_eq c.stage (text "verify") then 1 else 0)

-- The events of the engine
abbrev pub of_engine : Text → Bool
of_engine source = text_eq source (text "ExecutionEngine")

-- The events of the engine that say that an execution is over
abbrev pub engine_endings : {W G : Type 0} → IntentsState (EngineState W) G → ℕ
engine_endings s = endings_from of_engine s.world

engine_counted : of_engine (text "ExecutionEngine") ≡ true
unfolding text_eq text
engine_counted = refl

registry_not_counted : of_engine (text "IntentRegistry") ≡ false
unfolding text_eq text
registry_not_counted = refl

module _ {W G : Type 0} (env : Surroundings W) (p : RegistryPort W G)
    (exists : Text → W → Bool) where
  abbrev port : Port (IntentsState (EngineState W) G)
  port = engine_port env p exists

  -- The run from `s` with `r` to `s'` with `r'` ended as many executions as it added results.
  abbrev Balanced :
      RevealExecutionResult
      → IntentsState (EngineState W) G
      → RevealExecutionResult
      → IntentsState (EngineState W) G
      → Type 0
  Balanced r s r' s' =
      engine_endings s' + length r.step_results ≡ engine_endings s + length r'.step_results

  endings-execute :
      (i : Intent) (s : IntentsState (EngineState W) G)
      → engine_endings (port.execute i s).1 ≡ engine_endings s + 1
  unfolding engine_port execute
  endings-execute i s = endings_from-execute_internal of_engine engine_counted env i _ s.world

  endings-lookup_node :
      (id : Text) (s : IntentsState (EngineState W) G)
      → engine_endings (lookup_node env.platform port id s).1 ≡ engine_endings s
  unfolding lookup_node engine_port
  endings-lookup_node id s = elim (Bool-cases (is_empty id)) [
    | inl e ↦ rw (lookup_node, e) refl
    | inr e ↦
        rw (lookup_node, e)
          (endings_from-refresh env of_engine engine_counted registry_not_counted p s)
  ]

  run_attempts-Balanced :
      (left : ℕ) (node : InteractionNode) (step : PlanStep) (r : RevealExecutionResult)
      (s : IntentsState (EngineState W) G)
      → let end = run_attempts env.platform port left node step r s in Balanced r s end.1 end.2
  unfolding run_attempts count_attempt
  run_attempts-Balanced zero node step r s = refl
  run_attempts-Balanced (suc left) node step r s =
      let (found, s1) = lookup_node env.platform port (step_node_id node step) s in
      let i = build_reveal_intent env.platform node (value_or found node) step in
      let (x, s2) = port.execute i s1 in
      let kept = endings-lookup_node (step_node_id node step) s in
      let ended = endings-execute i s1 in
      let longer = length-append r.step_results (x ∷ []) in
      elim (Bool-cases (is_success x)) [
        | inl e ↦ rw (run_attempts, e) (omega (arith, kept, ended, longer))
        | inr e ↦
            rw (run_attempts, e)
              (omega (
                arith,
                kept,
                ended,
                longer,
                run_attempts-Balanced left node step (count_attempt x r) s2,
              ))
      ]

  run_reveal_step-Balanced :
      (retries : ℕ) (node : InteractionNode) (step : PlanStep) (r : RevealExecutionResult)
      (s : IntentsState (EngineState W) G)
      → let end = run_reveal_step env.platform port retries node step r s in
        Balanced r s end.1 end.2
  unfolding run_reveal_step
  run_reveal_step-Balanced retries node step r s =
      elim (Bool-cases (text_eq step.action (text "probe_visibility"))) [
        | inl e ↦ rw (run_reveal_step, e) (omega (arith, endings-lookup_node node.id s))
        | inr e ↦ rw (run_reveal_step, e) (run_attempts-Balanced (retries + 1) node step r s)
      ]

  run_reveal_steps-Balanced :
      (retries : ℕ) (node : InteractionNode) (steps : List PlanStep) (r : RevealExecutionResult)
      (s : IntentsState (EngineState W) G)
      → let end = run_reveal_steps env.platform port retries node steps r s in
        Balanced r s end.0 end.1
  unfolding run_reveal_steps verify_reveal
  run_reveal_steps-Balanced retries node [] r s =
      let kept = endings-lookup_node node.id s in
      elim (Bool-cases (found_revealed (lookup_node env.platform port node.id s).0)) [
        | inl e ↦ rw e (ap (λ n. n + length r.step_results) kept)
        | inr e ↦ rw e (ap (λ n. n + length r.step_results) kept)
      ]
  run_reveal_steps-Balanced retries node (step ∷ steps) r s =
      let counted : RevealExecutionResult = record r { attempted_steps = r.attempted_steps + 1 } in
      let (completed, r', s') = run_reveal_step env.platform port retries node step counted s in
      let once = run_reveal_step-Balanced retries node step counted s in
      elim (Bool-cases completed) [
        | inl e ↦
            let next : RevealExecutionResult = record r' {
              completed_steps = r'.completed_steps + 1;
            } in
            rw (run_reveal_steps, e)
              (omega (arith, once, run_reveal_steps-Balanced retries node steps next s'))
        | inr e ↦ rw (run_reveal_steps, e) (omega (arith, once))
      ]

  endings-reveal :
      (node : InteractionNode) (retries : ℤ) (s : IntentsState (EngineState W) G)
      → engine_endings (reveal env.platform port node retries s).1
        ≡ engine_endings s + length (reveal env.platform port node retries s).0.step_results
  unfolding reveal
  endings-reveal node retries s = elim (Bool-cases node.reveal_strategy.required) [
    | inr e ↦ rw (reveal, e) (omega arith)
    | inl e ↦ elim (Bool-cases (is_node_revealed node)) [
      | inl v ↦ rw (reveal, e, v) (omega arith)
      | inr v ↦
          rw (reveal, e, v)
            (omega (
              arith,
              run_reveal_steps-Balanced (bounded_retries retries) node node.reveal_strategy.steps
                  (record initial_reveal { attempted = true }) s,
            ))
    ]
  ]

  execute_verified-endings :
      (i : Intent) (c : ExecutionContractResult) (s : IntentsState (EngineState W) G)
      → let end = execute_verified env.platform port i c s in
        engine_endings end.1 + length c.reveal.step_results ≡ engine_endings s + executions_of end.0
  unfolding execute_verified executions_of text_eq text
  execute_verified-endings i c s =
      let (x, s') = port.execute i s in
      let ended = endings-execute i s in
      elim (Bool-cases (verify_outcome env.platform port i x s')) [
        | inl e ↦ rw (execute_verified, e) (omega (arith, ended))
        | inr e ↦ rw (execute_verified, e) (omega (arith, ended))
      ]

  continue_revealed-endings :
      (i : Intent) (r : RevealExecutionResult) (c : ExecutionContractResult)
      (s : IntentsState (EngineState W) G)
      → let end = continue_revealed env.platform port i r c s in
        engine_endings end.1 + length r.step_results ≡ engine_endings s + executions_of end.0
  unfolding continue_revealed executions_of text_eq text
  continue_revealed-endings i r c s = elim (Bool-cases r.success) [
    | inl e ↦ simp (continue_revealed, e) (execute_verified-endings i (record c { reveal = r }) s)
    | inr e ↦ elim (Bool-cases (can_defer r)) [
      | inl d ↦ simp (continue_revealed, e, d) (execute_verified-endings i _ s)
      | inr d ↦ simp (continue_revealed, e, d) (omega arith)
    ]
  ]

  continue_resolved-endings :
      (i : Intent) (node : Option InteractionNode) (s : IntentsState (EngineState W) G)
      → let end = continue_resolved env.platform port i node s in
        engine_endings end.1 ≡ engine_endings s + executions_of end.0
  unfolding continue_resolved executions_of text_eq text
  continue_resolved-endings i none s = omega arith
  continue_resolved-endings i (some node) s = elim (Bool-cases node.reveal_strategy.required) [
    | inl e ↦
        let (r, s') = reveal env.platform port node (pos 2) s in
        rw (continue_resolved, e)
          (omega (
            arith,
            endings-reveal node (pos 2) s,
            continue_revealed-endings i r (record initial_contract { reveal_required = true }) s',
          ))
    | inr e ↦
        rw (continue_resolved, e) (omega (arith, execute_verified-endings i initial_contract s))
  ]

  -- A contract on the engine and on a registry that share a bus: the engine publishes as many events
  -- that say an execution is over as the result holds results of reveal steps, and one more if its
  -- stage is "verified" or "verify". The events under the registry's own name, of refreshes that
  -- succeed or fail, are not counted.
  pub endings-execute_contract :
      (i : Intent) (node_id : Text) (s : IntentsState (EngineState W) G)
      → engine_endings (execute_contract env.platform port i node_id s).1
        ≡ engine_endings s + executions_of (execute_contract env.platform port i node_id s).0
  unfolding execute_contract
  endings-execute_contract i node_id s =
      let resolved = if is_empty node_id then i.target.node_id else node_id in
      elim (Bool-cases (is_empty resolved)) [
        | inl e ↦
            rw (execute_contract, e) (omega (arith, execute_verified-endings i initial_contract s))
        | inr e ↦
            let (node, s') = lookup_node env.platform port resolved s in
            rw (execute_contract, e)
              (omega (arith, endings-lookup_node resolved s, continue_resolved-endings i node s'))
      ]
