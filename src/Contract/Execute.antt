-- ===== src/Contract/Execute.antt =====
-- ExecutionContract (core/execution/src/ExecutionContract.cpp): the node is resolved and revealed
-- before the intent is executed, and the outcome is verified after.
pub mod Laws
use intent_execution_layer.Common.{
  Bool, true, false, not, ◌&&◌, ◌==◌, Option, none, some, ◌++◌, if◌then◌else◌, is_empty, pos,
}
use intent_execution_layer.Text.{Text, text, text_eq}
use intent_execution_layer.Platform.{Platform}
use intent_execution_layer.Intent.{
  Intent, create, delete, move, action_eq, failed, status_eq, find_value,
}
use intent_execution_layer.Execution.{ExecutionResult, is_success}
use intent_execution_layer.Engine.Recovery.{initial_result}
use intent_execution_layer.Interaction.{InteractionNode}
use intent_execution_layer.Contract.{
  Port, RevealExecutionResult, ExecutionContractResult, initial_contract, lookup_node,
}
use intent_execution_layer.Contract.Reveal.{reveal}

-- A failed execution of the contract itself
unfoldable pub contract_failure : Text → ExecutionResult
contract_failure message = record initial_result {
  status = failed;
  verified = false;
  method = text "execution_contract";
  message = message;
}

-- The verification of a reveal failed after all its steps were completed.
unfoldable pub can_defer : RevealExecutionResult → Bool
can_defer r =
    text_eq r.message (text "reveal_verification_failed") && r.completed_steps == r.attempted_steps

-- The execution result when the verification fails
unfoldable pub unverified : ExecutionResult → ExecutionResult
unverified x = if status_eq x.status failed then x else record x {
  status = failed;
  verified = false;
  message =
      (if is_empty x.message then x.message else x.message ++ text "; ")
      ++ text "Execution verification failed under contract";
}

module _ {W : Type 0} (platform : Platform) (port : Port W) where
  exists_at : Option Text → W → Bool
  exists_at none w = false
  exists_at (some path) w = port.exists path w

  -- VerifyOutcome
  unfoldable pub verify_outcome : Intent → ExecutionResult → W → Bool
  unfolding exists_at
  verify_outcome i x w =
      if status_eq x.status failed
      then false
      else if not i.constraints.requires_verification
      then true
      else if x.verified
      then true
      else if action_eq i.action create
      then port.exists i.target.path w
      else if action_eq i.action delete
      then not (port.exists i.target.path w)
      else if action_eq i.action move
      then exists_at (find_value (text "destination") i.params.values) w
      else false

  -- The execution of the intent and its verification
  unfoldable pub execute_verified :
      Intent → ExecutionContractResult → W → ExecutionContractResult × W
  execute_verified i c w =
      let (x, w') = port.execute i w in
      (
        if verify_outcome i x w'
            then record c {
              execution = x;
              verification_passed = true;
              stage = text "verified";
              message = text "contract_satisfied";
              contract_satisfied = is_success x && true;
            }
            else record c {
              execution = unverified x;
              verification_passed = false;
              stage = text "verify";
              message = text "verification_failed";
            },
        w',
      )

  -- What follows the reveal of the node
  unfoldable pub continue_revealed :
      Intent → RevealExecutionResult → ExecutionContractResult → W → ExecutionContractResult × W
  continue_revealed i r c w = elim r.success [
    | true ↦ execute_verified i (record c { reveal = r }) w
    | false ↦ elim (can_defer r) [
      | true ↦
          let deferred : RevealExecutionResult = record r {
            success = true;
            message = text "reveal_verification_deferred";
          } in
          execute_verified i (record c { reveal = deferred }) w
      | false ↦ (
        record c {
          reveal = r;
          execution = contract_failure (text "Reveal stage failed: " ++ r.message);
          stage = text "reveal";
          message = r.message;
        },
        w,
      )
    ]
  ]

  -- What follows the lookup of the node; a reveal has two retries for each step.
  unfoldable pub continue_resolved :
      Intent → Option InteractionNode → W → ExecutionContractResult × W
  continue_resolved i none w = (
    record initial_contract {
      execution = contract_failure (text "Execution contract node was not found");
      stage = text "resolve";
      message = text "node_not_found";
    },
    w,
  )
  continue_resolved i (some node) w = elim (node.reveal_strategy.required) [
    | false ↦ execute_verified i initial_contract w
    | true ↦
        let (r, w') = reveal platform port node (pos 2) w in
        continue_revealed i r (record initial_contract { reveal_required = true }) w'
  ]

  -- Execute
  unfoldable pub execute_contract : Intent → Text → W → ExecutionContractResult × W
  execute_contract i node_id w =
      let resolved = if is_empty node_id then i.target.node_id else node_id in
      elim (is_empty resolved) [
        | true ↦ execute_verified i initial_contract w
        | false ↦
            let (node, w') = lookup_node platform port resolved w in continue_resolved i node w'
      ]
