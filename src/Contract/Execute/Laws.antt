-- ===== src/Contract/Execute/Laws.antt =====
-- What a contract reports.
use intent_execution_layer.Common.{
  true, false, ◌≡◌, refl, sym, ap, ◌∙◌, not, ◌||◌, Option, none, some, arith, inl, inr, Bool-cases,
  if◌then◌else◌, is_empty,
}
use intent_execution_layer.Text.{Text}
use intent_execution_layer.Platform.{Platform}
use intent_execution_layer.Intent.{Intent, ExecutionStatus, success, failed, partial, status_eq}
use intent_execution_layer.Execution.{ExecutionResult, is_success}
use intent_execution_layer.Interaction.{InteractionNode}
use intent_execution_layer.Contract.{
  Port, RevealExecutionResult, ExecutionContractResult, initial_contract, lookup_node,
}
use intent_execution_layer.Contract.Execute.{
  contract_failure, can_defer, unverified, verify_outcome, execute_verified, continue_revealed,
  continue_resolved, execute_contract,
}

-- The flags of the result agree with the status of the execution.
abbrev IsHonest : ExecutionContractResult → Type 0
IsHonest c =
    (c.contract_satisfied ≡ is_success c.execution) × (c.contract_satisfied ≡ c.verification_passed)

success_or_failed : (x : ExecutionResult) → is_success x ≡ not (status_eq x.status failed)
success_or_failed x = by_status x.status
  where
    by_status :
        (s : ExecutionStatus)
        → (status_eq s success || status_eq s partial) ≡ not (status_eq s failed)
    by_status success = refl
    by_status failed = refl
    by_status partial = refl

unverified-failed : (x : ExecutionResult) → is_success (unverified x) ≡ false
unfolding unverified
unverified-failed x = elim (Bool-cases (status_eq x.status failed)) [
  | inl e ↦ rw e (success_or_failed x ∙ ap not e)
  | inr e ↦ rw e refl
]

module _ {W : Type 0} (platform : Platform) (port : Port W) where
  verify_outcome-success :
      (i : Intent) (x : ExecutionResult) (w : W)
      → verify_outcome platform port i x w ≡ true
      → is_success x ≡ true
  unfolding verify_outcome
  verify_outcome-success i x w h = elim (Bool-cases (status_eq x.status failed)) [
    | inl e ↦ ground (arith, e, h)
    | inr e ↦ success_or_failed x ∙ ap not e
  ]

  execute_verified-IsHonest :
      (i : Intent) (c : ExecutionContractResult) (w : W)
      → c.contract_satisfied ≡ false
      → IsHonest (execute_verified platform port i c w).0
  unfolding execute_verified
  execute_verified-IsHonest i c w h =
      let (x, w') = port.execute i w in
      elim (Bool-cases (verify_outcome platform port i x w')) [
        | inl e ↦ let done = verify_outcome-success i x w' e in rw (e, done) (refl, refl)
        | inr e ↦ rw (e, h, unverified-failed x) (refl, refl)
      ]

  continue_revealed-IsHonest :
      (i : Intent) (r : RevealExecutionResult) (c : ExecutionContractResult) (w : W)
      → c.contract_satisfied ≡ false
      → c.verification_passed ≡ false
      → IsHonest (continue_revealed platform port i r c w).0
  unfolding continue_revealed contract_failure
  continue_revealed-IsHonest i r c w h v = elim (Bool-cases r.success) [
    | inl e ↦
        simp (continue_revealed, e) (execute_verified-IsHonest i (record c { reveal = r }) w h)
    | inr e ↦ elim (Bool-cases (can_defer r)) [
      | inl d ↦ simp (continue_revealed, e, d) (execute_verified-IsHonest i _ w h)
      | inr d ↦ simp (continue_revealed, e, d) (h, h ∙ sym v)
    ]
  ]

  continue_resolved-IsHonest :
      (i : Intent) (node : Option InteractionNode) (w : W)
      → IsHonest (continue_resolved platform port i node w).0
  unfolding continue_resolved contract_failure
  continue_resolved-IsHonest i none w = (refl, refl)
  continue_resolved-IsHonest i (some node) w = elim (Bool-cases node.reveal_strategy.required) [
    | inl e ↦ rw e (continue_revealed-IsHonest i _ _ _ refl refl)
    | inr e ↦ rw e (execute_verified-IsHonest i initial_contract w refl)
  ]

  -- Whatever the node, the registry and the engine are, the result says that the contract is satisfied
  -- exactly if the execution in the result succeeded, and exactly if it passed the verification: a
  -- contract that ends before the execution, or whose verification fails, reports a failed execution.
  pub execute_contract-IsHonest :
      (i : Intent) (node_id : Text) (w : W)
      → let c = (execute_contract platform port i node_id w).0 in
        (c.contract_satisfied ≡ is_success c.execution)
        × (c.contract_satisfied ≡ c.verification_passed)
  unfolding execute_contract
  execute_contract-IsHonest i node_id w =
      let resolved = if is_empty node_id then i.target.node_id else node_id in
      elim (Bool-cases (is_empty resolved)) [
        | inl e ↦ rw (execute_contract, e) (execute_verified-IsHonest i initial_contract w refl)
        | inr e ↦
            let (node, w') = lookup_node platform port resolved w in
            rw (execute_contract, e) (continue_resolved-IsHonest i node w')
      ]
