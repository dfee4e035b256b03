-- ===== src/Contract.antt =====
-- What the reveal executor and the execution contract (core/execution/src/RevealExecutor.cpp and
-- core/execution/src/ExecutionContract.cpp) share: what they call, what they report, and the lookup
-- of a node. `W` is what the calls act on.
pub mod Reveal
pub mod Execute
pub mod Shared
pub mod OnEngine
use intent_execution_layer.Common.{
  ℕ, Bool, true, false, List, [], Option, none, is_empty, if◌then◌else◌,
}
use intent_execution_layer.Text.{Text}
use intent_execution_layer.Platform.{Platform}
use intent_execution_layer.Intent.{Intent}
use intent_execution_layer.Execution.{ExecutionResult}
use intent_execution_layer.Engine.Recovery.{initial_result}
use intent_execution_layer.Ui.{UiElement}
use intent_execution_layer.Interaction.{InteractionNode}
use intent_execution_layer.Interaction.Build.{build}
use intent_execution_layer.Interaction.Generate.{find_node}

-- The fields of ObserverSnapshot (core/observer/include/ObserverEngine.h) that are read
pub record ObserverSnapshot : Type 0 where
  pub valid : Bool
  pub sequence : ℕ
  pub ui_elements : List UiElement

-- The execution engine, the intent registry and the file system, as the contract calls them
pub record Port (W : Type 0) : Type 0 where
  -- ExecutionEngine::Execute
  pub execute : Intent → W → ExecutionResult × W
  -- IntentRegistry::Refresh
  pub refresh : W → W
  -- IntentRegistry::LastSnapshot
  pub last_snapshot : W → ObserverSnapshot
  -- std::filesystem::exists
  pub exists : Text → W → Bool

pub record RevealExecutionResult : Type 0 where
  pub attempted : Bool
  pub success : Bool
  pub attempted_steps : ℕ
  pub completed_steps : ℕ
  pub total_step_attempts : ℕ
  pub fallback_used : Bool
  pub fallback_step_count : ℕ
  pub message : Text
  pub step_results : List ExecutionResult

-- The member initialisers of the source
abbrev pub initial_reveal : RevealExecutionResult
initial_reveal = record {
  attempted = false;
  success = true;
  attempted_steps = 0;
  completed_steps = 0;
  total_step_attempts = 0;
  fallback_used = false;
  fallback_step_count = 0;
  message = [];
  step_results = [];
}

pub record ExecutionContractResult : Type 0 where
  pub execution : ExecutionResult
  pub reveal : RevealExecutionResult
  pub reveal_required : Bool
  pub verification_passed : Bool
  pub contract_satisfied : Bool
  pub stage : Text
  pub message : Text

abbrev pub initial_contract : ExecutionContractResult
initial_contract = record {
  execution = initial_result;
  reveal = initial_reveal;
  reveal_required = false;
  verification_passed = false;
  contract_satisfied = false;
  stage = [];
  message = [];
}

module _ {W : Type 0} (platform : Platform) (port : Port W) where
  found_in : Text → ObserverSnapshot → Option InteractionNode
  found_in node_id snapshot =
      if snapshot.valid
      then find_node (build platform snapshot.ui_elements snapshot.sequence) node_id
      else none

  -- LookupNode and ResolveNode, which are the same code
  unfoldable pub lookup_node : Text → W → Option InteractionNode × W
  unfolding found_in
  lookup_node node_id w = elim (is_empty node_id) [
    | true ↦ (none, w)
    | false ↦
        let refreshed = port.refresh w in
        (found_in node_id (port.last_snapshot refreshed), refreshed)
  ]
