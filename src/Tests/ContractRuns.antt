-- ===== src/Tests/ContractRuns.antt =====
-- Contracts and reveals of a hidden node.
use intent_execution_layer.Common.{ℕ, ◌+◌, ◌*◌, ◌≤◌, ◌≡◌, refl, true, false, [], ◌∷◌, pos, length}
use intent_execution_layer.Text.{Text, text}
use intent_execution_layer.Intent.{failed}
use intent_execution_layer.Execution.{is_success}
use intent_execution_layer.Interaction.{InteractionNode, is_node_revealed}
use intent_execution_layer.Interaction.Plan.{make_step}
use intent_execution_layer.Interaction.Build.{element_node}
use intent_execution_layer.Engine.{EngineState}
use intent_execution_layer.Outcome.{error}
use intent_execution_layer.Intents.{RegistrySnapshot, IntentsState, RegistryPort}
use intent_execution_layer.Contract.{Port, ObserverSnapshot, ExecutionContractResult}
use intent_execution_layer.Contract.Reveal.{reveal}
use intent_execution_layer.Contract.Reveal.Laws.{reveal_bounds}
use intent_execution_layer.Contract.Execute.{execute_contract}
use intent_execution_layer.Contract.Execute.Laws.{execute_contract-IsHonest}
use intent_execution_layer.Contract.OnEngine.{
  engine_port, executions_of, engine_endings, endings-execute_contract,
}
use intent_execution_layer.Tests.{
  ascii_platform, rough_ops, rough_doubles, quiet, idle, click, result_of, ok_button, frame_window,
}

abbrev seen : ObserverSnapshot
seen = record { valid = true; sequence = 3; ui_elements = frame_window ∷ ok_button ∷ [] }

-- An engine on which every step fails
abbrev stubborn : Port ℕ
stubborn = record {
  execute = λ i w. (result_of failed, w + 1);
  refresh = λ w. w + 1;
  last_snapshot = λ w. seen;
  exists = λ path w. false;
}

execute_contract-IsHonest_example :
    ((execute_contract ascii_platform stubborn click (text "gone") 0).0.contract_satisfied
      ≡ is_success (execute_contract ascii_platform stubborn click (text "gone") 0).0.execution)
    × ((execute_contract ascii_platform stubborn click (text "gone") 0).0.contract_satisfied
        ≡ (execute_contract ascii_platform stubborn click (text "gone") 0).0.verification_passed)
execute_contract-IsHonest_example =
    execute_contract-IsHonest ascii_platform stubborn click (text "gone") 0

-- A registry whose refreshes fail, and publish so; its last snapshot has the button out of sight.
abbrev scrolled : RegistrySnapshot
scrolled = record {
  valid = true;
  sequence = 3;
  cursor_position = record { x = pos 0; y = pos 0 };
  ui_elements = frame_window ∷ record ok_button { is_offscreen = true } ∷ [];
}

abbrev failing_registry : RegistryPort ℕ ℕ
failing_registry = record {
  capture = λ w. (scrolled, w + 1);
  build_graph = λ snapshot. error (text "no graph");
  adapters = [];
  publish = λ event w. w;
  system_now = λ w. (w, w + 1);
  steady_now = λ w. (w, w + 1);
  log = λ message w. w;
  log_resolution_timing = λ ms w. w;
  scoring = record {
    platform = ascii_platform;
    floats = rough_ops;
    doubles = rough_doubles;
    tick_count = λ w. (w, w + 1);
  };
}

abbrev stale : IntentsState (EngineState ℕ) ℕ
stale = record {
  world = idle;
  last_snapshot = scrolled;
  graph = 0;
  intents = [];
  recency_by_intent_id = [];
  resolution_cache = [];
  cache_epoch = 1;
}

-- The id that the builder gives to the button
abbrev button_id : Text
button_id = text "uig-node-66193d9fdf587e9e"

abbrev with_reveal : ExecutionContractResult × IntentsState (EngineState ℕ) ℕ
with_reveal =
    execute_contract quiet.platform (engine_port quiet failing_registry (λ path w. true)) click
      button_id stale

endings-execute_contract_example :
    engine_endings with_reveal.1 ≡ engine_endings stale + executions_of with_reveal.0
endings-execute_contract_example =
    endings-execute_contract quiet failing_registry (λ path w. true) click button_id stale

-- The button, scrolled out of sight, with the steps that reveal it
abbrev hidden_button : InteractionNode
hidden_button =
    let node =
      element_node ascii_platform ok_button (record { stable_id = text "n"; signature = 1 }) in
    record node {
      offscreen = true;
      reveal_strategy = record {
        required = true;
        guaranteed = true;
        reason = text "reveal_required";
        steps =
            make_step (text "n") (text "scroll_into_view") (text "n") 0 [] false
            ∷ make_step (text "n") (text "probe_visibility") (text "n") 1 [] false
            ∷ [];
      };
    }

hidden_button_hidden : is_node_revealed hidden_button ≡ false
unfolding is_node_revealed element_node
hidden_button_hidden = refl

reveal_bounds_example :
    ((reveal ascii_platform stubborn hidden_button (pos 9) 0).0.attempted_steps
      ≤ length hidden_button.reveal_strategy.steps)
    × ((reveal ascii_platform stubborn hidden_button (pos 9) 0).0.completed_steps
        ≤ (reveal ascii_platform stubborn hidden_button (pos 9) 0).0.attempted_steps)
    × ((reveal ascii_platform stubborn hidden_button (pos 9) 0).0.attempted_steps
        ≤ (reveal ascii_platform stubborn hidden_button (pos 9) 0).0.completed_steps + 1)
    × ((reveal ascii_platform stubborn hidden_button (pos 9) 0).0.total_step_attempts
        ≤ length hidden_button.reveal_strategy.steps * 6)
    × (length (reveal ascii_platform stubborn hidden_button (pos 9) 0).0.step_results
        ≤ (reveal ascii_platform stubborn hidden_button (pos 9) 0).0.total_step_attempts)
    × ((reveal ascii_platform stubborn hidden_button (pos 9) 0).0.fallback_step_count
        ≤ length (reveal ascii_platform stubborn hidden_button (pos 9) 0).0.step_results)
reveal_bounds_example = reveal_bounds ascii_platform stubborn hidden_button (pos 9) 0
