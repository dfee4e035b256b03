-- ===== src/Control/Decision.antt =====
-- The decision thread of the control runtime (DecisionLoop of core/execution/src/ControlRuntime.cpp):
-- what it makes of the intents that a provider proposes.
pub mod Accepted
use intent_execution_layer.Common.{
  ℕ, ◌+◌, ◌%◌, ◌^◌, Bool, true, false, List, [], ◌∷◌, if◌then◌else◌, leb, ◌==◌, is_empty,
}
use intent_execution_layer.Text.{Text}
use intent_execution_layer.Platform.{Platform}
use intent_execution_layer.Intent.{Intent, IntentAction, Context, action_eq, action_to_string}
use intent_execution_layer.Ui.{EnvironmentState}
use intent_execution_layer.Control.{RuntimeState, bump, parse_control_priority_hint}
use intent_execution_layer.Control.Queue.{enqueue_intent}

-- kMaxDecisionIntentsPerPass
abbrev pub max_decision_intents : ℕ
max_decision_intents = 8

-- The snapshot version of a state, or its sequence number
unfoldable pub effective_version : EnvironmentState → ℕ
effective_version state =
    if state.source_snapshot_version == 0 then state.sequence else state.source_snapshot_version

-- The context of a proposed intent, filled in from the state
unfoldable pub fill_context : ℕ → EnvironmentState → Context → Context
fill_context frame state c = record c {
  control_frame = frame;
  snapshot_version =
      if c.snapshot_version == 0 then effective_version state else c.snapshot_version;
  snapshot_ticks = if c.snapshot_ticks == 0 then state.sequence else c.snapshot_ticks;
  window_title = if is_empty c.window_title then state.active_window_title else c.window_title;
  application = if is_empty c.application then state.active_process_path else c.application;
  cursor = state.cursor_position;
}

-- What the loop changes in a proposed intent
unfoldable pub complete_proposal : Text → ℕ → EnvironmentState → Intent → Intent
complete_proposal provider_name frame state i = record i {
  name = if is_empty i.name then action_to_string i.action else i.name;
  source = if is_empty i.source then provider_name else i.source;
  context = fill_context frame state i.context;
}

-- The section that counts what a pass produced
unfoldable pub count_decisions : ℕ → Bool → RuntimeState → RuntimeState
count_decisions accepted timed_out s = record s {
  decision_intents_produced = (s.decision_intents_produced + accepted) % 2 ^ 64;
  decision_timeouts = if timed_out then bump s.decision_timeouts else s.decision_timeouts;
}

module _ (platform : Platform) (provider_name : Text) (frame : ℕ) (state : EnvironmentState)
    (now : ℕ) where
  -- The loop over the proposed intents, with the number of those accepted; the clock is read once.
  unfoldable pub accept_proposals : List Intent → ℕ → RuntimeState → ℕ × RuntimeState
  accept_proposals [] accepted s = (accepted, s)
  accept_proposals (i ∷ proposed) accepted s = elim (leb max_decision_intents accepted) [
    | true ↦ (accepted, s)
    | false ↦ elim (action_eq i.action IntentAction.unknown) [
      | true ↦ accept_proposals proposed accepted s
      | false ↦
          let completed = complete_proposal provider_name frame state i in
          let (taken, s') =
            enqueue_intent completed (parse_control_priority_hint platform completed) now s in
          accept_proposals proposed (if taken then accepted + 1 else accepted) s'
    ]
  ]

  -- A pass of the decision thread over what the provider proposed
  unfoldable pub decision_pass : List Intent → Bool → RuntimeState → RuntimeState
  unfolding count_decisions
  decision_pass proposed timed_out s =
      let (accepted, s') = accept_proposals proposed 0 s in count_decisions accepted timed_out s'
