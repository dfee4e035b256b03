-- ===== src/Control/Decision/Accepted.antt =====
-- What a pass of the decision thread adds to the queues.
use intent_execution_layer.Common.{
  ℕ, ◌+◌, ◌≤◌, ◌≡◌, refl, Bool, true, List, [], ◌∷◌, ◌++◌, leb, ltb, if◌then◌else◌, length,
  length-append, arith, inl, inr, Bool-cases,
}
use intent_execution_layer.Text.{Text}
use intent_execution_layer.Platform.{Platform}
use intent_execution_layer.Intent.{Intent, IntentAction, action_eq}
use intent_execution_layer.Ui.{EnvironmentState}
use intent_execution_layer.Control.{
  ControlPriority, high, medium, low, QueuedIntent, RuntimeState, bump, parse_control_priority_hint,
}
use intent_execution_layer.Control.Queue.{push_back, enqueue_intent}
use intent_execution_layer.Control.Queue.Refines.{contents, is_ranked}
use intent_execution_layer.Control.Queue.Ranked.{enqueue_intent-is_ranked}
use intent_execution_layer.Control.Decision.{
  max_decision_intents, complete_proposal, accept_proposals, decision_pass,
}

-- The proposed intents with a known action
unfoldable pub known_proposals : List Intent → ℕ
known_proposals [] = 0
known_proposals (i ∷ proposed) =
    let rest = known_proposals proposed in
    if action_eq i.action IntentAction.unknown then rest else rest + 1

-- Of them, those that a pass accepts
abbrev pub acceptable : Bool → List Intent → ℕ
acceptable running proposed =
    if running
    then (if ltb max_decision_intents (known_proposals proposed)
        then max_decision_intents
        else known_proposals proposed)
    else 0

length-contents :
    (s : RuntimeState)
    → length (contents s) ≡ length s.high_queue + (length s.medium_queue + length s.low_queue)
unfolding contents
length-contents s = omega (
  arith,
  length-append s.high_queue (s.medium_queue ++ s.low_queue),
  length-append s.medium_queue s.low_queue,
)

length-push_back :
    (p : ControlPriority) (q : QueuedIntent) (s : RuntimeState)
    → length (contents (push_back p q s)) ≡ length (contents s) + 1
unfolding push_back
length-push_back high q s = omega (
  arith,
  length-contents s,
  length-contents (push_back high q s),
  length-append s.high_queue (q ∷ []),
)
length-push_back medium q s = omega (
  arith,
  length-contents s,
  length-contents (push_back medium q s),
  length-append s.medium_queue (q ∷ []),
)
length-push_back low q s = omega (
  arith,
  length-contents s,
  length-contents (push_back low q s),
  length-append s.low_queue (q ∷ []),
)

push_back-running :
    (p : ControlPriority) (q : QueuedIntent) (s : RuntimeState)
    → (push_back p q s).running ≡ s.running
unfolding push_back
push_back-running high q s = refl
push_back-running medium q s = refl
push_back-running low q s = refl

enqueue_intent-length :
    (i : Intent) (p : ControlPriority) (now : ℕ) (s : RuntimeState)
    → ((enqueue_intent i p now s).0 ≡ s.running)
      × ((enqueue_intent i p now s).1.running ≡ s.running)
      × (length (contents (enqueue_intent i p now s).1)
          ≡ length (contents s) + (if s.running then 1 else 0))
unfolding enqueue_intent contents
enqueue_intent-length i p now s = elim (Bool-cases s.running) [
  | inr e ↦ rw (enqueue_intent, e) (refl, e, omega arith)
  | inl e ↦
      let q : QueuedIntent = record {
        intent = i;
        priority = p;
        sequence = s.next_sequence;
        enqueued_at = now;
      } in
      let s1 : RuntimeState = record s { running = true; next_sequence = bump s.next_sequence } in
      simp (enqueue_intent, e) (refl, push_back-running p q s1, length-push_back p q s1)
]

module _ (platform : Platform) (provider_name : Text) (frame : ℕ) (state : EnvironmentState)
    (now : ℕ) where
  accept_proposals_lem :
      (proposed : List Intent) (accepted : ℕ) (s : RuntimeState)
      → accepted ≤ max_decision_intents
      → is_ranked s ≡ true
      → let end = accept_proposals platform provider_name frame state now proposed accepted s in
        (end.0 ≡ (
          if s.running
          then (if ltb max_decision_intents (accepted + known_proposals proposed)
              then max_decision_intents
              else accepted + known_proposals proposed)
          else accepted))
        × (length (contents end.1) + accepted ≡ length (contents s) + end.0)
        × (is_ranked end.1 ≡ true)
  unfolding accept_proposals known_proposals
  accept_proposals_lem [] accepted s h r = (ground (arith, h), refl, r)
  accept_proposals_lem (i ∷ proposed) accepted s h r =
      elim (Bool-cases (leb max_decision_intents accepted)) [
        | inl e ↦ rw (accept_proposals, e) (ground (arith, h, e), refl, r)
        | inr e ↦ elim (Bool-cases (action_eq i.action IntentAction.unknown)) [
          | inl u ↦
              rw (accept_proposals, known_proposals, e, u)
                (accept_proposals_lem proposed accepted s h r)
          | inr u ↦
              let completed = complete_proposal provider_name frame state i in
              let p = parse_control_priority_hint platform completed in
              let s' = (enqueue_intent completed p now s).1 in
              let (taken, kept, longer) = enqueue_intent-length completed p now s in
              let n = if s.running then accepted + 1 else accepted in
              let (count, size, ranked) =
                accept_proposals_lem proposed n s' (ground (arith, h, e))
                  (enqueue_intent-is_ranked completed p now s r) in
              rw (accept_proposals, known_proposals, e, u, taken)
                (ground (arith, count, kept), ground (arith, size, longer, count, kept), ranked)
        ]
      ]

  -- From a runtime whose queues are ranked, a pass of the decision thread leaves them ranked and adds
  -- as many entries as there are proposals with a known action, at most eight, if the runtime runs,
  -- and none if it does not.
  pub decision_pass-acceptable :
      (proposed : List Intent) (timed_out : Bool) (s : RuntimeState)
      → is_ranked s ≡ true
      → let s' = decision_pass platform provider_name frame state now proposed timed_out s in
        (length (contents s') ≡ length (contents s) + acceptable s.running proposed)
        × (is_ranked s' ≡ true)
  unfolding decision_pass contents is_ranked
  decision_pass-acceptable proposed timed_out s h =
      let (count, size, ranked) = accept_proposals_lem proposed 0 s (omega arith) h in
      (ground (arith, count, size), ranked)
