-- ===== src/Control/Queue/Ranked.antt =====
-- Each queue holds entries of its own priority, and an entry that goes back is the next one again.
use intent_execution_layer.Common.{
  ℕ, ◌≡◌, ◌⊎◌, refl, sym, ap, ◌∙◌, true, List, [], ◌∷◌, none, some, ◌==◌, all, all-append, arith,
  inl, inr, Bool-cases,
}
use intent_execution_layer.Intent.{Intent}
use intent_execution_layer.Control.{
  ControlPriority, high, medium, low, priority_value, QueuedIntent, RuntimeState, bump,
}
use intent_execution_layer.Control.Queue.{
  push_back, push_front, enqueue_intent, pop_high, pop_medium, pop_low, pop_intent, requeue,
}
use intent_execution_layer.Control.Queue.Refines.{contents, has_priority, is_ranked, List-cases}

same_priority : (p q : ControlPriority) → (priority_value p == priority_value q) ≡ true → p ≡ q
same_priority high high h = refl
same_priority high medium h = cc
same_priority high low h = cc
same_priority medium high h = cc
same_priority medium medium h = refl
same_priority medium low h = cc
same_priority low high h = cc
same_priority low medium h = cc
same_priority low low h = refl

push_back-is_ranked :
    (p : ControlPriority) (q : QueuedIntent) (s : RuntimeState)
    → priority_value q.priority ≡ priority_value p
    → is_ranked s ≡ true
    → is_ranked (push_back p q s) ≡ true
unfolding push_back is_ranked
push_back-is_ranked high q s e h =
    ground (arith, e, h, all-append (has_priority high) s.high_queue (q ∷ []))
push_back-is_ranked medium q s e h =
    ground (arith, e, h, all-append (has_priority medium) s.medium_queue (q ∷ []))
push_back-is_ranked low q s e h =
    ground (arith, e, h, all-append (has_priority low) s.low_queue (q ∷ []))

push_front-is_ranked :
    (p : ControlPriority) (q : QueuedIntent) (s : RuntimeState)
    → priority_value q.priority ≡ priority_value p
    → is_ranked s ≡ true
    → is_ranked (push_front p q s) ≡ true
unfolding push_front is_ranked
push_front-is_ranked high q s e h = ground (arith, e, h)
push_front-is_ranked medium q s e h = ground (arith, e, h)
push_front-is_ranked low q s e h = ground (arith, e, h)

pub enqueue_intent-is_ranked :
    (i : Intent) (priority : ControlPriority) (now : ℕ) (s : RuntimeState)
    → is_ranked s ≡ true
    → is_ranked (enqueue_intent i priority now s).1 ≡ true
unfolding enqueue_intent is_ranked
enqueue_intent-is_ranked i priority now s h = elim (Bool-cases s.running) [
  | inr e ↦ rw (enqueue_intent, e) h
  | inl e ↦
      let q : QueuedIntent = record {
        intent = i;
        priority = priority;
        sequence = s.next_sequence;
        enqueued_at = now;
      } in
      simp (enqueue_intent, e)
        (push_back-is_ranked priority q
          (record s { running = true; next_sequence = bump s.next_sequence }) refl h)
]

pub requeue-is_ranked :
    (q : QueuedIntent) (s : RuntimeState) → is_ranked s ≡ true → is_ranked (requeue q s) ≡ true
unfolding requeue is_ranked
requeue-is_ranked q s h = push_front-is_ranked q.priority _ _ refl h

pub pop_intent-is_ranked :
    (s : RuntimeState) → is_ranked s ≡ true → is_ranked (pop_intent s).1 ≡ true
unfolding pop_intent is_ranked
pop_intent-is_ranked s h = elim (List-cases s.high_queue) [
  | inr (q, rest, e) ↦ rw e (ground (arith, h, ap (all (has_priority high)) e))
  | inl e ↦ elim (List-cases s.medium_queue) [
    | inr (q, rest, f) ↦ rw (e, f) (ground (arith, h, ap (all (has_priority medium)) f))
    | inl f ↦ elim (List-cases s.low_queue) [
      | inr (q, rest, g) ↦ rw (e, f, g) (ground (arith, h, ap (all (has_priority low)) g))
      | inl g ↦ rw (e, f, g) refl
    ]
  ]
]

-- The queues before the one of the priority are empty.
IsFront : ControlPriority → RuntimeState → Type 0
IsFront p s = (p ≡ high) ⊎ (s.high_queue ≡ []) × ((p ≡ medium) ⊎ (s.medium_queue ≡ []) × (p ≡ low))

push_front-contents :
    (p : ControlPriority) (q : QueuedIntent) (s : RuntimeState)
    → IsFront p s
    → contents (push_front p q s) ≡ q ∷ contents s
unfolding push_front contents IsFront
push_front-contents p q s (inl e) = rw e refl
push_front-contents p q s (inr (a, inl e)) = rw (e, a) refl
push_front-contents p q s (inr (a, inr (b, e))) = rw (e, a, b) refl

priority_of_first :
    (p : ControlPriority) (first q : QueuedIntent) (xs rest : List QueuedIntent)
    → xs ≡ first ∷ rest
    → all (has_priority p) xs ≡ true
    → some first ≡ some q
    → q.priority ≡ p
priority_of_first p first q xs rest e h k =
    let same : first ≡ q = cc in
    let ranked = ap (all (has_priority p)) e in
    let value = ap (λ (x : QueuedIntent). priority_value x.priority) same in
    same_priority q.priority p (ground (arith, h, ranked, value))

pop_intent-IsFront :
    (q : QueuedIntent) (s : RuntimeState)
    → is_ranked s ≡ true
    → (pop_intent s).0 ≡ some q
    → IsFront q.priority (pop_intent s).1
unfolding pop_intent is_ranked IsFront
pop_intent-IsFront q s h k = elim (List-cases s.high_queue) [
  | inr (first, rest, e) ↦ inl (
      priority_of_first high first q s.high_queue rest e (ground (arith, h))
        (sym (ap (λ xs. (pop_high xs s).0) e) ∙ k))
  | inl e ↦
      let k1 : (pop_medium s.medium_queue s).0 ≡ some q =
        sym (ap (λ xs. (pop_high xs s).0) e) ∙ k in
      elim (List-cases s.medium_queue) [
        | inr (first, rest, f) ↦ inr (
          rw (e, f) refl,
          inl (
              priority_of_first medium first q s.medium_queue rest f (ground (arith, h))
                (sym (ap (λ xs. (pop_medium xs s).0) f) ∙ k1)),
        )
        | inl f ↦
            let k2 : (pop_low s.low_queue s).0 ≡ some q =
              sym (ap (λ xs. (pop_medium xs s).0) f) ∙ k1 in
            elim (List-cases s.low_queue) [
              | inr (first, rest, g) ↦ inr (
                rw (e, f, g) refl,
                inr (
                  rw (e, f, g) refl,
                  priority_of_first low first q s.low_queue rest g (ground (arith, h))
                      (sym (ap (λ xs. (pop_low xs s).0) g) ∙ k2),
                ),
              )
              | inl g ↦ let k3 : none ≡ some q = sym (ap (λ xs. (pop_low xs s).0) g) ∙ k2 in cc
            ]
      ]
]

-- From a runtime whose queues are ranked, an entry that is taken and put back because its frame has
-- no time left is the next to be taken again, with the sequence number 0, and the others keep their
-- order.
pub requeue-pop_intent :
    (q : QueuedIntent) (s : RuntimeState)
    → is_ranked s ≡ true
    → (pop_intent s).0 ≡ some q
    → contents (requeue q (pop_intent s).1) ≡ record q { sequence = 0 } ∷ contents (pop_intent s).1
unfolding requeue contents IsFront
requeue-pop_intent q s h k =
    let s' = (pop_intent s).1 in
    push_front-contents q.priority (record q { sequence = 0 })
      (record s' { dropped_frames = bump s'.dropped_frames }) (pop_intent-IsFront q s h k)
