-- ===== src/Control/Queue/Refines.antt =====
-- The three queues as one queue in the order of the priorities.
use intent_execution_layer.Common.{
  ℕ, ◌≡◌, ◌⊎◌, refl, sym, ap, ◌∙◌, Bool, true, ◌&&◌, List, [], ◌∷◌, ◌++◌, append_assoc, append-nil,
  Option, none, some, if◌then◌else◌, ltb, leb, ◌==◌, all, all-append, arith, inl, inr, Bool-cases,
}
use intent_execution_layer.Intent.{Intent}
use intent_execution_layer.Control.{
  ControlPriority, high, medium, low, priority_value, QueuedIntent, RuntimeState, bump,
}
use intent_execution_layer.Control.Queue.{push_back, enqueue_intent, pop_intent}

-- The abstract queue: the entry that is taken next comes first.
unfoldable pub contents : RuntimeState → List QueuedIntent
contents s = s.high_queue ++ (s.medium_queue ++ s.low_queue)

-- A new entry stands behind all entries that are as urgent.
unfoldable pub insert_behind : QueuedIntent → List QueuedIntent → List QueuedIntent
insert_behind q [] = q ∷ []
insert_behind q (x ∷ xs) =
    if ltb (priority_value q.priority) (priority_value x.priority)
    then q ∷ x ∷ xs
    else x ∷ insert_behind q xs

unfoldable pub take_first : List QueuedIntent → Option QueuedIntent × List QueuedIntent
take_first [] = (none, [])
take_first (q ∷ rest) = (some q, rest)

abbrev pub has_priority : ControlPriority → QueuedIntent → Bool
has_priority priority q = priority_value q.priority == priority_value priority

-- Each queue holds entries of its own priority.
unfoldable pub is_ranked : RuntimeState → Bool
is_ranked s =
    all (has_priority high) s.high_queue
    && all (has_priority medium) s.medium_queue
    && all (has_priority low) s.low_queue

insert_behind-append :
    (q : QueuedIntent) (priority : ControlPriority) (xs ys : List QueuedIntent)
    → all (has_priority priority) xs ≡ true
    → leb (priority_value priority) (priority_value q.priority) ≡ true
    → insert_behind q (xs ++ ys) ≡ xs ++ insert_behind q ys
unfolding insert_behind
insert_behind-append q priority [] ys h k = refl
insert_behind-append q priority (x ∷ xs) ys h k =
    let later = insert_behind-append q priority xs ys in
    elim (Bool-cases (ltb (priority_value q.priority) (priority_value x.priority))) [
      | inl e ↦ ground (arith, e, h, k)
      | inr e ↦ rw e (ap (◌∷◌ x) (later (ground (arith, h)) k))
    ]

insert_behind-less :
    (q : QueuedIntent) (ys : List QueuedIntent)
    → all (λ x. ltb (priority_value q.priority) (priority_value x.priority)) ys ≡ true
    → insert_behind q ys ≡ q ∷ ys
unfolding insert_behind
insert_behind-less q [] h = refl
insert_behind-less q (x ∷ ys) h =
    let first : ltb (priority_value q.priority) (priority_value x.priority) ≡ true =
      ground (arith, h) in
    rw first refl

has_priority-less :
    (v : ℕ) (priority : ControlPriority) (xs : List QueuedIntent)
    → all (has_priority priority) xs ≡ true
    → ltb v (priority_value priority) ≡ true
    → all (λ x. ltb v (priority_value x.priority)) xs ≡ true
has_priority-less v priority [] h k = refl
has_priority-less v priority (x ∷ xs) h k = ground (arith, h, k, has_priority-less v priority xs)

-- The entry goes behind the first of three lists that are ranked in this order.
insert_behind-high :
    (q : QueuedIntent) (a b c : List QueuedIntent)
    → priority_value q.priority ≡ 0
    → all (has_priority high) a ≡ true
    → all (has_priority medium) b ≡ true
    → all (has_priority low) c ≡ true
    → insert_behind q (a ++ (b ++ c)) ≡ (a ++ q ∷ []) ++ (b ++ c)
insert_behind-high q a b c e ha hb hc =
    let v = priority_value q.priority in
    let p = λ (x : QueuedIntent). ltb v (priority_value x.priority) in
    let mb = has_priority-less v medium b hb (ground (arith, e)) in
    let mc = has_priority-less v low c hc (ground (arith, e)) in
    let rest : all p (b ++ c) ≡ true = ground (arith, all-append p b c, mb, mc) in
    insert_behind-append q high a (b ++ c) ha (ground (arith, e))
    ∙ ap (λ r. a ++ r) (insert_behind-less q (b ++ c) rest)
    ∙ sym (append_assoc a (q ∷ []) (b ++ c))

insert_behind-medium :
    (q : QueuedIntent) (a b c : List QueuedIntent)
    → priority_value q.priority ≡ 1
    → all (has_priority high) a ≡ true
    → all (has_priority medium) b ≡ true
    → all (has_priority low) c ≡ true
    → insert_behind q (a ++ (b ++ c)) ≡ a ++ ((b ++ q ∷ []) ++ c)
insert_behind-medium q a b c e ha hb hc =
    let mc = has_priority-less (priority_value q.priority) low c hc (ground (arith, e)) in
    insert_behind-append q high a (b ++ c) ha (ground (arith, e))
    ∙ ap (λ r. a ++ r)
        (insert_behind-append q medium b c hb (ground (arith, e))
          ∙ ap (λ r. b ++ r) (insert_behind-less q c mc)
          ∙ sym (append_assoc b (q ∷ []) c))

insert_behind-low :
    (q : QueuedIntent) (a b c : List QueuedIntent)
    → priority_value q.priority ≡ 2
    → all (has_priority high) a ≡ true
    → all (has_priority medium) b ≡ true
    → all (has_priority low) c ≡ true
    → insert_behind q (a ++ (b ++ c)) ≡ a ++ (b ++ (c ++ q ∷ []))
insert_behind-low q a b c e ha hb hc =
    let last : insert_behind q c ≡ c ++ q ∷ [] =
      ap (insert_behind q) (sym (append-nil c))
      ∙ insert_behind-append q low c [] hc (ground (arith, e))
      ∙ ap (λ r. c ++ r) (insert_behind-less q [] refl) in
    insert_behind-append q high a (b ++ c) ha (ground (arith, e))
    ∙ ap (λ r. a ++ r)
        (insert_behind-append q medium b c hb (ground (arith, e)) ∙ ap (λ r. b ++ r) last)

push_back-contents :
    (priority : ControlPriority) (q : QueuedIntent) (s : RuntimeState)
    → priority_value q.priority ≡ priority_value priority
    → is_ranked s ≡ true
    → contents (push_back priority q s) ≡ insert_behind q (contents s)
unfolding push_back contents is_ranked
push_back-contents priority q s e h =
    let ha : all (has_priority high) s.high_queue ≡ true = ground (arith, h) in
    let hb : all (has_priority medium) s.medium_queue ≡ true = ground (arith, h) in
    let hc : all (has_priority low) s.low_queue ≡ true = ground (arith, h) in
    by_priority priority e ha hb hc
  where
    by_priority :
        (p : ControlPriority)
        → priority_value q.priority ≡ priority_value p
        → all (has_priority high) s.high_queue ≡ true
        → all (has_priority medium) s.medium_queue ≡ true
        → all (has_priority low) s.low_queue ≡ true
        → contents (push_back p q s) ≡ insert_behind q (contents s)
    by_priority high e ha hb hc =
        sym (insert_behind-high q s.high_queue s.medium_queue s.low_queue e ha hb hc)
    by_priority medium e ha hb hc =
        sym (insert_behind-medium q s.high_queue s.medium_queue s.low_queue e ha hb hc)
    by_priority low e ha hb hc =
        sym (insert_behind-low q s.high_queue s.medium_queue s.low_queue e ha hb hc)

-- A running runtime whose queues are ranked takes an intent: one entry with the intent, the priority
-- and the next sequence number goes behind all entries that are as urgent, and before all others. A
-- runtime that does not run refuses it.
pub enqueue_intent-insert_behind :
    (i : Intent) (priority : ControlPriority) (now : ℕ) (s : RuntimeState)
    → is_ranked s ≡ true
    → ((enqueue_intent i priority now s).0 ≡ s.running)
      × (contents (enqueue_intent i priority now s).1 ≡ (
          if s.running
          then insert_behind
              (record {
                intent = i;
                priority = priority;
                sequence = s.next_sequence;
                enqueued_at = now;
              })
              (contents s)
          else contents s))
unfolding enqueue_intent is_ranked contents
enqueue_intent-insert_behind i priority now s h = elim (Bool-cases s.running) [
  | inr e ↦ rw (enqueue_intent, e) (refl, refl)
  | inl e ↦
      let q : QueuedIntent = record {
        intent = i;
        priority = priority;
        sequence = s.next_sequence;
        enqueued_at = now;
      } in
      simp (enqueue_intent, e)
        (
          refl,
          push_back-contents priority q
              (record s { running = true; next_sequence = bump s.next_sequence }) refl h,
        )
]

pub List-cases :
    (xs : List QueuedIntent)
    → (xs ≡ []) ⊎ ((x : QueuedIntent) × (rest : List QueuedIntent) × (xs ≡ x ∷ rest))
List-cases [] = inl refl
List-cases (x ∷ rest) = inr (x, rest, refl)

-- What is taken is the first entry of the abstract queue, and the others stay in their order.
pub pop_intent-take_first :
    (s : RuntimeState) → ((pop_intent s).0, contents (pop_intent s).1) ≡ take_first (contents s)
unfolding pop_intent contents take_first
pop_intent-take_first s = elim (List-cases s.high_queue) [
  | inr (q, rest, e) ↦ rw e refl
  | inl e ↦ elim (List-cases s.medium_queue) [
    | inr (q, rest, f) ↦ rw (e, f) refl
    | inl f ↦ elim (List-cases s.low_queue) [
      | inr (q, rest, g) ↦ rw (e, f, g) refl
      | inl g ↦ rw (e, f, g) refl
    ]
  ]
]
