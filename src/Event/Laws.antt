-- ===== src/Event/Laws.antt =====
-- Subscriptions are kept in order, ids are not given twice, and a failing handler stops no other.
use intent_execution_layer.Common.{
  ℕ, ◌+◌, ◌%◌, ◌^◌, ◌<◌, ◌≤◌, ◌≡◌, refl, sym, ap, subst, ◌∙◌, ◌↔◌, List, [], ◌∷◌, ◌++◌, some, arith,
  true, if◌then◌else◌, ◌==◌, All, All-append, if-intro, Bool-cases, inl, inr,
}
use intent_execution_layer.Text.{Text}
use intent_execution_layer.Event.{
  EventType, snapshot_captured, registry_updated, execution_started, execution_retry,
  execution_fallback, execution_finished, ui_changed, file_system_changed, ambiguity_detected,
  error, Event, Handler, Subscription, EventBus, event_type_value, event_type_eq, handlers_of,
  push_handler, subscribe, without_id, drop_handler, unsubscribe, logged, deliver, stamped, publish,
}

event_type_of : ℕ → EventType
event_type_of n =
    if n == 0
    then snapshot_captured
    else if n == 1
    then registry_updated
    else if n == 2
    then execution_started
    else if n == 3
    then execution_retry
    else if n == 4
    then execution_fallback
    else if n == 5
    then execution_finished
    else if n == 6
    then ui_changed
    else if n == 7
    then file_system_changed
    else if n == 8
    then ambiguity_detected
    else error

event_type_of-value : (t : EventType) → event_type_of (event_type_value t) ≡ t
unfolding event_type_of event_type_value
event_type_of-value snapshot_captured = refl
event_type_of-value registry_updated = refl
event_type_of-value execution_started = refl
event_type_of-value execution_retry = refl
event_type_of-value execution_fallback = refl
event_type_of-value execution_finished = refl
event_type_of-value ui_changed = refl
event_type_of-value file_system_changed = refl
event_type_of-value ambiguity_detected = refl
event_type_of-value error = refl

equal_values : (a b : ℕ) → (a == b) ≡ true → a ≡ b
equal_values a b h = ground arith

equal_value_refl : (a : ℕ) → (a == a) ≡ true
equal_value_refl a = ground arith

event_type_eq→eq : (a b : EventType) → event_type_eq a b ≡ true → a ≡ b
unfolding event_type_eq
event_type_eq→eq a b h =
    sym (event_type_of-value a)
    ∙ ap event_type_of (equal_values (event_type_value a) (event_type_value b) h)
    ∙ event_type_of-value b

event_type_eq_refl : (a : EventType) → event_type_eq a a ≡ true
unfolding event_type_eq
event_type_eq_refl a = equal_value_refl (event_type_value a)

-- The enumerators are told apart.
pub event_type_eq_iff : (a b : EventType) → (event_type_eq a b ≡ true) ↔ (a ≡ b)
event_type_eq_iff a b =
    (event_type_eq→eq a b, λ e. subst (λ c. event_type_eq a c ≡ true) e (event_type_eq_refl a))

event_type_eq_subst :
    (v t u : EventType) → event_type_eq v t ≡ true → event_type_eq v u ≡ event_type_eq t u
event_type_eq_subst v t u h = ap (λ w. event_type_eq w u) (event_type_eq→eq v t h)

event_type_eq_subst_right :
    (t u v : EventType) → event_type_eq t u ≡ true → event_type_eq v t ≡ event_type_eq v u
event_type_eq_subst_right t u v h = ap (λ w. event_type_eq v w) (event_type_eq→eq t u h)

module _ {S : Type 0} where
  handlers_of-push_handler :
      (t u : EventType) (x : Subscription S) (m : List (EventType × List (Subscription S)))
      → handlers_of u (push_handler t x m)
        ≡ (if event_type_eq t u then handlers_of u m ++ x ∷ [] else handlers_of u m)
  unfolding handlers_of push_handler
  handlers_of-push_handler t u x [] = ground arith
  handlers_of-push_handler t u x ((v, handlers) ∷ m) = ground (
    arith,
    handlers_of-push_handler t u x m,
    event_type_eq_subst v t u,
    event_type_eq_subst_right t u v,
  )

  handlers_of-drop_handler :
      (t u : EventType) (id : ℕ) (m : List (EventType × List (Subscription S)))
      → handlers_of u (drop_handler t id m)
        ≡ (if event_type_eq t u then without_id id (handlers_of u m) else handlers_of u m)
  unfolding handlers_of drop_handler without_id
  handlers_of-drop_handler t u id [] = ground arith
  handlers_of-drop_handler t u id ((v, handlers) ∷ m) = ground (
    arith,
    handlers_of-drop_handler t u id m,
    event_type_eq_subst v t u,
    event_type_eq_subst_right t u v,
  )

  -- No handler of any type has an id from `bound` on, and the ids start at 1.
  pub record IsFresh (bus : EventBus S) : Type 0 where
    pub issued :
        (t : EventType)
        → All (λ s. s.0 < bus.next_subscription_id) (handlers_of t bus.subscriptions)
    pub positive : 0 < bus.next_subscription_id

  All-lt_mono :
      (xs : List (Subscription S)) (m n : ℕ) → m ≤ n → All (λ s. s.0 < m) xs → All (λ s. s.0 < n) xs
  All-lt_mono [] m n h a = tt
  All-lt_mono (x ∷ xs) m n h a = (omega arith, All-lt_mono xs m n h a.1)

  -- While the ids do not wrap, a subscription gets an id that no handler of the bus has, it is not the
  -- id 0 of a refused one, and the bus with the new handler again issues fresh ids only.
  pub subscribe-IsFresh :
      (t : EventType) (h : Handler S) (bus : EventBus S)
      → IsFresh bus
      → bus.next_subscription_id + 1 < 2 ^ 64
      → IsFresh (subscribe t (some h) bus).1 × (0 < (subscribe t (some h) bus).0)
  unfolding subscribe
  subscribe-IsFresh t h bus fresh room = (
    record {
      issued = λ u.
          rw (handlers_of-push_handler t u (bus.next_subscription_id, h) bus.subscriptions) (
            rw (next_id bus.next_subscription_id room) (
              if-intro (All (λ s. s.0 < bus.next_subscription_id + 1)) (event_type_eq t u) _ _
                (All-append (λ s. s.0 < bus.next_subscription_id + 1)
                  (handlers_of u bus.subscriptions) ((bus.next_subscription_id, h) ∷ [])
                  (All-lt_mono (handlers_of u bus.subscriptions) _ _ (omega arith) (fresh.issued u))
                  (omega arith, tt))
                (All-lt_mono (handlers_of u bus.subscriptions) _ _ (omega arith)
                  (fresh.issued u))));
      positive = rw (next_id bus.next_subscription_id room) (omega arith);
    },
    fresh.positive,
  )
    where
      next_id : (n : ℕ) → n + 1 < 2 ^ 64 → (n + 1) % 2 ^ 64 ≡ n + 1
      next_id n h = omega arith

  without_fresh_id :
      (n : ℕ) (h : Handler S) (xs : List (Subscription S))
      → All (λ s. s.0 < n) xs
      → without_id n (xs ++ (n, h) ∷ []) ≡ xs
  unfolding without_id
  without_fresh_id n h [] a = ground arith
  without_fresh_id n h ((i, g) ∷ xs) a = ground (arith, without_fresh_id n h xs a.1)

  without_absent_id :
      (n : ℕ) (xs : List (Subscription S)) → All (λ s. s.0 < n) xs → without_id n xs ≡ xs
  unfolding without_id
  without_absent_id n [] a = refl
  without_absent_id n ((i, g) ∷ xs) a = ground (arith, without_absent_id n xs a.1)

  -- A handler that is subscribed stands last among those of its type and nowhere else, and
  -- unsubscribing it by the id that was returned gives every type its handlers back, in order.
  pub unsubscribe-subscribe :
      (t u : EventType) (h : Handler S) (bus : EventBus S)
      → IsFresh bus
      → (handlers_of u (subscribe t (some h) bus).1.subscriptions ≡ (
          if event_type_eq t u
          then handlers_of u bus.subscriptions ++ (bus.next_subscription_id, h) ∷ []
          else handlers_of u bus.subscriptions))
        × (handlers_of u
              (unsubscribe t
                (subscribe t (some h) bus).0
                (subscribe t (some h) bus).1).subscriptions
            ≡ handlers_of u bus.subscriptions)
  unfolding subscribe unsubscribe
  unsubscribe-subscribe t u h bus fresh = (
    handlers_of-push_handler t u (bus.next_subscription_id, h) bus.subscriptions,
    ground (
      arith,
      handlers_of-drop_handler t u bus.next_subscription_id
          (push_handler t (bus.next_subscription_id, h) bus.subscriptions),
      handlers_of-push_handler t u (bus.next_subscription_id, h) bus.subscriptions,
      without_fresh_id bus.next_subscription_id h (handlers_of u bus.subscriptions)
          (fresh.issued u),
    ),
  )

  -- Subscribing one handler after the other
  abbrev pub subscribe_all : List (EventType × Handler S) → EventBus S → EventBus S
  subscribe_all [] bus = bus
  subscribe_all ((t, h) ∷ xs) bus = subscribe_all xs (subscribe t (some h) bus).1

  -- The state after all handlers have acted in turn
  act_all : Event → List (Subscription S) → S → S
  act_all event [] s = s
  act_all event ((id, handler) ∷ handlers) s = act_all event handlers (handler event s).1

  -- The state after the handlers of one type have acted in turn
  abbrev pub act_of_type : EventType → Event → List (EventType × Handler S) → S → S
  act_of_type type event [] s = s
  act_of_type type event ((t, handler) ∷ xs) s =
      act_of_type type event xs (if event_type_eq t type then (handler event s).1 else s)

  deliver-act_all :
      (event : Event) (xs : List (Subscription S)) (s : S) (log : List Text)
      → (deliver event xs s log).0 ≡ act_all event xs s
  unfolding deliver act_all
  deliver-act_all event [] s log = refl
  deliver-act_all event ((id, handler) ∷ xs) s log =
      let (outcome, s') = handler event s in deliver-act_all event xs s' (logged outcome log)

  act_all-append :
      (event : Event) (xs ys : List (Subscription S)) (s : S)
      → act_all event (xs ++ ys) s ≡ act_all event ys (act_all event xs s)
  unfolding act_all
  act_all-append event [] ys s = refl
  act_all-append event ((id, handler) ∷ xs) ys s = act_all-append event xs ys (handler event s).1

  act_all-subscribe :
      (t : EventType) (h : Handler S) (type : EventType) (event : Event) (bus : EventBus S) (s : S)
      → let s' = act_all event (handlers_of type bus.subscriptions) s in
        act_all event (handlers_of type (subscribe t (some h) bus).1.subscriptions) s
        ≡ (if event_type_eq t type then (h event s').1 else s')
  unfolding subscribe act_all
  act_all-subscribe t h type event bus s = ground (
    arith,
    handlers_of-push_handler t type (bus.next_subscription_id, h) bus.subscriptions,
    act_all-append event (handlers_of type bus.subscriptions) ((bus.next_subscription_id, h) ∷ [])
        s,
  )

  act_all-subscribe_all :
      (xs : List (EventType × Handler S)) (type : EventType) (event : Event) (bus : EventBus S)
      (s : S)
      → act_all event (handlers_of type (subscribe_all xs bus).subscriptions) s
        ≡ act_of_type type event xs (act_all event (handlers_of type bus.subscriptions) s)
  unfolding subscribe act_all
  act_all-subscribe_all [] type event bus s = refl
  act_all-subscribe_all ((t, h) ∷ xs) type event bus s =
      act_all-subscribe_all xs type event (subscribe t (some h) bus).1 s
      ∙ ap (act_of_type type event xs) (act_all-subscribe t h type event bus s)

-- A bus as it is constructed
abbrev pub new_bus : {S : Type 0} → EventBus S
new_bus = record { subscriptions = []; next_subscription_id = 1 }

-- Publishing on a bus on which handlers have been subscribed runs those of the event's type, each
-- once, in the order in which they were subscribed, and no others, whether or not earlier ones throw.
-- Each is given the event with its type, source, message and priority, and with the time of the clock
-- if the event has none.
pub publish-subscribe_all :
    {S : Type 0} (xs : List (EventType × Handler S)) (event : Event) (now : ℕ) (s : S)
    → (publish event now (subscribe_all xs new_bus) s).0
      ≡ act_of_type event.type
          (record {
            type = event.type;
            source = event.source;
            message = event.message;
            timestamp = if event.timestamp == 0 then now else event.timestamp;
            priority = event.priority;
          })
          xs
          s
unfolding publish stamped act_all handlers_of
publish-subscribe_all {S} xs event now s = elim (Bool-cases (event.timestamp == 0)) [
  | inl e ↦ rw e (
      deliver-act_all (record event { timestamp = now })
        (handlers_of event.type (subscribe_all xs (new_bus {S = S})).subscriptions) s []
      ∙ act_all-subscribe_all xs event.type (record event { timestamp = now }) new_bus s)
  | inr e ↦ rw e (
      deliver-act_all event
        (handlers_of event.type (subscribe_all xs (new_bus {S = S})).subscriptions) s []
      ∙ act_all-subscribe_all xs event.type event new_bus s)
]
