-- ===== src/Event.antt =====
-- core/event/include/EventBus.h and core/event/src/EventBus.cpp. A handler acts on a state of its
-- own choosing, `S`; whether it returns or throws, what it did to the state stays done.
pub mod Laws
use intent_execution_layer.Common.{
  ℕ, ◌+◌, ◌%◌, ◌^◌, List, [], ◌∷◌, ◌++◌, Option, none, some, if◌then◌else◌, Bool, true, ◌==◌,
}
use intent_execution_layer.Text.{Text, text}

pub data EventType : Type 0 where
  snapshot_captured registry_updated execution_started execution_retry execution_fallback :
      EventType
  execution_finished ui_changed file_system_changed ambiguity_detected error : EventType

pub data EventPriority : Type 0 where
  high medium low : EventPriority

pub record Event : Type 0 where
  pub type : EventType
  pub source : Text
  pub message : Text
  pub timestamp : ℕ
  pub priority : EventPriority

unfoldable pub event_type_value : EventType → ℕ
event_type_value snapshot_captured = 0
event_type_value registry_updated = 1
event_type_value execution_started = 2
event_type_value execution_retry = 3
event_type_value execution_fallback = 4
event_type_value execution_finished = 5
event_type_value ui_changed = 6
event_type_value file_system_changed = 7
event_type_value ambiguity_detected = 8
event_type_value error = 9

unfoldable pub event_type_eq : EventType → EventType → Bool
unfolding event_type_value
event_type_eq a b = event_type_value a == event_type_value b

-- How a handler ends: `catch` logs the message of an exception, and that it knows none of another
-- thrown value.
pub data HandlerOutcome : Type 0 where
  returned threw_unknown : HandlerOutcome
  threw : Text → HandlerOutcome

abbrev pub Handler : Type 0 → Type 0
Handler S = Event → S → HandlerOutcome × S

abbrev pub Subscription : Type 0 → Type 0
Subscription S = ℕ × Handler S

pub record EventBus (S : Type 0) : Type 0 where
  pub subscriptions : List (EventType × List (Subscription S))
  pub next_subscription_id : ℕ

logged : HandlerOutcome → List Text → List Text
logged returned log = log
logged threw_unknown log = log ++ text "Event handler failed with unknown exception" ∷ []
logged (threw message) log = log ++ (text "Event handler failed: " ++ message) ∷ []

unfoldable pub stamped : Event → ℕ → Event
stamped event now = if event.timestamp == 0 then record event { timestamp = now } else event

module _ {S : Type 0} where
  -- subscriptions_[type], empty where there is no entry
  unfoldable pub handlers_of :
      EventType → List (EventType × List (Subscription S)) → List (Subscription S)
  handlers_of type [] = []
  handlers_of type ((t, handlers) ∷ rest) =
      if event_type_eq t type then handlers else handlers_of type rest

  unfoldable pub push_handler :
      EventType
      → Subscription S
      → List (EventType × List (Subscription S))
      → List (EventType × List (Subscription S))
  push_handler type subscription [] = (type, subscription ∷ []) ∷ []
  push_handler type subscription ((t, handlers) ∷ rest) =
      if event_type_eq t type
      then (t, handlers ++ subscription ∷ []) ∷ rest
      else (t, handlers) ∷ push_handler type subscription rest

  -- Subscribe; `none` is an empty function. Ids are 64 bits wide.
  unfoldable pub subscribe : EventType → Option (Handler S) → EventBus S → ℕ × EventBus S
  subscribe type none bus = (0, bus)
  subscribe type (some handler) bus = (
    bus.next_subscription_id,
    record {
      subscriptions = push_handler type (bus.next_subscription_id, handler) bus.subscriptions;
      next_subscription_id = (bus.next_subscription_id + 1) % 2 ^ 64;
    },
  )

  -- erase(remove_if(…)) of the handlers with the id
  unfoldable pub without_id : ℕ → List (Subscription S) → List (Subscription S)
  without_id id [] = []
  without_id id ((i, handler) ∷ handlers) =
      let rest = without_id id handlers in if i == id then rest else (i, handler) ∷ rest

  unfoldable pub drop_handler :
      EventType
      → ℕ
      → List (EventType × List (Subscription S))
      → List (EventType × List (Subscription S))
  drop_handler type id [] = []
  drop_handler type id ((t, handlers) ∷ rest) =
      if event_type_eq t type
      then (t, without_id id handlers) ∷ rest
      else (t, handlers) ∷ drop_handler type id rest

  unfoldable pub unsubscribe : EventType → ℕ → EventBus S → EventBus S
  unsubscribe type id bus = record bus { subscriptions = drop_handler type id bus.subscriptions }

  -- The loop over the copied handlers; the log is what the logger was told.
  unfoldable pub deliver : Event → List (Subscription S) → S → List Text → S × List Text
  unfolding logged
  deliver event [] s log = (s, log)
  deliver event ((id, handler) ∷ handlers) s log =
      let (outcome, s') = handler event s in deliver event handlers s' (logged outcome log)

  -- Publish, at the time that the system clock shows
  unfoldable pub publish : Event → ℕ → EventBus S → S → S × List Text
  unfolding stamped
  publish event now bus s =
      deliver (stamped event now) (handlers_of event.type bus.subscriptions) s []
