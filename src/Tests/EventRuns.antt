-- ===== src/Tests/EventRuns.antt =====
-- A bus with one handler, which counts the events it is given and throws.
use intent_execution_layer.Common.{ℕ, ◌+◌, ◌≡◌, refl, true, ◌↔◌, List, [], ◌∷◌, arith}
use intent_execution_layer.Text.{text}
use intent_execution_layer.Event.{
  EventType, EventPriority, Event, Handler, HandlerOutcome, event_type_value, event_type_eq,
  handlers_of, push_handler, subscribe, deliver, publish,
}
use intent_execution_layer.Event.Laws.{
  IsFresh, subscribe_all, act_of_type, new_bus, event_type_eq_iff, publish-subscribe_all,
}

abbrev failing_counter : Handler ℕ
failing_counter event n = (HandlerOutcome.threw (text "oops"), n + 1)

new_bus-IsFresh : IsFresh (new_bus {S = ℕ})
unfolding handlers_of
new_bus-IsFresh = record { issued = λ t. tt; positive = omega arith }

abbrev finished : Event
finished = record {
  type = EventType.execution_finished;
  source = text "ExecutionEngine";
  message = text "Execution completed: done";
  timestamp = 0;
  priority = EventPriority.medium;
}

-- Two handlers of the event, and one of another type between them
abbrev subscribed : List (EventType × Handler ℕ)
subscribed =
    (EventType.execution_finished, failing_counter)
    ∷ (EventType.error, failing_counter)
    ∷ (EventType.execution_finished, failing_counter)
    ∷ []

publish-subscribe_all_example :
    (publish finished 9 (subscribe_all subscribed new_bus) 0).0
    ≡ act_of_type EventType.execution_finished (record finished { timestamp = 9 }) subscribed 0
publish-subscribe_all_example = publish-subscribe_all subscribed finished 9 0

two_handlers_run : (publish finished 9 (subscribe_all subscribed new_bus) 0).0 ≡ 2
unfolding publish subscribe push_handler handlers_of deliver event_type_eq event_type_value
two_handlers_run = refl

event_type_eq_iff_example :
    (event_type_eq EventType.ui_changed EventType.error ≡ true)
    ↔ (EventType.ui_changed ≡ EventType.error)
event_type_eq_iff_example = event_type_eq_iff EventType.ui_changed EventType.error
