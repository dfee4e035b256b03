-- ===== src/Control/Queue.antt =====
-- The three queues of the control runtime.
pub mod Refines
pub mod Ranked
use intent_execution_layer.Common.{
  ℕ, Bool, true, false, List, [], ◌∷◌, ◌++◌, Option, none, some, if◌then◌else◌,
}
use intent_execution_layer.Intent.{Intent}
use intent_execution_layer.Control.{
  ControlPriority, high, medium, low, QueuedIntent, RuntimeState, bump,
}

-- push_back into the queue of the priority
unfoldable pub push_back : ControlPriority → QueuedIntent → RuntimeState → RuntimeState
push_back high queued s = record s { high_queue = s.high_queue ++ queued ∷ [] }
push_back medium queued s = record s { medium_queue = s.medium_queue ++ queued ∷ [] }
push_back low queued s = record s { low_queue = s.low_queue ++ queued ∷ [] }

-- push_front
unfoldable pub push_front : ControlPriority → QueuedIntent → RuntimeState → RuntimeState
push_front high queued s = record s { high_queue = queued ∷ s.high_queue }
push_front medium queued s = record s { medium_queue = queued ∷ s.medium_queue }
push_front low queued s = record s { low_queue = queued ∷ s.low_queue }

-- EnqueueIntent at a time of the steady clock
unfoldable pub enqueue_intent : Intent → ControlPriority → ℕ → RuntimeState → Bool × RuntimeState
enqueue_intent i priority now s = elim s.running [
  | false ↦ (false, s)
  | true ↦
      let queued : QueuedIntent = record {
        intent = i;
        priority = priority;
        sequence = s.next_sequence;
        enqueued_at = now;
      } in
      (true, push_back priority queued (record s { next_sequence = bump s.next_sequence }))
]

unfoldable pub pop_low : List QueuedIntent → RuntimeState → Option QueuedIntent × RuntimeState
pop_low [] s = (none, s)
pop_low (queued ∷ rest) s = (some queued, record s { low_queue = rest })

unfoldable pub pop_medium : List QueuedIntent → RuntimeState → Option QueuedIntent × RuntimeState
unfolding pop_low
pop_medium [] s = pop_low s.low_queue s
pop_medium (queued ∷ rest) s = (some queued, record s { medium_queue = rest })

unfoldable pub pop_high : List QueuedIntent → RuntimeState → Option QueuedIntent × RuntimeState
unfolding pop_medium
pop_high [] s = pop_medium s.medium_queue s
pop_high (queued ∷ rest) s = (some queued, record s { high_queue = rest })

-- PopIntentLocked
unfoldable pub pop_intent : RuntimeState → Option QueuedIntent × RuntimeState
unfolding pop_high
pop_intent s = pop_high s.high_queue s

-- The entry that goes back to the front when the frame has no time left
unfoldable pub requeue : QueuedIntent → RuntimeState → RuntimeState
requeue popped s =
    push_front popped.priority
      (record {
        intent = popped.intent;
        priority = popped.priority;
        sequence = 0;
        enqueued_at = popped.enqueued_at;
      })
      (record s { dropped_frames = bump s.dropped_frames })
