-- ===== src/Control/Machine/Invariant.antt =====
-- What holds in every state that a runtime gets to.
use intent_execution_layer.Common.{
  ℕ, ◌≤◌, ◌≡◌, refl, ◌∙◌, true, false, ◌&&◌, Option, none, some, length, pos, arith, inl, inr,
  Bool-cases,
}
use intent_execution_layer.Text.{Text}
use intent_execution_layer.Event.{Event, EventPriority}
use intent_execution_layer.Control.{ControlRuntimeConfig, RuntimeState, bump}
use intent_execution_layer.Control.Queue.{enqueue_intent, pop_intent, requeue}
use intent_execution_layer.Control.Queue.Refines.{is_ranked}
use intent_execution_layer.Control.Latency.{max_latency_samples, max_feedback_history}
use intent_execution_layer.Control.Latency.Percentiles.{length-push_latency}
use intent_execution_layer.Control.Lifecycle.{
  reset_state, start, request_stop, handle_event, take_event, begin_frame, count_event,
}
use intent_execution_layer.Control.Decision.{count_decisions}
use intent_execution_layer.Control.Frame.{
  record_observation, store_feedback, count_correction, end_frame,
}
use intent_execution_layer.Control.Frame.Keeps.{
  Serves, IsSound, enqueue_intent-Serves, requeue-Serves, pop_intent-Serves, store_feedback-Serves,
  take_event-Serves,
}
use intent_execution_layer.Control.Machine.{initial_state, Step, Reachable}

-- The queues are ranked, the histories are bounded, and a runtime that runs is not asked to stop.
abbrev IsSafe : RuntimeState → Type 0
IsSafe s = IsSound s × ((s.running && s.stop_requested) ≡ false)

Serves-IsSafe : (s s' : RuntimeState) → Serves s s' → IsSafe s → IsSafe s'
Serves-IsSafe s s' ((running, stop, config, frames, latencies), r, h)
      ((ranked, few, history), safe) =
    ((r ranked, rw latencies few, h history), rw (running, stop) safe)

start-IsSafe :
    (config : ControlRuntimeConfig) (millis : ℕ) (failure : Option Text) (adapter_name : Text)
    (s : RuntimeState)
    → IsSafe s
    → IsSafe (start config millis failure adapter_name s).2
unfolding start reset_state is_ranked
start-IsSafe config millis failure adapter_name s h = elim (Bool-cases s.running) [
  | inl e ↦ simp (start, e) (h.0, ground (arith, e, h.1))
  | inr e ↦ simp (start, e) (by_failure failure)
]
  where
    by_failure :
        (f : Option Text)
        → IsSafe (start config millis f adapter_name (record s { running = false })).2
    by_failure none = ((refl, omega arith, omega arith), refl)
    by_failure (some why) = ((refl, omega arith, omega arith), refl)

handle_event-Serves : (event : Event) (s : RuntimeState) → Serves s (handle_event event s)
unfolding handle_event count_event is_ranked
handle_event-Serves event s = elim (Bool-cases s.running) [
  | inr e ↦ simp (handle_event, e) ((refl, refl, refl, refl, refl), λ x. x, λ x. x)
  | inl e ↦
      let ((running, stop, config, frames, latencies), r, h) = by_priority event.priority in
      simp (handle_event, e) ((running ∙ e, stop, config, frames, latencies), r, h)
]
  where
    by_priority : (p : EventPriority) → Serves s (count_event p s)
    by_priority EventPriority.high = ((refl, refl, refl, refl, refl), λ x. x, λ x. x)
    by_priority EventPriority.medium = ((refl, refl, refl, refl, refl), λ x. x, λ x. x)
    by_priority EventPriority.low = ((refl, refl, refl, refl, refl), λ x. x, λ x. x)

Step-IsSafe : (s s' : RuntimeState) → Step s s' → IsSafe s → IsSafe s'
unfolding request_stop begin_frame record_observation end_frame count_correction count_decisions
    is_ranked
Step-IsSafe s _ (Step.started config millis failure adapter_name) h =
    start-IsSafe config millis failure adapter_name s h
Step-IsSafe s _ Step.stopped (sound, safe) = (sound, refl)
Step-IsSafe s _ Step.ended (sound, safe) = (sound, refl)
Step-IsSafe s _ (Step.enqueued i priority now) h =
    Serves-IsSafe s (enqueue_intent i priority now s).1 (enqueue_intent-Serves i priority now s) h
Step-IsSafe s _ (Step.told event) h =
    Serves-IsSafe s (handle_event event s) (handle_event-Serves event s) h
Step-IsSafe s _ Step.frame_begun h =
    let counted : RuntimeState = record s {
      version = bump s.version;
      frames_executed = bump s.frames_executed;
    } in
    Serves-IsSafe counted (take_event counted) (take_event-Serves counted) h
Step-IsSafe s _ (Step.observed found metrics) h = h
Step-IsSafe s _ Step.popped h = Serves-IsSafe s (pop_intent s).1 (pop_intent-Serves s) h
Step-IsSafe s _ (Step.requeued queued) h =
    Serves-IsSafe s (requeue queued s) (requeue-Serves queued s) h
Step-IsSafe s _ (Step.stored feedback) h =
    Serves-IsSafe s (store_feedback feedback s) (store_feedback-Serves feedback s) h
Step-IsSafe s _ Step.corrected h = h
Step-IsSafe s _ (Step.decided accepted timed_out) h = h
Step-IsSafe s _ (Step.executed trace_id) h = h
Step-IsSafe s _ (Step.frame_ended frame_ms cycle_ms) ((ranked, few, history), safe) =
    let longer = length-push_latency (pos cycle_ms) s.cycle_latencies_ms few in
    ((ranked, ground (arith, longer, few), history), safe)

invariant_everywhere : (s : RuntimeState) → Reachable s → IsSafe s
unfolding initial_state reset_state is_ranked
invariant_everywhere _ Reachable.constructed = ((refl, omega arith, omega arith), refl)
invariant_everywhere s (Reachable.stepped {s = before} r step) =
    Step-IsSafe before s step (invariant_everywhere before r)

-- After any sections of the runtime's threads, in any order, each queue holds entries of its own priority, there
-- are at most 4096 latencies and 512 feedbacks, and a runtime that runs is not asked to stop.
pub Reachable-IsSafe :
    (s : RuntimeState)
    → Reachable s
    → (is_ranked s ≡ true)
      × (length s.cycle_latencies_ms ≤ max_latency_samples)
      × (length s.feedback_history ≤ max_feedback_history)
      × ((s.running && s.stop_requested) ≡ false)
Reachable-IsSafe s r =
    let ((ranked, few, history), safe) = invariant_everywhere s r in (ranked, few, history, safe)
