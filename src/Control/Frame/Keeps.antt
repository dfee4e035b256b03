-- ===== src/Control/Frame/Keeps.antt =====
-- What every section of a frame leaves as it is, and the bounds that it keeps.
use intent_execution_layer.Common.{
  ℕ, ◌≤◌, ◌≡◌, refl, ◌∙◌, true, ◌&&◌, Option, none, some, ltb, length, ℤ, pos, ltb_ℤ, sub_ℤ, to_int,
  arith, inl, inr, Bool-cases,
}
use intent_execution_layer.Double.{Double, DoubleOps}
use intent_execution_layer.Intent.{Intent}
use intent_execution_layer.Execution.{ExecutionResult, is_success, elapsed_ms}
use intent_execution_layer.Control.{
  ControlPriority, high, medium, low, QueuedIntent, Observation, ObservationMetrics, Feedback,
  RuntimeState, bump, should_schedule_correction,
}
use intent_execution_layer.Control.Queue.{
  push_back, push_front, enqueue_intent, pop_intent, requeue,
}
use intent_execution_layer.Control.Queue.Refines.{is_ranked, List-cases}
use intent_execution_layer.Control.Queue.Ranked.{
  enqueue_intent-is_ranked, requeue-is_ranked, pop_intent-is_ranked,
}
use intent_execution_layer.Control.Latency.{max_latency_samples, max_feedback_history}
use intent_execution_layer.Control.Latency.Percentiles.{length-push_latency, length-push_feedback}
use intent_execution_layer.Control.Lifecycle.{take_event, begin_frame}
use intent_execution_layer.Control.Frame.{
  FramePort, corrective_intent, record_observation, store_feedback, schedule_correction, end_frame,
  refresh_registry, look_up_state, report_state, micros_ms, take_feedback, execute_in_frame, serve,
  run_frame,
}

-- The queues are ranked and the histories are bounded.
abbrev pub IsSound : RuntimeState → Type 0
IsSound s =
    (is_ranked s ≡ true)
    × (length s.cycle_latencies_ms ≤ max_latency_samples)
    × (length s.feedback_history ≤ max_feedback_history)

-- Nothing of the loop's control changes.
abbrev pub Keeps : RuntimeState → RuntimeState → Type 0
Keeps s s' =
    (s'.running ≡ s.running)
    × (s'.stop_requested ≡ s.stop_requested)
    × (s'.config ≡ s.config)
    × (s'.frames_executed ≡ s.frames_executed)
    × (s'.cycle_latencies_ms ≡ s.cycle_latencies_ms)
    × (s'.feedback_history ≡ s.feedback_history)

push_back-Keeps :
    (p : ControlPriority) (q : QueuedIntent) (s : RuntimeState) → Keeps s (push_back p q s)
unfolding push_back
push_back-Keeps high q s = (refl, refl, refl, refl, refl, refl)
push_back-Keeps medium q s = (refl, refl, refl, refl, refl, refl)
push_back-Keeps low q s = (refl, refl, refl, refl, refl, refl)

push_front-Keeps :
    (p : ControlPriority) (q : QueuedIntent) (s : RuntimeState) → Keeps s (push_front p q s)
unfolding push_front
push_front-Keeps high q s = (refl, refl, refl, refl, refl, refl)
push_front-Keeps medium q s = (refl, refl, refl, refl, refl, refl)
push_front-Keeps low q s = (refl, refl, refl, refl, refl, refl)

pub enqueue_intent-Keeps :
    (i : Intent) (p : ControlPriority) (now : ℕ) (s : RuntimeState)
    → Keeps s (enqueue_intent i p now s).1
unfolding enqueue_intent
enqueue_intent-Keeps i p now s = elim (Bool-cases s.running) [
  | inr e ↦ simp (enqueue_intent, e) (refl, refl, refl, refl, refl, refl)
  | inl e ↦
      simp (enqueue_intent, e)
        (push_back-Keeps p _ (record s { running = true; next_sequence = bump s.next_sequence }))
]

pub pop_intent-Keeps : (s : RuntimeState) → Keeps s (pop_intent s).1
unfolding pop_intent
pop_intent-Keeps s = elim (List-cases s.high_queue) [
  | inr (q, rest, e) ↦ simp (pop_intent, e) (refl, refl, refl, refl, refl, refl)
  | inl e ↦ elim (List-cases s.medium_queue) [
    | inr (q, rest, f) ↦ simp (pop_intent, e, f) (refl, refl, refl, refl, refl, refl)
    | inl f ↦ elim (List-cases s.low_queue) [
      | inr (q, rest, g) ↦ simp (pop_intent, e, f, g) (refl, refl, refl, refl, refl, refl)
      | inl g ↦ simp (pop_intent, e, f, g) (refl, refl, refl, refl, refl, refl)
    ]
  ]
]

requeue-Keeps : (q : QueuedIntent) (s : RuntimeState) → Keeps s (requeue q s)
unfolding requeue
requeue-Keeps q s =
    push_front-Keeps q.priority _ (record s { dropped_frames = bump s.dropped_frames })

-- What the sections between the beginning and the end of a frame do
abbrev pub Serves : RuntimeState → RuntimeState → Type 0
Serves s s' =
    ((s'.running ≡ s.running)
      × (s'.stop_requested ≡ s.stop_requested)
      × (s'.config ≡ s.config)
      × (s'.frames_executed ≡ s.frames_executed)
      × (s'.cycle_latencies_ms ≡ s.cycle_latencies_ms))
    × (is_ranked s ≡ true → is_ranked s' ≡ true)
    × (length s.feedback_history ≤ max_feedback_history
        → length s'.feedback_history ≤ max_feedback_history)

Keeps-Serves :
    (s s' : RuntimeState) → Keeps s s' → (is_ranked s ≡ true → is_ranked s' ≡ true) → Serves s s'
Keeps-Serves s s' (running, stop, config, frames, latencies, history) ranked =
    ((running, stop, config, frames, latencies), ranked, λ h. ground (arith, history, h))

Serves-trans : (s s' s'' : RuntimeState) → Serves s s' → Serves s' s'' → Serves s s''
Serves-trans s s' s'' ((a, b, c, d, e), r, h) ((a', b', c', d', e'), r', h') =
    ((a' ∙ a, b' ∙ b, c' ∙ c, d' ∙ d, e' ∙ e), λ x. r' (r x), λ x. h' (h x))

pub enqueue_intent-Serves :
    (i : Intent) (p : ControlPriority) (now : ℕ) (s : RuntimeState)
    → Serves s (enqueue_intent i p now s).1
enqueue_intent-Serves i p now s =
    Keeps-Serves s _ (enqueue_intent-Keeps i p now s) (enqueue_intent-is_ranked i p now s)

pub requeue-Serves : (q : QueuedIntent) (s : RuntimeState) → Serves s (requeue q s)
requeue-Serves q s = Keeps-Serves s _ (requeue-Keeps q s) (requeue-is_ranked q s)

pub store_feedback-Serves :
    (feedback : Feedback) (s : RuntimeState) → Serves s (store_feedback feedback s)
unfolding store_feedback is_ranked
store_feedback-Serves feedback s = (
  (refl, refl, refl, refl, refl),
  λ r. r,
  λ h. ground (arith, length-push_feedback feedback s.feedback_history h, h),
)

pub schedule_correction-Serves :
    (i : Intent) (now : ℕ) (s : RuntimeState) → Serves s (schedule_correction i now s)
unfolding schedule_correction is_ranked
schedule_correction-Serves i now s =
    let i' = corrective_intent i in
    let (taken, s') = enqueue_intent i' high now s in
    let kept = enqueue_intent-Serves i' high now s in
    elim (Bool-cases taken) [
      | inr e ↦ simp (schedule_correction, e) kept
      | inl e ↦ simp (schedule_correction, e) kept
    ]

module _ {W : Type 0} (ops : DoubleOps) (port : FramePort W) where
  take_feedback-Serves :
      (i : Intent) (r : ExecutionResult) (feedback : Option Feedback) (s : RuntimeState) (w : W)
      → Serves s (take_feedback ops port i r feedback s w).0
  unfolding take_feedback
  take_feedback-Serves i r none s w = ((refl, refl, refl, refl, refl), λ x. x, λ x. x)
  take_feedback-Serves i r (some feedback) s w =
      let s1 = store_feedback feedback s in
      let stored = store_feedback-Serves feedback s in
      elim (Bool-cases (feedback.mismatch && is_success r && should_schedule_correction i)) [
        | inr e ↦ simp (take_feedback, e) stored
        | inl e ↦
            simp (take_feedback, e)
              (Serves-trans s s1 _ stored (schedule_correction-Serves i (port.steady_now w).0 s1))
      ]

  execute_in_frame-Serves :
      (i : Intent) (frame frame_start enqueued_at : ℕ) (budget : ℤ) (lookup_ms : Double)
      (metrics : ObservationMetrics) (found : Option Observation) (s : RuntimeState) (w : W)
      → Serves s
          (execute_in_frame ops port i frame frame_start enqueued_at budget lookup_ms metrics found
            s w).0
  unfolding execute_in_frame is_ranked
  execute_in_frame-Serves i frame frame_start enqueued_at budget lookup_ms metrics found s w =
      take_feedback-Serves _ _ _ s _

  serve-Serves :
      (popped : Option QueuedIntent) (frame frame_start : ℕ) (frame_ms : ℤ) (lookup_ms : Double)
      (metrics : ObservationMetrics) (found : Option Observation) (s : RuntimeState) (w : W)
      → Serves s (serve ops port popped frame frame_start frame_ms lookup_ms metrics found s w).0
  unfolding serve
  serve-Serves none frame frame_start frame_ms lookup_ms metrics found s w =
      ((refl, refl, refl, refl, refl), λ x. x, λ x. x)
  serve-Serves (some queued) frame frame_start frame_ms lookup_ms metrics found s w =
      let (now, w1) = port.steady_now w in
      let budget = sub_ℤ frame_ms (to_int (elapsed_ms frame_start now)) in
      elim (Bool-cases (ltb_ℤ (pos 0) budget)) [
        | inr e ↦ simp (serve, e) (requeue-Serves queued s)
        | inl e ↦ simp (serve, e) (execute_in_frame-Serves queued.intent _ _ _ _ _ _ _ s _)
      ]

pub take_event-Serves : (s : RuntimeState) → Serves s (take_event s)
unfolding take_event is_ranked
take_event-Serves s = elim (Bool-cases (ltb 0 s.pending_high_events)) [
  | inl e ↦ simp (take_event, e) ((refl, refl, refl, refl, refl), λ x. x, λ x. x)
  | inr e ↦ elim (Bool-cases (ltb 0 s.pending_medium_events)) [
    | inl f ↦ simp (take_event, e, f) ((refl, refl, refl, refl, refl), λ x. x, λ x. x)
    | inr f ↦ elim (Bool-cases (ltb 0 s.pending_low_events)) [
      | inl g ↦ simp (take_event, e, f, g) ((refl, refl, refl, refl, refl), λ x. x, λ x. x)
      | inr g ↦ simp (take_event, e, f, g) ((refl, refl, refl, refl, refl), λ x. x, λ x. x)
    ]
  ]
]

pub pop_intent-Serves : (s : RuntimeState) → Serves s (pop_intent s).1
pop_intent-Serves s = Keeps-Serves s (pop_intent s).1 (pop_intent-Keeps s) (pop_intent-is_ranked s)

-- A frame counts one frame, and changes neither the flags nor the configuration.
abbrev pub CountsFrame : RuntimeState → RuntimeState → Type 0
CountsFrame s s' =
    (s'.running ≡ s.running)
    × (s'.stop_requested ≡ s.stop_requested)
    × (s'.config ≡ s.config)
    × (s'.frames_executed ≡ bump s.frames_executed)

module _ {W : Type 0} (ops : DoubleOps) (port : FramePort W) where
  -- The state at the end of a frame, before the section that ends it
  frame_steps :
      (frame_ms : ℤ) (s : RuntimeState) (w : W)
      → (s' : RuntimeState) × (cycle_ms : ℕ) × ((run_frame ops port frame_ms s w).0
          ≡ end_frame frame_ms cycle_ms s')
        × Serves
            (record s { version = bump s.version; frames_executed = bump s.frames_executed })
            s'
  unfolding run_frame begin_frame record_observation is_ranked
  frame_steps frame_ms s w =
      let counted : RuntimeState = record s {
        version = bump s.version;
        frames_executed = bump s.frames_executed;
      } in
      let (ui, fs, s1) = begin_frame s in
      let (frame_start, w1) = port.steady_now w in
      let (lookup_start, w2) =
        port.steady_now (refresh_registry ops port ui fs s1.frames_executed w1) in
      let found = look_up_state ops port w2 in
      let (lookup_end, w3) = port.steady_now w2 in
      let metrics = port.metrics w3 in
      let (log, s2) = record_observation found metrics s1 in
      let w4 = report_state ops port log found s1.frames_executed w3 in
      let (popped, s3) = pop_intent s2 in
      let lookup_ms = micros_ms ops port lookup_start lookup_end in
      let (s4, w5) =
        serve ops port popped s1.frames_executed frame_start frame_ms lookup_ms metrics found s3
          w4 in
      (
        s4,
        _,
        refl,
        Serves-trans counted s2 s4 (take_event-Serves counted) (
            Serves-trans s2 s3 s4 (pop_intent-Serves s2)
              (serve-Serves ops port popped _ _ frame_ms lookup_ms metrics found s3 w4)),
      )

  pub run_frame-CountsFrame :
      (frame_ms : ℤ) (s : RuntimeState) (w : W) → CountsFrame s (run_frame ops port frame_ms s w).0
  unfolding end_frame
  run_frame-CountsFrame frame_ms s w =
      let (s', cycle_ms, e, ((running, stop, config, frames, same), r, h)) =
        frame_steps frame_ms s w in
      rw e (running, stop, config, frames)

  -- A frame counts one frame, and leaves the flags and the configuration as they are. From a state
  -- whose queues hold entries of their own priorities and whose histories are within their bounds, it
  -- leads to such a state.
  pub run_frame-IsSound :
      (frame_ms : ℤ) (s : RuntimeState) (w : W)
      → IsSound s
      → CountsFrame s (run_frame ops port frame_ms s w).0
        × IsSound (run_frame ops port frame_ms s w).0
  unfolding end_frame is_ranked
  run_frame-IsSound frame_ms s w (ranked, latencies, history) =
      let (s', cycle_ms, e, ((running, stop, config, frames, same), r, h)) =
        frame_steps frame_ms s w in
      let few : length s'.cycle_latencies_ms ≤ max_latency_samples = rw same latencies in
      let longer = length-push_latency (pos cycle_ms) s'.cycle_latencies_ms few in
      rw e ((running, stop, config, frames), (r ranked, ground (arith, longer, few), h history))
