-- ===== src/Control/Frame/Correction.antt =====
-- A mismatch is corrected once.
use intent_execution_layer.Common.{◌≡◌, refl, ap, false, not, ◌&&◌, Option, none, some, arith}
use intent_execution_layer.Text.{text, text_eq}
use intent_execution_layer.Double.{DoubleOps}
use intent_execution_layer.Intent.{Intent, assign}
use intent_execution_layer.Intent.Values.{find_value-assign_value}
use intent_execution_layer.Execution.{ExecutionResult, is_success}
use intent_execution_layer.Control.{
  Feedback, RuntimeState, should_schedule_correction, marked_as_retry,
}
use intent_execution_layer.Control.Queue.Refines.{contents}
use intent_execution_layer.Control.Frame.{
  FramePort, corrective_intent, store_feedback, take_feedback,
}

corrective_intent-marked : (i : Intent) → should_schedule_correction (corrective_intent i) ≡ false
unfolding should_schedule_correction marked_as_retry corrective_intent assign text_eq text
corrective_intent-marked i =
    ap (λ marker. not (marked_as_retry marker))
      (find_value-assign_value (text "feedback_retry") (text "feedback_retry") (text "1")
        i.params.values)

module _ {W : Type 0} (ops : DoubleOps) (port : FramePort W) where
  -- The feedback on a corrective intent, whatever it says, leaves the queues and the number of
  -- corrections as they are: a correction is not corrected again.
  pub take_feedback-corrective_intent :
      (i : Intent) (r : ExecutionResult) (feedback : Option Feedback) (s : RuntimeState) (w : W)
      → let s' = (take_feedback ops port (corrective_intent i) r feedback s w).0 in
        (contents s' ≡ contents s) × (s'.feedback_corrections ≡ s.feedback_corrections)
  unfolding take_feedback store_feedback contents
  take_feedback-corrective_intent i r none s w = (refl, refl)
  take_feedback-corrective_intent i r (some feedback) s w =
      let once = corrective_intent-marked i in
      let off : (feedback.mismatch
            && is_success r
            && should_schedule_correction (corrective_intent i))
          ≡ false =
        ground (arith, once) in
      simp (take_feedback, off) (refl, refl)
