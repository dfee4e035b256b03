-- ===== src/Control/Latency.antt =====
-- The latency and feedback histories of the control runtime, and the percentiles of the latencies.
pub mod Percentiles
use intent_execution_layer.Common.{
  ℕ, ◌+◌, ◌-◌, ◌*◌, ◌/◌, List, [], ◌∷◌, ◌++◌, if◌then◌else◌, ltb, length, drop, is_empty, ℤ, pos,
  ltb_ℤ,
}
use intent_execution_layer.Common.Sort.{sort}
use intent_execution_layer.Double.{Double, DoubleOps, zero_d}
use intent_execution_layer.Control.{Feedback}

-- kMaxLatencySamples and kMaxFeedbackHistory
abbrev pub max_latency_samples : ℕ
max_latency_samples = 4096

abbrev pub max_feedback_history : ℕ
max_feedback_history = 512

-- The latencies after a frame: the oldest go where there are too many.
unfoldable pub push_latency : ℤ → List ℤ → List ℤ
push_latency cycle_ms latencies =
    let pushed = latencies ++ cycle_ms ∷ [] in
    if ltb max_latency_samples (length pushed)
    then drop (length pushed - max_latency_samples) pushed
    else pushed

-- The feedback after an execution
unfoldable pub push_feedback : Feedback → List Feedback → List Feedback
push_feedback feedback history =
    let pushed = history ++ feedback ∷ [] in
    if ltb max_feedback_history (length pushed) then drop 1 pushed else pushed

-- RecentFeedback
unfoldable pub recent_feedback : List Feedback → ℕ → List Feedback
recent_feedback history limit =
    let capped = if ltb 1 limit then limit else 1 in
    drop (if ltb capped (length history) then length history - capped else 0) history

-- sorted[index], which is only read within bounds
unfoldable pub sample_at : ℕ → List ℤ → ℤ
sample_at n xs = first_of (drop n xs)
  where
    first_of : List ℤ → ℤ
    first_of [] = pos 0
    first_of (x ∷ xs) = x

-- The sample that `pick` reads
unfoldable pub pick : List ℤ → ℕ → ℤ
pick sorted percentile = sample_at (((length sorted - 1) * percentile) / 100) sorted

-- ComputePercentilesLocked
unfoldable pub compute_percentiles : DoubleOps → List ℤ → Double × Double × Double
compute_percentiles ops latencies =
    if is_empty latencies
    then (zero_d, zero_d, zero_d)
    else (let sorted = sort ltb_ℤ latencies in
        (ops.of_int (pick sorted 50), ops.of_int (pick sorted 95), ops.of_int (pick sorted 99)))
