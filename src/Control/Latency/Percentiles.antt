-- ===== src/Control/Latency/Percentiles.antt =====
-- The percentiles are ordered samples of the history, and the histories are bounded.
use intent_execution_layer.Common.{
  ℕ, zero, suc, ◌+◌, ◌-◌, ◌≤◌, ◌<◌, ◌≡◌, sym, ◌∙◌, Bool, true, false, List, [], ◌∷◌, ◌++◌, length,
  length-append, drop, any, is_empty, ◌&&◌, ℤ, ltb, ltb_ℤ, leb_ℤ, ◌≤ℤ◌, arith, if◌then◌else◌,
}
use intent_execution_layer.Common.Sort.{sort, IsSorted, sort-IsSorted, length-sort, any-sort}
use intent_execution_layer.Control.{Feedback}
use intent_execution_layer.Control.Latency.{
  max_latency_samples, max_feedback_history, push_latency, push_feedback, sample_at, pick,
}

length-drop {ℓ} : {A : Type ℓ} (n : ℕ) (xs : List A) → length (drop n xs) ≡ length xs - n
length-drop zero xs = omega arith
length-drop (suc n) [] = omega arith
length-drop (suc n) (x ∷ xs) = ground (arith, length-drop n xs)

-- A latency history that holds at most 4096 samples holds one more after a frame, or still 4096.
pub length-push_latency :
    (cycle_ms : ℤ) (latencies : List ℤ)
    → length latencies ≤ max_latency_samples
    → length (push_latency cycle_ms latencies) ≡ (
        if ltb (length latencies) max_latency_samples
        then length latencies + 1
        else max_latency_samples)
unfolding push_latency
length-push_latency cycle_ms latencies h =
    let l = latencies ++ cycle_ms ∷ [] in
    ground (
      arith,
      length-append latencies (cycle_ms ∷ []),
      length-drop (length l - max_latency_samples) l,
      h,
    )

-- Likewise a feedback history, with 512 samples
pub length-push_feedback :
    (feedback : Feedback) (history : List Feedback)
    → length history ≤ max_feedback_history
    → length (push_feedback feedback history) ≡ (
        if ltb (length history) max_feedback_history
        then length history + 1
        else max_feedback_history)
unfolding push_feedback
length-push_feedback feedback history h =
    ground
      (arith, length-append history (feedback ∷ []), length-drop 1 (history ++ feedback ∷ []), h)

-- In a sorted list, a sample further behind is at least as large.
head_least :
    (x : ℤ) (xs : List ℤ) (n : ℕ) → IsSorted ltb_ℤ (x ∷ xs) → n < length xs → x ≤ℤ sample_at n xs
unfolding sample_at
head_least x [] n h k = omega (arith, k)
head_least x (y ∷ ys) zero h k = ground (arith, h.0)
head_least x (y ∷ ys) (suc n) h k =
    let first : x ≤ℤ y = ground (arith, h.0) in
    let later : y ≤ℤ sample_at n ys = head_least y ys n h.1 (omega (arith, k)) in
    omega (arith, first, later)

tail-IsSorted : (x : ℤ) (xs : List ℤ) → IsSorted ltb_ℤ (x ∷ xs) → IsSorted ltb_ℤ xs
tail-IsSorted x [] h = tt
tail-IsSorted x (y ∷ ys) h = h.1

sample_at-mono :
    (xs : List ℤ) (i j : ℕ)
    → IsSorted ltb_ℤ xs
    → i ≤ j
    → j < length xs
    → sample_at i xs ≤ℤ sample_at j xs
unfolding sample_at
sample_at-mono [] i j h k l = omega (arith, l)
sample_at-mono (x ∷ xs) zero zero h k l = omega arith
sample_at-mono (x ∷ xs) zero (suc j) h k l = head_least x xs j h (omega (arith, l))
sample_at-mono (x ∷ xs) (suc i) zero h k l = omega (arith, k)
sample_at-mono (x ∷ xs) (suc i) (suc j) h k l =
    sample_at-mono xs i j (tail-IsSorted x xs h) (omega (arith, k)) (omega (arith, l))

abbrev pub same_latency : ℤ → ℤ → Bool
same_latency a b = leb_ℤ a b && leb_ℤ b a

sample_at-any :
    (n : ℕ) (xs : List ℤ) → n < length xs → any (same_latency (sample_at n xs)) xs ≡ true
unfolding sample_at
sample_at-any n [] h = ground (arith, h)
sample_at-any zero (x ∷ xs) h = ground arith
sample_at-any (suc n) (x ∷ xs) h = ground (arith, sample_at-any n xs (omega (arith, h)))

ltb_ℤ-asym : (a b : ℤ) → ltb_ℤ a b ≡ true → ltb_ℤ b a ≡ false
ltb_ℤ-asym a b h = ground (arith, h)

-- The three percentiles of a history that is not empty are samples of the history, read within its
-- bounds, and they are in order.
pub pick_lem :
    (latencies : List ℤ)
    → is_empty latencies ≡ false
    → let sorted = sort ltb_ℤ latencies in
      (pick sorted 50 ≤ℤ pick sorted 95)
      × (pick sorted 95 ≤ℤ pick sorted 99)
      × (any (same_latency (pick sorted 50)) latencies ≡ true)
      × (any (same_latency (pick sorted 95)) latencies ≡ true)
      × (any (same_latency (pick sorted 99)) latencies ≡ true)
unfolding pick
pick_lem [] e = cc
pick_lem (x ∷ xs) e =
    let latencies = x ∷ xs in
    let sorted = sort ltb_ℤ latencies in
    let n = length sorted in
    let count = length-sort ltb_ℤ latencies in
    let ordered = sort-IsSorted ltb_ℤ ltb_ℤ-asym latencies in
    let member = λ (i : ℕ) (h : i < n).
      sym (any-sort ltb_ℤ (same_latency (sample_at i sorted)) latencies)
      ∙ sample_at-any i sorted h in
    (
      sample_at-mono sorted _ _ ordered (omega arith) (omega (arith, count)),
      sample_at-mono sorted _ _ ordered (omega arith) (omega (arith, count)),
      member _ (omega (arith, count)),
      member _ (omega (arith, count)),
      member _ (omega (arith, count)),
    )
