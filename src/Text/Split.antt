-- ===== src/Text/Split.antt =====
-- `split` is inverse to joining the parts by the delimiter.
use intent_execution_layer.Common.{
  ℕ, ◌≡◌, refl, ap, ◌≢◌, ◌∙◌, Bool, true, not, List, [], ◌∷◌, ◌++◌, arith, ◌==◌, all,
}
use intent_execution_layer.Text.{Text, split, split_step}

pub join : ℕ → List Text → Text
join d [] = []
join d (part ∷ []) = part
join d (part ∷ next ∷ rest) = part ++ d ∷ join d (next ∷ rest)

-- No byte of the part is the delimiter.
abbrev pub free_of : ℕ → Text → Bool
free_of d part = all (λ c. not (c == d)) part

pub split-ne-nil : (s : Text) (d : ℕ) → split s d ≢ []
unfolding split
split-ne-nil [] d = ground arith
split-ne-nil (c ∷ s) d = step (split s d)
  where
    step : (parts : List Text) → split_step d c parts ≢ []
    step [] = ground arith
    step (part ∷ parts) = ground arith

join-split_step :
    (d c : ℕ) (part : Text) (parts : List Text)
    → join d (split_step d c (part ∷ parts)) ≡ c ∷ join d (part ∷ parts)
unfolding join split_step
join-split_step d c part [] = ground arith
join-split_step d c part (q ∷ parts) = ground arith

join-split_step_ne :
    (d c : ℕ) (parts : List Text) → parts ≢ [] → join d (split_step d c parts) ≡ c ∷ join d parts
join-split_step_ne d c [] h = absurd (h refl)
join-split_step_ne d c (part ∷ parts) h = join-split_step d c part parts

-- Joining the parts of a text by the delimiter gives the text back.
pub join-split : (s : Text) (d : ℕ) → join d (split s d) ≡ s
unfolding split join
join-split [] d = refl
join-split (c ∷ s) d =
    join-split_step_ne d c (split s d) (split-ne-nil s d) ∙ ap (◌∷◌ c) (join-split s d)

split_step-free :
    (d c : ℕ) (parts : List Text)
    → all (free_of d) parts ≡ true
    → all (free_of d) (split_step d c parts) ≡ true
unfolding split_step
split_step-free d c [] h = refl
split_step-free d c (part ∷ parts) h = ground arith

-- No part holds the delimiter.
pub split-free : (s : Text) (d : ℕ) → all (free_of d) (split s d) ≡ true
unfolding split
split-free [] d = refl
split-free (c ∷ s) d = split_step-free d c (split s d) (split-free s d)

split_last : (d : ℕ) (part : Text) → free_of d part ≡ true → split part d ≡ part ∷ []
unfolding split
split_last d [] h = refl
split_last d (c ∷ part) h = ground (arith, split_last d part)

split_first :
    (d : ℕ) (part rest : Text)
    → free_of d part ≡ true
    → split rest d ≢ []
    → split (part ++ d ∷ rest) d ≡ part ∷ split rest d
unfolding split
split_first d [] rest h n = step (split rest d) n
  where
    step : (parts : List Text) → parts ≢ [] → split_step d d parts ≡ [] ∷ parts
    step [] m = absurd (m refl)
    step (p ∷ parts) m = ground arith
split_first d (c ∷ part) rest h n = ground (arith, split_first d part rest)

-- Splitting a join of parts without the delimiter gives the parts back.
pub split-join :
    (d : ℕ) (part : Text) (parts : List Text)
    → all (free_of d) (part ∷ parts) ≡ true
    → split (join d (part ∷ parts)) d ≡ part ∷ parts
unfolding join
split-join d part [] h = split_last d part (ground arith)
split-join d part (next ∷ parts) h =
    split_first d part (join d (next ∷ parts)) (ground arith)
      (split-ne-nil (join d (next ∷ parts)) d)
    ∙ ap (◌∷◌ part) (split-join d next parts (ground arith))
