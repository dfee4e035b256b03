-- ===== src/Text/Trim.antt =====
-- `trim` removes the white space at both ends and nothing else.
use intent_execution_layer.Common.{
  ◌≡◌, refl, ap, ◌∙◌, Bool, true, not, [], ◌∷◌, ◌++◌, arith, all, if◌then◌else◌,
}
use intent_execution_layer.Text.{Text, is_space, trim, trim_start, trim_end}

abbrev pub head_ok : Text → Bool
head_ok [] = true
head_ok (c ∷ s) = not (is_space c)

abbrev pub last_ok : Text → Bool
last_ok [] = true
last_ok (c ∷ []) = not (is_space c)
last_ok (c ∷ d ∷ s) = last_ok (d ∷ s)

-- `t` is `s` without the white space around it.
pub record TrimOf (s t : Text) : Type 0 where
  pub before : Text
  pub after : Text
  pub parts : s ≡ before ++ (t ++ after)
  pub before_space : all is_space before ≡ true
  pub after_space : all is_space after ≡ true
  pub starts : head_ok t ≡ true
  pub ends : last_ok t ≡ true

spaces_before : Text → Text
spaces_before [] = []
spaces_before (c ∷ s) = let rest = spaces_before s in if is_space c then c ∷ rest else []

trim_start_parts :
    (s : Text)
    → (s ≡ spaces_before s ++ trim_start s)
      × (all is_space (spaces_before s) ≡ true)
      × (head_ok (trim_start s) ≡ true)
unfolding spaces_before trim_start
trim_start_parts [] = (refl, refl, refl)
trim_start_parts (c ∷ s) = ground (arith, trim_start_parts s)

spaces_after : Text → Text
spaces_after [] = []
spaces_after (c ∷ s) = elim (trim_end s) [
  | [] ↦ if is_space c then c ∷ spaces_after s else spaces_after s
  | d ∷ r ↦ spaces_after s
]

trim_end_parts :
    (s : Text)
    → (s ≡ trim_end s ++ spaces_after s)
      × (all is_space (spaces_after s) ≡ true)
      × (last_ok (trim_end s) ≡ true)
unfolding spaces_after trim_end
trim_end_parts [] = (refl, refl, refl)
trim_end_parts (c ∷ s) = ground (arith, trim_end_parts s)

trim_end-head_ok : (s : Text) → head_ok s ≡ true → head_ok (trim_end s) ≡ true
unfolding trim_end
trim_end-head_ok [] h = refl
trim_end-head_ok (c ∷ s) h = ground arith

-- The text is the trimmed text between two runs of white space, and neither end of it is white space.
pub trim-TrimOf : (s : Text) → TrimOf s (trim s)
unfolding trim
trim-TrimOf s =
    let front = trim_start_parts s in
    let back = trim_end_parts (trim_start s) in
    record {
      before = spaces_before s;
      after = spaces_after (trim_start s);
      parts = front.0 ∙ ap (◌++◌ (spaces_before s)) back.0;
      before_space = front.1;
      after_space = back.1;
      starts = trim_end-head_ok (trim_start s) front.2;
      ends = back.2;
    }

trim_start_fixed : (s : Text) → head_ok s ≡ true → trim_start s ≡ s
unfolding trim_start
trim_start_fixed [] h = refl
trim_start_fixed (c ∷ s) h = ground arith

trim_end_fixed : (s : Text) → last_ok s ≡ true → trim_end s ≡ s
unfolding trim_end
trim_end_fixed [] h = refl
trim_end_fixed (c ∷ []) h = ground arith
trim_end_fixed (c ∷ d ∷ s) h = ground (arith, trim_end_fixed (d ∷ s) h)

pub trim_idem : (s : Text) → trim (trim s) ≡ trim s
unfolding trim
trim_idem s =
    let t = trim-TrimOf s in
    ap trim_end (trim_start_fixed (trim s) t.starts) ∙ trim_end_fixed (trim s) t.ends
