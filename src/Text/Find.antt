-- ===== src/Text/Find.antt =====
-- `find` and `find_char` return the first occurrence, and only such.
use intent_execution_layer.Common.{
  ℕ, zero, suc, ◌<◌, ◌≡◌, refl, Bool, true, false, not, [], ◌∷◌, ◌++◌, some, arith, ◌==◌, length,
  all, take, drop,
}
use intent_execution_layer.Text.{Text, find_char, find, starts_with}

pub find_char-append :
    (c : ℕ) (pre post : Text)
    → all (λ a. not (a == c)) pre ≡ true
    → find_char c (pre ++ c ∷ post) ≡ some (length pre)
unfolding find_char
find_char-append c [] post h = ground arith
find_char-append c (a ∷ pre) post h = ground (arith, find_char-append c pre post)

pub find_char-take :
    (c : ℕ) (s : Text) (i : ℕ) → find_char c s ≡ some i → all (λ a. not (a == c)) (take i s) ≡ true
unfolding find_char
find_char-take c [] i h = cc
find_char-take c (a ∷ s) zero h = refl
find_char-take c (a ∷ s) (suc i) h = ground (arith, find_char-take c s i)

pub starts_with-append : (pattern s : Text) → starts_with pattern (pattern ++ s) ≡ true
unfolding starts_with
starts_with-append [] s = refl
starts_with-append (p ∷ pattern) s = ground (arith, starts_with-append pattern s)

-- No suffix that begins inside `pre` starts with the pattern.
abbrev pub absent_before : Text → Text → Text → Bool
absent_before pattern [] rest = true
absent_before pattern (a ∷ pre) rest =
    let later = absent_before pattern pre rest in
    elim (starts_with pattern (a ∷ (pre ++ rest))) [ true ↦ false | false ↦ later ]

pub find-append :
    (pattern pre post : Text)
    → absent_before pattern pre (pattern ++ post) ≡ true
    → find pattern (pre ++ (pattern ++ post)) ≡ some (length pre)
unfolding find starts_with
find-append [] [] [] h = refl
find-append [] [] (b ∷ post) h = refl
find-append (p ∷ pattern) [] post h = ground (arith, starts_with-append (p ∷ pattern) post)
find-append pattern (a ∷ pre) post h = ground (arith, find-append pattern pre post)

pub find_starts :
    (pattern s : Text) (i : ℕ) → find pattern s ≡ some i → starts_with pattern (drop i s) ≡ true
unfolding find starts_with
find_starts pattern [] zero h = ground arith
find_starts pattern [] (suc i) h = ground arith
find_starts pattern (a ∷ s) zero h = ground arith
find_starts pattern (a ∷ s) (suc i) h = ground (arith, find_starts pattern s i)

pub find_first :
    (pattern s : Text) (i j : ℕ)
    → find pattern s ≡ some i
    → j < i
    → starts_with pattern (drop j s) ≡ false
unfolding find starts_with
find_first pattern [] i j h k = ground arith
find_first pattern (a ∷ s) zero j h k = elim k [ ]
find_first pattern (a ∷ s) (suc i) zero h k = ground arith
find_first pattern (a ∷ s) (suc i) (suc j) h k = ground (arith, find_first pattern s i j)
