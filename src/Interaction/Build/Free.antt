-- ===== src/Interaction/Build/Free.antt =====
-- The identity that a new node gets is free, unless identities repeat.
use intent_execution_layer.Common.{
  ℕ, zero, suc, ◌+◌, ◌≤◌, ◌≡◌, refl, true, false, List, [], ◌∷◌, if◌then◌else◌, length, all, arith,
  Bool-cases, inl, inr,
}
use intent_execution_layer.Text.{Text, text_eq}
use intent_execution_layer.Text.Equality.{text_eq_iff}
use intent_execution_layer.Text.Dict.{listed, all_distinct}
use intent_execution_layer.Interaction.{NodeId}
use intent_execution_layer.Interaction.Build.{occupied_by, first_free}

remove : Text → List Text → List Text
remove a [] = []
remove a (b ∷ texts) = let rest = remove a texts in if text_eq b a then texts else b ∷ rest

length-remove :
    (a : Text) (texts : List Text)
    → listed a texts ≡ true
    → length (remove a texts) + 1 ≡ length texts
unfolding remove
length-remove a [] h = cc
length-remove a (b ∷ texts) h = ground (arith, length-remove a texts)

listed-remove :
    (a b : Text) (texts : List Text)
    → text_eq b a ≡ false
    → listed b texts ≡ true
    → listed b (remove a texts) ≡ true
unfolding remove
listed-remove a b [] h k = k
listed-remove a b (c ∷ texts) h k =
    ground (arith, listed-remove a b texts h, text_eq_iff c a, text_eq_iff c b, text_eq_iff b a)

all-listed-remove :
    (a : Text) (ids texts : List Text)
    → listed a ids ≡ false
    → all (λ b. listed b texts) ids ≡ true
    → all (λ b. listed b (remove a texts)) ids ≡ true
all-listed-remove a [] texts h k = refl
all-listed-remove a (b ∷ ids) texts h k =
    ground (arith, listed-remove a b texts, all-listed-remove a ids texts)

-- The pigeonhole principle
pigeonhole :
    (ids texts : List Text)
    → all_distinct ids ≡ true
    → all (λ b. listed b texts) ids ≡ true
    → length ids ≤ length texts
pigeonhole [] texts h k = omega arith
pigeonhole (a ∷ ids) texts h k =
    ground
      (arith, length-remove a texts, all-listed-remove a ids texts, pigeonhole ids (remove a texts))

-- The identities that the first `n` rounds from `collision` on try
unfoldable pub identities : ℕ → (ℕ → NodeId) → ℕ → List Text
identities zero candidate collision = []
identities (suc n) candidate collision =
    (candidate collision).stable_id ∷ identities n candidate (collision + 1)

length-identities :
    (n : ℕ) (candidate : ℕ → NodeId) (collision : ℕ) → length (identities n candidate collision) ≡ n
unfolding identities
length-identities zero candidate collision = refl
length-identities (suc n) candidate collision =
    omega (arith, length-identities n candidate (collision + 1))

first_free-not_occupied :
    (n : ℕ) (candidate : ℕ → NodeId) (collision : ℕ) (occupied : List Text)
    → all (λ b. listed b occupied) (identities n candidate collision) ≡ false
    → occupied_by (first_free n candidate collision occupied) occupied ≡ false
unfolding first_free identities
first_free-not_occupied zero candidate collision occupied h = cc
first_free-not_occupied (suc n) candidate collision occupied h =
    elim (Bool-cases (occupied_by (candidate collision) occupied)) [
      | inl e ↦ rw e (first_free-not_occupied n candidate (collision + 1) occupied (ground arith))
      | inr e ↦ rw e e
    ]

-- The loop that looks for an identity ends with one that no node has, if the identities that it
-- tries, one more than are taken, differ from each other.
pub first_free_lem :
    (candidate : ℕ → NodeId) (occupied : List Text)
    → all_distinct (identities (length occupied + 1) candidate 0) ≡ true
    → occupied_by (first_free (length occupied + 1) candidate 0 occupied) occupied ≡ false
first_free_lem candidate occupied h =
    first_free-not_occupied (length occupied + 1) candidate 0 occupied (
      ground (
        arith,
        pigeonhole (identities (length occupied + 1) candidate 0) occupied h,
        length-identities (length occupied + 1) candidate 0,
        Bool-cases (all (λ b. listed b occupied) (identities (length occupied + 1) candidate 0)),
      ))
