-- ===== src/Text/Equality.antt =====
-- `text_eq` decides equality, and lower-casing is idempotent.
use intent_execution_layer.Common.{ℕ, ◌≡◌, refl, ◌↔◌, true, false, [], ◌∷◌, arith, subst}
use intent_execution_layer.Text.{Text, text_eq, text_lt, lower_byte, normalize_ascii_lower}

pub text_eq_refl : (s : Text) → text_eq s s ≡ true
unfolding text_eq
text_eq_refl [] = refl
text_eq_refl (a ∷ s) = ground (arith, text_eq_refl s)

pub text_eq→eq : (s t : Text) → text_eq s t ≡ true → s ≡ t
unfolding text_eq
text_eq→eq [] [] h = refl
text_eq→eq [] (b ∷ t) h = cc
text_eq→eq (a ∷ s) [] h = cc
text_eq→eq (a ∷ s) (b ∷ t) h = ground (arith, text_eq→eq s t)

pub text_eq_iff : (s t : Text) → (text_eq s t ≡ true) ↔ (s ≡ t)
text_eq_iff s t = (text_eq→eq s t, λ e. subst (λ u. text_eq s u ≡ true) e (text_eq_refl s))

lower_byte_idem : (c : ℕ) → lower_byte (lower_byte c) ≡ lower_byte c
unfolding lower_byte
lower_byte_idem c = ground arith

pub normalize_ascii_lower_idem :
    (s : Text) → normalize_ascii_lower (normalize_ascii_lower s) ≡ normalize_ascii_lower s
unfolding normalize_ascii_lower
normalize_ascii_lower_idem [] = refl
normalize_ascii_lower_idem (c ∷ s) = cc (lower_byte_idem c, normalize_ascii_lower_idem s)

-- operator< on texts is asymmetric.
pub text_lt_asym : (s t : Text) → text_lt s t ≡ true → text_lt t s ≡ false
unfolding text_lt
text_lt_asym [] [] h = refl
text_lt_asym [] (b ∷ t) h = refl
text_lt_asym (a ∷ s) [] h = cc
text_lt_asym (a ∷ s) (b ∷ t) h = ground (arith, text_lt_asym s t)
