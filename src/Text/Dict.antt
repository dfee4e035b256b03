-- ===== src/Text/Dict.antt =====
-- Maps from texts, as lists of pairs without repeated keys: a value is replaced where it stands, and
-- a new key comes last.
use intent_execution_layer.Common.{
  ◌≡◌, refl, ap, inl, inr, Bool, true, not, ◌&&◌, ◌||◌, any, List, [], ◌∷◌, Option, none, some,
  if◌then◌else◌, arith, Bool-cases,
}
use intent_execution_layer.Common.Optional.{has_value}
use intent_execution_layer.Text.{Text, text_eq}
use intent_execution_layer.Text.Equality.{text_eq_iff}

module _ {V : Type 0} where
  -- m.find(key)
  unfoldable pub lookup : Text → List (Text × V) → Option V
  lookup key [] = none
  lookup key ((k, v) ∷ m) = if text_eq k key then some v else lookup key m

  -- m[key] = value
  unfoldable pub insert : Text → V → List (Text × V) → List (Text × V)
  insert key value [] = (key, value) ∷ []
  insert key value ((k, v) ∷ m) =
      if text_eq k key then (k, value) ∷ m else (k, v) ∷ insert key value m

  abbrev pub contains : Text → List (Text × V) → Bool
  contains key m = has_value (lookup key m)

  unfoldable pub keys : List (Text × V) → List Text
  keys [] = []
  keys ((k, v) ∷ m) = k ∷ keys m

  pub lookup-insert :
      (key k : Text) (v : V) (m : List (Text × V))
      → lookup key (insert k v m) ≡ (if text_eq k key then some v else lookup key m)
  unfolding lookup insert
  lookup-insert key k v [] = refl
  lookup-insert key k v ((l, w) ∷ m) =
      ground (arith, lookup-insert key k v m, text_eq_iff l k, text_eq_iff k key, text_eq_iff l key)

  -- The value of a key that the map has is changed in place.
  unfoldable pub adjust : Text → (V → V) → List (Text × V) → List (Text × V)
  adjust key f [] = []
  adjust key f ((k, v) ∷ m) = if text_eq k key then (k, f v) ∷ m else (k, v) ∷ adjust key f m

  pub contains-adjust :
      (key k : Text) (f : V → V) (m : List (Text × V))
      → contains key (adjust k f m) ≡ contains key m
  unfolding lookup adjust
  contains-adjust key k f [] = refl
  contains-adjust key k f ((l, w) ∷ m) = ground (arith, contains-adjust key k f m)

  pub contains-insert :
      (key k : Text) (v : V) (m : List (Text × V))
      → contains key (insert k v m) ≡ (text_eq k key || contains key m)
  contains-insert key k v m = rw (lookup-insert key k v m) (ground arith)

abbrev pub listed : Text → List Text → Bool
listed key = any (λ k. text_eq k key)

-- No text stands twice in the list.
abbrev pub all_distinct : List Text → Bool
all_distinct [] = true
all_distinct (a ∷ texts) = not (listed a texts) && all_distinct texts

module _ {V : Type 0} where
  pub listed-keys : (key : Text) (m : List (Text × V)) → listed key (keys m) ≡ contains key m
  unfolding lookup keys
  listed-keys key [] = refl
  listed-keys key ((k, v) ∷ m) = ground (arith, listed-keys key m)

  pub insert-all_distinct :
      (key : Text) (v : V) (m : List (Text × V))
      → all_distinct (keys m) ≡ true
      → all_distinct (keys (insert key v m)) ≡ true
  unfolding insert keys
  insert-all_distinct key v [] h = refl
  insert-all_distinct key v ((k, w) ∷ m) h = ground (
    arith,
    insert-all_distinct key v m,
    listed-keys k m,
    listed-keys k (insert key v m),
    contains-insert k key v m,
    text_eq_iff k key,
    text_eq_iff key k,
  )

  pub keys-adjust : (key : Text) (f : V → V) (m : List (Text × V)) → keys (adjust key f m) ≡ keys m
  unfolding adjust keys
  keys-adjust key f [] = refl
  keys-adjust key f ((k, w) ∷ m) = elim (Bool-cases (text_eq k key)) [
    | inl e ↦ rw e refl
    | inr e ↦ rw e (ap (◌∷◌ k) (keys-adjust key f m))
  ]
