-- ===== src/Interaction/Paths/Total.antt =====
-- The fuel of ResolveUiPath is enough.
use intent_execution_layer.Common.{
  ℕ, zero, suc, ◌+◌, ◌<◌, ◌≤◌, ◌≡◌, refl, true, false, not, ◌||◌, List, [], ◌∷◌, some,
  if◌then◌else◌, is_empty, length, count_if, count_if-le, All, Among, arith, Bool-cases,
  Option-cases, inl, inr,
}
use intent_execution_layer.Common.Optional.{has_value}
use intent_execution_layer.Text.{Text, text_eq}
use intent_execution_layer.Text.Equality.{text_eq_iff, text_eq_refl}
use intent_execution_layer.Text.Dict.{lookup, insert, contains, contains-insert}
use intent_execution_layer.Platform.{Platform}
use intent_execution_layer.Ui.{UiElement}
use intent_execution_layer.Interaction.Paths.{elements_by_id, visited, parent_of, resolve_ui_path}

-- The entries whose key is not visited
abbrev left_over : List Text → List (Text × UiElement) → ℕ
left_over visiting m = count_if (λ entry. not (visited entry.0 visiting)) m

left_over_mono :
    (id : Text) (visiting : List Text) (m : List (Text × UiElement))
    → left_over (id ∷ visiting) m ≤ left_over visiting m
left_over_mono id visiting [] = omega arith
left_over_mono id visiting ((k, e) ∷ m) = ground (arith, left_over_mono id visiting m)

left_over-lt :
    (id : Text) (visiting : List Text) (m : List (Text × UiElement))
    → contains id m ≡ true
    → visited id visiting ≡ false
    → left_over (id ∷ visiting) m < left_over visiting m
unfolding lookup
left_over-lt id visiting [] h k = cc
left_over-lt id visiting ((l, e) ∷ m) h k = ground (
  arith,
  text_eq_iff l id,
  text_eq_refl id,
  left_over_mono id visiting m,
  left_over-lt id visiting m,
)

-- Every entry stands under the id of its element.
abbrev IsKeyed : List (Text × UiElement) → Type 0
IsKeyed m = All (λ entry. text_eq entry.1.id entry.0 ≡ true) m

contains-found :
    (k : Text) (p : UiElement) (m : List (Text × UiElement))
    → IsKeyed m
    → lookup k m ≡ some p
    → contains p.id m ≡ true
unfolding lookup
contains-found k p [] w h = cc
contains-found k p ((l, e) ∷ m) w h = elim (Bool-cases (text_eq l k)) [
  | inl found ↦
      let same : e ≡ p = cc (h, found) in
      let keyed : e.id ≡ l = (text_eq_iff e.id l).0 w.0 in
      rw (← same) (rw keyed (rw (text_eq_refl l) refl))
  | inr other ↦ ground (arith, contains-found k p m w.1)
]

parent_found :
    (m : List (Text × UiElement)) (e p : UiElement)
    → parent_of m e ≡ some p
    → lookup e.parent_id m ≡ some p
unfolding parent_of
parent_found m e p d = ground arith

module _ (platform : Platform) (m : List (Text × UiElement)) (keyed : IsKeyed m) where
  resolve_ui_path-has_value :
      (fuel : ℕ) (e : UiElement) (cache : List (Text × Text)) (visiting : List Text)
      → (is_empty e.id || contains e.id m) ≡ true
      → left_over visiting m < fuel
      → has_value (resolve_ui_path platform fuel m e cache visiting) ≡ true
  unfolding resolve_ui_path
  resolve_ui_path-has_value zero e cache visiting h lt = absurd (omega arith)
  resolve_ui_path-has_value (suc fuel) e cache visiting h lt = elim (Bool-cases (is_empty e.id)) [
    | inl a ↦ rw (a, resolve_ui_path) refl
    | inr a ↦ elim (Option-cases (lookup e.id cache)) [
      | inr (path, b) ↦ rw (a, b, resolve_ui_path) refl
      | inl b ↦ elim (Bool-cases (visited e.id visiting)) [
        | inl c ↦ rw (a, b, c, resolve_ui_path) refl
        | inr c ↦ elim (Option-cases (parent_of m e)) [
          | inl d ↦ rw (a, b, c, d, resolve_ui_path) refl
          | inr (parent, d) ↦
              let above = resolve_ui_path platform fuel m parent cache (e.id ∷ visiting) in
              let fewer = left_over-lt e.id visiting m (ground arith) c in
              let found =
                resolve_ui_path-has_value fuel parent cache (e.id ∷ visiting)
                  (ground
                    (arith, contains-found e.parent_id parent m keyed, parent_found m e parent d))
                  (omega arith) in
              elim (Option-cases above) [
                | inl f ↦ absurd (ground arith)
                | inr (result, f) ↦ rw (a, b, c, d, f, resolve_ui_path) refl
              ]
        ]
      ]
    ]
  ]

insert-IsKeyed :
    (e : UiElement) (m : List (Text × UiElement)) → IsKeyed m → IsKeyed (insert e.id e m)
unfolding insert
insert-IsKeyed e [] w = (text_eq_refl e.id, tt)
insert-IsKeyed e ((l, f) ∷ m) w = elim (Bool-cases (text_eq l e.id)) [
  | inl h ↦ rw h (rw ((text_eq_iff l e.id).0 h) (text_eq_refl e.id), w.1)
  | inr h ↦ rw h (w.0, insert-IsKeyed e m w.1)
]

elements_by_id-IsKeyed :
    (elements : List UiElement) (m : List (Text × UiElement))
    → IsKeyed m
    → IsKeyed (elements_by_id elements m)
unfolding elements_by_id
elements_by_id-IsKeyed [] m w = w
elements_by_id-IsKeyed (e ∷ elements) m w = elim (Bool-cases (is_empty e.id)) [
  | inl h ↦ rw h (elements_by_id-IsKeyed elements m w)
  | inr h ↦ rw h (elements_by_id-IsKeyed elements (insert e.id e m) (insert-IsKeyed e m w))
]

-- What the map has it keeps.
elements_by_id-keeps :
    (id : Text) (elements : List UiElement) (m : List (Text × UiElement))
    → contains id m ≡ true
    → contains id (elements_by_id elements m) ≡ true
unfolding elements_by_id
elements_by_id-keeps id [] m h = h
elements_by_id-keeps id (e ∷ elements) m h = elim (Bool-cases (is_empty e.id)) [
  | inl k ↦ rw k (elements_by_id-keeps id elements m h)
  | inr k ↦ rw k (
      elements_by_id-keeps id elements (insert e.id e m)
        (rw (contains-insert id e.id e m) (ground (arith, h))))
]

elements_by_id-contains :
    (e : UiElement) (elements : List UiElement) (m : List (Text × UiElement))
    → Among e elements
    → (is_empty e.id || contains e.id (elements_by_id elements m)) ≡ true
unfolding elements_by_id
elements_by_id-contains e [] m h = elim h [ ]
elements_by_id-contains e (f ∷ elements) m (inl same) = elim (Bool-cases (is_empty f.id)) [
  | inl k ↦ rw same (rw k refl)
  | inr k ↦ rw same (
      rw k (
        elements_by_id-keeps f.id elements (insert f.id f m)
          (rw (contains-insert f.id f.id f m) (rw (text_eq_refl f.id) refl))))
]
elements_by_id-contains e (f ∷ elements) m (inr later) =
    elements_by_id-contains e elements (if is_empty f.id then m else insert f.id f m) later

-- Resolving the path of an element of the list ends, whatever cycles the parents of the elements
-- form, and whatever the cache and the set of the elements on the way hold.
pub resolve_ui_path_ends :
    (platform : Platform) (elements : List UiElement) (e : UiElement) (cache : List (Text × Text))
    (visiting : List Text)
    → Among e elements
    → has_value (
        resolve_ui_path platform
          (length (elements_by_id elements []) + 1)
          (elements_by_id elements [])
          e
          cache
          visiting)
      ≡ true
resolve_ui_path_ends platform elements e cache visiting h =
    let m = elements_by_id elements [] in
    let enough = count_if-le (λ (entry : Text × UiElement). not (visited entry.0 visiting)) m in
    resolve_ui_path-has_value platform m (elements_by_id-IsKeyed elements [] tt) (length m + 1) e
      cache visiting (elements_by_id-contains e elements [] h) (omega (arith, enough))
