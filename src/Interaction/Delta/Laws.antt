-- ===== src/Interaction/Delta/Laws.antt =====
-- A delta says of each node whether it was added, updated or removed.
use intent_execution_layer.Common.{
  ℕ, ◌≡◌, refl, ◌∙◌, ap, Bool, true, false, not, ◌&&◌, List, [], ◌∷◌, Option, none, some,
  if◌then◌else◌, is_empty, ◌==◌, arith, Bool-cases, Option-cases, subst, inl, inr,
}
use intent_execution_layer.Common.Optional.{has_value}
use intent_execution_layer.Common.Sort.{IsSorted, any-sort, sort-IsSorted}
use intent_execution_layer.Text.{Text, text_eq, text_lt}
use intent_execution_layer.Text.Equality.{text_eq_iff, text_eq_refl, text_lt_asym}
use intent_execution_layer.Text.Dict.{lookup, contains, keys, listed, all_distinct, listed-keys}
use intent_execution_layer.Interaction.{InteractionNode, InteractionGraph}
use intent_execution_layer.Interaction.Delta.{
  digests, missing_from, differs, changed_since, compute_delta,
}

-- What became of a node, by the digests that the two graphs have for its id
pub data Change : Type 0 where
  absent same added updated removed : Change

unfoldable pub change_of : Option ℕ → Option ℕ → Change
change_of none none = absent
change_of none (some digest) = added
change_of (some digest) none = removed
change_of (some old) (some digest) = if old == digest then same else updated

unfoldable pub is_added : Change → Bool
is_added added = true
is_added absent = false
is_added same = false
is_added updated = false
is_added removed = false

unfoldable pub is_updated : Change → Bool
is_updated updated = true
is_updated absent = false
is_updated same = false
is_updated added = false
is_updated removed = false

unfoldable pub is_removed : Change → Bool
is_removed removed = true
is_removed absent = false
is_removed same = false
is_removed added = false
is_removed updated = false

listed-missing_from :
    (id : Text) (other entries : List (Text × ℕ))
    → listed id (missing_from other entries) ≡ (contains id entries && not (contains id other))
unfolding missing_from lookup
listed-missing_from id other [] = refl
listed-missing_from id other ((k, d) ∷ entries) = elim (Bool-cases (text_eq k id)) [
  | inl e ↦
      rw ((text_eq_iff k id).0 e)
        (ground (arith, listed-missing_from id other entries, text_eq_refl id))
  | inr e ↦ ground (arith, listed-missing_from id other entries)
]

-- The entry of the key differs from the base's.
changed_entry : Option ℕ → Option ℕ → Bool
changed_entry old none = false
changed_entry old (some digest) = differs old digest

not_found :
    (id : Text) (entries : List (Text × ℕ))
    → listed id (keys entries) ≡ false
    → lookup id entries ≡ none
not_found id entries h = elim (Option-cases (lookup id entries)) [
  | inl e ↦ e
  | inr (d, e) ↦ ground (arith, listed-keys id entries)
]

listed-changed_since :
    (id : Text) (base entries : List (Text × ℕ))
    → all_distinct (keys entries) ≡ true
    → listed id (changed_since base entries) ≡ changed_entry (lookup id base) (lookup id entries)
unfolding changed_since lookup keys changed_entry
listed-changed_since id base [] h = refl
listed-changed_since id base ((k, d) ∷ entries) h = elim (Bool-cases (text_eq k id)) [
  | inl e ↦
      let same : k ≡ id = (text_eq_iff k id).0 e in
      let once : listed id (keys entries) ≡ false =
        subst (λ x. listed x (keys entries) ≡ false) same (ground arith) in
      let later : listed id (changed_since base entries) ≡ false =
        listed-changed_since id base entries (ground arith)
        ∙ ap (changed_entry (lookup id base)) (not_found id entries once) in
      rw same (ground (arith, text_eq_refl id, later))
  | inr e ↦ ground (arith, listed-changed_since id base entries)
]

change_of-is_added :
    (old new : Option ℕ) → (has_value new && not (has_value old)) ≡ is_added (change_of old new)
unfolding change_of is_added
change_of-is_added none none = refl
change_of-is_added none (some d) = refl
change_of-is_added (some c) none = refl
change_of-is_added (some c) (some d) = ground arith

change_of-is_updated : (old new : Option ℕ) → changed_entry old new ≡ is_updated (change_of old new)
unfolding changed_entry differs change_of is_updated
change_of-is_updated none none = refl
change_of-is_updated none (some d) = refl
change_of-is_updated (some c) none = refl
change_of-is_updated (some c) (some d) = ground arith

change_of-is_removed :
    (old new : Option ℕ) → (has_value old && not (has_value new)) ≡ is_removed (change_of old new)
unfolding change_of is_removed
change_of-is_removed none none = refl
change_of-is_removed none (some d) = refl
change_of-is_removed (some c) none = refl
change_of-is_removed (some c) (some d) = ground arith

keys-digests : (nodes : List (Text × InteractionNode)) → keys (digests nodes) ≡ keys nodes
unfolding keys digests
keys-digests [] = refl
keys-digests ((id, node) ∷ nodes) = ap (◌∷◌ id) (keys-digests nodes)

-- The digest of the node that the graph has for the id
unfoldable pub digest_in : InteractionGraph → Text → Option ℕ
digest_in g id = lookup id (digests g.nodes)

-- Where no id stands twice in the current graph, a delta lists an id as added, as updated or as
-- removed exactly if the digests that the two graphs have for the id say so: the current graph alone
-- has one, both have one and they differ, or the base alone has one.
pub compute_delta_lem :
    (base current : InteractionGraph) (id : Text)
    → all_distinct (keys current.nodes) ≡ true
    → (listed id (compute_delta base current).added_nodes
        ≡ is_added (change_of (digest_in base id) (digest_in current id)))
      × (listed id (compute_delta base current).updated_nodes
          ≡ is_updated (change_of (digest_in base id) (digest_in current id)))
      × (listed id (compute_delta base current).removed_nodes
          ≡ is_removed (change_of (digest_in base id) (digest_in current id)))
unfolding compute_delta digest_in
compute_delta_lem base current id h =
    let old = digests base.nodes in
    let new = digests current.nodes in
    (
      any-sort text_lt (λ k. text_eq k id) (missing_from old new)
          ∙ listed-missing_from id old new
          ∙ change_of-is_added (lookup id old) (lookup id new),
      any-sort text_lt (λ k. text_eq k id) (changed_since old new)
          ∙ listed-changed_since id old new (rw (keys-digests current.nodes) h)
          ∙ change_of-is_updated (lookup id old) (lookup id new),
      any-sort text_lt (λ k. text_eq k id) (missing_from new old)
          ∙ listed-missing_from id new old
          ∙ change_of-is_removed (lookup id old) (lookup id new),
    )

none_listed : (ids : List Text) → ((id : Text) → listed id ids ≡ false) → is_empty ids ≡ true
none_listed [] h = refl
none_listed (a ∷ ids) h = ground (arith, h a, text_eq_refl a)

change_of_self :
    (d : Option ℕ)
    → (is_added (change_of d d) ≡ false)
      × (is_updated (change_of d d) ≡ false)
      × (is_removed (change_of d d) ≡ false)
unfolding change_of is_added is_updated is_removed
change_of_self none = (refl, refl, refl)
change_of_self (some d) = (ground arith, ground arith, ground arith)

-- A graph in which no id stands twice has not changed since itself, and the lists of a delta are
-- sorted.
pub compute_delta_self :
    (base g : InteractionGraph)
    → all_distinct (keys g.nodes) ≡ true
    → ((compute_delta g g).changed ≡ false)
      × IsSorted text_lt (compute_delta base g).added_nodes
      × IsSorted text_lt (compute_delta base g).updated_nodes
      × IsSorted text_lt (compute_delta base g).removed_nodes
unfolding compute_delta
compute_delta_self base g h =
    let d = compute_delta g g in
    let same = λ (id : Text). change_of_self (digest_in g id) in
    let lists = λ (id : Text). compute_delta_lem g g id h in
    (
      ground (
        arith,
        none_listed d.added_nodes (λ id. (lists id).0 ∙ (same id).0),
        none_listed d.updated_nodes (λ id. (lists id).1 ∙ (same id).1),
        none_listed d.removed_nodes (λ id. (lists id).2 ∙ (same id).2),
      ),
      sort-IsSorted text_lt text_lt_asym _,
      sort-IsSorted text_lt text_lt_asym _,
      sort-IsSorted text_lt text_lt_asym _,
    )
