-- ===== src/Interaction/Delta.antt =====
-- ComputeDelta of core/interaction/src/InteractionGraph.cpp: what changed between two graphs.
pub mod Digest
pub mod Laws
use intent_execution_layer.Common.{
  ℕ, Bool, true, false, not, ◌&&◌, ◌||◌, List, [], ◌∷◌, Option, none, some, if◌then◌else◌, is_empty,
  ◌==◌,
}
use intent_execution_layer.Common.Sort.{sort}
use intent_execution_layer.Text.{Text, text_lt}
use intent_execution_layer.Text.Dict.{lookup, contains}
use intent_execution_layer.Interaction.{InteractionNode, InteractionGraph, GraphDelta}
use intent_execution_layer.Interaction.Delta.Digest.{stable_node_digest}

-- baseDigest and currentDigest
unfoldable pub digests : List (Text × InteractionNode) → List (Text × ℕ)
digests [] = []
digests ((id, node) ∷ nodes) = (id, stable_node_digest node) ∷ digests nodes

-- The keys of the first map that the second lacks
unfoldable pub missing_from : List (Text × ℕ) → List (Text × ℕ) → List Text
missing_from other [] = []
missing_from other ((id, digest) ∷ entries) =
    let rest = missing_from other entries in if contains id other then rest else id ∷ rest

-- The digest that the base has for the key differs.
unfoldable pub differs : Option ℕ → ℕ → Bool
differs none digest = false
differs (some old) digest = not (old == digest)

unfoldable pub changed_since : List (Text × ℕ) → List (Text × ℕ) → List Text
changed_since base [] = []
changed_since base ((id, digest) ∷ entries) =
    let rest = changed_since base entries in
    if differs (lookup id base) digest then id ∷ rest else rest

unfoldable pub compute_delta : InteractionGraph → InteractionGraph → GraphDelta
compute_delta base current =
    let base_digest = digests base.nodes in
    let current_digest = digests current.nodes in
    let added = sort text_lt (missing_from base_digest current_digest) in
    let updated = sort text_lt (changed_since base_digest current_digest) in
    let removed = sort text_lt (missing_from current_digest base_digest) in
    record {
      from_version = base.version;
      to_version = current.version;
      changed = not (is_empty added) || not (is_empty updated) || not (is_empty removed);
      reset_required = false;
      added_nodes = added;
      updated_nodes = updated;
      removed_nodes = removed;
    }
