-- ===== src/Registry/Metadata.antt =====
-- ListMetadata lists the metadata of the registered adapters in order.
use mathlib.Core.List.{Perm}
use intent_execution_layer.Common.{◌≡◌, refl, ap, subst, true, false, arith, List, map, [], ◌∷◌}
use intent_execution_layer.Common.Sort.{IsSorted, sort-perm, sort-IsSorted}
use intent_execution_layer.Text.Equality.{text_lt_asym}
use intent_execution_layer.Registry.{
  Adapter, AdapterMetadata, AdapterRegistry, metadata_less, metadata_of, list_metadata,
}

metadata_less_asym : (a b : AdapterMetadata) → metadata_less a b ≡ true → metadata_less b a ≡ false
unfolding metadata_less
metadata_less_asym a b h = ground (arith, text_lt_asym a.name b.name)

metadata_of-eq-map :
    {W : Type 0} (adapters : List (Adapter W))
    → metadata_of adapters ≡ map (λ a. a.metadata) adapters
unfolding metadata_of
metadata_of-eq-map [] = refl
metadata_of-eq-map (a ∷ adapters) = ap (◌∷◌ a.metadata) (metadata_of-eq-map adapters)

-- The list holds the metadata of each registered adapter once, and no entry precedes the one before
-- it by priority and then by name.
pub list_metadata-IsSorted :
    {W : Type 0} (registry : AdapterRegistry W)
    → Perm (map (λ a. a.metadata) registry.adapters) (list_metadata registry)
      × IsSorted metadata_less (list_metadata registry)
unfolding list_metadata
list_metadata-IsSorted registry = (
  subst (λ ms. Perm ms (list_metadata registry)) (metadata_of-eq-map registry.adapters)
      (sort-perm metadata_less (metadata_of registry.adapters)),
  sort-IsSorted metadata_less metadata_less_asym (metadata_of registry.adapters),
)
