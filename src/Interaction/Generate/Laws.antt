-- ===== src/Interaction/Generate/Laws.antt =====
-- The intents of a graph, described without the loop.
use intent_execution_layer.Common.{
  ℕ, suc, ◌+◌, ◌-◌, ◌≡◌, refl, sym, ◌∙◌, Bool, List, [], ◌∷◌, ◌++◌, map, none, some, if◌then◌else◌,
  length, length-append, take, leb, arith, inl, inr, Bool-cases, Option-cases, append_assoc,
  append-nil,
}
use intent_execution_layer.Common.Sort.{sort}
use intent_execution_layer.Text.{Text, text_lt}
use intent_execution_layer.Text.Dict.{lookup, keys}
use intent_execution_layer.Platform.{Platform}
use intent_execution_layer.Double.{DoubleOps}
use intent_execution_layer.Intent.{Intent}
use intent_execution_layer.Interaction.{InteractionNode, InteractionGraph}
use intent_execution_layer.Interaction.Generate.{
  offers_intent, generate_from, generate_intents, generate_intent,
}

-- The nodes with the given ids that the guards let pass
unfoldable pub offered_nodes : InteractionGraph → Bool → List Text → List InteractionNode
offered_nodes graph include_hidden [] = []
offered_nodes graph include_hidden (node_id ∷ node_ids) =
    let rest = offered_nodes graph include_hidden node_ids in
    elim (lookup node_id graph.nodes) [
      | none ↦ rest
      | some node ↦ if offers_intent include_hidden node then node ∷ rest else rest
    ]

module _ (platform : Platform) (ops : DoubleOps) where
  generate_from_lem :
      (graph : InteractionGraph) (include_hidden : Bool) (max_intents : ℕ) (node_ids : List Text)
      (intents : List Intent)
      → generate_from platform ops graph include_hidden max_intents node_ids intents
        ≡ intents
          ++ map (generate_intent platform ops) (
              take
                (suc (max_intents - suc (length intents)))
                (offered_nodes graph include_hidden node_ids))
  unfolding generate_from offered_nodes
  generate_from_lem graph include_hidden max_intents [] intents = sym (append-nil intents)
  generate_from_lem graph include_hidden max_intents (node_id ∷ node_ids) intents =
      let later = generate_from_lem graph include_hidden max_intents node_ids in
      elim (Option-cases (lookup node_id graph.nodes)) [
        | inl e ↦ rw (generate_from, offered_nodes, e) (later intents)
        | inr (node, e) ↦ elim (Bool-cases (offers_intent include_hidden node)) [
          | inr g ↦ rw (generate_from, offered_nodes, e, g) (later intents)
          | inl g ↦
              let pushed = intents ++ generate_intent platform ops node ∷ [] in
              let longer : length pushed ≡ length intents + 1 =
                length-append intents (generate_intent platform ops node ∷ []) in
              elim (Bool-cases (leb max_intents (length pushed))) [
                | inl full ↦
                    let none_left : max_intents - suc (length intents) ≡ 0 =
                      ground (arith, full, longer) in
                    rw (generate_from, offered_nodes, e, g, full, none_left) refl
                | inr more ↦
                    let left : max_intents - suc (length intents)
                        ≡ suc (max_intents - suc (length pushed)) =
                      ground (arith, more, longer) in
                    rw (generate_from, offered_nodes, e, g, more, left)
                      (later pushed ∙ append_assoc intents _ _)
              ]
        ]
      ]

  -- The intents that are generated are those of the nodes that the guards let pass, in the order of the
  -- nodes' ids, and of these the first `max_intents`, or the first one if `max_intents` is 0.
  pub generate_intents-eq :
      (graph : InteractionGraph) (include_hidden : Bool) (max_intents : ℕ)
      → generate_intents platform ops graph include_hidden max_intents
        ≡ map (generate_intent platform ops) (
            take
              (suc (max_intents - 1))
              (offered_nodes graph include_hidden (sort text_lt (keys graph.nodes))))
  unfolding generate_intents
  generate_intents-eq graph include_hidden max_intents =
      generate_from_lem graph include_hidden max_intents (sort text_lt (keys graph.nodes)) []
