-- ===== src/Interaction/Delta/Digest.antt =====
-- StableNodeDigest and ComputeGraphSignature of core/interaction/src/InteractionGraph.cpp.
use intent_execution_layer.Common.{
  ℕ, ◌-◌, ◌%◌, ◌^◌, Bool, List, [], ◌∷◌, Option, none, some, if◌then◌else◌, ◌==◌, ℤ, pos, negsuc,
}
use intent_execution_layer.Common.Sort.{sort}
use intent_execution_layer.Text.{Text, text_eq, text_lt}
use intent_execution_layer.Text.Dict.{lookup, keys}
use intent_execution_layer.Engine.{hash_combine}
use intent_execution_layer.Interaction.{PlanStep, InteractionNode, InteractionEdge, CommandNode}
use intent_execution_layer.Interaction.Plan.{stable_hash}

-- HashBool
hash_bool : ℕ → Bool → ℕ
hash_bool seed value = hash_combine seed (if value then 0x9a17 else 0x83)

-- static_cast<std::uint64_t>(static_cast<std::int64_t>(value))
to_word : ℤ → ℕ
to_word (pos n) = n % 2 ^ 64
to_word (negsuc n) = 2 ^ 64 - 1 - n % 2 ^ 64

pub combine_texts : ℕ → List Text → ℕ
combine_texts digest [] = digest
combine_texts digest (s ∷ texts) = combine_texts (hash_combine digest (stable_hash s)) texts

combine_words : ℕ → List ℤ → ℕ
unfolding to_word
combine_words digest [] = digest
combine_words digest (n ∷ words) = combine_words (hash_combine digest (to_word n)) words

combine_bools : ℕ → List Bool → ℕ
unfolding hash_bool
combine_bools digest [] = digest
combine_bools digest (b ∷ bools) = combine_bools (hash_bool digest b) bools

combine_steps : ℕ → List PlanStep → ℕ
unfolding combine_texts hash_bool
combine_steps digest [] = digest
combine_steps digest (step ∷ steps) =
    combine_steps
      (hash_bool
        (combine_texts digest (step.id ∷ step.action ∷ step.target_id ∷ step.argument ∷ []))
        step.requires_visible)
      steps

-- StableNodeDigest
unfoldable pub stable_node_digest : InteractionNode → ℕ
unfolding combine_texts combine_words combine_bools combine_steps hash_bool
stable_node_digest node =
    let named = combine_texts (hash_combine (stable_hash node.id) node.node_id.signature) (
      node.descriptor.type ∷ node.descriptor.label ∷ node.descriptor.parent_id
      ∷ node.descriptor.source ∷ node.descriptor.ui_element_id ∷ node.descriptor.shortcut ∷ []) in
    let placed =
      combine_words named
        (node.bounds.left ∷ node.bounds.top ∷ node.bounds.right ∷ node.bounds.bottom ∷ []) in
    let stated = combine_bools placed (
      node.state.visible ∷ node.state.enabled ∷ node.state.offscreen ∷ node.state.collapsed
      ∷ node.state.hidden ∷ []) in
    let planned =
      hash_combine
        (hash_bool (hash_combine stated (stable_hash node.execution_plan.id))
          node.execution_plan.executable)
        (stable_hash node.execution_plan.reason) in
    let digest = combine_texts (combine_steps planned node.execution_plan.steps) node.children in
    if digest == 0 then 1 else digest

edge_less : InteractionEdge → InteractionEdge → Bool
edge_less left right =
    if text_eq left.from right.from then text_lt left.to right.to else text_lt left.from right.from

command_less : CommandNode → CommandNode → Bool
command_less left right = text_lt left.id right.id

combine_node : ℕ → Option InteractionNode → ℕ
combine_node signature none = signature
combine_node signature (some node) = hash_combine signature (stable_node_digest node)

combine_nodes : ℕ → List (Text × InteractionNode) → List Text → ℕ
unfolding combine_node
combine_nodes signature nodes [] = signature
combine_nodes signature nodes (id ∷ ids) =
    combine_nodes (combine_node signature (lookup id nodes)) nodes ids

combine_edges : ℕ → List InteractionEdge → ℕ
combine_edges signature [] = signature
combine_edges signature (edge ∷ edges) =
    combine_edges (combine_texts signature (edge.from ∷ edge.to ∷ [])) edges

combine_commands : ℕ → List CommandNode → ℕ
combine_commands signature [] = signature
combine_commands signature (c ∷ commands) =
    combine_commands (combine_texts signature (c.id ∷ c.name ∷ c.shortcut ∷ c.source ∷ [])) commands

-- ComputeGraphSignature
unfoldable pub compute_graph_signature :
    List (Text × InteractionNode) → List InteractionEdge → List CommandNode → ℕ
unfolding combine_nodes combine_edges combine_commands edge_less command_less
compute_graph_signature nodes edges commands =
    let signature =
      combine_commands
        (combine_edges (combine_nodes 1469598103934665603 nodes (sort text_lt (keys nodes)))
          (sort edge_less edges))
        (sort command_less commands) in
    if signature == 0 then 1 else signature
