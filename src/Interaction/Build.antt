-- ===== src/Interaction/Build.antt =====
-- InteractionGraphBuilder::Build of core/interaction/src/InteractionGraph.cpp. The loops that look
-- for an identity that no node has yet have as many rounds here as identities are taken, and one
-- more; `Free` says why that is enough unless two texts have one hash.
pub mod Free
pub mod Edges
use intent_execution_layer.Common.{
  ℕ, zero, suc, ◌+◌, Bool, true, false, not, ◌&&◌, ◌||◌, List, [], ◌∷◌, ◌++◌, Option, none, some,
  if◌then◌else◌, is_empty, length, any, map, ◌==◌,
}
use intent_execution_layer.Common.Optional.{value_or}
use intent_execution_layer.Common.Sort.{sort}
use intent_execution_layer.Text.{Text, text, text_eq, text_lt, normalize_ascii_lower}
use intent_execution_layer.Text.Number.{to_decimal}
use intent_execution_layer.Text.Dict.{lookup, insert, adjust}
use intent_execution_layer.Double.{Double, zero_d}
use intent_execution_layer.Platform.{Platform}
use intent_execution_layer.Intent.{IntentAction}
use intent_execution_layer.Ui.{UiElement, Rect}
use intent_execution_layer.Interaction.{
  NodeId, InteractionDescriptor, InteractionState, ExecutionPlan, RevealStrategy, NodeIntentBinding,
  InteractionNode, InteractionEdge, CommandNode, InteractionGraph, node_type_from_control,
}
use intent_execution_layer.Interaction.Paths.{
  select_node_label, select_automation_id, select_shortcut, elements_by_id, resolve_ui_path,
}
use intent_execution_layer.Interaction.Plan.{
  stable_hash, hex_from_hash, build_reveal_strategy, populate_node_contracts,
}
use intent_execution_layer.Interaction.Delta.Digest.{compute_graph_signature}

-- 0.95, 0.72 and 0.80
abbrev seen_confidence : Double
seen_confidence = 0x3fee_6666_6666_6666

abbrev unseen_confidence : Double
unseen_confidence = 0x3fe7_0a3d_70a3_d70a

abbrev command_confidence : Double
command_confidence = 0x3fe9_9999_9999_999a

identity_of : Text → Text → NodeId
identity_of prefix key = record {
  stable_id = prefix ++ hex_from_hash (stable_hash key);
  signature = stable_hash key;
}

-- BuildNodeId
unfoldable pub build_node_id : Platform → UiElement → Text → ℕ → NodeId
unfolding identity_of
build_node_id platform e ui_path fallback_index =
    let automation_id = normalize_ascii_lower (select_automation_id platform e) in
    identity_of (text "uig-node-") (
      ui_path
      ++ text "|role="
      ++ node_type_from_control e.control_type
      ++ text "|label="
      ++ normalize_ascii_lower (select_node_label platform e)
      ++ text "|automation="
      ++ (if is_empty automation_id
          then text "fallback_" ++ to_decimal fallback_index
          else automation_id))

-- BuildCommandNodeId
unfoldable pub build_command_node_id : Text → Text → Text → ℕ → NodeId
unfolding identity_of
build_command_node_id parent_node_id shortcut name ordinal = identity_of (text "uig-cmd-") (
    text "command|"
    ++ parent_node_id
    ++ text "|"
    ++ normalize_ascii_lower shortcut
    ++ text "|"
    ++ normalize_ascii_lower name
    ++ text "|"
    ++ to_decimal ordinal)

abbrev pub occupied_by : NodeId → List Text → Bool
occupied_by identity = any (λ id. text_eq id identity.stable_id)

-- while (occupied) { ++collision; identity = … }
unfoldable pub first_free : ℕ → (ℕ → NodeId) → ℕ → List Text → NodeId
first_free zero candidate collision occupied = candidate collision
first_free (suc fuel) candidate collision occupied =
    let rest = first_free fuel candidate (collision + 1) occupied in
    if occupied_by (candidate collision) occupied then rest else candidate collision

-- The identity of an element, by the number of collisions so far
element_identity : Platform → UiElement → Text → ℕ → ℕ → NodeId
element_identity platform e ui_path index zero = build_node_id platform e ui_path index
element_identity platform e ui_path index (suc collision) =
    build_node_id platform e (ui_path ++ text "|collision=" ++ to_decimal (suc collision))
      (index + suc collision)

-- The identity of a command; its ordinal is counted up before the first collision.
command_identity : Text → Text → Text → ℕ → ℕ → NodeId
command_identity parent shortcut name ordinal zero =
    build_command_node_id parent shortcut name ordinal
command_identity parent shortcut name ordinal (suc collision) =
    build_command_node_id parent shortcut name (ordinal + 1 + suc collision)

-- The contracts of a node before PopulateNodeContracts
abbrev no_reveal : RevealStrategy
no_reveal = record { required = false; guaranteed = false; reason = []; steps = [] }

abbrev no_plan : ExecutionPlan
no_plan = record { id = []; steps = []; executable = false; reason = [] }

abbrev no_binding : NodeIntentBinding
no_binding = record {
  node_id = [];
  action = IntentAction.unknown;
  plan = no_plan;
  reveal = no_reveal;
}

abbrev no_state : InteractionState
no_state = record {
  visible = false;
  enabled = false;
  offscreen = false;
  collapsed = false;
  hidden = false;
  sequence = 0;
  confidence = zero_d;
}

abbrev no_descriptor : Rect → InteractionDescriptor
no_descriptor bounds = record {
  id = [];
  node_id = record { stable_id = []; signature = 0 };
  label = [];
  type = [];
  parent_id = [];
  source = [];
  ui_element_id = [];
  automation_id = [];
  shortcut = [];
  access_key = [];
  bounds = bounds;
  children = [];
  command_node = false;
}

-- The node of an element
unfoldable pub element_node : Platform → UiElement → NodeId → InteractionNode
element_node platform e identity =
    let visible = e.is_visible && not e.is_offscreen in
    record {
      id = identity.stable_id;
      label = select_node_label platform e;
      type = node_type_from_control e.control_type;
      visible = visible;
      enabled = e.is_enabled;
      offscreen = e.is_offscreen;
      collapsed = e.is_collapsed;
      hidden = e.is_hidden || not visible || not e.is_enabled || e.is_collapsed;
      children = [];
      parent_id = e.parent_id;
      source = text "UIA";
      ui_element_id = if is_empty e.id then select_automation_id platform e else e.id;
      shortcut = select_shortcut platform e;
      bounds = e.bounds;
      confidence = if visible then seen_confidence else unseen_confidence;
      node_id = identity;
      descriptor = no_descriptor e.bounds;
      state = no_state;
      execution_plan = no_plan;
      reveal_strategy = no_reveal;
      intent_binding = no_binding;
    }

-- The variables of the loops
pub record Scan : Type 0 where
  pub path_cache : List (Text × Text)
  pub node_by_ui_element_id : List (Text × Text)
  pub occupied_node_ids : List Text
  pub nodes : List (Text × InteractionNode)
  pub edges : List InteractionEdge
  pub commands : List CommandNode
  pub command_ordinal : ℕ

-- The body of the first loop
unfoldable pub add_element : Platform → List (Text × UiElement) → UiElement → ℕ → Scan → Scan
unfolding element_identity
add_element platform by_id e index s =
    let (ui_path, cache) =
      value_or (resolve_ui_path platform (length by_id + 1) by_id e s.path_cache [])
        ([], s.path_cache) in
    let identity =
      first_free (length s.occupied_node_ids + 1) (element_identity platform e ui_path index) 0
        s.occupied_node_ids in
    record s {
      path_cache = cache;
      occupied_node_ids = identity.stable_id ∷ s.occupied_node_ids;
      node_by_ui_element_id =
          if is_empty e.id
          then s.node_by_ui_element_id
          else insert e.id identity.stable_id s.node_by_ui_element_id;
      nodes = insert identity.stable_id (element_node platform e identity) s.nodes;
    }

unfoldable pub add_elements : Platform → List (Text × UiElement) → List UiElement → ℕ → Scan → Scan
add_elements platform by_id [] index s = s
add_elements platform by_id (e ∷ elements) index s =
    add_elements platform by_id elements (index + 1) (add_element platform by_id e index s)

with_parent : Text → InteractionNode → InteractionNode
with_parent parent node = record node { parent_id = parent }

with_child : Text → InteractionNode → InteractionNode
with_child child node = record node { children = node.children ++ child ∷ [] }

parent_node : UiElement → Scan → Option Text
parent_node e s = if is_empty e.parent_id then none else lookup e.parent_id s.node_by_ui_element_id

-- The edge from a parent, which gets the child; without one the parent is cleared.
unfoldable pub link_to : Text → Option Text → Scan → Scan
unfolding with_parent with_child
link_to node_id none s = record s { nodes = adjust node_id (with_parent []) s.nodes }
link_to node_id (some parent) s = record s {
  nodes = adjust parent (with_child node_id) (adjust node_id (with_parent parent) s.nodes);
  edges = s.edges ++ record { from = parent; to = node_id } ∷ [];
}

-- The body of the second loop
unfoldable pub link_element : UiElement → Scan → Scan
unfolding parent_node
link_element e s = elim (is_empty e.id) [
  | true ↦ s
  | false ↦ elim (lookup e.id s.node_by_ui_element_id) [
    | none ↦ s
    | some node_id ↦ link_to node_id (parent_node e s) s
  ]
]

unfoldable pub link_elements : List UiElement → Scan → Scan
link_elements [] s = s
link_elements (e ∷ elements) s = link_elements elements (link_element e s)

-- The node of a command
unfoldable pub command_node : UiElement → Text → CommandNode → NodeId → InteractionNode
command_node e parent command identity = record {
  id = command.id;
  label = command.name;
  type = text "command";
  visible = true;
  enabled = true;
  offscreen = false;
  collapsed = false;
  hidden = false;
  children = [];
  parent_id = parent;
  source = text "command";
  ui_element_id = parent;
  shortcut = command.shortcut;
  bounds = e.bounds;
  confidence = command_confidence;
  node_id = identity;
  descriptor = no_descriptor e.bounds;
  state = no_state;
  execution_plan = no_plan;
  reveal_strategy = no_reveal;
  intent_binding = no_binding;
}

unfoldable pub add_command_to : Platform → UiElement → Text → Scan → Scan
unfolding with_child command_identity
add_command_to platform e parent s =
    let shortcut = select_shortcut platform e in
    let label = select_node_label platform e in
    let name = if is_empty label then parent else label in
    let identity =
      first_free (length s.occupied_node_ids + 1)
        (command_identity parent shortcut name s.command_ordinal) 0 s.occupied_node_ids in
    let command : CommandNode = record {
      id = identity.stable_id;
      name = name;
      shortcut = shortcut;
      source = text "command";
    } in
    record s {
      command_ordinal = s.command_ordinal + 1;
      occupied_node_ids = identity.stable_id ∷ s.occupied_node_ids;
      commands = s.commands ++ command ∷ [];
      nodes =
          adjust parent (with_child command.id)
            (insert command.id (command_node e parent command identity) s.nodes);
      edges = s.edges ++ record { from = parent; to = command.id } ∷ [];
    }

-- The body of the third loop
unfoldable pub add_command : Platform → UiElement → Scan → Scan
add_command platform e s = elim (is_empty e.id) [
  | true ↦ s
  | false ↦ elim (lookup e.id s.node_by_ui_element_id) [
    | none ↦ s
    | some parent ↦ elim (is_empty (select_shortcut platform e)) [
      | true ↦ s
      | false ↦ add_command_to platform e parent s
    ]
  ]
]

unfoldable pub add_commands : Platform → List UiElement → Scan → Scan
add_commands platform [] s = s
add_commands platform (e ∷ elements) s = add_commands platform elements (add_command platform e s)

-- std::unique
unfoldable pub without_repeats : List Text → List Text
without_repeats [] = []
without_repeats (a ∷ []) = a ∷ []
without_repeats (a ∷ b ∷ xs) =
    let rest = without_repeats (b ∷ xs) in if text_eq a b then rest else a ∷ rest

-- The body of the last loop
unfoldable pub complete_node : ℕ → InteractionNode → InteractionNode
unfolding without_repeats
complete_node sequence node =
    populate_node_contracts sequence
      (record node { children = without_repeats (sort text_lt node.children) })

complete_nodes : ℕ → List (Text × InteractionNode) → List (Text × InteractionNode)
complete_nodes sequence [] = []
complete_nodes sequence ((id, node) ∷ nodes) =
    (id, complete_node sequence node) ∷ complete_nodes sequence nodes

abbrev empty_scan : Scan
empty_scan = record {
  path_cache = [];
  node_by_ui_element_id = [];
  occupied_node_ids = [];
  nodes = [];
  edges = [];
  commands = [];
  command_ordinal = 0;
}

unfoldable pub scan_elements : Platform → List UiElement → Scan
scan_elements platform elements = add_commands platform elements (
    link_elements elements
      (add_elements platform (elements_by_id elements []) elements 0 empty_scan))

-- Build
unfoldable pub build : Platform → List UiElement → ℕ → InteractionGraph
unfolding complete_nodes
build platform elements sequence =
    let s = scan_elements platform elements in
    let nodes = complete_nodes sequence s.nodes in
    record {
      sequence = sequence;
      version = sequence;
      signature = compute_graph_signature nodes s.edges s.commands;
      nodes = nodes;
      edges = s.edges;
      commands = s.commands;
      valid = not (is_empty nodes);
    }
