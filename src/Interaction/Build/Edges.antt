-- ===== src/Interaction/Build/Edges.antt =====
-- The edges of a graph join nodes of the graph, and no id stands twice.
use intent_execution_layer.Common.{
  ℕ, ◌+◌, ◌≡◌, refl, ◌∙◌, ap, true, List, [], ◌∷◌, Option, none, some, is_empty, All, All-append,
  arith, Bool-cases, Option-cases, inl, inr,
}
use intent_execution_layer.Text.{Text, text_eq}
use intent_execution_layer.Text.Equality.{text_eq_refl}
use intent_execution_layer.Text.Dict.{
  lookup, insert, adjust, contains, keys, all_distinct, contains-insert, contains-adjust,
  insert-all_distinct, keys-adjust,
}
use intent_execution_layer.Platform.{Platform}
use intent_execution_layer.Ui.{UiElement}
use intent_execution_layer.Interaction.{InteractionNode, InteractionEdge}
use intent_execution_layer.Interaction.Paths.{elements_by_id, select_shortcut}
use intent_execution_layer.Interaction.Build.{
  Scan, add_element, add_elements, parent_node, link_to, link_element, link_elements,
  add_command_to, add_command, add_commands, complete_nodes, empty_scan, scan_elements, build,
}

abbrev pub Joins : List (Text × InteractionNode) → InteractionEdge → Type 0
Joins m e = (contains e.from m ≡ true) × (contains e.to m ≡ true)

abbrev Names : List (Text × InteractionNode) → Text × Text → Type 0
Names m entry = contains entry.1 m ≡ true

-- The ids that are known for elements are those of nodes, and so are the ends of edges.
record IsLinked (s : Scan) : Type 0 where
  names : All (Names s.nodes) s.node_by_ui_element_id
  joins : All (Joins s.nodes) s.edges
  distinct : all_distinct (keys s.nodes) ≡ true

All-map :
    {A : Type 0} (P Q : A → Type 0) (xs : List A) → ((a : A) → P a → Q a) → All P xs → All Q xs
All-map P Q [] f h = tt
All-map P Q (x ∷ xs) f h = (f x h.0, All-map P Q xs f h.1)

contains-insert_mono :
    (k id : Text) (n : InteractionNode) (m : List (Text × InteractionNode))
    → contains k m ≡ true
    → contains k (insert id n m) ≡ true
contains-insert_mono k id n m h = rw (contains-insert k id n m) (ground (arith, h))

contains-insert_self :
    (id : Text) (n : InteractionNode) (m : List (Text × InteractionNode))
    → contains id (insert id n m) ≡ true
contains-insert_self id n m = rw (contains-insert id id n m) (ground (arith, text_eq_refl id))

insert-names :
    (P : Text × Text → Type 0) (k v : Text) (m : List (Text × Text))
    → ((l : Text) → P (l, v))
    → All P m
    → All P (insert k v m)
unfolding insert
insert-names P k v [] new h = (new k, tt)
insert-names P k v ((l, w) ∷ m) new h = elim (Bool-cases (text_eq l k)) [
  | inl e ↦ rw e (new l, h.1)
  | inr e ↦ rw e (h.0, insert-names P k v m new h.1)
]

Names-lookup :
    (nodes : List (Text × InteractionNode)) (k v : Text) (m : List (Text × Text))
    → All (Names nodes) m
    → lookup k m ≡ some v
    → contains v nodes ≡ true
unfolding lookup
Names-lookup nodes k v [] h e = cc
Names-lookup nodes k v ((l, w) ∷ m) h e = elim (Bool-cases (text_eq l k)) [
  | inl f ↦ let same : w ≡ v = cc (e, f) in rw (← same) h.0
  | inr f ↦ Names-lookup nodes k v m h.1 (ground arith)
]

-- A node more keeps what the nodes had.
more-Names :
    (id : Text) (n : InteractionNode) (m : List (Text × InteractionNode))
    (by_id : List (Text × Text))
    → All (Names m) by_id
    → All (Names (insert id n m)) by_id
more-Names id n m by_id h =
    All-map (Names m) (Names (insert id n m)) by_id
      (λ entry k. contains-insert_mono entry.1 id n m k) h

more-Joins :
    (id : Text) (n : InteractionNode) (m : List (Text × InteractionNode))
    (edges : List InteractionEdge)
    → All (Joins m) edges
    → All (Joins (insert id n m)) edges
more-Joins id n m edges h =
    All-map (Joins m) (Joins (insert id n m)) edges
      (λ e k. (contains-insert_mono e.from id n m k.0, contains-insert_mono e.to id n m k.1)) h

adjusted-Names :
    (id : Text) (f : InteractionNode → InteractionNode) (m : List (Text × InteractionNode))
    (by_id : List (Text × Text))
    → All (Names m) by_id
    → All (Names (adjust id f m)) by_id
adjusted-Names id f m by_id h =
    All-map (Names m) (Names (adjust id f m)) by_id (λ entry k. contains-adjust entry.1 id f m ∙ k)
      h

adjusted-Joins :
    (id : Text) (f : InteractionNode → InteractionNode) (m : List (Text × InteractionNode))
    (edges : List InteractionEdge)
    → All (Joins m) edges
    → All (Joins (adjust id f m)) edges
adjusted-Joins id f m edges h =
    All-map (Joins m) (Joins (adjust id f m)) edges
      (λ e k. (contains-adjust e.from id f m ∙ k.0, contains-adjust e.to id f m ∙ k.1)) h

adjusted_distinct :
    (id : Text) (f : InteractionNode → InteractionNode) (m : List (Text × InteractionNode))
    → all_distinct (keys m) ≡ true
    → all_distinct (keys (adjust id f m)) ≡ true
adjusted_distinct id f m h = ap all_distinct (keys-adjust id f m) ∙ h

add_element-IsLinked :
    (platform : Platform) (by_id : List (Text × UiElement)) (e : UiElement) (index : ℕ) (s : Scan)
    → IsLinked s
    → IsLinked (add_element platform by_id e index s)
unfolding add_element
add_element-IsLinked platform by_id e index s w = record {
  names = elim (Bool-cases (is_empty e.id)) [
    | inl h ↦ rw h (more-Names _ _ s.nodes s.node_by_ui_element_id w.names)
    | inr h ↦ rw h (
        insert-names (Names (insert _ _ s.nodes)) e.id _ s.node_by_ui_element_id
          (λ l. contains-insert_self _ _ s.nodes)
          (more-Names _ _ s.nodes s.node_by_ui_element_id w.names))
  ];
  joins = more-Joins _ _ s.nodes s.edges w.joins;
  distinct = insert-all_distinct _ _ s.nodes w.distinct;
}

add_elements-IsLinked :
    (platform : Platform) (by_id : List (Text × UiElement)) (elements : List UiElement) (index : ℕ)
    (s : Scan)
    → IsLinked s
    → IsLinked (add_elements platform by_id elements index s)
unfolding add_elements
add_elements-IsLinked platform by_id [] index s w = w
add_elements-IsLinked platform by_id (e ∷ elements) index s w =
    add_elements-IsLinked platform by_id elements (index + 1) (add_element platform by_id e index s)
      (add_element-IsLinked platform by_id e index s w)

link_to-IsLinked :
    (node_id : Text) (parent : Option Text) (s : Scan)
    → contains node_id s.nodes ≡ true
    → ((p : Text) → parent ≡ some p → contains p s.nodes ≡ true)
    → IsLinked s
    → IsLinked (link_to node_id parent s)
unfolding link_to
link_to-IsLinked node_id none s h k w = record {
  names = adjusted-Names node_id _ s.nodes s.node_by_ui_element_id w.names;
  joins = adjusted-Joins node_id _ s.nodes s.edges w.joins;
  distinct = adjusted_distinct node_id _ s.nodes w.distinct;
}
link_to-IsLinked node_id (some parent) s h k w = record {
  names =
      adjusted-Names parent _ _ s.node_by_ui_element_id
        (adjusted-Names node_id _ s.nodes s.node_by_ui_element_id w.names);
  joins =
      All-append (Joins (adjust parent _ (adjust node_id _ s.nodes))) s.edges _
        (adjusted-Joins parent _ _ s.edges (adjusted-Joins node_id _ s.nodes s.edges w.joins))
        (
          (
            contains-adjust parent parent _ _
                ∙ contains-adjust parent node_id _ s.nodes
                ∙ k parent refl,
            contains-adjust node_id parent _ _ ∙ contains-adjust node_id node_id _ s.nodes ∙ h,
          ),
          tt,
        );
  distinct = adjusted_distinct parent _ _ (adjusted_distinct node_id _ s.nodes w.distinct);
}

parent_node-contains :
    (e : UiElement) (s : Scan) (p : Text)
    → IsLinked s
    → parent_node e s ≡ some p
    → contains p s.nodes ≡ true
unfolding parent_node
parent_node-contains e s p w h =
    Names-lookup s.nodes e.parent_id p s.node_by_ui_element_id w.names (ground arith)

link_element-IsLinked : (e : UiElement) (s : Scan) → IsLinked s → IsLinked (link_element e s)
unfolding link_element
link_element-IsLinked e s w = elim (Bool-cases (is_empty e.id)) [
  | inl h ↦ rw (h, link_element) w
  | inr h ↦ elim (Option-cases (lookup e.id s.node_by_ui_element_id)) [
    | inl f ↦ rw (h, f, link_element) w
    | inr (node_id, f) ↦
        rw (h, f, link_element)
          (link_to-IsLinked node_id (parent_node e s) s
            (Names-lookup s.nodes e.id node_id s.node_by_ui_element_id w.names f)
            (λ p g. parent_node-contains e s p w g) w)
  ]
]

link_elements-IsLinked :
    (elements : List UiElement) (s : Scan) → IsLinked s → IsLinked (link_elements elements s)
unfolding link_elements
link_elements-IsLinked [] s w = w
link_elements-IsLinked (e ∷ elements) s w =
    link_elements-IsLinked elements (link_element e s) (link_element-IsLinked e s w)

add_command_to-IsLinked :
    (platform : Platform) (e : UiElement) (parent : Text) (s : Scan)
    → contains parent s.nodes ≡ true
    → IsLinked s
    → IsLinked (add_command_to platform e parent s)
unfolding add_command_to
add_command_to-IsLinked platform e parent s h w = record {
  names =
      adjusted-Names parent _ _ s.node_by_ui_element_id
        (more-Names _ _ s.nodes s.node_by_ui_element_id w.names);
  joins =
      All-append (Joins (adjust parent _ (insert _ _ s.nodes))) s.edges _
        (adjusted-Joins parent _ _ s.edges (more-Joins _ _ s.nodes s.edges w.joins))
        (
          (
            contains-adjust parent parent _ _ ∙ contains-insert_mono parent _ _ s.nodes h,
            contains-adjust _ parent _ _ ∙ contains-insert_self _ _ s.nodes,
          ),
          tt,
        );
  distinct = adjusted_distinct parent _ _ (insert-all_distinct _ _ s.nodes w.distinct);
}

add_command-IsLinked :
    (platform : Platform) (e : UiElement) (s : Scan)
    → IsLinked s
    → IsLinked (add_command platform e s)
unfolding add_command
add_command-IsLinked platform e s w = elim (Bool-cases (is_empty e.id)) [
  | inl h ↦ rw (h, add_command) w
  | inr h ↦ elim (Option-cases (lookup e.id s.node_by_ui_element_id)) [
    | inl f ↦ rw (h, f, add_command) w
    | inr (parent, f) ↦ elim (Bool-cases (is_empty (select_shortcut platform e))) [
      | inl g ↦ rw (h, f, g, add_command) w
      | inr g ↦
          rw (h, f, g, add_command)
            (add_command_to-IsLinked platform e parent s
              (Names-lookup s.nodes e.id parent s.node_by_ui_element_id w.names f) w)
    ]
  ]
]

add_commands-IsLinked :
    (platform : Platform) (elements : List UiElement) (s : Scan)
    → IsLinked s
    → IsLinked (add_commands platform elements s)
unfolding add_commands
add_commands-IsLinked platform [] s w = w
add_commands-IsLinked platform (e ∷ elements) s w =
    add_commands-IsLinked platform elements (add_command platform e s)
      (add_command-IsLinked platform e s w)

scan_elements-IsLinked :
    (platform : Platform) (elements : List UiElement) → IsLinked (scan_elements platform elements)
unfolding scan_elements keys
scan_elements-IsLinked platform elements = add_commands-IsLinked platform elements _ (
    link_elements-IsLinked elements _ (
      add_elements-IsLinked platform (elements_by_id elements []) elements 0 empty_scan
        (record { names = tt; joins = tt; distinct = refl })))

contains-complete_nodes :
    (sequence : ℕ) (k : Text) (m : List (Text × InteractionNode))
    → contains k (complete_nodes sequence m) ≡ contains k m
unfolding complete_nodes lookup
contains-complete_nodes sequence k [] = refl
contains-complete_nodes sequence k ((l, n) ∷ m) =
    ground (arith, contains-complete_nodes sequence k m)

keys-complete_nodes :
    (sequence : ℕ) (m : List (Text × InteractionNode)) → keys (complete_nodes sequence m) ≡ keys m
unfolding complete_nodes keys
keys-complete_nodes sequence [] = refl
keys-complete_nodes sequence ((l, n) ∷ m) = ap (◌∷◌ l) (keys-complete_nodes sequence m)

-- Whatever the elements are, with repeated or missing ids and parents that form cycles, both ends of
-- every edge of the graph that is built are nodes of the graph, and no id of a node stands twice.
pub build_lem :
    (platform : Platform) (elements : List UiElement) (sequence : ℕ)
    → All (Joins (build platform elements sequence).nodes) (build platform elements sequence).edges
      × (all_distinct (keys (build platform elements sequence).nodes) ≡ true)
unfolding build
build_lem platform elements sequence =
    let s = scan_elements platform elements in
    let w = scan_elements-IsLinked platform elements in
    (
      All-map (Joins s.nodes) (Joins (complete_nodes sequence s.nodes)) s.edges
          (λ e k. (
            contains-complete_nodes sequence e.from s.nodes ∙ k.0,
            contains-complete_nodes sequence e.to s.nodes ∙ k.1,
          ))
          w.joins,
      ap all_distinct (keys-complete_nodes sequence s.nodes) ∙ w.distinct,
    )
