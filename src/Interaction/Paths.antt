-- ===== src/Interaction/Paths.antt =====
-- The labels of elements and the paths to them (ResolveUiPath of
-- core/interaction/src/InteractionGraph.cpp). The recursion goes up the parents of an element; a set
-- of the elements on the way ends it where the parents form a cycle. Its fuel is one more than the
-- number of elements with an id.
pub mod Total
use intent_execution_layer.Common.{
  ℕ, zero, suc, Bool, true, false, not, ◌&&◌, ◌||◌, List, [], ◌∷◌, ◌++◌, Option, none, some,
  if◌then◌else◌, is_empty, length, drop, any,
}
use intent_execution_layer.Common.Optional.{◌>>=◌, value_or}
use intent_execution_layer.Text.{Text, text, text_eq, find, normalize_ascii_lower}
use intent_execution_layer.Text.Dict.{lookup, insert}
use intent_execution_layer.Platform.{Platform, narrow}
use intent_execution_layer.Ui.{UiElement}
use intent_execution_layer.Interaction.{node_type_from_control}

-- The loop that fills elementsById
unfoldable pub elements_by_id : List UiElement → List (Text × UiElement) → List (Text × UiElement)
elements_by_id [] m = m
elements_by_id (e ∷ elements) m =
    elements_by_id elements (if is_empty e.id then m else insert e.id e m)

abbrev pub visited : Text → List Text → Bool
visited id = any (λ v. text_eq v id)

unfoldable pub parent_of : List (Text × UiElement) → UiElement → Option UiElement
parent_of by_id e = if is_empty e.parent_id then none else lookup e.parent_id by_id

module _ (platform : Platform) where
  -- SelectNodeLabel; Narrow of an empty text is empty
  unfoldable pub select_node_label : UiElement → Text
  select_node_label e =
      if not (is_empty e.name)
      then narrow platform e.name
      else if not (is_empty e.automation_id)
      then narrow platform e.automation_id
      else if not (is_empty e.class_name)
      then narrow platform e.class_name
      else []

  -- SelectAutomationId
  unfoldable pub select_automation_id : UiElement → Text
  select_automation_id e =
      if not (is_empty e.automation_id) then narrow platform e.automation_id else e.id

  -- element.name.substr(element.name.find(L"Ctrl+")), if it is found
  shortcut_in : Text → Option ℕ → Text
  shortcut_in name none = []
  shortcut_in name (some i) = narrow platform (drop i name)

  -- SelectShortcut
  unfoldable pub select_shortcut : UiElement → Text
  unfolding shortcut_in
  select_shortcut e =
      if not (is_empty e.accelerator_key)
      then narrow platform e.accelerator_key
      else if not (is_empty e.access_key)
      then narrow platform e.access_key
      else if is_empty e.name
      then []
      else shortcut_in e.name (find (text "Ctrl+") e.name)

  -- BuildPathSegment
  unfoldable pub build_path_segment : UiElement → Text
  build_path_segment e =
      let label = normalize_ascii_lower (select_node_label e) in
      let id = normalize_ascii_lower (select_automation_id e) in
      node_type_from_control e.control_type
      ++ text ":"
      ++ (if not (is_empty label)
          then label
          else if not (is_empty id)
          then id
          else text "anonymous")

  -- The path and the cache after; `none` when the fuel is used up
  unfoldable pub resolve_ui_path :
      ℕ
      → List (Text × UiElement)
      → UiElement
      → List (Text × Text)
      → List Text
      → Option (Text × List (Text × Text))
  resolve_ui_path zero by_id e cache visiting = none
  resolve_ui_path (suc fuel) by_id e cache visiting = elim (is_empty e.id) [
    | true ↦ some (text "root/" ++ build_path_segment e, cache)
    | false ↦ elim (lookup e.id cache) [
      | some path ↦ some (path, cache)
      | none ↦ elim (visited e.id visiting) [
        | true ↦ some (text "cycle/" ++ build_path_segment e, cache)
        | false ↦
            let above : Option (Text × List (Text × Text)) = elim (parent_of by_id e) [
              | none ↦ some (text "root", cache)
              | some parent ↦ resolve_ui_path fuel by_id parent cache (e.id ∷ visiting)
            ] in
            above >>= λ found.
            let path = found.0 ++ text "/" ++ build_path_segment e in
            some (path, insert e.id path found.1)
      ]
    ]
  ]
