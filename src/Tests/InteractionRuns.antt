-- ===== src/Tests/InteractionRuns.antt =====
-- Graphs of a button and of a window that holds it.
use intent_execution_layer.Common.{
  ◌+◌, ◌≡◌, refl, inl, inr, true, false, List, [], ◌∷◌, length, map, take, All, suc, ◌-◌,
}
use intent_execution_layer.Common.Optional.{has_value}
use intent_execution_layer.Common.Sort.{sort}
use intent_execution_layer.Text.{text, text_lt}
use intent_execution_layer.Text.Dict.{keys, listed, all_distinct}
use intent_execution_layer.Ui.{UiElement}
use intent_execution_layer.Interaction.{InteractionGraph}
use intent_execution_layer.Interaction.Build.{build}
use intent_execution_layer.Interaction.Build.Edges.{Joins, build_lem}
use intent_execution_layer.Interaction.Paths.{elements_by_id, resolve_ui_path}
use intent_execution_layer.Interaction.Paths.Total.{resolve_ui_path_ends}
use intent_execution_layer.Interaction.Delta.{compute_delta}
use intent_execution_layer.Interaction.Delta.Laws.{
  change_of, is_added, is_updated, is_removed, digest_in, compute_delta_lem,
}
use intent_execution_layer.Interaction.Generate.{generate_intents, generate_intent}
use intent_execution_layer.Interaction.Generate.Laws.{offered_nodes, generate_intents-eq}
use intent_execution_layer.Tests.{ascii_platform, rough_doubles, ok_button, frame_window}

abbrev shown : List UiElement
shown = frame_window ∷ ok_button ∷ []

build_lem_example :
    All (Joins (build ascii_platform shown 3).nodes) (build ascii_platform shown 3).edges
    × (all_distinct (keys (build ascii_platform shown 3).nodes) ≡ true)
build_lem_example = build_lem ascii_platform shown 3

resolve_ui_path_ends_example :
    has_value (
      resolve_ui_path ascii_platform
        (length (elements_by_id shown []) + 1)
        (elements_by_id shown [])
        ok_button
        []
        [])
    ≡ true
resolve_ui_path_ends_example =
    resolve_ui_path_ends ascii_platform shown ok_button [] [] (inr (inl refl))

abbrev before : InteractionGraph
before = build ascii_platform (frame_window ∷ []) 3

abbrev after : InteractionGraph
after = build ascii_platform shown 4

compute_delta_lem_example :
    (listed (text "uig-1") (compute_delta before after).added_nodes
      ≡ is_added (change_of (digest_in before (text "uig-1")) (digest_in after (text "uig-1"))))
    × (listed (text "uig-1") (compute_delta before after).updated_nodes
        ≡ is_updated (change_of (digest_in before (text "uig-1")) (digest_in after (text "uig-1"))))
    × (listed (text "uig-1") (compute_delta before after).removed_nodes
        ≡ is_removed (change_of (digest_in before (text "uig-1")) (digest_in after (text "uig-1"))))
compute_delta_lem_example =
    compute_delta_lem before after (text "uig-1") (build_lem ascii_platform shown 4).1

generate_intents-eq_example :
    generate_intents ascii_platform rough_doubles after false 1
    ≡ map
        (generate_intent ascii_platform rough_doubles)
        (take (suc (1 - 1)) (offered_nodes after false (sort text_lt (keys after.nodes))))
generate_intents-eq_example = generate_intents-eq ascii_platform rough_doubles after false 1
