-- ===== src/Tests/CapabilityRuns.antt =====
-- The capabilities of a window with a button, and of one file.
use intent_execution_layer.Common.{◌≡◌, refl, [], ◌∷◌, All, length, false}
use intent_execution_layer.Text.{text}
use intent_execution_layer.Float.{float_lt}
use intent_execution_layer.Intent.{valid, is_valid}
use intent_execution_layer.Capability.{
  FileSystemEntry, capability_target, element_capabilities, extract_ui_capabilities,
  extract_entries, extract_file_capabilities, extract, normalize,
}
use intent_execution_layer.Capability.Normal.{normalize-extract}
use intent_execution_layer.Tests.{ascii_platform, rough_doubles, ok_button, frame_window}

abbrev notes : FileSystemEntry
notes = record { path = text "notes.txt"; is_directory = false }

capabilities_of_snapshot :
    length (extract ascii_platform (frame_window ∷ ok_button ∷ []) (notes ∷ [])) ≡ 4
unfolding extract extract_ui_capabilities capability_target text element_capabilities
    extract_file_capabilities extract_entries
capabilities_of_snapshot = refl

normalize-extract_example :
    All
      (λ c. is_valid (normalize rough_doubles c) ≡ valid)
      (extract ascii_platform (frame_window ∷ ok_button ∷ []) (notes ∷ []))
unfolding float_lt text
normalize-extract_example =
    normalize-extract rough_doubles ascii_platform (frame_window ∷ ok_button ∷ []) (notes ∷ []) refl
      refl
