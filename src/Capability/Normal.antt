-- ===== src/Capability/Normal.antt =====
-- The capabilities of a snapshot become valid intents.
use intent_execution_layer.Common.{
  ℕ, ◌≡◌, refl, Bool, true, false, not, ◌&&◌, ◌||◌, List, [], ◌∷◌, ◌++◌, map, if◌then◌else◌,
  is_empty, all, All, All-append, arith,
}
use intent_execution_layer.Text.{Text, text, text_eq, text_lt}
use intent_execution_layer.Float.{float_lt, zero_f, one_f, in_unit_range}
use intent_execution_layer.Double.{DoubleOps, one_d}
use intent_execution_layer.Platform.{Platform}
use intent_execution_layer.Ui.{UiElement}
use intent_execution_layer.Intent.{valid, is_valid, default_intent, has, find_value, assign_value}
use intent_execution_layer.Capability.{
  Capability, activate, set_value, select, create, delete, move, FileSystemEntry,
  activate_confidence, set_value_confidence, select_confidence, is_button, is_text_box, is_choice,
  new_capability, capability_target, element_capabilities, extract_ui_capabilities, extract_entries,
  extract_file_capabilities, with_capability_id, extract, to_intent_action, normalized_target_type,
  normalize,
}

-- The confidences of the extractor, as floats, lie between 0 and 1.
abbrev pub has_unit_confidences : DoubleOps → Bool
has_unit_confidences ops =
    all (λ c. in_unit_range (ops.to_float c))
      (activate_confidence ∷ set_value_confidence ∷ select_confidence ∷ one_d ∷ [])

module _ (ops : DoubleOps) (unit : has_unit_confidences ops ≡ true) where
  abbrev Becomes : Capability → Type 0
  Becomes c = is_valid (normalize ops c) ≡ valid

  activate-Becomes :
      (ch : ℕ) (target : Text)
      → Becomes (new_capability activate (ch ∷ target) [] activate_confidence (text "uia"))
  unfolding is_valid normalize new_capability to_intent_action normalized_target_type default_intent
  activate-Becomes ch target =
      let low : float_lt (ops.to_float activate_confidence) zero_f ≡ false = ground (arith, unit) in
      let top : float_lt one_f (ops.to_float activate_confidence) ≡ false = ground (arith, unit) in
      rw (low, top) refl

  set_value-Becomes :
      (ch : ℕ) (target : Text)
      → Becomes (
          new_capability set_value
            (ch ∷ target)
            ((text "value", []) ∷ [])
            set_value_confidence
            (text "uia"))
  unfolding is_valid normalize new_capability to_intent_action normalized_target_type default_intent
      has find_value text_eq text
  set_value-Becomes ch target =
      let low : float_lt (ops.to_float set_value_confidence) zero_f ≡ false =
        ground (arith, unit) in
      let top : float_lt one_f (ops.to_float set_value_confidence) ≡ false = ground (arith, unit) in
      rw (low, top) refl

  select-Becomes :
      (ch : ℕ) (target : Text)
      → Becomes (new_capability select (ch ∷ target) [] select_confidence (text "uia"))
  unfolding is_valid normalize new_capability to_intent_action normalized_target_type default_intent
  select-Becomes ch target =
      let low : float_lt (ops.to_float select_confidence) zero_f ≡ false = ground (arith, unit) in
      let top : float_lt one_f (ops.to_float select_confidence) ≡ false = ground (arith, unit) in
      rw (low, top) refl

  create-Becomes :
      (ch : ℕ) (target : Text)
      → Becomes
          (new_capability create (ch ∷ target) ((text "path", []) ∷ []) one_d (text "filesystem"))
  unfolding is_valid normalize new_capability to_intent_action normalized_target_type default_intent
  create-Becomes ch target =
      let low : float_lt (ops.to_float one_d) zero_f ≡ false = ground (arith, unit) in
      let top : float_lt one_f (ops.to_float one_d) ≡ false = ground (arith, unit) in
      rw (low, top) refl

  delete-Becomes :
      (ch : ℕ) (target : Text)
      → Becomes (
          new_capability delete
            (ch ∷ target)
            ((text "path", ch ∷ target) ∷ [])
            one_d
            (text "filesystem"))
  unfolding is_valid normalize new_capability to_intent_action normalized_target_type default_intent
  delete-Becomes ch target =
      let low : float_lt (ops.to_float one_d) zero_f ≡ false = ground (arith, unit) in
      let top : float_lt one_f (ops.to_float one_d) ≡ false = ground (arith, unit) in
      rw (low, top) refl

  move-Becomes :
      (ch : ℕ) (target : Text)
      → Becomes (
          new_capability move
            (ch ∷ target)
            (assign_value
              (text "operation")
              (text "rename_or_move")
              (assign_value (text "destination") [] ((text "path", ch ∷ target) ∷ [])))
            one_d
            (text "filesystem"))
  unfolding is_valid normalize new_capability to_intent_action normalized_target_type default_intent
      has find_value text_eq text assign_value text_lt
  move-Becomes ch target =
      let low : float_lt (ops.to_float one_d) zero_f ≡ false = ground (arith, unit) in
      let top : float_lt one_f (ops.to_float one_d) ≡ false = ground (arith, unit) in
      rw (low, top) refl

  All-if : (b : Bool) (c : Capability) → Becomes c → All Becomes (if b then c ∷ [] else [])
  All-if true c h = (h, tt)
  All-if false c h = tt

  element_capabilities-Becomes :
      (e : UiElement) (ch : ℕ) (target : Text) → All Becomes (element_capabilities e (ch ∷ target))
  unfolding element_capabilities
  element_capabilities-Becomes e ch target =
      All-append Becomes
        (if is_button e.control_type && e.supports_invoke
          then new_capability activate (ch ∷ target) [] activate_confidence (text "uia") ∷ []
          else [])
        ((if is_text_box e.control_type && e.supports_value
            then new_capability set_value (ch ∷ target) ((text "value", []) ∷ [])
                set_value_confidence (text "uia")
              ∷ []
            else [])
          ++ (if is_choice e.control_type && (e.supports_selection || e.supports_invoke)
              then new_capability select (ch ∷ target) [] select_confidence (text "uia") ∷ []
              else []))
        (All-if (is_button e.control_type && e.supports_invoke)
          (new_capability activate (ch ∷ target) [] activate_confidence (text "uia"))
          (activate-Becomes ch target))
        (All-append Becomes
          (if is_text_box e.control_type && e.supports_value
            then new_capability set_value (ch ∷ target) ((text "value", []) ∷ [])
                set_value_confidence (text "uia")
              ∷ []
            else [])
          (if is_choice e.control_type && (e.supports_selection || e.supports_invoke)
            then new_capability select (ch ∷ target) [] select_confidence (text "uia") ∷ []
            else [])
          (All-if (is_text_box e.control_type && e.supports_value)
            (new_capability set_value (ch ∷ target) ((text "value", []) ∷ []) set_value_confidence
              (text "uia"))
            (set_value-Becomes ch target))
          (All-if (is_choice e.control_type && (e.supports_selection || e.supports_invoke))
            (new_capability select (ch ∷ target) [] select_confidence (text "uia"))
            (select-Becomes ch target)))

  extract_ui_capabilities-Becomes :
      (elements : List UiElement) → All Becomes (extract_ui_capabilities elements)
  unfolding extract_ui_capabilities
  extract_ui_capabilities-Becomes [] = tt
  extract_ui_capabilities-Becomes (e ∷ elements) =
      by_target (capability_target e) (extract_ui_capabilities-Becomes elements)
    where
      by_target :
          (target : Text)
          → All Becomes (extract_ui_capabilities elements)
          → All Becomes (
              if is_empty target
              then extract_ui_capabilities elements
              else element_capabilities e target ++ extract_ui_capabilities elements)
      by_target [] h = h
      by_target (ch ∷ target) h =
          All-append Becomes (element_capabilities e (ch ∷ target))
            (extract_ui_capabilities elements) (element_capabilities-Becomes e ch target) h

  extract_entries-Becomes :
      (entries : List FileSystemEntry)
      → all (λ entry. not (is_empty entry.path)) entries ≡ true
      → All Becomes (extract_entries entries)
  unfolding extract_entries
  extract_entries-Becomes [] h = tt
  extract_entries-Becomes (entry ∷ entries) h =
      by_path entry.is_directory entry.path (ground (arith, h))
        (extract_entries-Becomes entries (ground (arith, h)))
    where
      by_path :
          (directory : Bool) (path : Text)
          → is_empty path ≡ false
          → All Becomes (extract_entries entries)
          → All Becomes (
              if directory
              then extract_entries entries
              else new_capability delete path ((text "path", path) ∷ []) one_d (text "filesystem")
                ∷ new_capability move path
                    (assign_value
                      (text "operation")
                      (text "rename_or_move")
                      (assign_value (text "destination") [] ((text "path", path) ∷ [])))
                    one_d
                    (text "filesystem")
                ∷ extract_entries entries)
      by_path true path k rest = rest
      by_path false [] k rest = cc
      by_path false (ch ∷ path) k rest = (delete-Becomes ch path, (move-Becomes ch path, rest))

  with_capability_id-Becomes :
      (platform : Platform) (cs : List Capability)
      → All Becomes cs
      → All Becomes (map (with_capability_id platform) cs)
  unfolding with_capability_id normalize
  with_capability_id-Becomes platform [] h = tt
  with_capability_id-Becomes platform (c ∷ cs) h = (h.0, with_capability_id-Becomes platform cs h.1)

-- Every capability of a snapshot becomes a valid intent when it is normalized, if all entries have
-- a path and the confidences of the extractor lie between 0 and 1 when they are converted to floats.
pub normalize-extract :
    (ops : DoubleOps) (platform : Platform) (elements : List UiElement)
    (entries : List FileSystemEntry)
    → has_unit_confidences ops ≡ true
    → all (λ entry. not (is_empty entry.path)) entries ≡ true
    → All (λ c. is_valid (normalize ops c) ≡ valid) (extract platform elements entries)
unfolding extract extract_file_capabilities text
normalize-extract ops platform elements entries unit named =
    with_capability_id-Becomes ops unit platform _ (
      All-append (λ c. is_valid (normalize ops c) ≡ valid) (extract_ui_capabilities elements) _
        (extract_ui_capabilities-Becomes ops unit elements)
        (
          create-Becomes ops unit b'f' (text "ilesystem"),
          extract_entries-Becomes ops unit entries named,
        ))
