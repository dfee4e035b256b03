-- ===== src/Intent/Action.antt =====
-- The names of the actions.
use intent_execution_layer.Common.{◌≡◌, refl, ap, ◌∙◌, ◌≢◌, ◌↔◌, arith}
use intent_execution_layer.Text.{Text, text, text_eq, normalize_ascii_lower}
use intent_execution_layer.Text.Equality.{text_eq_iff}
use intent_execution_layer.Intent.{
  IntentAction, activate, set_value, select, create, delete, move, action_to_string,
  intent_action_from_string, action_of_normalized,
}

action_of_normalized-to_string : (a : IntentAction) → action_of_normalized (action_to_string a) ≡ a
unfolding action_of_normalized action_to_string text_eq
action_of_normalized-to_string activate = refl
action_of_normalized-to_string set_value = refl
action_of_normalized-to_string select = refl
action_of_normalized-to_string create = refl
action_of_normalized-to_string delete = refl
action_of_normalized-to_string move = refl
action_of_normalized-to_string IntentAction.unknown = refl

-- Every action name that `ToString` prints reads back as the action.
pub action_string_roundtrip :
    (a : IntentAction) → intent_action_from_string (action_to_string a) ≡ a
unfolding intent_action_from_string action_to_string text_eq normalize_ascii_lower
action_string_roundtrip activate = refl
action_string_roundtrip set_value = refl
action_string_roundtrip select = refl
action_string_roundtrip create = refl
action_string_roundtrip delete = refl
action_string_roundtrip move = refl
action_string_roundtrip IntentAction.unknown = refl

normalized_name :
    (n : Text) (a : IntentAction)
    → a ≢ IntentAction.unknown
    → action_of_normalized n ≡ a
    → n ≡ action_to_string a
unfolding action_of_normalized action_to_string
normalized_name n a h e = ground (
  arith,
  text_eq_iff n (text "activate"),
  text_eq_iff n (text "set_value"),
  text_eq_iff n (text "select"),
  text_eq_iff n (text "create"),
  text_eq_iff n (text "delete"),
  text_eq_iff n (text "move"),
)

-- A text names a known action exactly if, put in lower case, it is the text that `ToString` gives for
-- that action.
pub intent_action_from_string_iff :
    (s : Text) (a : IntentAction)
    → a ≢ IntentAction.unknown
    → (intent_action_from_string s ≡ a) ↔ (normalize_ascii_lower s ≡ action_to_string a)
unfolding intent_action_from_string
intent_action_from_string_iff s a h = (
  normalized_name (normalize_ascii_lower s) a h,
  λ e. ap action_of_normalized e ∙ action_of_normalized-to_string a,
)
