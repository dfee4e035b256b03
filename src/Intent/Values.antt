-- ===== src/Intent/Values.antt =====
-- The parameter map: what is assigned is found, and other keys are as before.
use intent_execution_layer.Common.{◌≡◌, refl, List, [], ◌∷◌, some, arith, if◌then◌else◌}
use intent_execution_layer.Text.{Text, text_eq}
use intent_execution_layer.Text.Equality.{text_eq_iff}
use intent_execution_layer.Intent.{find_value, assign_value}

-- A key that is assigned has the new value, and every other key what it had.
pub find_value-assign_value :
    (k j v : Text) (m : List (Text × Text))
    → find_value j (assign_value k v m) ≡ (if text_eq k j then some v else find_value j m)
unfolding find_value assign_value
find_value-assign_value k j v [] = refl
find_value-assign_value k j v ((i, w) ∷ m) =
    ground
      (arith, text_eq_iff k j, text_eq_iff i k, text_eq_iff i j, find_value-assign_value k j v m)
