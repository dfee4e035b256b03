-- ===== src/Intent/Valid.antt =====
-- Validation accepts the well-formed intents and no others.
use intent_execution_layer.Common.{◌≡◌, ◌≢◌, ◌↔◌, ◌⊎◌, true, false, [], arith, pos, ◌≤ℤ◌, ◌<ℤ◌}
use intent_execution_layer.Text.{text}
use intent_execution_layer.Float.{float_lt, zero_f, one_f}
use intent_execution_layer.Intent.{
  Intent, IntentAction, TargetType, set_value, move, ui_element, file_system_path, has,
  has_continuous_signal, valid, is_valid,
}

-- What is asked of an intent before it is executed.
pub record IsWellFormed (i : Intent) : Type 0 where
  pub known_action : i.action ≢ IntentAction.unknown
  pub confidence_floor : float_lt i.confidence zero_f ≡ false
  pub confidence_ceiling : float_lt one_f i.confidence ≡ false
  pub known_target : i.target.type ≢ TargetType.unknown
  pub ui_named : i.target.type ≡ ui_element → (i.target.label ≢ []) ⊎ (i.target.automation_id ≢ [])
  pub path_given : i.target.type ≡ file_system_path → i.target.path ≢ []
  pub value_given : i.action ≡ set_value → has i.params (text "value") ≡ true
  pub move_paths :
      i.action ≡ move
      → i.target.type ≡ file_system_path
      → (has i.params (text "path") ≡ true) × (has i.params (text "destination") ≡ true)
  pub move_signal :
      i.action ≡ move → i.target.type ≡ ui_element → has_continuous_signal i.params ≡ true
  pub retries_nonneg : pos 0 ≤ℤ i.constraints.max_retries
  pub timeout_positive : pos 0 <ℤ i.constraints.timeout_ms

-- An intent passes validation exactly if it is well formed.
pub is_valid_iff : (i : Intent) → (is_valid i ≡ valid) ↔ IsWellFormed i
unfolding is_valid
is_valid_iff i = (λ h. ground arith, λ w. ground arith)
