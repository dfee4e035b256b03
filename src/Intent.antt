-- ===== src/Intent.antt =====
-- core/intent/include/Intent.h and the parts of core/intent/src/Intent.cpp that are not JSON: the
-- intent and its parts, the action names, the parameter map, and validation.
pub mod Action
pub mod Values
pub mod Valid
pub mod Json
use intent_execution_layer.Common.{
  ℕ, Bool, true, false, not, ◌&&◌, ◌||◌, List, [], ◌∷◌, Option, none, some, ◌==◌, if◌then◌else◌,
  is_empty, ℤ, pos, ltb_ℤ, leb_ℤ,
}
use intent_execution_layer.Text.{Text, text, text_eq, text_lt, normalize_ascii_lower}
use intent_execution_layer.Float.{Float, float_lt, zero_f, one_f}

pub data IntentAction : Type 0 where
  activate set_value select create delete move unknown : IntentAction

pub data TargetType : Type 0 where
  ui_element file_system_path unknown : TargetType

pub data ExecutionStatus : Type 0 where
  success failed partial : ExecutionStatus

-- The values of the enumerators, by which the source compares them.
abbrev pub action_value : IntentAction → ℕ
action_value activate = 0
action_value set_value = 1
action_value select = 2
action_value create = 3
action_value delete = 4
action_value move = 5
action_value IntentAction.unknown = 6

abbrev pub action_eq : IntentAction → IntentAction → Bool
action_eq a b = action_value a == action_value b

abbrev pub target_type_value : TargetType → ℕ
target_type_value ui_element = 0
target_type_value file_system_path = 1
target_type_value TargetType.unknown = 2

abbrev pub target_type_eq : TargetType → TargetType → Bool
target_type_eq a b = target_type_value a == target_type_value b

abbrev pub status_value : ExecutionStatus → ℕ
status_value success = 0
status_value failed = 1
status_value partial = 2

abbrev pub status_eq : ExecutionStatus → ExecutionStatus → Bool
status_eq a b = status_value a == status_value b

pub record Point : Type 0 where
  pub x : ℤ
  pub y : ℤ

pub record Target : Type 0 where
  pub type : TargetType
  pub label : Text
  pub automation_id : Text
  pub path : Text
  pub node_id : Text
  pub hierarchy_depth : ℤ
  pub screen_center : Point
  pub focused : Bool

-- std::map<std::string, std::wstring>, in the order of the keys
pub record Params : Type 0 where
  pub values : List (Text × Text)

pub record Context : Type 0 where
  pub application : Text
  pub window_title : Text
  pub working_directory : Text
  pub cursor : Point
  pub active_window : ℕ
  pub snapshot_ticks : ℕ
  pub snapshot_version : ℕ
  pub control_frame : ℕ

pub record Constraints : Type 0 where
  pub timeout_ms : ℤ
  pub max_retries : ℤ
  pub requires_verification : Bool
  pub allow_fallback : Bool

pub record Intent : Type 0 where
  pub id : Text
  pub name : Text
  pub action : IntentAction
  pub target : Target
  pub params : Params
  pub context : Context
  pub constraints : Constraints
  pub confidence : Float
  pub source : Text

-- The values that the source's member initialisers give.
unfoldable pub default_intent : Intent
default_intent = record {
  id = [];
  name = [];
  action = IntentAction.unknown;
  target = record {
    type = TargetType.unknown;
    label = [];
    automation_id = [];
    path = [];
    node_id = [];
    hierarchy_depth = pos 0;
    screen_center = record { x = pos 0; y = pos 0 };
    focused = false;
  };
  params = record { values = [] };
  context = record {
    application = [];
    window_title = [];
    working_directory = [];
    cursor = record { x = pos 0; y = pos 0 };
    active_window = 0;
    snapshot_ticks = 0;
    snapshot_version = 0;
    control_frame = 0;
  };
  constraints = record {
    timeout_ms = pos 2500;
    max_retries = pos 2;
    requires_verification = true;
    allow_fallback = true;
  };
  confidence = zero_f;
  source = [];
}

-- values.find(key)
unfoldable pub find_value : Text → List (Text × Text) → Option Text
find_value key [] = none
find_value key ((k, v) ∷ rest) = if text_eq k key then some v else find_value key rest

-- values[key] = value
unfoldable pub assign_value : Text → Text → List (Text × Text) → List (Text × Text)
assign_value key value [] = (key, value) ∷ []
assign_value key value ((k, v) ∷ rest) =
    if text_eq k key
    then (key, value) ∷ rest
    else if text_lt key k
    then (key, value) ∷ (k, v) ∷ rest
    else (k, v) ∷ assign_value key value rest

-- Params::Has
unfoldable pub has : Params → Text → Bool
has params key = elim (find_value key params.values) [ none ↦ false | some v ↦ true ]

-- Params::Get
unfoldable pub get : Params → Text → Text → Text
get params key default_value = elim (find_value key params.values) [
  | none ↦ default_value
  | some v ↦ v
]

unfoldable pub assign : Params → Text → Text → Params
assign params key value = record { values = assign_value key value params.values }

-- ToString(IntentAction)
unfoldable pub action_to_string : IntentAction → Text
unfolding text
action_to_string activate = text "activate"
action_to_string set_value = text "set_value"
action_to_string select = text "select"
action_to_string create = text "create"
action_to_string delete = text "delete"
action_to_string move = text "move"
action_to_string IntentAction.unknown = text "unknown"

-- ToString(ExecutionStatus)
unfoldable pub status_to_string : ExecutionStatus → Text
unfolding text
status_to_string success = text "SUCCESS"
status_to_string failed = text "FAILED"
status_to_string partial = text "PARTIAL"

action_of_normalized : Text → IntentAction
unfolding text
action_of_normalized normalized =
    if text_eq normalized (text "activate")
    then activate
    else if text_eq normalized (text "set_value")
    then set_value
    else if text_eq normalized (text "select")
    then select
    else if text_eq normalized (text "create")
    then create
    else if text_eq normalized (text "delete")
    then delete
    else if text_eq normalized (text "move")
    then move
    else IntentAction.unknown

unfoldable pub intent_action_from_string : Text → IntentAction
unfolding action_of_normalized
intent_action_from_string value = action_of_normalized (normalize_ascii_lower value)

-- The outcome of validation: the source returns a bool and writes the message.
pub data Verdict : Type 0 where
  valid : Verdict
  invalid : Text → Verdict

-- if (condition) return fail(message)
abbrev pub fail_if : Bool → Text → Verdict → Verdict
fail_if true message rest = invalid message
fail_if false message rest = rest

-- The parameters of which a move of a UI element needs one.
unfoldable pub has_continuous_signal : Params → Bool
has_continuous_signal params =
    has params (text "move_x")
    || has params (text "move_y")
    || has params (text "aim_dx")
    || has params (text "aim_dy")
    || has params (text "look_dx")
    || has params (text "look_dy")
    || has params (text "fire")
    || has params (text "interact")

validate_move : Intent → Verdict → Verdict
validate_move i rest =
    if target_type_eq i.target.type file_system_path
    then fail_if (not (has i.params (text "path")) || not (has i.params (text "destination")))
        (text "filesystem move intent requires parameters 'path' and 'destination'") rest
    else if target_type_eq i.target.type ui_element
    then fail_if (not (has_continuous_signal i.params))
        (text "ui move intent requires at least one continuous control parameter") rest
    else invalid (text "move intent requires UI or filesystem target type")

validate_constraints : Constraints → Verdict
validate_constraints c =
    fail_if (ltb_ℤ c.max_retries (pos 0)) (text "maxRetries cannot be negative")
      (fail_if (leb_ℤ c.timeout_ms (pos 0)) (text "timeoutMs must be positive") valid)

-- Intent::IsValid
unfoldable pub is_valid : Intent → Verdict
unfolding validate_move validate_constraints
is_valid i = fail_if (action_eq i.action IntentAction.unknown) (text "Intent action is unknown") (
    fail_if (float_lt i.confidence zero_f || float_lt one_f i.confidence)
      (text "Intent confidence must be in range [0,1]")
      (fail_if (target_type_eq i.target.type TargetType.unknown)
        (text "Intent target type is unknown")
        (fail_if
          (target_type_eq i.target.type ui_element
            && is_empty i.target.label
            && is_empty i.target.automation_id)
          (text "UI intent requires target label or automation id")
          (fail_if (target_type_eq i.target.type file_system_path && is_empty i.target.path)
            (text "Filesystem intent requires a target path")
            (fail_if (action_eq i.action set_value && not (has i.params (text "value")))
              (text "set_value intent requires parameter 'value'")
              (if action_eq i.action move
                then validate_move i (validate_constraints i.constraints)
                else validate_constraints i.constraints))))))
