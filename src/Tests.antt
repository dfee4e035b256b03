-- ===== src/Tests.antt =====
-- Concrete intents, adapters, clocks and platforms, on which the modules below run the model.
mod EngineRuns
mod RegistryRuns
mod SequenceRuns
mod IntentRuns
mod EventRuns
mod InteractionRuns
mod ContractRuns
pub mod CapabilityRuns
mod ControlRuns
mod ResolverRuns
use intent_execution_layer.Common.{
  ℕ, ◌+◌, Bool, true, false, List, [], ◌∷◌, ◌++◌, some, none, ℤ, pos, length,
}
use intent_execution_layer.Text.{Text, text}
use intent_execution_layer.Float.{FloatOps, one_f, zero_f}
use intent_execution_layer.Platform.{Platform}
use intent_execution_layer.Double.{DoubleOps, one_d}
use intent_execution_layer.Ui.{UiElement, button, window}
use intent_execution_layer.Intent.{
  Intent, IntentAction, TargetType, ExecutionStatus, activate, ui_element, success, failed,
}
use intent_execution_layer.Execution.{ExecutionResult}
use intent_execution_layer.Event.{EventBus}
use intent_execution_layer.Registry.{Adapter, AdapterRuntime, AdapterRegistry}
use intent_execution_layer.Engine.{Machine, EngineState}
use intent_execution_layer.Engine.Execute.{Surroundings}

-- Wide characters are narrow ones, and every number is 1.
abbrev pub ascii_platform : Platform
ascii_platform = record {
  wide_char_to_multi_byte = λ s. s ++ 0 ∷ [];
  multi_byte_to_wide_char = λ s. s ++ 0 ∷ [];
  towlower = λ c. c;
  stof = λ s. some one_f;
  float_to_string = λ x. text "1";
  hash_string = λ s. length s;
  hash_wstring = λ s. length s;
}

abbrev pub rough_ops : FloatOps
rough_ops = record {
  add = λ x y. x;
  sub = λ x y. x;
  mul = λ x y. y;
  div = λ x y. x;
  exp = λ x. one_f;
  of_int = λ n. one_f;
  seconds_of_ns = λ n. zero_f;
}

-- The world is the time in nanoseconds; reading a clock takes one.
abbrev pub steady_machine : Machine ℕ
steady_machine = record {
  steady_now = λ w. (w, w + 1);
  system_now = λ w. (w, w + 1);
  guid_string = λ w. (text "guid", w + 1);
}

abbrev pub silent_bus : EventBus ℕ
silent_bus = record { subscriptions = []; next_subscription_id = 1 }

abbrev pub quiet : Surroundings ℕ
quiet = record {
  machine = steady_machine;
  bus = silent_bus;
  platform = ascii_platform;
  ops = rough_ops;
}

abbrev pub click : Intent
click = record {
  id = text "i-1";
  name = text "click";
  action = activate;
  target = record {
    type = ui_element;
    label = text "OK";
    automation_id = [];
    path = [];
    node_id = [];
    hierarchy_depth = pos 0;
    screen_center = record { x = pos 0; y = pos 0 };
    focused = false;
  };
  params = record { values = [] };
  context = record {
    application = [];
    window_title = [];
    working_directory = [];
    cursor = record { x = pos 0; y = pos 0 };
    active_window = 0;
    snapshot_ticks = 7;
    snapshot_version = 7;
    control_frame = 0;
  };
  constraints = record {
    timeout_ms = pos 2500;
    max_retries = pos 1;
    requires_verification = true;
    allow_fallback = true;
  };
  confidence = one_f;
  source = text "api";
}

abbrev pub nameless : Intent
nameless = record click { action = IntentAction.unknown }

abbrev pub result_of : ExecutionStatus → ExecutionResult
result_of status = record {
  status = status;
  verified = true;
  used_fallback = false;
  method = [];
  message = text "done";
  duration = pos 0;
  attempts = 0;
  trace_id = [];
}

-- An adapter that takes every intent, needs five milliseconds, and always ends in the same way
abbrev pub adapter_that : ExecutionStatus → ℕ → Text → Adapter ℕ
adapter_that status address name = record {
  address = address;
  name = name;
  can_execute = λ i. true;
  execute = λ i w. (result_of status, w + 5_000_000);
  score = record { reliability = one_f; latency = one_f; confidence = one_f };
  metadata = record {
    name = name;
    version = text "1.0";
    priority = pos address;
    supported_actions = text "activate" ∷ [];
  };
}

abbrev pub broken : Adapter ℕ
broken = adapter_that failed 1 (text "broken")

abbrev pub working : Adapter ℕ
working = adapter_that success 2 (text "working")

abbrev pub fresh_runtime : AdapterRuntime
fresh_runtime = record {
  reliability_ema = one_f;
  latency_ema_ms = one_f;
  confidence = one_f;
  success_count = 0;
  failure_count = 0;
  registration_order = 0;
  last_updated = 0;
}

abbrev pub two_adapters : AdapterRegistry ℕ
two_adapters = record {
  adapters = broken ∷ working ∷ [];
  runtime_by_adapter =
      (1, fresh_runtime) ∷ (2, record fresh_runtime { registration_order = 1 }) ∷ [];
}

abbrev pub idle : EngineState ℕ
idle = record {
  world = 0;
  registry = two_adapters;
  fast_path = [];
  next_trace_counter = 0;
  effects = [];
}

abbrev pub rough_doubles : DoubleOps
rough_doubles = record {
  add = λ x y. x;
  sub = λ x y. x;
  mul = λ x y. y;
  div = λ x y. x;
  sqrt = λ x. x;
  of_int = λ n. one_d;
  to_float = λ x. one_f;
  to_string = λ x. text "1";
}

abbrev pub frame_window : UiElement
frame_window = record {
  id = text "w";
  parent_id = [];
  name = text "Main";
  automation_id = [];
  class_name = text "Frame";
  control_type = window;
  bounds = record { left = pos 0; top = pos 0; right = pos 100; bottom = pos 50 };
  depth = pos 0;
  is_enabled = true;
  is_offscreen = false;
  is_visible = true;
  is_collapsed = false;
  is_hidden = false;
  is_focused = true;
  supports_invoke = false;
  supports_value = false;
  supports_selection = false;
  access_key = [];
  accelerator_key = [];
  value = [];
  children = [];
  last_interaction_ticks = 0;
}

abbrev pub ok_button : UiElement
ok_button = record frame_window {
  id = text "b";
  parent_id = text "w";
  name = text "OK";
  class_name = text "Button";
  control_type = button;
  depth = pos 1;
  supports_invoke = true;
  accelerator_key = text "Ctrl+O";
}
