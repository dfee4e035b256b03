-- ===== src/Engine.antt =====
-- core/execution/include/ExecutionEngine.h and the parts of core/execution/src/ExecutionEngine.cpp
-- that the steps of an execution share: the state, the events and logs, the keys of the fast path.
-- `W` is what adapters, handlers and clocks act on. The mutex of the fast path is not modelled.
pub mod FastPath
pub mod Recovery
pub mod Execute
use intent_execution_layer.Common.{
  ℕ, zero, suc, ◌+◌, ◌*◌, ◌/◌, ◌%◌, ◌^◌, Bool, not, List, [], ◌∷◌, ◌++◌, map, Option, is_empty, ℤ,
  if◌then◌else◌, ◌==◌,
}
use intent_execution_layer.Text.{Text, text}
use intent_execution_layer.Text.Number.{to_decimal}
use intent_execution_layer.Float.{Float}
use intent_execution_layer.Platform.{Platform}
use intent_execution_layer.Intent.{Intent, IntentAction, TargetType, Params}
use intent_execution_layer.Event.{Event, EventType, EventPriority, EventBus, publish}
use intent_execution_layer.Registry.{Adapter, AdapterRegistry}

pub record FastPathKey : Type 0 where
  pub action : IntentAction
  pub target_type : TargetType
  pub target : Text
  pub params_hash : ℕ

pub record FastPathEntry (W : Type 0) : Type 0 where
  pub adapter : Adapter W
  pub snapshot_ticks : ℕ
  pub snapshot_version : ℕ
  pub cached_at : ℕ
  pub accessed_at : ℕ

-- ExecutionTrace of core/telemetry/include/Telemetry.h
pub record ExecutionTrace : Type 0 where
  pub trace_id : Text
  pub intent : Text
  pub target : Text
  pub adapter : Text
  pub duration_ms : ℤ
  pub status : Text
  pub message : Text
  pub verified : Bool
  pub attempts : ℕ
  pub snapshot_version : ℕ
  pub control_frame : ℕ
  pub timestamp : ℕ

-- What the engine tells the event bus, the telemetry and the logger, in order
pub data Effect : Type 0 where
  published : Event → Effect
  decision_logged : Text → IntentAction → Text → Text → List (Text × Float) → Bool → Effect
  failure_logged : Text → Text → Text → Effect
  execution_logged : ExecutionTrace → Effect
  logged : Text → Effect

pub record EngineState (W : Type 0) : Type 0 where
  pub world : W
  pub registry : AdapterRegistry W
  pub fast_path : List (FastPathKey × FastPathEntry W)
  pub next_trace_counter : ℕ
  pub effects : List Effect

-- The clocks of the machine, and the identifiers that it makes up
pub record Machine (W : Type 0) : Type 0 where
  pub steady_now : W → ℕ × W
  pub system_now : W → ℕ × W
  pub guid_string : W → Text × W

module _ {W : Type 0} where
  unfoldable pub emit : Effect → EngineState W → EngineState W
  emit effect s = record s { effects = s.effects ++ effect ∷ [] }

  unfoldable pub log_all : List Text → EngineState W → EngineState W
  unfolding emit
  log_all [] s = s
  log_all (message ∷ messages) s = log_all messages (emit (logged message) s)

  -- eventBus_.Publish(Event{type, "ExecutionEngine", message, system_clock::now(), priority})
  unfoldable pub publish_event :
      Machine W → EventBus W → EventType → Text → EventPriority → EngineState W → EngineState W
  unfolding emit log_all
  publish_event machine bus type message priority s =
      let (now, w) = machine.system_now s.world in
      let event : Event = record {
        type = type;
        source = text "ExecutionEngine";
        message = message;
        timestamp = now;
        priority = priority;
      } in
      let (w', messages) = publish event now bus w in
      log_all messages (emit (published event) (record s { world = w' }))

  -- Telemetry::NewTraceId; the counter is 64 bits wide.
  unfoldable pub new_trace_id : Machine W → EngineState W → Text × EngineState W
  new_trace_id machine s =
      let (guid, w) = machine.guid_string s.world in
      let n = (s.next_trace_counter + 1) % 2 ^ 64 in
      (guid ++ text "-" ++ to_decimal n, record s { world = w; next_trace_counter = n })

-- PrimaryTargetText
unfoldable pub primary_target_text : Intent → Text
primary_target_text i =
    if not (is_empty i.target.label)
    then i.target.label
    else if not (is_empty i.target.automation_id)
    then i.target.automation_id
    else i.target.path

-- The lowest `n` bits of the exclusive or
unfoldable pub xor_bits : ℕ → ℕ → ℕ → ℕ
xor_bits zero a b = 0
xor_bits (suc n) a b = (a + b) % 2 + 2 * xor_bits n (a / 2) (b / 2)

-- HashCombineInPlace, on 64 bits
unfoldable pub hash_combine : ℕ → ℕ → ℕ
hash_combine seed value =
    xor_bits 64 seed
      ((value + 0x9e37_79b9_7f4a_7c15 + (seed * 2 ^ 6) % 2 ^ 64 + seed / 2 ^ 2) % 2 ^ 64)

hash_entries : Platform → List (Text × Text) → ℕ → ℕ
hash_entries platform [] seed = seed
hash_entries platform ((key, value) ∷ entries) seed =
    hash_entries platform entries
      (hash_combine (hash_combine seed (platform.hash_string key)) (platform.hash_wstring value))

-- HashParams
unfoldable pub hash_params : Platform → Params → ℕ
unfolding hash_entries
hash_params platform params = hash_entries platform params.values 0x811c_9dc5

-- BuildFastPathKey
unfoldable pub build_fast_path_key : Platform → Intent → FastPathKey
build_fast_path_key platform i = record {
  action = i.action;
  target_type = i.target.type;
  target = map platform.towlower (primary_target_text i);
  params_hash = hash_params platform i.params;
}
