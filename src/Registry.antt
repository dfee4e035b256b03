-- ===== src/Registry.antt =====
-- The adapters (core/execution/include/Adapter.h) and the AdapterRegistry of
-- core/execution/src/Adapter.cpp: registration, scores, selection and the outcome statistics.
pub mod Scores
pub mod Resolve
pub mod Record
pub mod Metadata
use intent_execution_layer.Common.{
  ℕ, suc, ◌+◌, ◌-◌, Bool, true, false, not, ◌&&◌, ◌||◌, List, [], ◌∷◌, ◌++◌, Option, none, some,
  if◌then◌else◌, ltb, ◌==◌, length, ℤ, pos, ltb_ℤ, is_empty,
}
use intent_execution_layer.Common.Sort.{sort}
use intent_execution_layer.Text.{Text, text_lt}
use intent_execution_layer.Float.{Float, float_lt, zero_f, one_f}
use intent_execution_layer.Intent.{Intent}
use intent_execution_layer.Execution.{ExecutionResult}

pub record AdapterScore : Type 0 where
  pub reliability : Float
  pub latency : Float
  pub confidence : Float

pub record AdapterMetadata : Type 0 where
  pub name : Text
  pub version : Text
  pub priority : ℤ
  pub supported_actions : List Text

-- The virtual functions of an adapter, and the address by which the registry knows it. Execute acts
-- on the world; the others are const and answer from the adapter and the intent alone.
pub record Adapter (W : Type 0) : Type 0 where
  pub address : ℕ
  pub name : Text
  pub can_execute : Intent → Bool
  pub execute : Intent → W → ExecutionResult × W
  pub score : AdapterScore
  pub metadata : AdapterMetadata

pub record AdapterDecisionCandidate : Type 0 where
  pub adapter_name : Text
  pub score : AdapterScore
  pub final_score : Float
  pub matched : Bool

pub record AdapterDecision : Type 0 where
  pub selected_adapter : Text
  pub candidates : List AdapterDecisionCandidate
  pub used_fast_path : Bool

pub record AdapterRuntime : Type 0 where
  pub reliability_ema : Float
  pub latency_ema_ms : Float
  pub confidence : Float
  pub success_count : ℕ
  pub failure_count : ℕ
  pub registration_order : ℕ
  pub last_updated : ℕ

-- The adapters in the order of registration, and the statistics by address
pub record AdapterRegistry (W : Type 0) : Type 0 where
  pub adapters : List (Adapter W)
  pub runtime_by_adapter : List (ℕ × AdapterRuntime)

-- runtimeByAdapter_.find(adapter)
unfoldable pub find_runtime : ℕ → List (ℕ × AdapterRuntime) → Option AdapterRuntime
find_runtime address [] = none
find_runtime address ((a, r) ∷ rest) = if a == address then some r else find_runtime address rest

-- runtimeByAdapter_[adapter] = runtime
unfoldable pub put_runtime :
    ℕ → AdapterRuntime → List (ℕ × AdapterRuntime) → List (ℕ × AdapterRuntime)
put_runtime address runtime [] = (address, runtime) ∷ []
put_runtime address runtime ((a, r) ∷ rest) =
    if a == address then (a, runtime) ∷ rest else (a, r) ∷ put_runtime address runtime rest

-- Clamp01
unfoldable pub clamp_01 : Float → Float
clamp_01 value =
    if float_lt value zero_f then zero_f else if float_lt one_f value then one_f else value

-- ClampMin
unfoldable pub clamp_min : Float → Float → Float
clamp_min value minimum = if float_lt value minimum then minimum else value

-- RegisterAdapter, at the time that the clock shows; `none` is a null pointer
unfoldable pub register_adapter :
    {W : Type 0} → ℕ → Option (Adapter W) → AdapterRegistry W → AdapterRegistry W
register_adapter now none registry = registry
register_adapter now (some adapter) registry = record {
  adapters = registry.adapters ++ adapter ∷ [];
  runtime_by_adapter =
      put_runtime adapter.address
        (record {
          reliability_ema = clamp_01 adapter.score.reliability;
          latency_ema_ms = clamp_min adapter.score.latency one_f;
          confidence = clamp_01 adapter.score.confidence;
          success_count = 0;
          failure_count = 0;
          registration_order = length registry.adapters;
          last_updated = now;
        })
        registry.runtime_by_adapter;
}

-- The order of ListMetadata: by priority, then by name
unfoldable pub metadata_less : AdapterMetadata → AdapterMetadata → Bool
metadata_less left right =
    ltb_ℤ left.priority right.priority
    || not (ltb_ℤ right.priority left.priority) && text_lt left.name right.name

metadata_of : {W : Type 0} → List (Adapter W) → List AdapterMetadata
metadata_of [] = []
metadata_of (a ∷ adapters) = a.metadata ∷ metadata_of adapters

unfoldable pub list_metadata : {W : Type 0} → AdapterRegistry W → List AdapterMetadata
unfolding metadata_of
list_metadata registry = sort metadata_less (metadata_of registry.adapters)
