-- ===== src/Intents.antt =====
-- core/intent/include/IntentRegistry.h and core/intent/src/IntentRegistry.cpp: the intents that the
-- adapters offer for the last snapshot, and the cache of resolutions. `W` is what adapters, clocks and
-- the event bus act on, and `G` is the capability graph. The locks are not modelled: each operation
-- runs as if it were alone.
pub mod Refresh
pub mod Resolve
use intent_execution_layer.Common.{
  ℕ, ◌+◌, ◌*◌, ◌/◌, ◌%◌, ◌^◌, Bool, true, false, not, ◌&&◌, ◌||◌, List, [], ◌∷◌, ◌++◌, Option, none,
  some, map, if◌then◌else◌, ltb, ◌==◌, is_empty, length, drop, zero, suc,
}
use intent_execution_layer.Common.Sort.{sort}
use intent_execution_layer.Outcome.{Outcome}
use intent_execution_layer.Text.{Text, text, text_eq, text_lt, normalize_ascii_lower}
use intent_execution_layer.Text.Dict.{insert}
use intent_execution_layer.Float.{Float, float_eq, float_lt}
use intent_execution_layer.Platform.{Platform}
use intent_execution_layer.Intent.{
  Intent, IntentAction, Point, create, delete, move, ui_element, file_system_path, TargetType,
  action_eq, target_type_eq, action_to_string,
}
use intent_execution_layer.Event.{Event}
use intent_execution_layer.Ui.{UiElement}
use intent_execution_layer.Engine.{xor_bits, primary_target_text}
use intent_execution_layer.Resolver.{ResolutionResult, Scoring}

-- The fields of ObserverSnapshot that the registry and the contract read
pub record RegistrySnapshot : Type 0 where
  pub valid : Bool
  pub sequence : ℕ
  pub cursor_position : Point
  pub ui_elements : List UiElement

-- An adapter as the registry sees it; an error is the message of a std::exception.
pub record CapabilityAdapter (W G : Type 0) : Type 0 where
  pub name : Text
  pub get_capabilities : RegistrySnapshot → G → W → Outcome (List Intent) × W

pub record ResolutionCacheKey : Type 0 where
  pub action : IntentAction
  pub target : Text
  pub snapshot_sequence : ℕ
  pub cache_epoch : ℕ

pub record IntentsState (W G : Type 0) : Type 0 where
  pub world : W
  pub last_snapshot : RegistrySnapshot
  pub graph : G
  pub intents : List Intent
  pub recency_by_intent_id : List (Text × ℕ)
  pub resolution_cache : List (ResolutionCacheKey × ResolutionResult)
  pub cache_epoch : ℕ

-- What the registry calls: the observer, the graph builder, the adapters, the event bus, the telemetry
-- and the logger, and the resolver's arithmetic and ticks
pub record RegistryPort (W G : Type 0) : Type 0 where
  pub capture : W → RegistrySnapshot × W
  pub build_graph : RegistrySnapshot → Outcome G
  pub adapters : List (CapabilityAdapter W G)
  pub publish : Event → W → W
  pub system_now : W → ℕ × W
  pub steady_now : W → ℕ × W
  pub log : Text → W → W
  pub log_resolution_timing : ℕ → W → W
  pub scoring : Scoring W

-- The order of the registry: by the action's name, the confidence from high to low, the target
unfoldable pub intent_less : Intent → Intent → Bool
intent_less left right =
    if not (action_eq left.action right.action)
    then text_lt (action_to_string left.action) (action_to_string right.action)
    else if not (float_eq left.confidence right.confidence)
    then float_lt right.confidence left.confidence
    else text_lt (primary_target_text left) (primary_target_text right)

-- The hexadecimal digits that a stream prints; sixteen are enough for 64 bits.
unfoldable pub hex_of : ℕ → ℕ → Text → Text
hex_of zero value tail = tail
hex_of (suc n) value tail =
    let d = value % 16 in
    let digit = if ltb d 10 then b'0' + d else b'W' + d in
    let rest = hex_of n (value / 16) (digit ∷ tail) in
    if value / 16 == 0 then digit ∷ tail else rest

-- BuildIntentId
unfoldable pub build_intent_id : Platform → Intent → Text
unfolding hex_of
build_intent_id platform i =
    let seed =
      xor_bits 64
        (xor_bits 64 (platform.hash_string (action_to_string i.action))
          ((platform.hash_wstring (primary_target_text i) * 2) % 2 ^ 64))
        ((platform.hash_string i.source * 4) % 2 ^ 64) in
    text "intent-" ++ hex_of 16 seed []

-- An intent of an adapter with an id
unfoldable pub with_id : Platform → Intent → Intent
with_id platform i = if is_empty i.id then record i { id = build_intent_id platform i } else i

-- In a full refresh, a target with no type gets one too.
unfoldable pub with_target_type : Intent → Intent
with_target_type i =
    if target_type_eq i.target.type TargetType.unknown
    then record i {
      target = record i.target {
        type =
            if action_eq i.action create || action_eq i.action delete || action_eq i.action move
            then file_system_path
            else ui_element;
      };
    }
    else i

pub from_source : Text → Intent → Bool
from_source source i = text_eq (normalize_ascii_lower i.source) (normalize_ascii_lower source)

-- The loop of ReplaceIntentsBySource
unfoldable pub retained : Text → List Intent → List Intent
unfolding from_source
retained source [] = []
retained source (i ∷ intents) =
    let rest = retained source intents in if from_source source i then rest else i ∷ rest

-- ReplaceIntentsBySource
unfoldable pub replace_intents_by_source : Text → List Intent → List Intent → List Intent
replace_intents_by_source source replacement intents =
    sort intent_less (retained source intents ++ replacement)

module _ {W G : Type 0} where
  -- ++cacheEpoch_, and the cache is emptied
  unfoldable pub next_epoch : IntentsState W G → IntentsState W G
  next_epoch s = record s { cache_epoch = (s.cache_epoch + 1) % 2 ^ 64; resolution_cache = [] }

  -- RecordInteraction
  unfoldable pub record_interaction : RegistryPort W G → Text → IntentsState W G → IntentsState W G
  record_interaction port intent_id s = elim (is_empty intent_id) [
    | true ↦ s
    | false ↦
        let (now, w) = port.scoring.tick_count s.world in
        next_epoch (record s {
          world = w;
          recency_by_intent_id = insert intent_id now s.recency_by_intent_id;
        })
  ]

-- The loop of FindById
unfoldable pub find_by_id : Text → List Intent → Option Intent
find_by_id id [] = none
find_by_id id (i ∷ intents) = if text_eq i.id id then some i else find_by_id id intents
