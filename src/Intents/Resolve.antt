-- ===== src/Intents/Resolve.antt =====
-- Resolve of the intent registry (core/intent/src/IntentRegistry.cpp), with its cache. The order of
-- an unordered map is not specified: the entries that are evicted are the first of the list here.
pub mod Cache
use intent_execution_layer.Common.{
  ℕ, ◌+◌, Bool, true, false, not, ◌&&◌, List, [], ◌∷◌, Option, none, some, map, if◌then◌else◌, ltb,
  ◌==◌, length, drop,
}
use intent_execution_layer.Text.{Text, text, text_eq}
use intent_execution_layer.Float.{Float}
use intent_execution_layer.Intent.{IntentAction, action_eq}
use intent_execution_layer.Execution.{elapsed_ms}
use intent_execution_layer.Event.{EventPriority, ambiguity_detected}
use intent_execution_layer.Resolver.{AmbiguityError, ResolutionResult, resolve}
use intent_execution_layer.Intents.{ResolutionCacheKey, IntentsState, RegistryPort}
use intent_execution_layer.Intents.Refresh.{publish_event}

-- The default ambiguity threshold, 0.08F
abbrev pub default_threshold : Float
default_threshold = 0x3da3_d70a

abbrev pub max_cached : ℕ
max_cached = 512

unfoldable pub key_eq : ResolutionCacheKey → ResolutionCacheKey → Bool
key_eq a b =
    action_eq a.action b.action
    && text_eq a.target b.target
    && a.snapshot_sequence == b.snapshot_sequence
    && a.cache_epoch == b.cache_epoch

-- resolutionCache_.find(key)
unfoldable pub find_cached :
    ResolutionCacheKey → List (ResolutionCacheKey × ResolutionResult) → Option ResolutionResult
find_cached key [] = none
find_cached key ((k, r) ∷ cache) = if key_eq k key then some r else find_cached key cache

-- resolutionCache_[key] = result
unfoldable pub put_cached :
    ResolutionCacheKey
    → ResolutionResult
    → List (ResolutionCacheKey × ResolutionResult)
    → List (ResolutionCacheKey × ResolutionResult)
put_cached key result [] = (key, result) ∷ []
put_cached key result ((k, r) ∷ cache) =
    if key_eq k key then (k, result) ∷ cache else (k, r) ∷ put_cached key result cache

-- The entries that are left when there are more than 512
unfoldable pub evict :
    List (ResolutionCacheKey × ResolutionResult) → List (ResolutionCacheKey × ResolutionResult)
evict cache = if ltb max_cached (length cache) then drop 128 cache else cache

module _ {W G : Type 0} (port : RegistryPort W G) where
  -- The key of a request in this state; NormalizeTarget is Lower.
  unfoldable pub key_of : IntentAction → Text → IntentsState W G → ResolutionCacheKey
  key_of action target s = record {
    action = action;
    target = map port.scoring.platform.towlower target;
    snapshot_sequence = s.last_snapshot.sequence;
    cache_epoch = s.cache_epoch;
  }

  -- telemetry_.LogResolutionTiming of the time since the start
  unfoldable pub time_resolution : ℕ → W → W
  time_resolution start w =
      let (now, w') = port.steady_now w in port.log_resolution_timing (elapsed_ms start now) w'

  -- The section that stores a result, if no refresh came between
  unfoldable pub store_resolution :
      ResolutionCacheKey → ResolutionResult → IntentsState W G → IntentsState W G
  store_resolution key result s =
      if key.snapshot_sequence == s.last_snapshot.sequence && key.cache_epoch == s.cache_epoch
      then record s { resolution_cache = evict (put_cached key result s.resolution_cache) }
      else s

  unfoldable pub announce_ambiguity : Option AmbiguityError → W → W
  announce_ambiguity none w = w
  announce_ambiguity (some ambiguity) w =
      publish_event port ambiguity_detected ambiguity.message EventPriority.high w

  -- Resolve
  unfoldable pub resolve_target :
      IntentAction → Text → IntentsState W G → ResolutionResult × IntentsState W G
  resolve_target action target s =
      let (start, w1) = port.steady_now s.world in
      let key = key_of action target s in
      elim (find_cached key s.resolution_cache) [
        | some cached ↦ (cached, record s { world = time_resolution start w1 })
        | none ↦
            let (result, w2) =
              resolve port.scoring action target s.intents s.last_snapshot.cursor_position
                s.recency_by_intent_id default_threshold w1 in
            let stored = store_resolution key result (record s { world = w2 }) in
            (
              result,
              record stored {
                world = time_resolution start (announce_ambiguity result.ambiguity stored.world);
              },
            )
      ]
