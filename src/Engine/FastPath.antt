-- ===== src/Engine/FastPath.antt =====
-- TryFastPath and UpdateFastPath of core/execution/src/ExecutionEngine.cpp: the cache of adapters by
-- the shape of an intent. The unordered map is a list; where the source takes the first of several
-- oldest entries in the order of its buckets, the model takes the first of the list.
pub mod Bound
pub mod Sound
use intent_execution_layer.Common.{
  ℕ, zero, suc, Bool, true, false, not, ◌&&◌, ◌||◌, List, [], ◌∷◌, ◌++◌, Option, none, some,
  if◌then◌else◌, ltb, leb, ◌==◌, length,
}
use intent_execution_layer.Text.{Text, text_eq}
use intent_execution_layer.Platform.{Platform}
use intent_execution_layer.Intent.{Intent, action_eq, target_type_eq}
use intent_execution_layer.Execution.{elapsed_ms}
use intent_execution_layer.Registry.{Adapter, AdapterDecision}
use intent_execution_layer.Engine.{
  FastPathKey, FastPathEntry, EngineState, Machine, build_fast_path_key,
}

-- FastPathKey::operator==
unfoldable pub key_eq : FastPathKey → FastPathKey → Bool
key_eq a b =
    action_eq a.action b.action
    && target_type_eq a.target_type b.target_type
    && text_eq a.target b.target
    && a.params_hash == b.params_hash

-- The intent carries no snapshot to compare with.
unfoldable pub has_no_snapshot : Intent → Bool
has_no_snapshot i = i.context.snapshot_ticks == 0 && i.context.snapshot_version == 0

-- The size that starts an eviction, and the number of entries it takes
abbrev pub fast_path_limit : ℕ
fast_path_limit = 256

abbrev pub evicted_at_once : ℕ
evicted_at_once = 64

module _ {W : Type 0} where
  unfoldable pub find_entry :
      FastPathKey → List (FastPathKey × FastPathEntry W) → Option (FastPathEntry W)
  find_entry key [] = none
  find_entry key ((k, e) ∷ entries) = if key_eq k key then some e else find_entry key entries

  unfoldable pub erase_entry :
      FastPathKey → List (FastPathKey × FastPathEntry W) → List (FastPathKey × FastPathEntry W)
  erase_entry key [] = []
  erase_entry key ((k, e) ∷ entries) =
      if key_eq k key then entries else (k, e) ∷ erase_entry key entries

  -- fastPath_[key] = entry
  unfoldable pub put_entry :
      FastPathKey
      → FastPathEntry W
      → List (FastPathKey × FastPathEntry W)
      → List (FastPathKey × FastPathEntry W)
  put_entry key entry [] = (key, entry) ∷ []
  put_entry key entry ((k, e) ∷ entries) =
      if key_eq k key then (k, entry) ∷ entries else (k, e) ∷ put_entry key entry entries

  -- The entry is too old, of another snapshot, or for an adapter that cannot execute the intent.
  unfoldable pub is_unusable : Intent → ℕ → FastPathEntry W → Bool
  is_unusable i now entry =
      ltb 1000 (elapsed_ms entry.cached_at now)
      || not (i.context.snapshot_ticks == 0)
        && not (entry.snapshot_ticks == i.context.snapshot_ticks)
      || not (i.context.snapshot_version == 0)
        && not (entry.snapshot_version == i.context.snapshot_version)
      || not (entry.adapter.can_execute i)

  -- TryFastPath: the adapter and the state after
  unfoldable pub try_fast_path :
      Machine W → Platform → Intent → EngineState W → Option (Adapter W) × EngineState W
  try_fast_path machine platform i s =
      let key = build_fast_path_key platform i in
      elim (has_no_snapshot i) [
        | true ↦ (none, s)
        | false ↦ elim (find_entry key s.fast_path) [
          | none ↦ (none, s)
          | some entry ↦
              let (now, w) = machine.steady_now s.world in
              if is_unusable i now entry
              then (none, record s { world = w; fast_path = erase_entry key s.fast_path })
              else (
                some entry.adapter,
                record s {
                  world = w;
                  fast_path = put_entry key (record entry { accessed_at = now }) s.fast_path;
                },
              )
        ]
      ]

  -- The loop that looks for the oldest entry, and the erase of it
  older : FastPathKey × FastPathEntry W → FastPathKey × FastPathEntry W → Bool
  older a b = ltb a.1.accessed_at b.1.accessed_at

  pub take_oldest :
      FastPathKey × FastPathEntry W
      → List (FastPathKey × FastPathEntry W)
      → (FastPathKey × FastPathEntry W) × List (FastPathKey × FastPathEntry W)
  unfolding older
  take_oldest oldest [] = (oldest, [])
  take_oldest oldest (entry ∷ entries) = elim (older entry oldest) [
    | true ↦ let (found, rest) = take_oldest entry entries in (found, oldest ∷ rest)
    | false ↦ let (found, rest) = take_oldest oldest entries in (found, entry ∷ rest)
  ]

  unfoldable pub evict :
      ℕ → List (FastPathKey × FastPathEntry W) → List (FastPathKey × FastPathEntry W)
  unfolding take_oldest
  evict zero entries = entries
  evict (suc n) [] = []
  evict (suc n) (entry ∷ entries) = evict n (take_oldest entry entries).1

  unfoldable pub update_fast_path :
      Machine W → Platform → Intent → Adapter W → Bool → EngineState W → EngineState W
  update_fast_path machine platform i adapter successful s =
      if not successful || has_no_snapshot i
      then s
      else (let (now, w) = machine.steady_now s.world in
          let entries =
            put_entry (build_fast_path_key platform i)
              (record {
                adapter = adapter;
                snapshot_ticks = i.context.snapshot_ticks;
                snapshot_version = i.context.snapshot_version;
                cached_at = now;
                accessed_at = now;
              })
              s.fast_path in
          record s {
            world = w;
            fast_path =
                if leb (length entries) fast_path_limit
                then entries
                else evict evicted_at_once entries;
          })
