-- ===== src/Engine/FastPath/Bound.antt =====
-- The number of entries of the fast path.
use intent_execution_layer.Common.{
  ℕ, zero, suc, ◌+◌, ◌-◌, ◌≤◌, ◌≡◌, refl, Bool, not, ◌||◌, List, [], ◌∷◌, some, length, arith, inl,
  inr, Bool-cases, Option-cases,
}
use intent_execution_layer.Platform.{Platform}
use intent_execution_layer.Intent.{Intent}
use intent_execution_layer.Registry.{Adapter}
use intent_execution_layer.Engine.{
  FastPathKey, FastPathEntry, EngineState, Machine, build_fast_path_key,
}
use intent_execution_layer.Engine.FastPath.{
  has_no_snapshot, find_entry, erase_entry, put_entry, is_unusable, try_fast_path, older,
  take_oldest, evict, fast_path_limit, evicted_at_once, update_fast_path,
}

module _ {W : Type 0} where
  pub length-put_entry :
      (key : FastPathKey) (e : FastPathEntry W) (m : List (FastPathKey × FastPathEntry W))
      → length (put_entry key e m) ≤ length m + 1
  unfolding put_entry
  length-put_entry key e [] = omega arith
  length-put_entry key e ((k, f) ∷ m) = ground (arith, length-put_entry key e m)

  length-put_known_entry :
      (key : FastPathKey) (e f : FastPathEntry W) (m : List (FastPathKey × FastPathEntry W))
      → find_entry key m ≡ some f
      → length (put_entry key e m) ≡ length m
  unfolding put_entry find_entry
  length-put_known_entry key e f [] h = cc
  length-put_known_entry key e f ((k, g) ∷ m) h = ground (arith, length-put_known_entry key e f m)

  length-erase_entry :
      (key : FastPathKey) (m : List (FastPathKey × FastPathEntry W))
      → length (erase_entry key m) ≤ length m
  unfolding erase_entry
  length-erase_entry key [] = omega arith
  length-erase_entry key ((k, f) ∷ m) = ground (arith, length-erase_entry key m)

  length-take_oldest :
      (o : FastPathKey × FastPathEntry W) (m : List (FastPathKey × FastPathEntry W))
      → length (take_oldest o m).1 ≡ length m
  unfolding take_oldest
  length-take_oldest o [] = refl
  length-take_oldest o (e ∷ m) = elim (Bool-cases (older e o)) [
    | inl h ↦ rw (h, take_oldest) (omega (arith, length-take_oldest e m))
    | inr h ↦ rw (h, take_oldest) (omega (arith, length-take_oldest o m))
  ]

  length-evict :
      (n : ℕ) (m : List (FastPathKey × FastPathEntry W)) → length (evict n m) ≡ length m - n
  unfolding evict
  length-evict zero m = omega arith
  length-evict (suc n) [] = omega arith
  length-evict (suc n) (e ∷ m) =
      omega (arith, length-evict n (take_oldest e m).1, length-take_oldest e m)

  -- The fast path holds at most 256 entries: neither looking an intent up nor caching the adapter of
  -- an execution exceeds the limit, whatever the clock, the platform and the intent.
  pub fast_path_bound :
      (machine : Machine W) (platform : Platform) (i : Intent) (adapter : Adapter W)
      (successful : Bool) (s : EngineState W)
      → length s.fast_path ≤ fast_path_limit
      → (length (try_fast_path machine platform i s).1.fast_path ≤ fast_path_limit)
        × (length (update_fast_path machine platform i adapter successful s).fast_path
            ≤ fast_path_limit)
  unfolding try_fast_path update_fast_path
  fast_path_bound machine platform i adapter successful s h = (looked_up, cached)
    where
      looked_up : length (try_fast_path machine platform i s).1.fast_path ≤ fast_path_limit
      looked_up = elim (Bool-cases (has_no_snapshot i)) [
        | inl e ↦ rw (e, try_fast_path) h
        | inr e ↦ elim (Option-cases (find_entry (build_fast_path_key platform i) s.fast_path)) [
          | inl f ↦ rw (e, f, try_fast_path) h
          | inr (entry, f) ↦
              let (now, w) = machine.steady_now s.world in
              let erased = length-erase_entry (build_fast_path_key platform i) s.fast_path in
              let kept =
                length-put_known_entry (build_fast_path_key platform i)
                  (record entry { accessed_at = now }) entry s.fast_path f in
              elim (Bool-cases (is_unusable i now entry)) [
                | inl u ↦ rw (e, f, u, try_fast_path) (omega arith)
                | inr u ↦ rw (e, f, u, try_fast_path) (omega arith)
              ]
        ]
      ]

      cached :
          length (update_fast_path machine platform i adapter successful s).fast_path
          ≤ fast_path_limit
      cached =
          let now = (machine.steady_now s.world).0 in
          let entry : FastPathEntry W = record {
            adapter = adapter;
            snapshot_ticks = i.context.snapshot_ticks;
            snapshot_version = i.context.snapshot_version;
            cached_at = now;
            accessed_at = now;
          } in
          let more = length-put_entry (build_fast_path_key platform i) entry s.fast_path in
          let fewer =
            length-evict evicted_at_once
              (put_entry (build_fast_path_key platform i) entry s.fast_path) in
          elim (Bool-cases (not successful || has_no_snapshot i)) [
            | inl e ↦ rw e h
            | inr e ↦ rw e (ground arith)
          ]
