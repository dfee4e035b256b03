-- ===== src/Engine/FastPath/Sound.antt =====
-- What the fast path answers.
use intent_execution_layer.Common.{
  ℕ, ◌<◌, ◌≤◌, ◌≡◌, refl, true, false, List, [], ◌∷◌, some, leb, length, arith, inl, inr,
  Bool-cases, Option-cases, ◌⊎◌,
}
use intent_execution_layer.Text.Equality.{text_eq_refl}
use intent_execution_layer.Platform.{Platform}
use intent_execution_layer.Intent.{Intent}
use intent_execution_layer.Execution.{elapsed_ms}
use intent_execution_layer.Registry.{Adapter}
use intent_execution_layer.Engine.{
  FastPathKey, FastPathEntry, EngineState, Machine, build_fast_path_key,
}
use intent_execution_layer.Engine.FastPath.{
  key_eq, has_no_snapshot, find_entry, put_entry, is_unusable, try_fast_path, fast_path_limit,
  update_fast_path,
}
use intent_execution_layer.Engine.FastPath.Bound.{length-put_entry}

key_eq_refl : (k : FastPathKey) → key_eq k k ≡ true
unfolding key_eq
key_eq_refl k = ground (arith, text_eq_refl k.target)

module _ {W : Type 0} where
  -- The cache entry serves the intent at the time: it was made at most a second ago, its adapter
  -- accepts the intent, and it is of the snapshot that the intent names.
  pub record Serves (i : Intent) (now : ℕ) (e : FastPathEntry W) : Type 0 where
    pub fresh : elapsed_ms e.cached_at now ≤ 1000
    pub accepts : e.adapter.can_execute i ≡ true
    pub same_ticks : (i.context.snapshot_ticks ≡ 0) ⊎ (e.snapshot_ticks ≡ i.context.snapshot_ticks)
    pub same_version :
        (i.context.snapshot_version ≡ 0) ⊎ (e.snapshot_version ≡ i.context.snapshot_version)

  usable-Serves :
      (i : Intent) (now : ℕ) (e : FastPathEntry W) → is_unusable i now e ≡ false → Serves i now e
  unfolding is_unusable
  usable-Serves i now e h = record {
    fresh = ground arith;
    accepts = ground arith;
    same_ticks = ground arith;
    same_version = ground arith;
  }

  -- An adapter that the fast path answers is that of a cached entry for the intent's key which serves
  -- the intent at the time of the look-up, and the intent names a snapshot.
  pub try_fast_path_sound :
      (machine : Machine W) (platform : Platform) (i : Intent) (s : EngineState W) (a : Adapter W)
      → (try_fast_path machine platform i s).0 ≡ some a
      → (e : FastPathEntry W) × (find_entry (build_fast_path_key platform i) s.fast_path ≡ some e)
        × (e.adapter ≡ a)
        × Serves i (machine.steady_now s.world).0 e
        × (has_no_snapshot i ≡ false)
  unfolding try_fast_path find_entry
  try_fast_path_sound machine platform i s a = elim (Bool-cases (has_no_snapshot i)) [
    | inl e ↦ rw (e, try_fast_path) (λ h. cc)
    | inr e ↦ elim (Option-cases (find_entry (build_fast_path_key platform i) s.fast_path)) [
      | inl f ↦ rw (e, f, try_fast_path) (λ h. cc)
      | inr (entry, f) ↦
          let now = (machine.steady_now s.world).0 in
          elim (Bool-cases (is_unusable i now entry)) [
            | inl u ↦ rw (e, f, u, try_fast_path) (λ h. cc)
            | inr u ↦
                rw (e, f, u, try_fast_path)
                  (λ h. (entry, refl, cc, usable-Serves i now entry u, refl))
          ]
    ]
  ]

  find_entry-put_entry :
      (k : FastPathKey) (e : FastPathEntry W) (m : List (FastPathKey × FastPathEntry W))
      → find_entry k (put_entry k e m) ≡ some e
  unfolding find_entry put_entry
  find_entry-put_entry k e [] = rw (key_eq_refl k) refl
  find_entry-put_entry k e ((l, f) ∷ m) = ground (arith, find_entry-put_entry k e m)

  try_fast_path_hit :
      (machine : Machine W) (platform : Platform) (i : Intent) (s : EngineState W)
      (e : FastPathEntry W)
      → has_no_snapshot i ≡ false
      → find_entry (build_fast_path_key platform i) s.fast_path ≡ some e
      → is_unusable i (machine.steady_now s.world).0 e ≡ false
      → (try_fast_path machine platform i s).0 ≡ some e.adapter
  unfolding try_fast_path
  try_fast_path_hit machine platform i s e h f u = rw (h, f, u, try_fast_path) refl

  new_entry_usable :
      (i : Intent) (now : ℕ) (e : FastPathEntry W)
      → e.adapter.can_execute i ≡ true
      → e.snapshot_ticks ≡ i.context.snapshot_ticks
      → e.snapshot_version ≡ i.context.snapshot_version
      → elapsed_ms e.cached_at now ≤ 1000
      → is_unusable i now e ≡ false
  unfolding is_unusable
  new_entry_usable i now e accepts ticks version soon = ground arith

  -- A successful execution of an intent that names a snapshot is remembered: as long as the fast path
  -- does not have to evict, looking the same intent up within a second answers the adapter that was
  -- cached, if it accepts the intent.
  pub try_fast_path-update_fast_path :
      (machine : Machine W) (platform : Platform) (i : Intent) (adapter : Adapter W)
      (s : EngineState W)
      → has_no_snapshot i ≡ false
      → adapter.can_execute i ≡ true
      → length s.fast_path < fast_path_limit
      → elapsed_ms
          (machine.steady_now s.world).0
          (machine.steady_now (machine.steady_now s.world).1).0
        ≤ 1000
      → (try_fast_path machine platform i (update_fast_path machine platform i adapter true s)).0
        ≡ some adapter
  unfolding update_fast_path
  try_fast_path-update_fast_path machine platform i adapter s h accepts room soon =
      let key = build_fast_path_key platform i in
      let now = (machine.steady_now s.world).0 in
      let entry : FastPathEntry W = record {
        adapter = adapter;
        snapshot_ticks = i.context.snapshot_ticks;
        snapshot_version = i.context.snapshot_version;
        cached_at = now;
        accessed_at = now;
      } in
      let entries = put_entry key entry s.fast_path in
      let (_, after) = machine.steady_now s.world in
      let fits : leb (length entries) fast_path_limit ≡ true =
        ground (arith, length-put_entry key entry s.fast_path) in
      rw (h, fits, update_fast_path)
        (try_fast_path_hit machine platform i (record s { world = after; fast_path = entries })
          entry h (find_entry-put_entry key entry s.fast_path)
          (new_entry_usable i (machine.steady_now after).0 entry accepts refl refl soon))
