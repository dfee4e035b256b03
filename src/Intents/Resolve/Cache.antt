-- ===== src/Intents/Resolve/Cache.antt =====
-- The cache of resolutions: its size, and what a repeated request gets.
use intent_execution_layer.Common.{
  ℕ, zero, suc, ◌+◌, ◌≤◌, ◌<◌, ◌≡◌, refl, sym, ap, subst, ◌∙◌, true, ◌&&◌, List, [], ◌∷◌, none,
  some, ltb, ◌==◌, length, drop, arith, inl, inr, Bool-cases, Option-cases,
}
use intent_execution_layer.Text.{Text}
use intent_execution_layer.Text.Equality.{text_eq_refl}
use intent_execution_layer.Intent.{IntentAction}
use intent_execution_layer.Resolver.{ResolutionResult}
use intent_execution_layer.Intents.{ResolutionCacheKey, IntentsState, RegistryPort}
use intent_execution_layer.Intents.Resolve.{
  max_cached, key_eq, find_cached, put_cached, evict, key_of, time_resolution, store_resolution,
  resolve_target,
}

key_eq_refl : (key : ResolutionCacheKey) → key_eq key key ≡ true
unfolding key_eq
key_eq_refl key = ground (arith, text_eq_refl key.target)

find_cached-put_cached :
    (key : ResolutionCacheKey) (result : ResolutionResult)
    (cache : List (ResolutionCacheKey × ResolutionResult))
    → find_cached key (put_cached key result cache) ≡ some result
unfolding find_cached put_cached
find_cached-put_cached key result [] = rw (key_eq_refl key) refl
find_cached-put_cached key result ((k, r) ∷ cache) =
    ground (arith, find_cached-put_cached key result cache)

length-put_cached :
    (key : ResolutionCacheKey) (result : ResolutionResult)
    (cache : List (ResolutionCacheKey × ResolutionResult))
    → length (put_cached key result cache) ≤ length cache + 1
unfolding put_cached
length-put_cached key result [] = omega arith
length-put_cached key result ((k, r) ∷ cache) = ground (arith, length-put_cached key result cache)

length-drop-le {ℓ} : {A : Type ℓ} (n : ℕ) (xs : List A) → length (drop n xs) ≤ length xs
length-drop-le zero xs = omega arith
length-drop-le (suc n) [] = omega arith
length-drop-le (suc n) (x ∷ xs) = omega (arith, length-drop-le n xs)

length-drop-one {ℓ} :
    {A : Type ℓ} (n : ℕ) (xs : List A) → 0 < length xs → length (drop (suc n) xs) + 1 ≤ length xs
length-drop-one n [] h = omega (arith, h)
length-drop-one n (x ∷ xs) h = omega (arith, length-drop-le n xs)

evict_bound :
    (key : ResolutionCacheKey) (result : ResolutionResult)
    (cache : List (ResolutionCacheKey × ResolutionResult))
    → length cache ≤ max_cached
    → length (evict (put_cached key result cache)) ≤ max_cached
unfolding evict
evict_bound key result cache h =
    let put = put_cached key result cache in
    let longer = length-put_cached key result cache in
    elim (Bool-cases (ltb max_cached (length put))) [
      | inl e ↦
          let fewer = length-drop-one 127 put (ground (arith, e)) in
          rw (evict, e) (omega (arith, longer, fewer, h))
      | inr e ↦ rw (evict, e) (ground (arith, e))
    ]

module _ {W G : Type 0} (port : RegistryPort W G) where
  -- A request whose key is cached
  hit_lem :
      (action : IntentAction) (target : Text) (s : IntentsState W G) (cached : ResolutionResult)
      → find_cached (key_of port action target s) s.resolution_cache ≡ some cached
      → resolve_target port action target s ≡ (
        cached,
        record s {
          world = time_resolution port (port.steady_now s.world).0 (port.steady_now s.world).1;
        },
      )
  unfolding resolve_target
  hit_lem action target s cached e = simp (resolve_target, e) refl

  -- A request whose key is not cached
  miss_lem :
      (action : IntentAction) (target : Text) (s : IntentsState W G)
      → find_cached (key_of port action target s) s.resolution_cache ≡ none
      → (w : W) × (result : ResolutionResult) × (resolve_target port action target s ≡ (
        result,
        record s {
          world = w;
          resolution_cache =
              evict (put_cached (key_of port action target s) result s.resolution_cache);
        },
      ))
  unfolding resolve_target store_resolution key_of
  miss_lem action target s e =
      let same : (s.last_snapshot.sequence == s.last_snapshot.sequence
            && s.cache_epoch == s.cache_epoch)
          ≡ true =
        ground arith in
      simp (resolve_target, e, same) (_, _, refl)

  -- A cache of at most 512 resolutions has at most 512 after a request, too.
  pub resolution_cache_bound :
      (action : IntentAction) (target : Text) (s : IntentsState W G)
      → length s.resolution_cache ≤ max_cached
      → length (resolve_target port action target s).1.resolution_cache ≤ max_cached
  resolution_cache_bound action target s h =
      let key = key_of port action target s in
      elim (Option-cases (find_cached key s.resolution_cache)) [
        | inr (cached, e) ↦ rw (hit_lem action target s cached e) h
        | inl e ↦
            let (w, result, miss) = miss_lem action target s e in
            rw miss (evict_bound key result s.resolution_cache h)
      ]

  -- The same request again, in the state that a resolution leaves, gets the same result at once.
  IsRepeated : IntentAction → Text → ResolutionResult × IntentsState W G → Type 0
  IsRepeated action target (result, s) = resolve_target port action target s ≡ (
    result,
    record s {
      world = time_resolution port (port.steady_now s.world).0 (port.steady_now s.world).1;
    },
  )

  -- While the cache holds fewer than 512 resolutions, the same request again, with nothing between
  -- them, gets the same result, whether the first one was a hit or a miss: nothing is resolved anew,
  -- and the state changes only in what the clock and the telemetry act on.
  pub resolve_target-again :
      (action : IntentAction) (target : Text) (s : IntentsState W G)
      → length s.resolution_cache < max_cached
      → let (result, s1) = resolve_target port action target s in
        resolve_target port action target s1 ≡ (
          result,
          record s1 {
            world = time_resolution port (port.steady_now s1.world).0 (port.steady_now s1.world).1;
          },
        )
  unfolding IsRepeated key_of evict
  resolve_target-again action target s h =
      let key = key_of port action target s in
      elim (Option-cases (find_cached key s.resolution_cache)) [
        | inr (cached, e) ↦
            subst (IsRepeated action target) (sym (hit_lem action target s cached e))
              (hit_lem action target _ cached e)
        | inl e ↦
            let (w, result, miss) = miss_lem action target s e in
            let cache = put_cached key result s.resolution_cache in
            let longer = length-put_cached key result s.resolution_cache in
            let kept : evict cache ≡ cache = ground (arith, longer, h) in
            let found : find_cached key (evict cache) ≡ some result =
              ap (find_cached key) kept ∙ find_cached-put_cached key result s.resolution_cache in
            subst (IsRepeated action target) (sym miss) (
              hit_lem action target (record s { world = w; resolution_cache = evict cache }) result
                found)
      ]
