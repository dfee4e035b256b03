-- ===== src/Registry/Resolve/Selection.antt =====
-- Which adapter ResolveBest selects.
use intent_execution_layer.Common.{
  ℕ, ◌+◌, ◌≡◌, refl, ◌⊎◌, inl, inr, Bool, true, ◌||◌, List, [], ◌∷◌, none, some, arith, any, Among,
  length, length-append, count_if, count_if-append, if◌then◌else◌, ◌∙◌, sym, ap, Option-cases,
}
use intent_execution_layer.Common.Sort.{length-sort, count_if-sort}
use intent_execution_layer.Common.Optional.{has_value}
use intent_execution_layer.Float.{FloatOps}
use intent_execution_layer.Intent.{Intent}
use intent_execution_layer.Registry.{
  Adapter, AdapterRegistry, AdapterRuntime, AdapterScore, find_runtime,
}
use intent_execution_layer.Registry.Resolve.{
  Choice, consider, consider_all, rank_known, rank_unknown, add_candidate, start_choice,
  candidate_less, resolve_best,
}

none-ne-some : {A : Type 0} {a : A} → none ≡ some a → ⊥
none-ne-some h = cc

module _ {W : Type 0} (ops : FloatOps) (clock : W → ℕ × W) (registry : AdapterRegistry W)
    (intent : Intent) where
  -- One adapter is chosen if none was and it can execute the intent.
  consider_found :
      (a : Adapter W) (choice : Choice W) (w : W)
      → has_value (consider ops clock registry intent a choice w).0.best
        ≡ (has_value choice.best || a.can_execute intent)
  unfolding consider rank_known rank_unknown add_candidate
  consider_found a choice w = ground arith

  consider_all_found :
      (adapters : List (Adapter W)) (choice : Choice W) (w : W)
      → has_value (consider_all ops clock registry intent adapters choice w).0.best
        ≡ (has_value choice.best || any (λ a. a.can_execute intent) adapters)
  unfolding consider_all
  consider_all_found [] choice w = ground arith
  consider_all_found (a ∷ adapters) choice w =
      let (choice', w') = consider ops clock registry intent a choice w in
      ground (arith, consider_all_found adapters choice' w', consider_found a choice w)

  -- What a step selects is what was selected, or the adapter itself, which can execute the intent.
  consider_selects :
      (a b : Adapter W) (choice : Choice W) (w : W)
      → (consider ops clock registry intent a choice w).0.best ≡ some b
      → (choice.best ≡ some b) ⊎ ((b ≡ a) × (b.can_execute intent ≡ true))
  unfolding consider rank_known rank_unknown add_candidate
  consider_selects a b choice w h = ground arith

  consider_all_selects :
      (adapters : List (Adapter W)) (b : Adapter W) (choice : Choice W) (w : W)
      → (consider_all ops clock registry intent adapters choice w).0.best ≡ some b
      → (choice.best ≡ some b) ⊎ (Among b adapters × (b.can_execute intent ≡ true))
  unfolding consider_all
  consider_all_selects [] b choice w h = inl h
  consider_all_selects (a ∷ adapters) b choice w h =
      let (choice', w') = consider ops clock registry intent a choice w in
      elim (consider_all_selects adapters b choice' w' h) [
        | inr (later, able) ↦ inr (inr later, able)
        | inl before ↦ elim (consider_selects a b choice w before) [
          | inl first ↦ inl first
          | inr (same, able) ↦ inr (inl same, able)
        ]
      ]

  add_candidate_counts :
      (a : Adapter W) (score : AdapterScore) (choice choice' : Choice W)
      → choice'.candidates ≡ choice.candidates
      → (length (add_candidate ops clock a (a.can_execute intent) score choice').candidates
          ≡ length choice.candidates + 1)
        × (count_if
              (λ c. c.matched)
              (add_candidate ops clock a (a.can_execute intent) score choice').candidates
            ≡ count_if (λ c. c.matched) choice.candidates + (if a.can_execute intent then 1 else 0))
  unfolding add_candidate
  add_candidate_counts a score choice choice' same = rw same (
    length-append choice.candidates _,
    count_if-append (λ c. c.matched) choice.candidates _ ∙ ground arith,
  )

  rank_known-candidates :
      (a : Adapter W) (matched : Bool) (r : AdapterRuntime) (score : AdapterScore)
      (choice : Choice W)
      → (rank_known ops clock a matched r score choice).candidates ≡ choice.candidates
  unfolding rank_known
  rank_known-candidates a matched r score choice = ground arith

  rank_unknown-candidates :
      (a : Adapter W) (matched : Bool) (score : AdapterScore) (choice : Choice W)
      → (rank_unknown ops clock a matched score choice).candidates ≡ choice.candidates
  unfolding rank_unknown
  rank_unknown-candidates a matched score choice = ground arith

  consider_counts :
      (a : Adapter W) (choice : Choice W) (w : W)
      → (length (consider ops clock registry intent a choice w).0.candidates
          ≡ length choice.candidates + 1)
        × (count_if (λ c. c.matched) (consider ops clock registry intent a choice w).0.candidates
            ≡ count_if (λ c. c.matched) choice.candidates + (if a.can_execute intent then 1 else 0))
  unfolding consider
  consider_counts a choice w =
      elim (Option-cases (find_runtime a.address registry.runtime_by_adapter)) [
        | inl e ↦
            rw (e, consider)
              (add_candidate_counts a a.score choice _
                (rank_unknown-candidates a (a.can_execute intent) a.score choice))
        | inr (r, e) ↦
            rw (e, consider)
              (add_candidate_counts a _ choice _
                (rank_known-candidates a (a.can_execute intent) r _ choice))
      ]

  consider_all_counts :
      (adapters : List (Adapter W)) (choice : Choice W) (w : W)
      → (length (consider_all ops clock registry intent adapters choice w).0.candidates
          ≡ length choice.candidates + length adapters)
        × (count_if
              (λ c. c.matched)
              (consider_all ops clock registry intent adapters choice w).0.candidates
            ≡ count_if (λ c. c.matched) choice.candidates
              + count_if (λ a. a.can_execute intent) adapters)
  unfolding consider_all
  consider_all_counts [] choice w = omega arith
  consider_all_counts (a ∷ adapters) choice w =
      let (choice', w') = consider ops clock registry intent a choice w in
      let ih = consider_all_counts adapters choice' w' in
      let one = consider_counts a choice w in (omega (arith, ih, one), ground (arith, ih.1, one.1))

  start_null : (start_choice ops clock).best ≡ none
  unfolding start_choice
  start_null = refl

  start_empty : (start_choice ops clock).candidates ≡ []
  unfolding start_choice
  start_empty = refl

  -- An adapter is selected exactly if one of the registered adapters can execute the intent.
  pub resolve_best_found :
      (w : W)
      → has_value (resolve_best ops clock registry intent w).0
        ≡ any (λ a. a.can_execute intent) registry.adapters
  unfolding resolve_best
  resolve_best_found w =
      ground (arith, consider_all_found registry.adapters (start_choice ops clock) w, start_null)

  -- The selected adapter is registered and can execute the intent.
  pub resolve_best_sound :
      (w : W) (b : Adapter W)
      → (resolve_best ops clock registry intent w).0 ≡ some b
      → Among b registry.adapters × (b.can_execute intent ≡ true)
  unfolding resolve_best
  resolve_best_sound w b h =
      elim (consider_all_selects registry.adapters b (start_choice ops clock) w h) [
        | inl e ↦ absurd (none-ne-some (sym start_null ∙ e))
        | inr found ↦ found
      ]

  -- The decision lists one candidate for each registered adapter, and marks as matching as many as
  -- can execute the intent.
  pub resolve_best_candidates :
      (w : W)
      → (length (resolve_best ops clock registry intent w).1.candidates ≡ length registry.adapters)
        × (count_if (λ c. c.matched) (resolve_best ops clock registry intent w).1.candidates
            ≡ count_if (λ a. a.can_execute intent) registry.adapters)
  unfolding resolve_best
  resolve_best_candidates w =
      let counts = consider_all_counts registry.adapters (start_choice ops clock) w in
      let all_candidates =
        (consider_all ops clock registry intent registry.adapters (start_choice ops clock)
          w).0.candidates in
      (
        length-sort (candidate_less ops clock) all_candidates
            ∙ omega (arith, counts.0, ap length start_empty),
        count_if-sort (candidate_less ops clock) (λ c. c.matched) all_candidates
            ∙ omega (arith, counts.1, ap (count_if (λ c. c.matched)) start_empty),
      )
