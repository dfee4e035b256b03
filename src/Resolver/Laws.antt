-- ===== src/Resolver/Laws.antt =====
-- What a resolution finds.
use mathlib.Core.List.{Perm}
use mathlib.Core.List.Perm
use mathlib.Core.Option
use intent_execution_layer.Common.{
  ℕ, ◌≡◌, refl, ap, subst, Bool, true, false, ◌&&◌, List, [], ◌∷◌, Option, none, some, map, take,
  if◌then◌else◌, arith, inl, inr, Bool-cases,
}
use intent_execution_layer.Common.Sort.{sort, IsSorted, sort-IsSorted, sort-perm}
use intent_execution_layer.Text.{Text}
use intent_execution_layer.Float.{Float, float_lt, float_eq}
use intent_execution_layer.Intent.{Intent, IntentAction, Point, action_eq}
use intent_execution_layer.Resolver.{
  IntentMatch, Scoring, ambiguous_score, is_better, match_of, matches, decide, resolve,
}

float_lt-asym : (x y : Float) → float_lt x y ≡ true → float_lt y x ≡ false
unfolding float_lt
float_lt-asym x y h = ground (arith, h)

is_better-asym : (a b : IntentMatch) → is_better a b ≡ true → is_better b a ≡ false
unfolding is_better float_eq
is_better-asym a b h = ground (
  arith,
  h,
  float_lt-asym a.score b.score,
  float_lt-asym b.score a.score,
  float_lt-asym a.intent.confidence b.intent.confidence,
  float_lt-asym b.intent.confidence a.intent.confidence,
)

-- The intents with the action
abbrev pub with_action : IntentAction → List Intent → List Intent
with_action action [] = []
with_action action (i ∷ intents) =
    let rest = with_action action intents in if action_eq i.action action then i ∷ rest else rest

abbrev pub first_match : List IntentMatch → Option IntentMatch
first_match [] = none
first_match (m ∷ ms) = some m

module _ {W : Type 0} (scoring : Scoring W) where
  -- The second match scores more than a half, and is nearer to the first than the threshold.
  abbrev pub is_close_call : Float → List IntentMatch → Bool
  is_close_call threshold [] = false
  is_close_call threshold (m ∷ []) = false
  is_close_call threshold (m ∷ n ∷ rest) =
      float_lt ambiguous_score n.score && float_lt (scoring.floats.sub m.score n.score) threshold

  matches-with_action :
      (action : IntentAction) (target : Text) (intents : List Intent) (cursor : Point)
      (recency : List (Text × ℕ)) (w : W)
      → map (λ m. m.intent) (matches scoring action target intents cursor recency w).0
        ≡ with_action action intents
  unfolding matches match_of
  matches-with_action action target [] cursor recency w = refl
  matches-with_action action target (i ∷ intents) cursor recency w =
      elim (Bool-cases (action_eq i.action action)) [
        | inr e ↦ simp (matches, e) (matches-with_action action target intents cursor recency w)
        | inl e ↦
            let (m, w1) = match_of scoring i target cursor recency w in
            simp (matches, e)
              (ap (◌∷◌ i) (matches-with_action action target intents cursor recency w1))
      ]

  decide-ranked :
      (target : Text) (threshold : Float) (found : List IntentMatch)
      → (decide scoring target threshold found).ranked ≡ found
  unfolding decide
  decide-ranked target threshold [] = refl
  decide-ranked target threshold (m ∷ []) = refl
  decide-ranked target threshold (m ∷ n ∷ rest) = ground arith

  decide_outcome :
      (target : Text) (threshold : Float) (found : List IntentMatch)
      → let r = decide scoring target threshold found in
        (r.best_match ≡ (if is_close_call threshold found then none else first_match found))
        × (Option.map (λ a. a.candidates) r.ambiguity
            ≡ (if is_close_call threshold found then some (take 2 found) else none))
  unfolding decide
  decide_outcome target threshold [] = (refl, refl)
  decide_outcome target threshold (m ∷ []) = (refl, refl)
  decide_outcome target threshold (m ∷ n ∷ rest) =
      elim (Bool-cases (is_close_call threshold (m ∷ n ∷ rest))) [
        | inl e ↦ rw e (refl, refl)
        | inr e ↦ rw e (refl, refl)
      ]

  -- The matches that a resolution ranks are, by their intents, exactly the intents with the requested
  -- action, each as often as it is given, in an order in which no match is better than the one before
  -- it. If the second match scores more than a half and less than the threshold below the first, there
  -- is no best match and the two are the candidates of an ambiguity; in every other case the best match
  -- is the first, if there is one, and no ambiguity is reported.
  pub resolve_lem :
      (action : IntentAction) (target : Text) (intents : List Intent) (cursor : Point)
      (recency : List (Text × ℕ)) (threshold : Float) (w : W)
      → let r = (resolve scoring action target intents cursor recency threshold w).0 in
        Perm (with_action action intents) (map (λ m. m.intent) r.ranked)
        × IsSorted is_better r.ranked
        × (r.best_match ≡ (if is_close_call threshold r.ranked then none else first_match r.ranked))
        × (Option.map (λ a. a.candidates) r.ambiguity
            ≡ (if is_close_call threshold r.ranked then some (take 2 r.ranked) else none))
  unfolding resolve
  resolve_lem action target intents cursor recency threshold w =
      let found = (matches scoring action target intents cursor recency w).0 in
      let (best, close) = decide_outcome target threshold (sort is_better found) in
      rw (decide-ranked target threshold (sort is_better found)) (
        subst (λ is. Perm is (map (λ m. m.intent) (sort is_better found)))
            (matches-with_action action target intents cursor recency w)
            (Perm.map (λ (m : IntentMatch). m.intent) (sort-perm is_better found)),
        sort-IsSorted is_better is_better-asym found,
        best,
        close,
      )
