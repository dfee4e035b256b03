-- ===== src/Registry/Resolve.antt =====
-- ResolveBest of core/execution/src/Adapter.cpp.
pub mod Selection
use intent_execution_layer.Common.{
  ℕ, Bool, true, false, not, ◌&&◌, ◌||◌, List, [], ◌∷◌, ◌++◌, Option, none, some, if◌then◌else◌,
  ltb,
}
use intent_execution_layer.Common.Sort.{sort}
use intent_execution_layer.Text.{Text, text_lt}
use intent_execution_layer.Text.Number.{size_max}
use intent_execution_layer.Float.{Float, FloatOps, float_lt, float_le, float_abs}
use intent_execution_layer.Intent.{Intent}
use intent_execution_layer.Registry.{
  Adapter, AdapterRuntime, AdapterScore, AdapterDecisionCandidate, AdapterDecision, AdapterRegistry,
  find_runtime,
}
use intent_execution_layer.Registry.Scores.{composite_score, compute_decayed_score}

-- 0.0001F and -infinity
abbrev tie_margin : Float
tie_margin = 0x38d1_b717

abbrev minus_infinity : Float
minus_infinity = 0xff80_0000

is_null : {W : Type 0} → Option (Adapter W) → Bool
is_null none = true
is_null (some a) = false

-- The variables of the loop
pub record Choice (W : Type 0) : Type 0 where
  pub best : Option (Adapter W)
  pub best_score : Float
  pub best_order : ℕ
  pub candidates : List AdapterDecisionCandidate

module _ {W : Type 0} (ops : FloatOps) (clock : W → ℕ × W) where
  open ops use {add, sub}

  -- The branch for an adapter with statistics
  rank_known : Adapter W → Bool → AdapterRuntime → AdapterScore → Choice W → Choice W
  unfolding is_null
  rank_known adapter matched runtime score choice =
      let final_score = composite_score ops score in
      let better_score = float_lt (add choice.best_score tie_margin) final_score in
      let tie_break =
        float_le (float_abs (sub final_score choice.best_score)) tie_margin
        && ltb runtime.registration_order choice.best_order in
      if matched && (better_score || tie_break || is_null choice.best)
      then record choice {
        best = some adapter;
        best_score = final_score;
        best_order = runtime.registration_order;
      }
      else choice

  -- The branch for an adapter without
  rank_unknown : Adapter W → Bool → AdapterScore → Choice W → Choice W
  unfolding is_null
  rank_unknown adapter matched score choice =
      let final_score = composite_score ops score in
      if matched && (is_null choice.best || float_lt (add choice.best_score tie_margin) final_score)
      then record choice { best = some adapter; best_score = final_score }
      else choice

  add_candidate : Adapter W → Bool → AdapterScore → Choice W → Choice W
  add_candidate adapter matched score choice = record choice {
    candidates =
        choice.candidates
        ++ record {
          adapter_name = adapter.name;
          score = score;
          final_score = composite_score ops score;
          matched = matched;
        }
          ∷ [];
  }

  -- The body of the loop; the clock is read where a score is decayed.
  consider : AdapterRegistry W → Intent → Adapter W → Choice W → W → Choice W × W
  consider registry intent adapter choice w =
      elim (find_runtime adapter.address registry.runtime_by_adapter) [
        | some runtime ↦
            let (now, w') = clock w in
            let score = compute_decayed_score ops adapter runtime now in
            let matched = adapter.can_execute intent in
            (
              add_candidate adapter matched score (rank_known adapter matched runtime score choice),
              w',
            )
        | none ↦
            let matched = adapter.can_execute intent in
            (
              add_candidate adapter matched adapter.score
                  (rank_unknown adapter matched adapter.score choice),
              w,
            )
      ]

  consider_all : AdapterRegistry W → Intent → List (Adapter W) → Choice W → W → Choice W × W
  unfolding consider
  consider_all registry intent [] choice w = (choice, w)
  consider_all registry intent (a ∷ adapters) choice w =
      let (choice', w') = consider registry intent a choice w in
      consider_all registry intent adapters choice' w'

  start_choice : Choice W
  start_choice = record {
    best = none;
    best_score = minus_infinity;
    best_order = size_max;
    candidates = [];
  }

  -- The order of the candidates: the matching first, then by score, then by name
  candidate_less : AdapterDecisionCandidate → AdapterDecisionCandidate → Bool
  candidate_less left right =
      (left.matched && not right.matched)
      || (not (left.matched && not right.matched) && not (right.matched && not left.matched))
        && (if float_lt tie_margin (float_abs (sub left.final_score right.final_score))
            then float_lt right.final_score left.final_score
            else text_lt left.adapter_name right.adapter_name)

  selected_name : Option (Adapter W) → Text
  selected_name none = []
  selected_name (some a) = a.name

  -- ResolveBest: the adapter, and what it writes into the decision
  unfoldable pub resolve_best :
      AdapterRegistry W → Intent → W → Option (Adapter W) × AdapterDecision × W
  unfolding consider_all start_choice candidate_less selected_name rank_known rank_unknown
      add_candidate
  resolve_best registry intent w =
      let (choice, w') = consider_all registry intent registry.adapters start_choice w in
      (
        choice.best,
        record {
          selected_adapter = selected_name choice.best;
          candidates = sort candidate_less choice.candidates;
          used_fast_path = false;
        },
        w',
      )
