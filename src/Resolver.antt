-- ===== src/Resolver.antt =====
-- core/intent/include/IntentResolver.h and core/intent/src/IntentResolver.cpp: which intent a
-- requested target means. `W` is what the tick counter acts on.
pub mod Laws
use intent_execution_layer.Common.{
  ℕ, ◌+◌, ◌-◌, Bool, true, false, not, ◌&&◌, List, [], ◌∷◌, map, Option, none, some, if◌then◌else◌,
  ltb, ◌==◌, is_empty, ℤ, pos, ltb_ℤ, leb_ℤ, add_ℤ, sub_ℤ,
}
use intent_execution_layer.Common.Optional.{has_value}
use intent_execution_layer.Common.Sort.{sort}
use intent_execution_layer.Text.{Text, text, text_eq, find}
use intent_execution_layer.Text.Dict.{lookup}
use intent_execution_layer.Platform.{Platform}
use intent_execution_layer.Float.{Float, FloatOps, float_lt, float_eq, zero_f, one_f}
use intent_execution_layer.Double.{Double, DoubleOps, one_d}
use intent_execution_layer.Intent.{Intent, IntentAction, Point, action_eq}
use intent_execution_layer.Engine.{primary_target_text}

pub record IntentMatch : Type 0 where
  pub intent : Intent
  pub score : Float
  pub depth_score : Float
  pub proximity_score : Float
  pub focus_score : Float
  pub recency_score : Float

pub record AmbiguityError : Type 0 where
  pub requested_target : Text
  pub candidates : List IntentMatch
  pub message : Text

pub record ResolutionResult : Type 0 where
  pub best_match : Option IntentMatch
  pub ambiguity : Option AmbiguityError
  pub ranked : List IntentMatch

-- What the resolver calls: the arithmetic, towlower, and GetTickCount64
pub record Scoring (W : Type 0) : Type 0 where
  pub platform : Platform
  pub floats : FloatOps
  pub doubles : DoubleOps
  pub tick_count : W → ℕ × W

-- 0.75F, 0.72F, 0.45F, 0.50F and 0.20F; the weights 0.28F, 0.18F, 0.10F and 0.08F; 400.0 and 5000.0
abbrev unnamed_score : Float
unnamed_score = 0x3f40_0000

abbrev part_score : Float
part_score = 0x3f38_51ec

abbrev unplaced_score : Float
unplaced_score = 0x3ee6_6666

abbrev pub ambiguous_score : Float
ambiguous_score = 0x3f00_0000

abbrev unused_score : Float
unused_score = 0x3e4c_cccd

abbrev label_weight : Float
label_weight = 0x3e8f_5c29

abbrev place_weight : Float
place_weight = 0x3e38_51ec

abbrev recency_weight : Float
recency_weight = 0x3dcc_cccd

abbrev confidence_weight : Float
confidence_weight = 0x3da3_d70a

abbrev distance_scale : Double
distance_scale = 0x4079_0000_0000_0000

abbrev age_scale : Double
age_scale = 0x40b3_8800_0000_0000

-- The order in which matches are sorted: the better one first
unfoldable pub is_better : IntentMatch → IntentMatch → Bool
is_better left right =
    if float_eq left.score right.score
    then float_lt right.intent.confidence left.intent.confidence
    else float_lt right.score left.score

-- std::max(0.0F, std::min(1.0F, confidence))
unfoldable pub confidence_score : Float → Float
confidence_score confidence =
    let capped = if float_lt confidence one_f then confidence else one_f in
    if float_lt zero_f capped then capped else zero_f

-- FocusScore
unfoldable pub focus_score_of : Intent → Float
focus_score_of i = if i.target.focused then one_f else zero_f

module _ {W : Type 0} (scoring : Scoring W) where
  open scoring use {platform, floats, doubles}

  -- LabelScore; its PrimaryLabel is PrimaryTargetText
  unfoldable pub label_score : Intent → Text → Float
  label_score i requested_target =
      if is_empty requested_target
      then unnamed_score
      else (let requested = map platform.towlower requested_target in
          let candidate = map platform.towlower (primary_target_text i) in
          if text_eq candidate requested
          then one_f
          else if has_value (find requested candidate)
          then part_score
          else zero_f)

  -- DepthScore
  unfoldable pub depth_score_of : Intent → Float
  depth_score_of i =
      let depth =
        if ltb_ℤ (pos 0) i.target.hierarchy_depth then i.target.hierarchy_depth else pos 0 in
      floats.div one_f (floats.of_int (add_ℤ (pos 1) depth))

  -- 1.0 / (1.0 + (value / scale))
  falling : Double → Double → Float
  falling value scale =
      doubles.to_float (doubles.div one_d (doubles.add one_d (doubles.div value scale)))

  is_zero : ℤ → Bool
  is_zero n = leb_ℤ n (pos 0) && leb_ℤ (pos 0) n

  -- ProximityScore
  unfoldable pub proximity_score_of : Intent → Point → Float
  unfolding falling is_zero
  proximity_score_of i cursor =
      let center = i.target.screen_center in
      if is_zero center.x && is_zero center.y
      then unplaced_score
      else (let dx = doubles.of_int (sub_ℤ center.x cursor.x) in
          let dy = doubles.of_int (sub_ℤ center.y cursor.y) in
          falling (doubles.sqrt (doubles.add (doubles.mul dx dx) (doubles.mul dy dy)))
            distance_scale)

  recency_of : Option ℕ → W → Float × W
  unfolding falling
  recency_of none w = (unused_score, w)
  recency_of (some used_at) w =
      let (now, w') = scoring.tick_count w in
      (falling (doubles.of_int (pos (now - used_at))) age_scale, w')

  -- RecencyScore
  unfoldable pub recency_score_of : Intent → List (Text × ℕ) → W → Float × W
  unfolding recency_of
  recency_score_of i recency w = recency_of (lookup i.id recency) w

  total_score : Float → Float → Float → Float → Float → Float → Float
  total_score label depth proximity focus recency confidence =
      floats.add
        (floats.add
          (floats.add
            (floats.add (floats.add (floats.mul label_weight label) (floats.mul place_weight depth))
              (floats.mul place_weight proximity))
            (floats.mul place_weight focus))
          (floats.mul recency_weight recency))
        (floats.mul confidence_weight confidence)

  -- The match of an intent
  unfoldable pub match_of : Intent → Text → Point → List (Text × ℕ) → W → IntentMatch × W
  unfolding total_score
  match_of i requested_target cursor recency w =
      let (recent, w') = recency_score_of i recency w in
      let depth = depth_score_of i in
      let proximity = proximity_score_of i cursor in
      let focus = focus_score_of i in
      (
        record {
          intent = i;
          score =
              total_score (label_score i requested_target) depth proximity focus recent
                (confidence_score i.confidence);
          depth_score = depth;
          proximity_score = proximity;
          focus_score = focus;
          recency_score = recent;
        },
        w',
      )

  -- The loop over the intents
  unfoldable pub matches :
      IntentAction → Text → List Intent → Point → List (Text × ℕ) → W → List IntentMatch × W
  matches action requested_target [] cursor recency w = ([], w)
  matches action requested_target (i ∷ intents) cursor recency w =
      elim (action_eq i.action action) [
        | false ↦ matches action requested_target intents cursor recency w
        | true ↦
            let (m, w1) = match_of i requested_target cursor recency w in
            let (rest, w2) = matches action requested_target intents cursor recency w1 in
            (m ∷ rest, w2)
      ]

  -- What is decided about the sorted matches
  unfoldable pub decide : Text → Float → List IntentMatch → ResolutionResult
  decide requested_target threshold [] = record { best_match = none; ambiguity = none; ranked = [] }
  decide requested_target threshold (m ∷ []) = record {
    best_match = some m;
    ambiguity = none;
    ranked = m ∷ [];
  }
  decide requested_target threshold (m ∷ n ∷ rest) =
      if float_lt ambiguous_score n.score && float_lt (floats.sub m.score n.score) threshold
      then record {
        best_match = none;
        ambiguity = some (record {
          requested_target = requested_target;
          candidates = m ∷ n ∷ [];
          message = text "Ambiguous target: multiple intents scored similarly";
        });
        ranked = m ∷ n ∷ rest;
      }
      else record { best_match = some m; ambiguity = none; ranked = m ∷ n ∷ rest }

  -- Resolve
  unfoldable pub resolve :
      IntentAction → Text → List Intent → Point → List (Text × ℕ) → Float → W → ResolutionResult × W
  resolve action requested_target intents cursor recency threshold w =
      let (found, w') = matches action requested_target intents cursor recency w in
      (decide requested_target threshold (sort is_better found), w')
