-- ===== src/Registry/Scores.antt =====
-- The scores of the registry: CompositeScore and ComputeDecayedScore of
-- core/execution/src/Adapter.cpp, and the bounds that their clamps give.
use intent_execution_layer.Common.{◌-◌, ℕ, ◌≡◌, refl, false, true, if◌then◌else◌, arith}
use intent_execution_layer.Float.{Float, FloatOps, float_lt, zero_f, one_f, in_unit_range}
use intent_execution_layer.Registry.{Adapter, AdapterRuntime, AdapterScore, clamp_01, clamp_min}

zero-one_order :
    (float_lt zero_f zero_f ≡ false)
    × (float_lt one_f zero_f ≡ false)
    × (float_lt one_f one_f ≡ false)
unfolding float_lt
zero-one_order = (refl, refl, refl)

pub clamp_01-in_unit_range : (x : Float) → in_unit_range (clamp_01 x) ≡ true
unfolding clamp_01
clamp_01-in_unit_range x = ground (arith, zero-one_order)

pub clamp_min-ge : (x m : Float) → float_lt m m ≡ false → float_lt (clamp_min x m) m ≡ false
unfolding clamp_min
clamp_min-ge x m h = ground arith

module _ (ops : FloatOps) where
  open ops use {add, sub, mul, div}

  -- std::clamp(value, 0.0F, 1.0F)
  std_clamp_01 : Float → Float
  std_clamp_01 value =
      if float_lt value zero_f then zero_f else if float_lt one_f value then one_f else value

  unfoldable pub composite_score : AdapterScore → Float
  unfolding std_clamp_01
  composite_score score =
      sub (add (mul 0x3f0c_cccd score.reliability) (mul 0x3eb3_3333 score.confidence))
        (mul 0x3dcc_cccd (std_clamp_01 (div score.latency 0x447a_0000)))

  -- ComputeDecayedScore, at the time that the clock shows
  unfoldable pub compute_decayed_score :
      {W : Type 0} → Adapter W → AdapterRuntime → ℕ → AdapterScore
  compute_decayed_score adapter runtime now =
      let elapsed = ops.seconds_of_ns (now - runtime.last_updated) in
      let decay = ops.exp (mul 0xbd4c_cccd (if float_lt zero_f elapsed then elapsed else zero_f)) in
      let decayed_reliability =
        add 0x3f00_0000 (mul (sub runtime.reliability_ema 0x3f00_0000) decay) in
      let decayed_latency = add 0x42a0_0000 (mul (sub runtime.latency_ema_ms 0x42a0_0000) decay) in
      record {
        reliability = clamp_01 (
            add (mul 0x3f33_3333 decayed_reliability)
              (mul 0x3e99_999a (clamp_01 adapter.score.reliability)));
        latency =
            clamp_min
              (add (mul 0x3f33_3333 decayed_latency)
                (mul 0x3e99_999a (clamp_min adapter.score.latency one_f)))
              one_f;
        confidence = clamp_01 (
            add (mul 0x3f19_999a runtime.confidence)
              (mul 0x3ecc_cccd (clamp_01 adapter.score.confidence)));
      }

  -- Whatever the float arithmetic yields, a decayed reliability and confidence are not below 0 and not
  -- above 1, and a decayed latency is not below 1.
  pub compute_decayed_score_bounds :
      {W : Type 0} (adapter : Adapter W) (runtime : AdapterRuntime) (now : ℕ)
      → (in_unit_range (compute_decayed_score adapter runtime now).reliability ≡ true)
        × (in_unit_range (compute_decayed_score adapter runtime now).confidence ≡ true)
        × (float_lt (compute_decayed_score adapter runtime now).latency one_f ≡ false)
  unfolding compute_decayed_score
  compute_decayed_score_bounds adapter runtime now =
      (clamp_01-in_unit_range _, clamp_01-in_unit_range _, clamp_min-ge _ one_f zero-one_order.2)
