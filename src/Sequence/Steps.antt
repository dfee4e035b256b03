-- ===== src/Sequence/Steps.antt =====
-- What the step tokens keep of a step's bounds.
use intent_execution_layer.Common.{
  ℕ, ◌≤◌, ◌≡◌, inl, inr, true, List, [], ◌∷◌, Option, none, some, arith, ℤ, pos, ◌≤ℤ◌, Option-cases,
  Bool-cases, ltb, leb_ℤ,
}
use intent_execution_layer.Text.{Text, trim}
use intent_execution_layer.Text.Number.{parse_int, parse_unsigned}
use intent_execution_layer.Intent.{Intent}
use intent_execution_layer.Sequence.{
  ActionStep, StepKey, after, required, repeat, step_key, with_delay, with_repeat, bounded_repeat,
  apply_step_option, apply_step_token, apply_step_tokens, key_value, new_step,
}
use intent_execution_layer.Sequence.Tokens.{FitsTemplate}

abbrev pub OptionFits : Intent → Option Intent → Type 0
OptionFits t none = Unit
OptionFits t (some i) = FitsTemplate t i

-- Both intents of the step fit the template, it runs between 1 and 128 times, and it never waits a
-- negative time.
pub record IsBoundedStep (t : Intent) (s : ActionStep) : Type 0 where
  pub intent_fits : FitsTemplate t s.intent
  pub else_fits : OptionFits t s.else_intent
  pub repeat_low : 1 ≤ s.repeat_count
  pub repeat_high : s.repeat_count ≤ 128
  pub delay_nonneg : pos 0 ≤ℤ s.delay_after_ms

with_delay-IsBoundedStep :
    (t : Intent) (s : ActionStep) (o : Option ℤ)
    → IsBoundedStep t s
    → IsBoundedStep t (with_delay s o)
unfolding with_delay
with_delay-IsBoundedStep t s none b = b
with_delay-IsBoundedStep t s (some ms) b = elim (Bool-cases (leb_ℤ (pos 0) ms)) [
  | inl e ↦ rw e (record {
    intent_fits = b.intent_fits;
    else_fits = b.else_fits;
    repeat_low = b.repeat_low;
    repeat_high = b.repeat_high;
    delay_nonneg = ground arith;
  })
  | inr e ↦ rw e b
]

pub bounded_repeat_bounds :
    (n : ℕ) → ltb 0 n ≡ true → (1 ≤ bounded_repeat n) × (bounded_repeat n ≤ 128)
unfolding bounded_repeat
bounded_repeat_bounds n h = ground arith

with_count-IsBoundedStep :
    (t : Intent) (s : ActionStep) (n : ℕ)
    → ltb 0 n ≡ true
    → IsBoundedStep t s
    → IsBoundedStep t (record s { repeat_count = bounded_repeat n })
with_count-IsBoundedStep t s n h b =
    let (low, high) = bounded_repeat_bounds n h in
    record {
      intent_fits = b.intent_fits;
      else_fits = b.else_fits;
      repeat_low = low;
      repeat_high = high;
      delay_nonneg = b.delay_nonneg;
    }

with_repeat-IsBoundedStep :
    (t : Intent) (s : ActionStep) (o : Option ℕ)
    → IsBoundedStep t s
    → IsBoundedStep t (with_repeat s o)
unfolding with_repeat
with_repeat-IsBoundedStep t s none b = b
with_repeat-IsBoundedStep t s (some n) b = elim (Bool-cases (ltb 0 n)) [
  | inl e ↦ rw e (with_count-IsBoundedStep t s n e b)
  | inr e ↦ rw e b
]

apply_step_option-IsBoundedStep :
    (t : Intent) (s : ActionStep) (key : StepKey) (value : Text)
    → IsBoundedStep t s
    → IsBoundedStep t (apply_step_option key value s)
unfolding apply_step_option
apply_step_option-IsBoundedStep t s after value b = with_delay-IsBoundedStep t s (parse_int value) b
apply_step_option-IsBoundedStep t s required value b = record {
  intent_fits = b.intent_fits;
  else_fits = b.else_fits;
  repeat_low = b.repeat_low;
  repeat_high = b.repeat_high;
  delay_nonneg = b.delay_nonneg;
}
apply_step_option-IsBoundedStep t s repeat value b =
    with_repeat-IsBoundedStep t s (parse_unsigned value) b
apply_step_option-IsBoundedStep t s StepKey.other value b = b

apply_step_token-IsBoundedStep :
    (t : Intent) (token : Text) (s : ActionStep)
    → IsBoundedStep t s
    → IsBoundedStep t (apply_step_token token s)
unfolding apply_step_token
apply_step_token-IsBoundedStep t token s b = elim (Option-cases (key_value token)) [
  | inl e ↦ rw (e, apply_step_token) b
  | inr ((key, value), e) ↦
      rw (e, apply_step_token) (apply_step_option-IsBoundedStep t s (step_key key) value b)
]

pub apply_step_tokens-IsBoundedStep :
    (t : Intent) (fields : List Text) (s : ActionStep)
    → IsBoundedStep t s
    → IsBoundedStep t (apply_step_tokens fields s)
unfolding apply_step_tokens
apply_step_tokens-IsBoundedStep t [] s b = b
apply_step_tokens-IsBoundedStep t (field ∷ fields) s b =
    apply_step_tokens-IsBoundedStep t fields (apply_step_token (trim field) s)
      (apply_step_token-IsBoundedStep t (trim field) s b)

pub new_step-IsBoundedStep :
    (t i : Intent) (label : Text) → FitsTemplate t i → IsBoundedStep t (new_step i label)
unfolding new_step
new_step-IsBoundedStep t i label f = record {
  intent_fits = f;
  else_fits = tt;
  repeat_low = omega arith;
  repeat_high = omega arith;
  delay_nonneg = omega arith;
}
