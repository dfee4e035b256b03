-- ===== src/Sequence/Parse/Bounds.antt =====
-- What the parser guarantees of the steps that it returns.
use intent_execution_layer.Common.{
  ℕ, suc, ◌+◌, ◌≤◌, ◌≡◌, refl, ap, ◌≢◌, ◌⊎◌, inl, inr, Bool, true, false, not, List, [], ◌∷◌, ◌++◌,
  Option, none, some, arith, All, All-append, is_empty, Bool-cases, ltb, if◌then◌else◌, subst, sym,
  length, length-append, count_if, if-intro,
}
use intent_execution_layer.Outcome.{Outcome, ok, error, >>=-ok, Outcome-cases}
use intent_execution_layer.Text.{Text, text, trim, split, normalize_ascii_lower, text_eq}
use intent_execution_layer.Text.Number.{parse_unsigned}
use intent_execution_layer.Platform.{Platform}
use intent_execution_layer.Intent.{Intent}
use intent_execution_layer.Text.Split.{split-ne-nil}
use intent_execution_layer.Sequence.{ActionStep, new_step, build_intent_from_action_args}
use intent_execution_layer.Sequence.Tokens.{
  FitsTemplate, build_intent_from_action_args-FitsTemplate,
}
use intent_execution_layer.Sequence.Steps.{
  OptionFits, IsBoundedStep, bounded_repeat_bounds, apply_step_tokens-IsBoundedStep,
  new_step-IsBoundedStep,
}
use intent_execution_layer.Sequence.Parse.{
  within, nested_action, else_action, behind_first, conditional_step, labelled, parse_if_visible,
  loop_count, repeated_step, parse_loop, trim_all, parse_plain, parse_fields, parse_raw_step,
  ParseOutput, parse_steps, require_steps, parse_dsl_steps, parse_action_sequence_dsl,
}

ok_inj {ℓ} : {A : Type ℓ} (a b : A) → Outcome.ok a ≡ ok b → a ≡ b
ok_inj a b h = cc

within_ok : (prefix : Text) (o : Outcome Intent) (i : Intent) → within prefix o ≡ ok i → o ≡ ok i
unfolding within
within_ok prefix (ok j) i h = h
within_ok prefix (error message) i h = cc

nested_action-FitsTemplate :
    (platform : Platform) (t i : Intent) (prefix field : Text)
    → nested_action platform t prefix field ≡ ok i
    → FitsTemplate t i
unfolding nested_action
nested_action-FitsTemplate platform t i prefix field h =
    build_intent_from_action_args-FitsTemplate platform t i _ (within_ok prefix _ i h)

else_action-OptionFits :
    (platform : Platform) (t : Intent) (index : ℕ) (fields : List Text) (o : Option Intent)
    → else_action platform t index fields ≡ ok o
    → OptionFits t o
unfolding else_action
else_action-OptionFits platform t index [] o h = subst (OptionFits t) (ok_inj none o h) tt
else_action-OptionFits platform t index (field ∷ fields) o h =
    elim (Bool-cases (is_empty (trim field))) [
      | inl e ↦ subst (OptionFits t) (ok_inj none o (rw e at h)) tt
      | inr e ↦
          let (i, built, same) = >>=-ok _ (λ (j : Intent). Outcome.ok (some j)) o (rw e at h) in
          subst (OptionFits t) (ok_inj (some i) o same)
            (nested_action-FitsTemplate platform t i _ field built)
    ]

conditional_step-IsBoundedStep :
    (t : Intent) (target : Text) (i : Intent) (o : Option Intent)
    → FitsTemplate t i
    → OptionFits t o
    → IsBoundedStep t (conditional_step target i o)
unfolding conditional_step new_step
conditional_step-IsBoundedStep t target i o f g = record {
  intent_fits = f;
  else_fits = g;
  repeat_low = omega arith;
  repeat_high = omega arith;
  delay_nonneg = omega arith;
}

labelled-IsBoundedStep :
    (t : Intent) (label : Text) (s : ActionStep)
    → IsBoundedStep t s
    → IsBoundedStep t (labelled label s)
unfolding labelled
labelled-IsBoundedStep t label s b = record {
  intent_fits = b.intent_fits;
  else_fits = b.else_fits;
  repeat_low = b.repeat_low;
  repeat_high = b.repeat_high;
  delay_nonneg = b.delay_nonneg;
}

parse_if_visible-IsBoundedStep :
    (platform : Platform) (t : Intent) (index : ℕ) (fields : List Text) (s : ActionStep)
    → parse_if_visible platform t index fields ≡ ok s
    → IsBoundedStep t s
unfolding parse_if_visible
parse_if_visible-IsBoundedStep platform t index [] s h = cc
parse_if_visible-IsBoundedStep platform t index (target ∷ []) s h = cc
parse_if_visible-IsBoundedStep platform t index (target ∷ then_field ∷ fields) s h =
    let (i, built, rest) = >>=-ok (nested_action platform t _ then_field) _ s h in
    let (o, else_built, same) = >>=-ok (else_action platform t index fields) _ s rest in
    subst (IsBoundedStep t) (ok_inj _ s same) (
      labelled-IsBoundedStep t _ _ (
        apply_step_tokens-IsBoundedStep t (behind_first fields) _ (
          conditional_step-IsBoundedStep t _ i o
            (nested_action-FitsTemplate platform t i _ then_field built)
            (else_action-OptionFits platform t index fields o else_built))))

loop_count_ok : (index : ℕ) (o : Option ℕ) (n : ℕ) → loop_count index o ≡ ok n → ltb 0 n ≡ true
unfolding loop_count
loop_count_ok index none n h = cc
loop_count_ok index (some repeat) n h = ground arith

repeated_step-IsBoundedStep :
    (t i : Intent) (n : ℕ) → ltb 0 n ≡ true → FitsTemplate t i → IsBoundedStep t (repeated_step i n)
unfolding repeated_step
repeated_step-IsBoundedStep t i n h f =
    let (low, high) = bounded_repeat_bounds n h in
    record {
      intent_fits = f;
      else_fits = tt;
      repeat_low = low;
      repeat_high = high;
      delay_nonneg = omega arith;
    }

parse_loop-IsBoundedStep :
    (platform : Platform) (t : Intent) (index : ℕ) (fields : List Text) (s : ActionStep)
    → parse_loop platform t index fields ≡ ok s
    → IsBoundedStep t s
unfolding parse_loop
parse_loop-IsBoundedStep platform t index [] s h = cc
parse_loop-IsBoundedStep platform t index (count ∷ []) s h = cc
parse_loop-IsBoundedStep platform t index (count ∷ expression ∷ fields) s h =
    let (n, counted, rest) = >>=-ok (loop_count index (parse_unsigned (trim count))) _ s h in
    let (i, built, same) = >>=-ok (nested_action platform t _ expression) _ s rest in
    subst (IsBoundedStep t) (ok_inj _ s same) (
      apply_step_tokens-IsBoundedStep t fields _ (
        repeated_step-IsBoundedStep t i n
          (loop_count_ok index (parse_unsigned (trim count)) n counted)
          (nested_action-FitsTemplate platform t i _ expression built)))

parse_plain-IsBoundedStep :
    (platform : Platform) (t : Intent) (index : ℕ) (fields : List Text) (s : ActionStep)
    → parse_plain platform t index fields ≡ ok s
    → IsBoundedStep t s
unfolding parse_plain
parse_plain-IsBoundedStep platform t index fields s h =
    let (i, built, same) =
      >>=-ok (within _ (build_intent_from_action_args platform t (trim_all fields))) _ s h in
    subst (IsBoundedStep t) (ok_inj _ s same) (
      apply_step_tokens-IsBoundedStep t fields _ (
        new_step-IsBoundedStep t i _
          (build_intent_from_action_args-FitsTemplate platform t i _ (within_ok _ _ i built))))

abbrev GivesBounded : Intent → Outcome ActionStep → Type 0
GivesBounded t o = (s : ActionStep) → o ≡ ok s → IsBoundedStep t s

-- The parse of a step that is not blank gives a step, within bounds, or fails.
abbrev GivesStep : Intent → Outcome (Option ActionStep) → Type 0
GivesStep t o =
    (found : Option ActionStep)
    → o ≡ ok found
    → (s : ActionStep) × (found ≡ some s) × IsBoundedStep t s

parse_fields-GivesStep :
    (platform : Platform) (t : Intent) (index : ℕ) (fields : List Text)
    → fields ≢ []
    → GivesStep t (parse_fields platform t index fields)
unfolding parse_fields
parse_fields-GivesStep platform t index [] nonempty found h = absurd (nonempty refl)
parse_fields-GivesStep platform t index (first ∷ fields) nonempty found h =
    let head = normalize_ascii_lower (trim first) in
    let (s, parsed, same) =
      >>=-ok
        (if text_eq head (text "if_visible")
          then parse_if_visible platform t index fields
          else if text_eq head (text "loop")
          then parse_loop platform t index fields
          else parse_plain platform t index (first ∷ fields))
        (λ (step : ActionStep). Outcome.ok (some step)) found h in
    (s, sym (ok_inj (some s) found same), branches s parsed)
  where
    branches : GivesBounded t (
        if text_eq (normalize_ascii_lower (trim first)) (text "if_visible")
        then parse_if_visible platform t index fields
        else if text_eq (normalize_ascii_lower (trim first)) (text "loop")
        then parse_loop platform t index fields
        else parse_plain platform t index (first ∷ fields))
    branches =
        if-intro (GivesBounded t) _ _ _ (parse_if_visible-IsBoundedStep platform t index fields) (
          if-intro (GivesBounded t) _ _ _ (parse_loop-IsBoundedStep platform t index fields)
            (parse_plain-IsBoundedStep platform t index (first ∷ fields)))

-- A raw step is blank if only white space is in it.
abbrev pub is_blank : Text → Bool
is_blank raw = is_empty (trim raw)

parse_raw_step-blank :
    (platform : Platform) (t : Intent) (index : ℕ) (raw : Text)
    → is_blank raw ≡ true
    → parse_raw_step platform t index raw ≡ ok none
unfolding parse_raw_step
parse_raw_step-blank platform t index raw e = rw e refl

parse_raw_step-GivesStep :
    (platform : Platform) (t : Intent) (index : ℕ) (raw : Text)
    → is_blank raw ≡ false
    → GivesStep t (parse_raw_step platform t index raw)
unfolding parse_raw_step
parse_raw_step-GivesStep platform t index raw e found h =
    parse_fields-GivesStep platform t index _ (split-ne-nil (trim raw) b'|') found (rw e at h)

-- All steps are within bounds, and without a failure each raw step that is not blank has given one.
record IsParsed (t : Intent) (raws : List Text) (before : List ActionStep) (output : ParseOutput)
    : Type 0 where
  bounded : All (IsBoundedStep t) output.steps
  counted :
      output.failure ≡ none
      → length output.steps ≡ length before + count_if (λ raw. not (is_blank raw)) raws

parse_steps-IsParsed :
    (platform : Platform) (t : Intent) (index : ℕ) (raws : List Text) (before : List ActionStep)
    → All (IsBoundedStep t) before
    → IsParsed t raws before (parse_steps platform t index raws before)
unfolding parse_steps
parse_steps-IsParsed platform t index [] before b = record {
  bounded = b;
  counted = λ e. omega arith;
}
parse_steps-IsParsed platform t index (raw ∷ raws) before b = elim (Bool-cases (is_blank raw)) [
  | inl blank ↦
      let ih = parse_steps-IsParsed platform t (suc index) raws before b in
      rw (parse_raw_step-blank platform t index raw blank, parse_steps)
        (record { bounded = ih.bounded; counted = λ e. ground (arith, ih.counted e) })
  | inr filled ↦ elim (Outcome-cases (parse_raw_step platform t index raw)) [
    | inl (message, e) ↦ rw (e, parse_steps) (record { bounded = b; counted = λ failed. cc })
    | inr (found, e) ↦
        let (s, same, bounded) = parse_raw_step-GivesStep platform t index raw filled found e in
        let ih =
          parse_steps-IsParsed platform t (suc index) raws (before ++ s ∷ [])
            (All-append (IsBoundedStep t) before (s ∷ []) b (bounded, tt)) in
        rw (e, same, parse_steps)
          (record {
            bounded = ih.bounded;
            counted = λ kept. ground (arith, ih.counted kept, length-append before (s ∷ []));
          })
  ]
]

-- The check behind the loop leaves the steps, and lets nothing pass that has none.
require_steps_cases :
    (output : ParseOutput)
    → ((require_steps output).steps ≡ output.steps)
      × (((require_steps output).failure ≢ none)
          ⊎ ((output.failure ≡ none) × (1 ≤ length output.steps)))
unfolding require_steps
require_steps_cases output = ground arith

require_steps-IsParsed :
    (t : Intent) (raws : List Text) (output : ParseOutput)
    → IsParsed t raws [] output
    → IsParsed t raws [] (require_steps output)
      × (((require_steps output).failure ≢ none) ⊎ (1 ≤ length (require_steps output).steps))
require_steps-IsParsed t raws output p =
    let (kept, cases) = require_steps_cases output in
    let bounded = subst (All (IsBoundedStep t)) (sym kept) p.bounded in
    elim cases [
      | inl failed ↦ (record { bounded = bounded; counted = λ k. absurd (failed k) }, inl failed)
      | inr (passed, some_step) ↦ (
        record {
          bounded = bounded;
          counted = λ k. omega (arith, ap length kept, p.counted passed);
        },
        inr (omega (arith, ap length kept)),
      )
    ]

parse_dsl_steps-IsParsed :
    (platform : Platform) (sequence_dsl : Text) (t : Intent)
    → IsParsed t (split sequence_dsl b';') [] (parse_dsl_steps platform sequence_dsl t)
      × (((parse_dsl_steps platform sequence_dsl t).failure ≢ none)
          ⊎ (1 ≤ length (parse_dsl_steps platform sequence_dsl t).steps))
unfolding parse_dsl_steps
parse_dsl_steps-IsParsed platform sequence_dsl t = elim (Bool-cases (is_blank sequence_dsl)) [
  | inl e ↦ rw e (record { bounded = tt; counted = λ k. cc }, inl (λ k. cc))
  | inr e ↦ rw e (
      require_steps-IsParsed t _ _
        (parse_steps-IsParsed platform t 0 (split sequence_dsl b';') [] tt))
]

-- Whatever the text, the steps that are left in the sequence have intents that fit the template, run
-- between 1 and 128 times each and never wait a negative time.
pub parse_action_sequence_dsl-IsBounded :
    (platform : Platform) (sequence_dsl : Text) (t : Intent)
    → All (IsBoundedStep t) (parse_action_sequence_dsl platform sequence_dsl t).0.steps
unfolding parse_action_sequence_dsl
parse_action_sequence_dsl-IsBounded platform sequence_dsl t =
    (parse_dsl_steps-IsParsed platform sequence_dsl t).0.bounded

-- If the parser reports no failure there is a step for each part between `;` that is not blank, and
-- at least one.
pub parse_action_sequence_dsl_complete :
    (platform : Platform) (sequence_dsl : Text) (t : Intent)
    → (parse_action_sequence_dsl platform sequence_dsl t).1 ≡ none
    → (length (parse_action_sequence_dsl platform sequence_dsl t).0.steps
        ≡ count_if (λ raw. not (is_blank raw)) (split sequence_dsl b';'))
      × (1 ≤ length (parse_action_sequence_dsl platform sequence_dsl t).0.steps)
unfolding parse_action_sequence_dsl
parse_action_sequence_dsl_complete platform sequence_dsl t h =
    let (parsed, cases) = parse_dsl_steps-IsParsed platform sequence_dsl t in
    (
      omega (arith, parsed.counted h),
      elim cases [ inl failed ↦ absurd (failed h) | inr some_step ↦ some_step ],
    )
