-- ===== src/Sequence/Tokens.antt =====
-- What the arguments and tokens of one action make of the template intent.
use intent_execution_layer.Common.{
  ◌≡◌, refl, subst, ◌≢◌, inl, inr, List, [], ◌∷◌, Option, none, some, arith, ℤ, pos, ◌≤ℤ◌, ◌<ℤ◌,
  Option-cases,
}
use intent_execution_layer.Outcome.{ok}
use intent_execution_layer.Text.{Text, text, trim}
use intent_execution_layer.Text.Number.{parse_int}
use intent_execution_layer.Platform.{Platform}
use intent_execution_layer.Intent.{
  Intent, IntentAction, activate, set_value, select, create, delete, move, ui_element,
  file_system_path, intent_action_from_string,
}
use intent_execution_layer.Intent.Json.{target_type_from_action}
use intent_execution_layer.Sequence.{
  TimingKey, delay, hold, sequence, timeout, retries, timing_key, with_timeout, with_retries,
  set_param, apply_timing, key_value, apply_intent_timing_token, apply_timing_tokens,
  with_ui_target, with_path_target, with_action, build_target, build_action,
  build_intent_from_action_args,
}

-- The intent is the template's with a known action, the target type of that action, and limits that
-- are as good as the template's.
pub record FitsTemplate (t i : Intent) : Type 0 where
  pub known : i.action ≢ IntentAction.unknown
  pub target_fits : i.target.type ≡ target_type_from_action i.action
  pub timeout_positive : pos 0 <ℤ t.constraints.timeout_ms → pos 0 <ℤ i.constraints.timeout_ms
  pub retries_nonneg : pos 0 ≤ℤ t.constraints.max_retries → pos 0 ≤ℤ i.constraints.max_retries
  pub same_verification : i.constraints.requires_verification ≡ t.constraints.requires_verification
  pub same_fallback : i.constraints.allow_fallback ≡ t.constraints.allow_fallback

with_timeout-FitsTemplate :
    (t i : Intent) (o : Option ℤ) → FitsTemplate t i → FitsTemplate t (with_timeout i o)
unfolding with_timeout
with_timeout-FitsTemplate t i none f = f
with_timeout-FitsTemplate t i (some n) f = ground arith

with_retries-FitsTemplate :
    (t i : Intent) (o : Option ℤ) → FitsTemplate t i → FitsTemplate t (with_retries i o)
unfolding with_retries
with_retries-FitsTemplate t i none f = f
with_retries-FitsTemplate t i (some n) f = ground arith

set_param-FitsTemplate :
    (platform : Platform) (t i : Intent) (key value : Text)
    → FitsTemplate t i
    → FitsTemplate t (set_param platform i key value)
unfolding set_param
set_param-FitsTemplate platform t i key value f = ground arith

apply_timing-FitsTemplate :
    (platform : Platform) (key : TimingKey) (value : Text) (t i : Intent)
    → FitsTemplate t i
    → FitsTemplate t (apply_timing platform key value i)
unfolding apply_timing
apply_timing-FitsTemplate platform key [] t i f = f
apply_timing-FitsTemplate platform delay (c ∷ value) t i f =
    set_param-FitsTemplate platform t i (text "delay_ms") (c ∷ value) f
apply_timing-FitsTemplate platform hold (c ∷ value) t i f =
    set_param-FitsTemplate platform t i (text "hold_ms") (c ∷ value) f
apply_timing-FitsTemplate platform sequence (c ∷ value) t i f =
    set_param-FitsTemplate platform t i (text "sequence_ms") (c ∷ value) f
apply_timing-FitsTemplate platform timeout (c ∷ value) t i f =
    with_timeout-FitsTemplate t i (parse_int (c ∷ value)) f
apply_timing-FitsTemplate platform retries (c ∷ value) t i f =
    with_retries-FitsTemplate t i (parse_int (c ∷ value)) f
apply_timing-FitsTemplate platform TimingKey.other (c ∷ value) t i f = f

apply_intent_timing_token-FitsTemplate :
    (platform : Platform) (token : Text) (t i : Intent)
    → FitsTemplate t i
    → FitsTemplate t (apply_intent_timing_token platform token i)
unfolding apply_intent_timing_token
apply_intent_timing_token-FitsTemplate platform token t i f =
    elim (Option-cases (key_value token)) [
      | inl e ↦ rw (e, apply_intent_timing_token) f
      | inr ((key, value), e) ↦
          rw (e, apply_intent_timing_token)
            (apply_timing-FitsTemplate platform (timing_key key) value t i f)
    ]

apply_timing_tokens-FitsTemplate :
    (platform : Platform) (tokens : List Text) (t i : Intent)
    → FitsTemplate t i
    → FitsTemplate t (apply_timing_tokens platform tokens i)
unfolding apply_timing_tokens
apply_timing_tokens-FitsTemplate platform [] t i f = f
apply_timing_tokens-FitsTemplate platform (token ∷ tokens) t i f =
    apply_timing_tokens-FitsTemplate platform tokens t (apply_intent_timing_token platform token i)
      (apply_intent_timing_token-FitsTemplate platform token t i f)

with_ui_target-FitsTemplate :
    (platform : Platform) (target : Text) (t : Intent) (a : IntentAction)
    → a ≢ IntentAction.unknown
    → target_type_from_action a ≡ ui_element
    → FitsTemplate t (with_ui_target platform target (with_action t a))
unfolding with_ui_target with_action
with_ui_target-FitsTemplate platform target t a h e = ground arith

with_path_target-FitsTemplate :
    (platform : Platform) (path : Text) (t : Intent) (a : IntentAction)
    → a ≢ IntentAction.unknown
    → target_type_from_action a ≡ file_system_path
    → FitsTemplate t (with_path_target platform path (with_action t a))
unfolding with_path_target with_action
with_path_target-FitsTemplate platform path t a h e = ground arith

ok_inj : (i j : Intent) → ok i ≡ ok j → i ≡ j
ok_inj i j h = cc

build_target-FitsTemplate :
    (platform : Platform) (t i : Intent) (a : IntentAction) (args : List Text)
    → build_target platform (with_action t a) a args ≡ ok i
    → FitsTemplate t i
unfolding build_target target_type_from_action
build_target-FitsTemplate platform t i activate (x ∷ tokens) h =
    subst (FitsTemplate t) (ok_inj _ i h) (
      apply_timing_tokens-FitsTemplate platform tokens t _
        (with_ui_target-FitsTemplate platform x t activate (ground arith) refl))
build_target-FitsTemplate platform t i select (x ∷ tokens) h =
    subst (FitsTemplate t) (ok_inj _ i h) (
      apply_timing_tokens-FitsTemplate platform tokens t _
        (with_ui_target-FitsTemplate platform x t select (ground arith) refl))
build_target-FitsTemplate platform t i set_value (x ∷ v ∷ tokens) h =
    subst (FitsTemplate t) (ok_inj _ i h) (
      apply_timing_tokens-FitsTemplate platform tokens t _ (
        set_param-FitsTemplate platform t _ (text "value") v
          (with_ui_target-FitsTemplate platform x t set_value (ground arith) refl)))
build_target-FitsTemplate platform t i create (x ∷ tokens) h =
    subst (FitsTemplate t) (ok_inj _ i h) (
      apply_timing_tokens-FitsTemplate platform tokens t _
        (with_path_target-FitsTemplate platform x t create (ground arith) refl))
build_target-FitsTemplate platform t i delete (x ∷ tokens) h =
    subst (FitsTemplate t) (ok_inj _ i h) (
      apply_timing_tokens-FitsTemplate platform tokens t _
        (with_path_target-FitsTemplate platform x t delete (ground arith) refl))
build_target-FitsTemplate platform t i move (x ∷ d ∷ tokens) h =
    subst (FitsTemplate t) (ok_inj _ i h) (
      apply_timing_tokens-FitsTemplate platform tokens t _ (
        set_param-FitsTemplate platform t _ (text "destination") d
          (with_path_target-FitsTemplate platform x t move (ground arith) refl)))
build_target-FitsTemplate platform t i a args h = cc

build_action-FitsTemplate :
    (platform : Platform) (t i : Intent) (head : Text) (a : IntentAction) (args : List Text)
    → build_action platform t head a args ≡ ok i
    → FitsTemplate t i
unfolding build_action
build_action-FitsTemplate platform t i head IntentAction.unknown args h = cc
build_action-FitsTemplate platform t i head a args h =
    build_target-FitsTemplate platform t i _ args h

-- Every intent that BuildIntentFromActionArgs returns has a known action, the target type of that
-- action, the template's flags, and a positive timeout and a retry count that is not negative if the
-- template has.
pub build_intent_from_action_args-FitsTemplate :
    (platform : Platform) (t i : Intent) (args : List Text)
    → build_intent_from_action_args platform t args ≡ ok i
    → FitsTemplate t i
unfolding build_intent_from_action_args
build_intent_from_action_args-FitsTemplate platform t i [] h = cc
build_intent_from_action_args-FitsTemplate platform t i (head ∷ args) h =
    build_action-FitsTemplate platform t i head (intent_action_from_string (trim head)) args h
