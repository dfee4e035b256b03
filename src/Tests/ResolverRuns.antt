-- ===== src/Tests/ResolverRuns.antt =====
-- Resolutions of a target, twice.
use mathlib.Core.List.{Perm}
use mathlib.Core.Option
use intent_execution_layer.Common.{
  ℕ, ◌+◌, ◌≡◌, true, not, ◌&&◌, [], ◌∷◌, pos, count_if, arith, none, some, map, take, if◌then◌else◌,
}
use intent_execution_layer.Common.Sort.{IsSorted}
use intent_execution_layer.Outcome.{ok}
use intent_execution_layer.Text.{text, text_eq}
use intent_execution_layer.Float.{zero_f}
use intent_execution_layer.Intent.{activate}
use intent_execution_layer.Resolver.{Scoring, ResolutionResult, is_better, resolve}
use intent_execution_layer.Resolver.Laws.{with_action, first_match, is_close_call, resolve_lem}
use intent_execution_layer.Intents.{
  RegistrySnapshot, IntentsState, RegistryPort, from_source, replace_intents_by_source,
}
use intent_execution_layer.Intents.Refresh.Laws.{count_if-replace_intents_by_source}
use intent_execution_layer.Intents.Resolve.{resolve_target, time_resolution}
use intent_execution_layer.Intents.Resolve.Cache.{resolve_target-again}
use intent_execution_layer.Tests.{ascii_platform, rough_ops, rough_doubles, click, nameless}

abbrev roughly : Scoring ℕ
roughly = record {
  platform = ascii_platform;
  floats = rough_ops;
  doubles = rough_doubles;
  tick_count = λ w. (w, w + 1);
}

abbrev resolved : ResolutionResult
resolved =
    (resolve roughly activate (text "OK") (click ∷ nameless ∷ click ∷ [])
      (record { x = pos 0; y = pos 0 }) [] zero_f 0).0

resolve_lem_example :
    Perm
      (with_action activate (click ∷ nameless ∷ click ∷ []))
      (map (λ m. m.intent) resolved.ranked)
    × IsSorted is_better resolved.ranked
    × (resolved.best_match ≡ (
        if is_close_call roughly zero_f resolved.ranked then none else first_match resolved.ranked))
    × (Option.map (λ a. a.candidates) resolved.ambiguity ≡ (
        if is_close_call roughly zero_f resolved.ranked
        then some (take 2 resolved.ranked)
        else none))
resolve_lem_example =
    resolve_lem roughly activate (text "OK") (click ∷ nameless ∷ click ∷ [])
      (record { x = pos 0; y = pos 0 }) [] zero_f 0

abbrev snapshot : RegistrySnapshot
snapshot = record {
  valid = true;
  sequence = 3;
  cursor_position = record { x = pos 0; y = pos 0 };
  ui_elements = [];
}

abbrev calm : RegistryPort ℕ ℕ
calm = record {
  capture = λ w. (snapshot, w);
  build_graph = λ s. ok 0;
  adapters = [];
  publish = λ event w. w;
  system_now = λ w. (w, w + 1);
  steady_now = λ w. (w, w + 1);
  log = λ message w. w;
  log_resolution_timing = λ ms w. w + ms;
  scoring = roughly;
}

abbrev one_intent : IntentsState ℕ ℕ
one_intent = record {
  world = 0;
  last_snapshot = snapshot;
  graph = 0;
  intents = click ∷ [];
  recency_by_intent_id = [];
  resolution_cache = [];
  cache_epoch = 1;
}

resolve_target-again_example :
    resolve_target calm activate (text "OK") (resolve_target calm activate (text "OK") one_intent).1
    ≡ (
      (resolve_target calm activate (text "OK") one_intent).0,
      record (resolve_target calm activate (text "OK") one_intent).1 {
        world =
            time_resolution calm
              (calm.steady_now (resolve_target calm activate (text "OK") one_intent).1.world).0
              (calm.steady_now (resolve_target calm activate (text "OK") one_intent).1.world).1;
      },
    )
resolve_target-again_example =
    resolve_target-again calm activate (text "OK") one_intent (omega arith)

count_if-replace_intents_by_source_example :
    count_if
      (λ i. text_eq i.id (text "i-1"))
      (replace_intents_by_source (text "uia") (click ∷ []) (click ∷ nameless ∷ []))
    ≡ count_if
        (λ i. not (from_source (text "uia") i) && text_eq i.id (text "i-1"))
        (click ∷ nameless ∷ [])
      + count_if (λ i. text_eq i.id (text "i-1")) (click ∷ [])
count_if-replace_intents_by_source_example =
    count_if-replace_intents_by_source (text "uia") (click ∷ []) (click ∷ nameless ∷ [])
      (λ i. text_eq i.id (text "i-1"))
