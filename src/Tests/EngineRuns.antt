-- ===== src/Tests/EngineRuns.antt =====
-- The engine on intents that are refused, that fall back and that are cached.
use intent_execution_layer.Engine.Recovery.Exhausted.{is_exhausted, execute_with_recovery_exhausted}
use intent_execution_layer.Registry.{clamp_01, find_runtime, put_runtime}
use intent_execution_layer.Registry.Record.{record_execution}
use intent_execution_layer.Registry.Scores.{composite_score, compute_decayed_score}
use intent_execution_layer.Registry.Resolve.{resolve_best}
use intent_execution_layer.Event.{publish, deliver, handlers_of}
use intent_execution_layer.Float.{float_lt, float_le, float_abs}
use intent_execution_layer.Common.{
  ℕ, ◌+◌, ◌≤◌, ◌≡◌, refl, true, false, [], ◌∷◌, some, length, pos, negsuc, arith,
}
use intent_execution_layer.Text.{text, text_eq}
use intent_execution_layer.Intent.{is_valid}
use intent_execution_layer.Execution.{is_success}
use intent_execution_layer.Engine.{
  EngineState, FastPathEntry, build_fast_path_key, primary_target_text, hash_params, publish_event,
  new_trace_id, emit, log_all,
}
use intent_execution_layer.Engine.FastPath.{
  has_no_snapshot, find_entry, fast_path_limit, try_fast_path, update_fast_path, key_eq,
  is_unusable,
}
use intent_execution_layer.Engine.FastPath.Bound.{fast_path_bound}
use intent_execution_layer.Engine.FastPath.Sound.{
  Serves, try_fast_path_sound, try_fast_path-update_fast_path,
}
use intent_execution_layer.Engine.Recovery.{
  effective_timeout_ms, max_retries_of, execute_with_recovery, announce_retry, check_deadline,
  complete_result, fail_with, run_round, run_rounds, should_retry,
}
use intent_execution_layer.Engine.Recovery.Bounds.{is_timely}
use intent_execution_layer.Engine.Execute.{
  execute_internal, execute_valid, execute_resolved, choose_adapter, announce_fallback,
  completed_result, run_chosen, run_fallbacks,
}
use intent_execution_layer.Engine.Execute.Events.{endings}
use intent_execution_layer.Engine.Execute.Ending.{endings-execute_internal}
use intent_execution_layer.Engine.Execute.Answer.{
  execute_internal_bounds, execute_internal_fallback,
}
use intent_execution_layer.Tests.{
  ascii_platform, rough_ops, steady_machine, silent_bus, quiet, click, broken, working, idle,
}

endings-execute_internal_example :
    endings (execute_internal quiet click (negsuc 0) idle).1 ≡ endings idle + 1
endings-execute_internal_example = endings-execute_internal quiet click (negsuc 0) idle

execute_internal_bounds_example :
    ((execute_internal quiet click (pos 100) idle).0.attempts ≤ max_retries_of click + 1)
    × (is_timely
          (effective_timeout_ms click.constraints (pos 100))
          (execute_internal quiet click (pos 100) idle).0
        ≡ true)
execute_internal_bounds_example = execute_internal_bounds quiet click (pos 100) idle

-- The first adapter fails twice, and the second takes over.
click_falls_back : (execute_internal quiet click (negsuc 0) idle).0.used_fallback ≡ true
unfolding execute_internal is_valid float_lt execute_valid execute_resolved choose_adapter
    try_fast_path has_no_snapshot find_entry publish_event publish deliver handlers_of new_trace_id
    resolve_best find_runtime composite_score announce_fallback completed_result run_chosen
    run_fallbacks announce_retry check_deadline complete_result effective_timeout_ms
    execute_with_recovery fail_with run_round run_rounds should_retry emit log_all record_execution
    compute_decayed_score clamp_01 float_le float_abs text put_runtime
click_falls_back = refl

execute_internal_fallback_example :
    (is_success (execute_internal quiet click (negsuc 0) idle).0 ≡ true)
    × (click.constraints.allow_fallback ≡ true)
execute_internal_fallback_example =
    execute_internal_fallback quiet click (negsuc 0) idle click_falls_back

abbrev cached : EngineState ℕ
cached = record idle {
  fast_path =
      (
        build_fast_path_key ascii_platform click,
        record {
          adapter = working;
          snapshot_ticks = 7;
          snapshot_version = 7;
          cached_at = 0;
          accessed_at = 0;
        },
      )
      ∷ [];
}

cache_hit : (try_fast_path steady_machine ascii_platform click cached).0 ≡ some working
unfolding try_fast_path build_fast_path_key has_no_snapshot find_entry key_eq text_eq
    primary_target_text text hash_params is_unusable
cache_hit = refl

try_fast_path_sound_example :
    (e : FastPathEntry ℕ) × (find_entry (build_fast_path_key ascii_platform click) cached.fast_path
      ≡ some e)
    × (e.adapter ≡ working)
    × Serves click (steady_machine.steady_now cached.world).0 e
    × (has_no_snapshot click ≡ false)
try_fast_path_sound_example =
    try_fast_path_sound steady_machine ascii_platform click cached working cache_hit

click_has_snapshot : has_no_snapshot click ≡ false
unfolding has_no_snapshot
click_has_snapshot = refl

try_fast_path-update_fast_path_example :
    (try_fast_path steady_machine ascii_platform click
      (update_fast_path steady_machine ascii_platform click working true idle)).0
    ≡ some working
try_fast_path-update_fast_path_example =
    try_fast_path-update_fast_path steady_machine ascii_platform click working idle
      click_has_snapshot refl (omega arith) (omega arith)

fast_path_bound_example :
    (length (try_fast_path steady_machine ascii_platform click cached).1.fast_path
      ≤ fast_path_limit)
    × (length (update_fast_path steady_machine ascii_platform click working true cached).fast_path
        ≤ fast_path_limit)
fast_path_bound_example =
    fast_path_bound steady_machine ascii_platform click working true cached (omega arith)

execute_with_recovery_exhausted_example :
    is_exhausted click
      (execute_with_recovery steady_machine silent_bus rough_ops (some broken) click (pos 3) idle).0
    ≡ true
execute_with_recovery_exhausted_example =
    execute_with_recovery_exhausted steady_machine silent_bus rough_ops broken click (pos 3) idle
