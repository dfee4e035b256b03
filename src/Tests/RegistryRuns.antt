-- ===== src/Tests/RegistryRuns.antt =====
-- The registry at two adapters.
use intent_execution_layer.Common.{◌≡◌, refl, true, some, any, Among}
use intent_execution_layer.Common.Optional.{has_value}
use intent_execution_layer.Float.{float_lt, float_le, float_abs}
use intent_execution_layer.Registry.{find_runtime, clamp_01}
use intent_execution_layer.Registry.Scores.{compute_decayed_score, composite_score}
use intent_execution_layer.Registry.Resolve.{resolve_best}
use intent_execution_layer.Registry.Resolve.Selection.{resolve_best_found, resolve_best_sound}
use intent_execution_layer.Tests.{rough_ops, steady_machine, click, broken, two_adapters}

best_is_broken :
    (resolve_best rough_ops steady_machine.steady_now two_adapters click 0).0 ≡ some broken
unfolding resolve_best find_runtime float_lt composite_score compute_decayed_score clamp_01 float_le
    float_abs
best_is_broken = refl

resolve_best_found_example :
    has_value (resolve_best rough_ops steady_machine.steady_now two_adapters click 0).0
    ≡ any (λ a. a.can_execute click) two_adapters.adapters
resolve_best_found_example =
    resolve_best_found rough_ops steady_machine.steady_now two_adapters click 0

resolve_best_sound_example : Among broken two_adapters.adapters × (broken.can_execute click ≡ true)
resolve_best_sound_example =
    resolve_best_sound rough_ops steady_machine.steady_now two_adapters click 0 broken
      best_is_broken
