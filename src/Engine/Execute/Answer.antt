-- ===== src/Engine/Execute/Answer.antt =====
-- What an execution answers.
use intent_execution_layer.Common.{
  ℕ, ◌+◌, ◌≤◌, ◌≡◌, refl, sym, subst, Bool, true, false, not, ◌&&◌, ◌||◌, List, [], ◌∷◌, Option,
  none, some, ◌==◌, ℤ, ◌⊎◌, arith, inl, inr, Bool-cases, Option-cases, is_empty,
}
use intent_execution_layer.Text.{Text}
use intent_execution_layer.Intent.{Intent, is_valid, failed, status_eq}
use intent_execution_layer.Execution.{ExecutionResult, is_success}
use intent_execution_layer.Registry.{Adapter}
use intent_execution_layer.Engine.{EngineState, new_trace_id}
use intent_execution_layer.Engine.Recovery.{
  effective_timeout_ms, max_retries_of, execute_with_recovery,
}
use intent_execution_layer.Engine.Recovery.Bounds.{is_timely, execute_with_recovery_bounds}
use intent_execution_layer.Engine.Execute.{
  Surroundings, refused_result, refuse_invalid, refuse_unresolved, announce_fallback, run_fallbacks,
  run_chosen, completed_result, execute_resolved, execute_valid, execute_internal,
}
use intent_execution_layer.Engine.Execute.Events.{Verdict-cases}

module _ {W : Type 0} (env : Surroundings W) where
  open env use {machine, bus, platform, ops}

  -- The result is what one adapter gave, run with recovery.
  abbrev Given : Intent → ℤ → ExecutionResult → Type 0
  Given i override r =
      (c : Adapter W) × (s : EngineState W) × (r
        ≡ (execute_with_recovery machine bus ops (some c) i override s).0)

  run_fallbacks-Given :
      (tried : ℕ) (i : Intent) (override : ℤ) (candidates : List (Adapter W)) (s : EngineState W)
      (c : Adapter W) (r : ExecutionResult)
      → (run_fallbacks env tried i override candidates s).0 ≡ some (c, r)
      → Given i override r × (is_success r ≡ true)
  unfolding run_fallbacks
  run_fallbacks-Given tried i override [] s c r = λ h. cc
  run_fallbacks-Given tried i override (a ∷ candidates) s c r =
      let s0 = announce_fallback env a s in
      let (q, s') = execute_with_recovery machine bus ops (some a) i override s0 in
      elim (Bool-cases (a.address == tried || not (a.can_execute i))) [
        | inl e ↦ rw (e, run_fallbacks) (run_fallbacks-Given tried i override candidates s c r)
        | inr e ↦ elim (Bool-cases (is_success q)) [
          | inl f ↦
              rw (e, f, run_fallbacks)
                (λ h.
                  let same : q ≡ r = cc h in
                  ((a, s0, sym same), subst (λ x. is_success x ≡ true) same f))
          | inr f ↦
              rw (e, f, run_fallbacks) (run_fallbacks-Given tried i override candidates s' c r)
        ]
      ]

  run_chosen-Given :
      (i : Intent) (override : ℤ) (a : Adapter W) (s : EngineState W)
      → Given i override (run_chosen env i override a s).0.0
        × (((run_chosen env i override a s).0.2 ≡ false)
            ⊎ ((is_success (run_chosen env i override a s).0.0 ≡ true)
                × (i.constraints.allow_fallback ≡ true)))
  unfolding run_chosen
  run_chosen-Given i override a s =
      let (r, s1) = execute_with_recovery machine bus ops (some a) i override s in
      let (found, s2) = run_fallbacks env a.address i override s1.registry.adapters s1 in
      elim (Bool-cases (status_eq r.status failed && i.constraints.allow_fallback)) [
        | inr e ↦ rw (e, run_chosen) ((a, s, refl), inl refl)
        | inl e ↦ elim (Option-cases found) [
          | inl f ↦ rw (e, f, run_chosen) ((a, s, refl), inl refl)
          | inr ((c, q), f) ↦
              let (given, succeeded) =
                run_fallbacks-Given a.address i override s1.registry.adapters s1 c q f in
              rw (e, f, run_chosen) (given, inr (succeeded, ground arith))
        ]
      ]

  -- What holds of every answer: few attempts, no late success, no fallback that failed or was not
  -- allowed.
  abbrev Answers : Intent → ℤ → ExecutionResult → Type 0
  Answers i override r =
      (r.attempts ≤ max_retries_of i + 1)
      × (is_timely (effective_timeout_ms i.constraints override) r ≡ true)
      × ((r.used_fallback ≡ false)
          ⊎ ((is_success r ≡ true) × (i.constraints.allow_fallback ≡ true)))

  completed_result-Answers :
      (t : Text) (i : Intent) (override : ℤ) (fallback : Bool) (a : Adapter W) (r : ExecutionResult)
      → r.attempts ≤ max_retries_of i + 1
      → is_timely (effective_timeout_ms i.constraints override) r ≡ true
      → (fallback ≡ false) ⊎ ((is_success r ≡ true) × (i.constraints.allow_fallback ≡ true))
      → Answers i override (completed_result env t fallback a r)
  unfolding completed_result is_timely
  completed_result-Answers t i override fallback a r few timely sound =
      elim (Bool-cases (is_empty r.method)) [
        | inl e ↦ rw (e, completed_result) (few, timely, sound)
        | inr e ↦ rw (e, completed_result) (few, timely, sound)
      ]

  execute_resolved-Answers :
      (t : Text) (i : Intent) (override : ℤ) (chosen : Option (Adapter W)) (s : EngineState W)
      → Answers i override (execute_resolved env t i override chosen s).0
  unfolding execute_resolved refuse_unresolved refused_result is_timely
  execute_resolved-Answers t i override none s = (omega arith, refl, inl refl)
  execute_resolved-Answers t i override (some a) s =
      let ((r, used, fallback), s1) = run_chosen env i override a s in
      let ((c, s2, given), sound) = run_chosen-Given i override a s in
      let (few, timely) = execute_with_recovery_bounds machine bus ops c i override s2 in
      completed_result-Answers t i override fallback used r
        (subst (λ q. q.attempts ≤ max_retries_of i + 1) (sym given) few)
        (subst (λ q. is_timely (effective_timeout_ms i.constraints override) q ≡ true) (sym given)
          timely)
        sound

  execute_internal-Answers :
      (i : Intent) (override : ℤ) (s : EngineState W)
      → Answers i override (execute_internal env i override s).0
  unfolding execute_internal execute_valid refuse_invalid refused_result is_timely
  execute_internal-Answers i override s =
      let (t, s1) = new_trace_id machine s in
      elim (Verdict-cases (is_valid i)) [
        | inl e ↦ rw (e, execute_internal) (execute_resolved-Answers t i override _ _)
        | inr (why, e) ↦ rw (e, execute_internal) (omega arith, refl, inl refl)
      ]

  -- Whatever the intent, the time budget, the adapters and the cache are, an execution reports at
  -- most one attempt more than the intent's retries, and the duration that a result which succeeds or
  -- partly succeeds reports is at most the effective timeout.
  pub execute_internal_bounds :
      (i : Intent) (override : ℤ) (s : EngineState W)
      → ((execute_internal env i override s).0.attempts ≤ max_retries_of i + 1)
        × (is_timely
              (effective_timeout_ms i.constraints override)
              (execute_internal env i override s).0
            ≡ true)
  execute_internal_bounds i override s =
      let (few, timely, sound) = execute_internal-Answers i override s in (few, timely)

  -- A result that says a fallback was used succeeded, or partly so, and the intent allows fallbacks.
  pub execute_internal_fallback :
      (i : Intent) (override : ℤ) (s : EngineState W)
      → (execute_internal env i override s).0.used_fallback ≡ true
      → (is_success (execute_internal env i override s).0 ≡ true)
        × (i.constraints.allow_fallback ≡ true)
  execute_internal_fallback i override s h =
      let (few, timely, sound) = execute_internal-Answers i override s in
      elim sound [ inl e ↦ cc (e, h) | inr both ↦ both ]
