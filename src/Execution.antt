-- ===== src/Execution.antt =====
-- ExecutionResult of core/execution/include/Adapter.h, and the clock of the machine.
use intent_execution_layer.Common.{ℕ, Bool, ◌||◌, ◌-◌, ◌/◌, ℤ}
use intent_execution_layer.Text.{Text}
use intent_execution_layer.Intent.{ExecutionStatus, success, partial, status_eq}

pub record ExecutionResult : Type 0 where
  pub status : ExecutionStatus
  pub verified : Bool
  pub used_fallback : Bool
  pub method : Text
  pub message : Text
  -- milliseconds
  pub duration : ℤ
  pub attempts : ℕ
  pub trace_id : Text

-- ExecutionResult::IsSuccess
abbrev pub is_success : ExecutionResult → Bool
is_success r = status_eq r.status success || status_eq r.status partial

-- Time points of the steady clock are nanoseconds.
abbrev pub ns_per_ms : ℕ
ns_per_ms = 1_000_000

-- duration_cast<milliseconds>(end - begin); the clock does not run backwards
abbrev pub elapsed_ms : ℕ → ℕ → ℕ
elapsed_ms begin end = (end - begin) / ns_per_ms
