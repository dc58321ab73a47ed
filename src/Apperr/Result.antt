-- ===== src/Apperr/Result.antt =====
-- A result with a Go error.
use gogolook_task_api.Apperr.Error.{Err}

pub data Result {ℓ} (A : Type ℓ) : Type ℓ where
  ok : A → Result A
  err : Err → Result A
