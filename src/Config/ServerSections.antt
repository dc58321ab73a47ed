-- ===== src/Config/ServerSections.antt =====
-- internal/config/logging.go and observability.go.
use gogolook_task_api.Prelude.{
  ℕ, Bool, true, false, not, ◌&&◌, ◌||◌, List, [], ◌∷◌, map, ◌==◌, if◌then◌else◌, codes,
}
use gogolook_task_api.Prelude.Int.{pos}
use gogolook_task_api.Task.{trim_space, is_empty}
use gogolook_task_api.Auth.{lower}
use gogolook_task_api.Config.Values.{Float64, ratio, below_zero, above_one}
use gogolook_task_api.Config.Checks.{Problem, add_if, at, is_one_of, one_of, in_order}

pub record Logging : Type 0 where
  pub level : List ℕ
  pub format : List ℕ

unfoldable pub logging_defaults : Logging
unfolding codes
logging_defaults = record { level = codes "info"; format = codes "auto" }

-- `unicode.ToLower`, where the outcome is an ASCII letter; other letters stay as they are here.
abbrev pub to_lower : ℕ → ℕ
to_lower c = if c == 0x130 then 0x69 else if c == 0x212a then 0x6b else lower c

-- `checkLevel`: whether the level is known.
unfoldable pub check_level : List ℕ → Bool
unfolding codes trim_space is_one_of
check_level s = is_one_of (map to_lower (trim_space s)) (
    codes "trace"
    ∷ codes "debug"
    ∷ codes "info"
    ∷ codes "warn"
    ∷ codes "warning"
    ∷ codes "error"
    ∷ codes "err"
    ∷ [])

unfoldable pub validate_logging : Logging → List Problem
unfolding at add_if one_of check_level in_order codes
validate_logging l = in_order (
    add_if (not (check_level l.level)) (at (codes "logging") "level") "%s"
    ∷ one_of (at (codes "logging") "format") l.format
        (codes "auto" ∷ codes "text" ∷ codes "json" ∷ [])
    ∷ [])

pub record Metrics : Type 0 where
  pub enabled : Bool
  pub native_histograms : Bool

pub record Tracing : Type 0 where
  pub enabled : Bool
  pub otlp_endpoint : List ℕ
  pub sample_ratio : Float64

pub record Observability : Type 0 where
  pub metrics : Metrics
  pub tracing : Tracing

unfoldable pub observability_defaults : Observability
observability_defaults = record {
  metrics = record { enabled = true; native_histograms = true };
  tracing = record { enabled = false; otlp_endpoint = []; sample_ratio = ratio (pos 1) 9 };
}

unfoldable pub validate_observability : Observability → List Problem
unfolding at add_if in_order codes
validate_observability o = in_order (
    add_if (o.tracing.enabled && is_empty o.tracing.otlp_endpoint)
      (at (codes "observability") "tracing.otlp_endpoint") "required when tracing is enabled"
    ∷ add_if (below_zero o.tracing.sample_ratio || above_one o.tracing.sample_ratio)
        (at (codes "observability") "tracing.sample_ratio") "must be between 0 and 1"
    ∷ [])
