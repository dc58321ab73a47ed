-- ===== src/Config/DeliverySections.antt =====
-- internal/config/breaker.go and webhook.go: the settings of a delivery.
use gogolook_task_api.Prelude.{
  ℕ, true, not, ◌&&◌, ◌||◌, Option, none, some, List, [], ◌∷◌, ltb, if◌then◌else◌, codes,
}
use gogolook_task_api.Prelude.Int.{ℤ, pos}
use gogolook_task_api.Prelude.Bytes.{bytes_eq}
use gogolook_task_api.Task.{is_empty}
use gogolook_task_api.Config.Values.{
  Duration, Float64, ratio, at_most_zero, above_one, milliseconds, seconds, int_ltb,
}
use gogolook_task_api.Config.Checks.{Problem, add_if, at, positive, at_least, in_order}

pub record BreakerSettings : Type 0 where
  pub failure_rate_threshold : Float64
  pub min_throughput : ℕ
  pub window : Duration
  pub open_duration : Duration
  pub half_open_max_calls : ℕ
  pub half_open_success_threshold : ℕ

pub record Breaker : Type 0 where
  pub webhook : BreakerSettings

unfoldable pub breaker_defaults : Breaker
breaker_defaults = record {
  webhook = record {
    failure_rate_threshold = ratio (pos 1) 1;
    min_throughput = 20;
    window = seconds 10;
    open_duration = seconds 30;
    half_open_max_calls = 5;
    half_open_success_threshold = 3;
  };
}

unfoldable pub validate_settings : List ℕ → BreakerSettings → List Problem
unfolding at positive add_if in_order
validate_settings prefix s = in_order (
    add_if (at_most_zero s.failure_rate_threshold || above_one s.failure_rate_threshold)
      (at prefix "failure_rate_threshold") "must be in (0, 1]"
    ∷ add_if (ltb s.min_throughput 1) (at prefix "min_throughput")
        "must be at least 1: without a floor, one failure out of one request opens the circuit"
    ∷ positive (at prefix "window") s.window
    ∷ positive (at prefix "open_duration") s.open_duration
    ∷ add_if (ltb s.half_open_max_calls 1) (at prefix "half_open_max_calls") "must be at least 1"
    ∷ add_if (ltb s.half_open_success_threshold 1) (at prefix "half_open_success_threshold")
        "must be at least 1"
    ∷ add_if
        (ltb 0 s.half_open_max_calls && ltb s.half_open_max_calls s.half_open_success_threshold)
        (at prefix "half_open_success_threshold")
        "must not exceed %s, or the circuit can never close"
    ∷ [])

unfoldable pub validate_breaker : Breaker → List Problem
unfolding at validate_settings codes
validate_breaker b = validate_settings (at (codes "breaker") "webhook") b.webhook

pub record WebhookRetry : Type 0 where
  pub max_attempts : ℤ
  pub base : Duration
  pub max : Duration
  pub budget_max_rate : Float64

pub record Webhook : Type 0 where
  pub url : List ℕ
  pub timeout : Duration
  pub retry : WebhookRetry

unfoldable pub webhook_defaults : Webhook
webhook_defaults = record {
  url = [];
  timeout = seconds 3;
  retry = record {
    max_attempts = pos 3;
    base = milliseconds 200;
    max = seconds 5;
    budget_max_rate = ratio (pos 1) 4;
  };
}

unfoldable pub validate_retry : List ℕ → WebhookRetry → List Problem
unfolding at at_least positive add_if int_ltb in_order
validate_retry prefix r = in_order (
    at_least (at prefix "max_attempts") r.max_attempts 1
    ∷ positive (at prefix "base") r.base
    ∷ positive (at prefix "max") r.max
    ∷ add_if (int_ltb r.max r.base) (at prefix "base") "must not exceed %s"
    ∷ add_if (at_most_zero r.budget_max_rate || above_one r.budget_max_rate)
        (at prefix "budget_max_rate") "must be in (0, 1]"
    ∷ [])

-- `checkHTTPURL`, of the scheme and the host that `url.Parse` reads.
unfoldable pub check_http_url : List ℕ → Option (List ℕ × List ℕ) → List Problem
unfolding add_if codes bytes_eq
check_http_url field none = add_if true field "is not a valid URL: %v"
check_http_url field (some (scheme, host)) =
    if not (bytes_eq scheme (codes "http")) && not (bytes_eq scheme (codes "https"))
    then add_if true field "scheme %q is not supported (want http or https)"
    else add_if (is_empty host) field "is missing a host"

unfoldable pub validate_webhook :
    (parse_url : List ℕ → Option (List ℕ × List ℕ)) → Webhook → List Problem
unfolding at positive validate_retry check_http_url in_order codes
validate_webhook parse_url w =
    let webhook = codes "webhook" in
    in_order (
      (if is_empty w.url then [] else check_http_url (at webhook "url") (parse_url w.url))
      ∷ positive (at webhook "timeout") w.timeout
      ∷ validate_retry (at webhook "retry") w.retry
      ∷ [])
