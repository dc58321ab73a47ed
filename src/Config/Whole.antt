-- ===== src/Config/Whole.antt =====
-- internal/config/config.go: the whole configuration.
use gogolook_task_api.Prelude.{ℕ, Bool, not, ◌&&◌, false, Option, none, some, List, [], ◌∷◌, codes}
use gogolook_task_api.Prelude.Int.{pos}
use gogolook_task_api.Prelude.Bytes.{bytes_eq}
use gogolook_task_api.Auth.{split_host, cut_last}
use gogolook_task_api.Config.Values.{int_ltb}
use gogolook_task_api.Config.Checks.{Problem, add_if, in_order, err_of}
use gogolook_task_api.Config.QueueSection.{Queue, queue_defaults, validate_queue}
use gogolook_task_api.Config.StoreSections.{
  Storage, Http, Admin, Service, storage_defaults, http_defaults, admin_defaults, service_defaults,
  validate_storage, validate_http, validate_admin, validate_service,
}
use gogolook_task_api.Config.CallerSections.{
  RateLimit, Idempotency, Auth, rate_limit_defaults, idempotency_defaults, auth_defaults,
  validate_rate_limit, validate_idempotency, validate_auth,
}
use gogolook_task_api.Config.DeliverySections.{
  Breaker, Webhook, breaker_defaults, webhook_defaults, validate_breaker, validate_webhook,
}
use gogolook_task_api.Config.ServerSections.{
  Logging, Observability, logging_defaults, observability_defaults, validate_logging,
  validate_observability,
}

pub record Config : Type 0 where
  pub service : Service
  pub logging : Logging
  pub http : Http
  pub admin : Admin
  pub storage : Storage
  pub queue : Queue
  pub idempotency : Idempotency
  pub auth : Auth
  pub ratelimit : RateLimit
  pub breaker : Breaker
  pub webhook : Webhook
  pub observability : Observability

-- `Defaults`, on a host of that name.
unfoldable pub defaults : Option (List ℕ) → Config
unfolding queue_defaults storage_defaults http_defaults admin_defaults service_defaults
    rate_limit_defaults idempotency_defaults auth_defaults breaker_defaults webhook_defaults
    logging_defaults observability_defaults
defaults host = record {
  service = service_defaults host;
  logging = logging_defaults;
  http = http_defaults;
  admin = admin_defaults;
  storage = storage_defaults;
  queue = queue_defaults;
  idempotency = idempotency_defaults;
  auth = auth_defaults;
  ratelimit = rate_limit_defaults;
  breaker = breaker_defaults;
  webhook = webhook_defaults;
  observability = observability_defaults;
}

-- The port is "0", of an address that `net.SplitHostPort` splits.
abbrev pub is_zero_port : Option (List ℕ) → Option (List ℕ × List ℕ) → Bool
is_zero_port none parts = false
is_zero_port (some host) none = false
is_zero_port (some host) (some (before, port)) = bytes_eq port (0x30 ∷ [])

-- `ephemeralPort`.
unfoldable pub ephemeral_port : List ℕ → Bool
unfolding split_host cut_last bytes_eq
ephemeral_port addr = is_zero_port (split_host (cut_last 0x3a addr)) (cut_last 0x3a addr)

-- `validateAcrossSections`.
unfoldable pub validate_across : Config → List Problem
unfolding add_if ephemeral_port int_ltb in_order codes bytes_eq
validate_across c = in_order (
    add_if (bytes_eq c.admin.addr c.http.addr && not (ephemeral_port c.admin.addr))
      (codes "admin.addr")
      "must differ from http.addr: pprof and metrics must never be reachable on the public listener"
    ∷ add_if
        (int_ltb (pos 0) c.webhook.timeout
          && (int_ltb (pos 0) c.breaker.webhook.open_duration
              && int_ltb c.breaker.webhook.open_duration c.webhook.timeout))
        (codes "webhook.timeout") "must not exceed breaker.webhook.open_duration"
    ∷ [])

-- What each of `sections` reports, and the rules across them.
unfoldable pub section_problems :
    (parse_url : List ℕ → Option (List ℕ × List ℕ)) → Config → List (List Problem)
unfolding validate_service validate_logging validate_http validate_admin validate_storage
    validate_queue validate_idempotency validate_auth validate_rate_limit validate_breaker
    validate_webhook validate_observability validate_across
section_problems parse_url c =
    validate_service c.service
    ∷ validate_logging c.logging
    ∷ validate_http c.http
    ∷ validate_admin c.admin
    ∷ validate_storage c.storage
    ∷ validate_queue c.queue
    ∷ validate_idempotency c.idempotency
    ∷ validate_auth c.auth
    ∷ validate_rate_limit c.ratelimit
    ∷ validate_breaker c.breaker
    ∷ validate_webhook parse_url c.webhook
    ∷ validate_observability c.observability
    ∷ validate_across c
    ∷ []

-- `Validate`: none, or every problem.
unfoldable pub validate :
    (parse_url : List ℕ → Option (List ℕ × List ℕ)) → Config → Option (List Problem)
unfolding section_problems in_order err_of
validate parse_url c = err_of (in_order (section_problems parse_url c))
