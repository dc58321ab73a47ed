-- ===== src/Config/StoreSections.antt =====
-- internal/config/storage.go, http.go, admin.go and service.go.
use gogolook_task_api.Prelude.{
  ℕ, ◌^◌, Bool, true, not, Option, none, some, List, [], ◌∷◌, if◌then◌else◌, codes,
}
use gogolook_task_api.Prelude.Int.{ℤ, pos, is_negative}
use gogolook_task_api.Prelude.Bytes.{bytes_eq}
use gogolook_task_api.Task.{is_empty}
use gogolook_task_api.Config.Values.{Duration, seconds, minutes, int_ltb}
use gogolook_task_api.Config.Checks.{Problem, add_if, at, not_empty, positive, one_of, in_order}

-- The numbers of connections are int32 in the code, which compares them alone.
pub record Postgres : Type 0 where
  pub dsn : List ℕ
  pub max_conns : ℤ
  pub min_conns : ℤ
  pub max_conn_lifetime : Duration
  pub max_conn_idle_time : Duration
  pub health_check_period : Duration
  pub connect_timeout : Duration
  pub statement_timeout : Duration
  pub idle_in_transaction_session_timeout : Duration
  pub lock_timeout : Duration

pub record Storage : Type 0 where
  pub backend : List ℕ
  pub postgres : Postgres

unfoldable pub storage_defaults : Storage
unfolding codes
storage_defaults = record {
  backend = codes "memory";
  postgres = record {
    dsn = [];
    max_conns = pos 20;
    min_conns = pos 2;
    max_conn_lifetime = minutes 30;
    max_conn_idle_time = minutes 5;
    health_check_period = seconds 30;
    connect_timeout = seconds 5;
    statement_timeout = seconds 5;
    idle_in_transaction_session_timeout = seconds 10;
    lock_timeout = seconds 3;
  };
}

unfoldable pub validate_postgres : List ℕ → Postgres → List Problem
unfolding at add_if positive int_ltb in_order
validate_postgres prefix pg = in_order (
    add_if (is_empty pg.dsn) (at prefix "dsn") "required when storage.backend is postgres (set %s)"
    ∷ add_if (not (int_ltb (pos 0) pg.max_conns)) (at prefix "max_conns")
        "must be greater than zero"
    ∷ add_if (is_negative pg.min_conns) (at prefix "min_conns") "must not be negative"
    ∷ add_if (int_ltb pg.max_conns pg.min_conns) (at prefix "min_conns") "must not exceed %s"
    ∷ positive (at prefix "connect_timeout") pg.connect_timeout
    ∷ positive (at prefix "statement_timeout") pg.statement_timeout
    ∷ [])

unfoldable pub validate_storage : Storage → List Problem
unfolding at one_of validate_postgres in_order codes bytes_eq
validate_storage s =
    let storage = codes "storage" in
    in_order (
      one_of (at storage "backend") s.backend (codes "memory" ∷ codes "postgres" ∷ [])
      ∷ (if bytes_eq s.backend (codes "postgres")
          then validate_postgres (at storage "postgres") s.postgres
          else [])
      ∷ [])

pub record Http : Type 0 where
  pub addr : List ℕ
  pub read_header_timeout : Duration
  pub read_timeout : Duration
  pub write_timeout : Duration
  pub idle_timeout : Duration
  pub shutdown_grace : Duration
  pub max_body_bytes : ℤ
  pub trusted_proxy_hops : ℤ

unfoldable pub http_defaults : Http
unfolding codes
http_defaults = record {
  addr = codes ":8080";
  read_header_timeout = seconds 5;
  read_timeout = seconds 15;
  write_timeout = seconds 30;
  idle_timeout = seconds 60;
  shutdown_grace = seconds 20;
  max_body_bytes = pos (2 ^ 20);
  trusted_proxy_hops = pos 0;
}

unfoldable pub validate_http : Http → List Problem
unfolding at not_empty positive add_if int_ltb in_order codes
validate_http h =
    let http = codes "http" in
    in_order (
      not_empty (at http "addr") h.addr
      ∷ positive (at http "read_header_timeout") h.read_header_timeout
      ∷ positive (at http "read_timeout") h.read_timeout
      ∷ positive (at http "write_timeout") h.write_timeout
      ∷ positive (at http "idle_timeout") h.idle_timeout
      ∷ positive (at http "shutdown_grace") h.shutdown_grace
      ∷ add_if (not (int_ltb (pos 0) h.max_body_bytes)) (at http "max_body_bytes")
          "must be greater than zero"
      ∷ add_if (is_negative h.trusted_proxy_hops) (at http "trusted_proxy_hops")
          "must not be negative"
      ∷ [])

pub record Admin : Type 0 where
  pub addr : List ℕ
  pub pprof : Bool

unfoldable pub admin_defaults : Admin
unfolding codes
admin_defaults = record { addr = codes ":9090"; pprof = true }

unfoldable pub validate_admin : Admin → List Problem
unfolding at not_empty codes
validate_admin a = not_empty (at (codes "admin") "addr") a.addr

pub record Service : Type 0 where
  pub name : List ℕ
  pub instance_name : List ℕ

-- `hostname`, of what `os.Hostname` answers.
unfoldable pub hostname : Option (List ℕ) → List ℕ
unfolding codes
hostname none = codes "unknown"
hostname (some h) = if is_empty h then codes "unknown" else h

unfoldable pub service_defaults : Option (List ℕ) → Service
unfolding hostname codes
service_defaults host = record { name = codes "taskapi"; instance_name = hostname host }

unfoldable pub validate_service : Service → List Problem
unfolding at not_empty in_order codes
validate_service s = in_order (
    not_empty (at (codes "service") "name") s.name
    ∷ not_empty (at (codes "service") "instance") s.instance_name
    ∷ [])
