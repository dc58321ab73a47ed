-- ===== src/Config/CallerSections.antt =====
-- internal/config/ratelimit.go, idempotency.go and auth.go: the settings on callers.
use gogolook_task_api.Prelude.{
  ℕ, suc, String, Bool, true, false, not, ◌&&◌, ◌||◌, ◌==◌, leb, length, Option, none, some, List,
  [], ◌∷◌, ◌++◌, map, if◌then◌else◌, codes,
}
use gogolook_task_api.Prelude.Int.{ℤ, pos}
use gogolook_task_api.Prelude.Bytes.{bytes_eq, find_key, put_key}
use gogolook_task_api.Prelude.Decimal.{decimal}
use gogolook_task_api.Task.{is_empty}
use gogolook_task_api.Auth.{AuthClient, lower}
use gogolook_task_api.Config.Values.{
  Duration, Float64, ratio, at_most_zero, minutes, hours, int_ltb,
}
use gogolook_task_api.Config.Checks.{
  Problem, add_if, at, not_empty, positive, at_least, one_of, in_order,
}

pub record Quota : Type 0 where
  pub rate : Float64
  pub burst : ℤ

pub record Tiers : Type 0 where
  pub anonymous : Quota
  pub standard : Quota
  pub internal : Quota

pub record RateLimit : Type 0 where
  pub enabled : Bool
  pub global_inflight : ℤ
  pub key_ttl : Duration
  pub sweep_interval : Duration
  pub tiers : Tiers

unfoldable pub rate_limit_defaults : RateLimit
rate_limit_defaults = record {
  enabled = true;
  global_inflight = pos 200;
  key_ttl = minutes 10;
  sweep_interval = minutes 1;
  tiers = record {
    anonymous = record { rate = ratio (pos 10) 0; burst = pos 20 };
    standard = record { rate = ratio (pos 100) 0; burst = pos 200 };
    internal = record { rate = ratio (pos 1000) 0; burst = pos 2000 };
  };
}

unfoldable pub validate_quota : List ℕ → Quota → List Problem
unfolding at add_if at_least
validate_quota prefix q =
    add_if (at_most_zero q.rate) (at prefix "rate") "must be greater than zero"
    ++ at_least (at prefix "burst") q.burst 1

unfoldable pub validate_rate_limit : RateLimit → List Problem
unfolding at at_least positive validate_quota in_order codes
validate_rate_limit r =
    let ratelimit = codes "ratelimit" in
    if not r.enabled
    then []
    else in_order (
        at_least (at ratelimit "global_inflight") r.global_inflight 1
        ∷ positive (at ratelimit "key_ttl") r.key_ttl
        ∷ positive (at ratelimit "sweep_interval") r.sweep_interval
        ∷ validate_quota (at ratelimit "tiers.anonymous") r.tiers.anonymous
        ∷ validate_quota (at ratelimit "tiers.standard") r.tiers.standard
        ∷ validate_quota (at ratelimit "tiers.internal") r.tiers.internal
        ∷ [])

pub record Idempotency : Type 0 where
  pub enabled : Bool
  pub required : Bool
  pub ttl : Duration
  pub purge_interval : Duration
  pub max_key_bytes : ℤ

unfoldable pub idempotency_defaults : Idempotency
idempotency_defaults = record {
  enabled = true;
  required = false;
  ttl = hours 24;
  purge_interval = hours 1;
  max_key_bytes = pos 255;
}

unfoldable pub validate_idempotency : Idempotency → List Problem
unfolding at at_least positive add_if int_ltb in_order codes
validate_idempotency i =
    let idempotency = codes "idempotency" in
    in_order (
      positive (at idempotency "ttl") i.ttl
      ∷ positive (at idempotency "purge_interval") i.purge_interval
      ∷ at_least (at idempotency "max_key_bytes") i.max_key_bytes 1
      ∷ add_if (int_ltb (pos 8192) i.max_key_bytes) (at idempotency "max_key_bytes")
          "must not exceed 8192: a longer key does not fit a btree entry"
      ∷ add_if (int_ltb (pos 0) i.ttl && int_ltb i.ttl i.purge_interval)
          (at idempotency "purge_interval") "must not exceed %s (%s)"
      ∷ add_if (i.required && not i.enabled) (at idempotency "required")
          "cannot be set while %s is false"
      ∷ [])

pub record Auth : Type 0 where
  pub mode : List ℕ
  pub realm : List ℕ
  pub clients : List AuthClient

unfoldable pub auth_defaults : Auth
unfolding codes
auth_defaults = record {
  mode = codes "optional";
  realm = codes "taskapi";
  clients =
      record {
        id = codes "demo";
        tier = codes "standard";
        token_sha256 = codes "064462d4b78abaa304c5b4ab22e4a29119dbf18b3a8d7fc86e2fc633429f7dce";
      }
      ∷ record {
        id = codes "worker";
        tier = codes "internal";
        token_sha256 = codes "46f8c89e2172e93598e17b2a9e0261bb7848cfe389bf3d46bb98cc50c8b4710c";
      }
      ∷ [];
}

abbrev pub is_hex : ℕ → Bool
is_hex c = (leb 0x30 c && leb c 0x39) || ((leb 0x61 c && leb c 0x66) || (leb 0x41 c && leb c 0x46))

unfoldable pub all_hex : List ℕ → Bool
all_hex [] = true
all_hex (c ∷ s) = is_hex c && all_hex s

-- A match of `sha256Hex`.
abbrev pub is_sha256_hex : List ℕ → Bool
is_sha256_hex s = length s == 64 && all_hex s

abbrev pub is_seen {ℓ} : {V : Type ℓ} → Option V → Bool
is_seen none = false
is_seen (some v) = true

-- `at` of a client.
unfoldable pub client_at : ℕ → String → List ℕ
unfolding codes decimal
client_at i f = codes "auth.clients[" ++ decimal i ++ codes "]." ++ codes f

unfoldable pub tier_names : List (List ℕ)
unfolding codes
tier_names = codes "anonymous" ∷ codes "standard" ∷ codes "internal" ∷ []

-- One turn on a client's id: what is found, and the ids seen.
unfoldable pub check_id : ℕ → List ℕ → List (List ℕ × ℕ) → List Problem × List (List ℕ × ℕ)
unfolding add_if client_at find_key put_key
check_id i id seen =
    if is_empty id then (add_if true (client_at i "id") "must not be empty", seen) else (
      add_if (is_seen (find_key id seen)) (client_at i "id")
          "duplicate client id %q (also at auth.clients[%d])",
      put_key id i seen,
    )

-- One turn on a client's token hash: what is found, and the hashes seen in lower case.
unfoldable pub check_token :
    ℕ → AuthClient → List (List ℕ × List ℕ) → List Problem × List (List ℕ × List ℕ)
unfolding add_if client_at find_key put_key all_hex
check_token i c seen =
    if is_empty c.token_sha256
    then (add_if true (client_at i "token_sha256") "must not be empty", seen)
    else if not (is_sha256_hex c.token_sha256)
    then (
      add_if true (client_at i "token_sha256")
          "must be 64 hexadecimal characters: store the SHA-256 of the token, never the token itself",
      seen,
    )
    else (
      add_if (is_seen (find_key (map lower c.token_sha256) seen)) (client_at i "token_sha256")
          "duplicate token, already used by client %q",
      put_key (map lower c.token_sha256) c.id seen,
    )

-- The loop of `validateClients`, from client i on.
unfoldable pub clients_from :
    ℕ → List (List ℕ × ℕ) → List (List ℕ × List ℕ) → List AuthClient → List Problem
unfolding check_id check_token one_of client_at tier_names
clients_from i ids tokens [] = []
clients_from i ids tokens (c ∷ cs) =
    (check_id i c.id ids).0
    ++ (one_of (client_at i "tier") c.tier tier_names
        ++ ((check_token i c tokens).0
            ++ clients_from (suc i) (check_id i c.id ids).1 (check_token i c tokens).1 cs))

unfoldable pub validate_clients : List AuthClient → List Problem
unfolding clients_from
validate_clients cs = clients_from 0 [] [] cs

unfoldable pub auth_modes : List (List ℕ)
unfolding codes
auth_modes = codes "optional" ∷ codes "required" ∷ codes "off" ∷ []

unfoldable pub auth_checks : List ℕ → Auth → List (List Problem)
unfolding at add_if one_of not_empty auth_modes validate_clients codes bytes_eq
auth_checks prefix a =
    one_of (at prefix "mode") a.mode auth_modes
    ∷ not_empty (at prefix "realm") a.realm
    ∷ validate_clients a.clients
    ∷ add_if (bytes_eq a.mode (codes "required") && length a.clients == 0) (at prefix "clients")
        "auth.mode is required but no clients are configured: every request would be rejected"
    ∷ []

unfoldable pub validate_auth : Auth → List Problem
unfolding auth_checks in_order codes
validate_auth a = in_order (auth_checks (codes "auth") a)
