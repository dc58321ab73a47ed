-- ===== src/Config/Started.antt =====
-- What the validation of the whole configuration gives the components that are started with it.
use gogolook_task_api.Prelude.{
  ℕ, ◌+◌, ◌*◌, ◌/◌, ◌^◌, ◌≤◌, ◌<◌, String, false, true, Option, none, some, List, [], ◌∷◌, ◌≡◌, ◌≢◌,
  refl, arith,
}
use gogolook_task_api.Prelude.Int.{pos}
use gogolook_task_api.Auth.{
  AuthClient, Request, Mode, auth_off, bearer_token, decode_hex, new_resolver, resolve,
}
use gogolook_task_api.Queue.Job.{Row}
use gogolook_task_api.Queue.Store.{claim_row, heartbeat_row}
use gogolook_task_api.Queue.Maintenance.{lapsed}
use gogolook_task_api.Config.Checks.{Problem, in_order, err_of}
use gogolook_task_api.Config.Silent.{in_order-silent, check_at}
use gogolook_task_api.Config.QueueSection.{validate_queue}
use gogolook_task_api.Config.CallerSections.{validate_auth}
use gogolook_task_api.Config.Whole.{Config, section_problems, validate}
use gogolook_task_api.Config.Heartbeats.{validate_queue-lapsed}
use gogolook_task_api.Config.Clients.{IsConfigured, validate_auth-resolve}

err_of-none : (ps : List Problem) → err_of ps ≡ none → ps ≡ []
unfolding err_of
err_of-none [] valid = refl
err_of-none (p ∷ ps) valid = absurd (ground arith)

module _ (parse_url : List ℕ → Option (List ℕ × List ℕ)) (cfg : Config)
    (valid : validate parse_url cfg ≡ none) where
  section-silent : (n : ℕ) → check_at n (section_problems parse_url cfg) ≡ []
  unfolding validate
  section-silent n =
      in_order-silent n (section_problems parse_url cfg)
        (err_of-none (in_order (section_problems parse_url cfg)) valid)

  queue_section : validate_queue cfg.queue ≡ []
  unfolding section_problems
  queue_section = section-silent 5

  auth_section : validate_auth cfg.auth ≡ []
  unfolding section_problems
  auth_section = section-silent 7

-- Under a configuration that Validate accepts, whose heartbeat interval h is below 2^63 / 3
-- nanoseconds: a job that was claimed at t, and one whose lease was extended at t, has not lapsed
-- up to the instant t + 3h, so that two heartbeats may be missed. Instants are the table's
-- microseconds, to which the lease is cut.
pub validate-lapsed :
    (parse_url : List ℕ → Option (List ℕ × List ℕ)) (cfg : Config) (h l t now : ℕ) (w : String)
    (r : Row)
    → validate parse_url cfg ≡ none
    → cfg.queue.heartbeat_interval ≡ pos h
    → cfg.queue.lease ≡ pos l
    → h * 3 < 2 ^ 63
    → now ≤ t + h * 3 / 1000
    → (lapsed now (claim_row t w (l / 1000) r) ≡ false)
      × (lapsed now (heartbeat_row t (l / 1000) r) ≡ false)
validate-lapsed parse_url cfg h l t now w r valid every lease small soon =
    validate_queue-lapsed cfg.queue h l t now w r (queue_section parse_url cfg valid) every lease
      small soon

-- Under a configuration that Validate accepts: a request with a token whose digest is the
-- configured one of a client is, in every mode but off, let through as that client, with its tier,
-- whatever other clients are configured.
pub validate-resolve :
    (parse_url : List ℕ → Option (List ℕ × List ℕ)) (cfg : Config) (digest : List ℕ → List ℕ)
    (c : AuthClient) (mode : Mode) (req : Request) (token : List ℕ)
    → validate parse_url cfg ≡ none
    → IsConfigured c cfg.auth.clients
    → mode ≢ auth_off
    → bearer_token req.authorization ≡ some token
    → decode_hex c.token_sha256 ≡ some (digest token)
    → resolve digest (new_resolver mode cfg.auth.clients cfg.http.trusted_proxy_hops) req
      ≡ (record { client_id = c.id; tier = c.tier; key = c.id }, true)
validate-resolve parse_url cfg digest c mode req token valid among on presented hash =
    validate_auth-resolve digest cfg.auth c mode cfg.http.trusted_proxy_hops req token
      (auth_section parse_url cfg valid) among on presented hash
