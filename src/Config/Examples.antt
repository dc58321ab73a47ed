-- ===== src/Config/Examples.antt =====
-- The configuration's theorems at its defaults, and tests of the validation.
use gogolook_task_api.Prelude.{
  ℕ, ◌^◌, Option, none, List, [], ◌∷◌, ◌≡◌, ◌≢◌, refl, arith, true, false, codes, inl,
}
use gogolook_task_api.Prelude.Int.{pos}
use gogolook_task_api.Auth.{
  AuthClient, Request, auth_required, auth_off, decode_hex, bearer_token, resolve, new_resolver,
}
use gogolook_task_api.Task.{is_space}
use gogolook_task_api.Queue.Store.{claim_row, heartbeat_row}
use gogolook_task_api.Queue.Maintenance.{lapsed}
use gogolook_task_api.Queue.Samples.{held_row}
use gogolook_task_api.Config.QueueSection.{queue_defaults, validate_queue}
use gogolook_task_api.Config.DeliverySections.{breaker_defaults, validate_breaker}
use gogolook_task_api.Config.Values.{not_a_number}
use gogolook_task_api.Config.Whole.{defaults, validate}
use gogolook_task_api.Config.Reload.{Koanf, Change, is_hot, apply_hot, merge_hot, diff}
use gogolook_task_api.Config.Reloaded.{apply_hot-diff}
use gogolook_task_api.Prelude.Bytes.{find_key, put_key, bytes_eq}
use gogolook_task_api.Prelude.{ap, sym, some}
use gogolook_task_api.Config.Started.{validate-lapsed, validate-resolve}

defaults_valid : validate (λ raw. none) (defaults none) ≡ none
unfolding validate defaults is_space
defaults_valid = refl

-- An interval of 2^62 nanoseconds: three of them wrap round and pass as less than the lease.
wrapped_interval : validate_queue (record queue_defaults { heartbeat_interval = pos (2 ^ 62) }) ≡ []
unfolding validate_queue queue_defaults
wrapped_interval = refl

-- A threshold that is not a number passes.
threshold_without_number :
    validate_breaker (record {
      webhook = record breaker_defaults.webhook { failure_rate_threshold = not_a_number };
    })
    ≡ []
unfolding validate_breaker breaker_defaults
threshold_without_number = refl

abbrev no_url : List ℕ → Option (List ℕ × List ℕ)
no_url raw = none

validate-lapsed_example :
    (lapsed 30000100 (claim_row 100 "w1" 30000000 held_row) ≡ false)
    × (lapsed 30000100 (heartbeat_row 100 30000000 held_row) ≡ false)
unfolding defaults
validate-lapsed_example =
    validate-lapsed no_url (defaults none) 10000000000 30000000000 100 30000100 "w1" held_row
      defaults_valid refl refl (omega arith) (omega arith)

abbrev demo : AuthClient
demo = record {
  id = codes "demo";
  tier = codes "standard";
  token_sha256 = codes "064462d4b78abaa304c5b4ab22e4a29119dbf18b3a8d7fc86e2fc633429f7dce";
}

-- What stands for the digest of the demonstration token.
abbrev demo_digest : List ℕ
demo_digest =
    6 ∷ 68 ∷ 98 ∷ 212 ∷ 183 ∷ 138 ∷ 186 ∷ 163 ∷ 4 ∷ 197 ∷ 180 ∷ 171 ∷ 34 ∷ 228 ∷ 162 ∷ 145 ∷ 25
    ∷ 219 ∷ 241 ∷ 139 ∷ 58 ∷ 141 ∷ 127 ∷ 200 ∷ 110 ∷ 47 ∷ 198 ∷ 51 ∷ 66 ∷ 159 ∷ 125 ∷ 206 ∷ []

abbrev demo_request : Request
demo_request = record { remote = []; authorization = codes "Bearer demo"; forwarded = [] }

required_on : auth_required ≢ auth_off
required_on same = ground arith

validate-resolve_example :
    resolve
      (λ s. demo_digest)
      (new_resolver auth_required (defaults none).auth.clients (pos 0))
      demo_request
    ≡ (record { client_id = codes "demo"; tier = codes "standard"; key = codes "demo" }, true)
unfolding defaults codes bearer_token decode_hex is_space
validate-resolve_example =
    validate-resolve no_url (defaults none) (λ s. demo_digest) demo auth_required demo_request
      (codes "demo") defaults_valid (inl refl) required_on refl refl

-- A koanf whose configurations are flat.
abbrev flat_koanf : Koanf (List (List ℕ × ℕ)) ℕ
flat_koanf = record { flatten = λ c. some c; unmarshal = λ m. some m; text_of = λ v. v ∷ [] }

abbrev before : List (List ℕ × ℕ)
before = (codes "http.addr", 1) ∷ (codes "queue.workers", 8) ∷ []

abbrev after : List (List ℕ × ℕ)
after = (codes "http.addr", 2) ∷ (codes "queue.workers", 4) ∷ []

abbrev reloaded : List (List ℕ × ℕ)
reloaded = (codes "http.addr", 1) ∷ (codes "queue.workers", 4) ∷ []

abbrev or_empty : Option (List (List ℕ × ℕ)) → List (List ℕ × ℕ)
or_empty none = []
or_empty (some m) = m

after_complete : (k : List ℕ) → find_key k after ≡ none → find_key k before ≡ none
unfolding find_key codes
after_complete k absent = ground arith

reloaded_merge : apply_hot flat_koanf before after ≡ some reloaded
unfolding apply_hot is_hot codes bytes_eq put_key
reloaded_merge = refl

apply_hot-diff_example :
    (applied : List Change) × (left : List Change) × (diff flat_koanf before reloaded
      ≡ some (applied, []))
    × (diff flat_koanf reloaded after ≡ some ([], left))
unfolding merge_hot
apply_hot-diff_example =
    apply_hot-diff flat_koanf before after reloaded before after refl refl after_complete
      (λ c same. (c, refl, λ k. ap (λ m. find_key k (or_empty m)) (sym same))) reloaded_merge
