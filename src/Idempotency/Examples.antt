-- ===== src/Idempotency/Examples.antt =====
-- The theorems on keyed requests at concrete inputs.
use gogolook_task_api.Prelude.{
  ℕ, suc, true, false, some, List, [], ◌∷◌, if◌then◌else◌, ◌≡◌, refl, arith,
}
use gogolook_task_api.Prelude.Bytes.{bytes_eq, find_key}
use gogolook_task_api.Idempotency.Fingerprints.{
  Request, whole, canonical_path, safe_method, check_key,
}
use gogolook_task_api.Idempotency.Store.{
  MemRecord, Keys, completed, reserve, complete, seen, fresh_record,
}
use gogolook_task_api.Idempotency.Middleware.{
  writes_header, writes, Handler, Config, flushed, replayed, problem, new_recorder, record_calls,
  identity_request, is_stored,
}
use gogolook_task_api.Idempotency.Records.{completed_record}
use gogolook_task_api.Idempotency.Framing.{hashed-injective}
use gogolook_task_api.Idempotency.Once.{serve, print_of, IsKeyed, serve_once}
use gogolook_task_api.Idempotency.Stale.{reserved_at, complete_stale}

-- A handler that counts the writes it makes, and answers 201; an empty body makes it fail.
abbrev counting : Handler ℕ
counting r n = elim r.body [
  | whole [] ↦ (some (writes_header 500 ∷ []), n)
  | _ ↦ (some (writes_header 201 ∷ writes (7 ∷ []) ∷ []), suc n)
]

abbrev config : Config
config = record { enabled = true; is_required = false; ttl = 100; max_key_bytes = 255 }

abbrev no_digest : List ℕ → List ℕ
no_digest s = s

abbrev key : List ℕ
key = 65 ∷ 66 ∷ []

abbrev post : List ℕ → Request
post b = record {
  method = 80 ∷ 79 ∷ 83 ∷ 84 ∷ [];
  path = 47 ∷ 116 ∷ [];
  key = key;
  accept_encoding = 103 ∷ [];
  body = whole b;
}

abbrev no_keys : Keys
no_keys = []

abbrev running : MemRecord
running = record { rec = fresh_record (1 ∷ []); expires = 50 }

post-IsKeyed : (b : List ℕ) → IsKeyed counting no_digest config (post b) b
unfolding safe_method check_key
post-IsKeyed b = record { enabled = refl; unsafe = refl; accepted = refl; read = refl }

serve_once_example :
    ((serve counting no_digest config 10 11 (post (1 ∷ [])) (no_keys, 5)).0
      ≡ flushed (record_calls (writes_header 201 ∷ writes (7 ∷ []) ∷ []) new_recorder))
    × ((serve counting no_digest config 10 11 (post (1 ∷ [])) (no_keys, 5)).1.1 ≡ 6)
    × (serve counting no_digest config 20 21
          (post (1 ∷ []))
          (serve counting no_digest config 10 11 (post (1 ∷ [])) (no_keys, 5)).1
        ≡ (
          (if bytes_eq
                (print_of counting no_digest config (post (1 ∷ [])) (1 ∷ []))
                (print_of counting no_digest config (post (1 ∷ [])) (1 ∷ []))
              then replayed (
                  completed_record
                    (print_of counting no_digest config (post (1 ∷ [])) (1 ∷ []))
                    (record_calls (writes_header 201 ∷ writes (7 ∷ []) ∷ []) new_recorder))
              else problem 422 "Idempotency-Key has already been used for a different request"),
          (serve counting no_digest config 10 11 (post (1 ∷ [])) (no_keys, 5)).1,
        ))
unfolding find_key is_stored record_calls identity_request
serve_once_example =
    serve_once counting no_digest config 10 11 (post (1 ∷ [])) (1 ∷ []) no_keys 5
      (writes_header 201 ∷ writes (7 ∷ []) ∷ []) (post-IsKeyed (1 ∷ [])) refl refl refl 20 21
      (post (1 ∷ [])) (1 ∷ []) (post-IsKeyed (1 ∷ [])) refl (omega arith)

complete_stale_example :
    reserve 30 31 key
      (2 ∷ [])
      10
      (complete
        (record { key = key; done = false })
        201
        []
        (7 ∷ [])
        (reserved_at 25 26 key (2 ∷ []) 10 (reserved_at 10 11 key (1 ∷ []) 10 no_keys))).1
    ≡ (
      seen (record {
        fingerprint = 2 ∷ [];
        state = completed;
        status_code = 201;
        content_type = [];
        body = 7 ∷ [];
      }),
      (complete
          (record { key = key; done = false })
          201
          []
          (7 ∷ [])
          (reserved_at 25 26 key (2 ∷ []) 10 (reserved_at 10 11 key (1 ∷ []) 10 no_keys))).1,
    )
unfolding find_key
complete_stale_example =
    complete_stale 10 11 25 26 30 31 key (1 ∷ []) (2 ∷ []) (2 ∷ []) 10 no_keys 201 [] (7 ∷ []) refl
      (omega arith) (omega arith)

hashed-injective_example :
    (key ≡ key) × (canonical_path (47 ∷ []) ≡ canonical_path (47 ∷ [])) × (key ≡ key)
hashed-injective_example = hashed-injective key key (47 ∷ []) (47 ∷ []) key key refl
