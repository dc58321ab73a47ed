-- ===== src/Idempotency/Fingerprints.antt =====
-- internal/idempotency/idempotency.go, and the request that the middleware reads. Methods, paths
-- and keys are bytes; `digest` stands for SHA-256.
use gogolook_task_api.Prelude.{
  ℕ, String, Bool, true, ◌&&◌, ◌||◌, Option, none, some, List, [], ◌∷◌, ◌++◌, ltb, leb, ◌==◌,
  if◌then◌else◌, codes, length,
}
use gogolook_task_api.Prelude.Bytes.{bytes_eq}
use gogolook_task_api.Prelude.Decimal.{decimal}

-- What reading the body gives: its bytes, the size cap, or another error.
pub data Body : Type 0 where
  whole : List ℕ → Body
  too_large unreadable : Body

pub record Request : Type 0 where
  pub method : List ℕ
  pub path : List ℕ
  -- the Idempotency-Key header, empty where there is none
  pub key : List ℕ
  pub accept_encoding : List ℕ
  pub body : Body

abbrev pub colon : ℕ
colon = 58

unfoldable pub cut_prefix : List ℕ → List ℕ → Option (List ℕ)
cut_prefix [] s = some s
cut_prefix (p ∷ ps) [] = none
cut_prefix (p ∷ ps) (c ∷ s) = if p == c then cut_prefix ps s else none

unfoldable pub api_prefix : List ℕ
unfolding codes
api_prefix = codes "/api/v1/"

unfoldable pub canonical_over : Option (List ℕ) → List ℕ → List ℕ
unfolding bytes_eq codes
canonical_over (some rest) path = 47 ∷ rest
canonical_over none path = if bytes_eq path (codes "/api/v1") then 47 ∷ [] else path

-- `canonicalPath`.
unfoldable pub canonical_path : List ℕ → List ℕ
unfolding cut_prefix api_prefix canonical_over
canonical_path path = canonical_over (cut_prefix api_prefix path) path

-- One part as it is hashed, behind its length.
unfoldable pub framed : List ℕ → List ℕ
unfolding decimal
framed part = decimal (length part) ++ colon ∷ part

-- What Fingerprint feeds the hash.
unfoldable pub hashed : List ℕ → List ℕ → List ℕ → List ℕ
unfolding framed canonical_path
hashed method path body = framed method ++ (framed (canonical_path path) ++ framed body)

-- `Fingerprint`.
unfoldable pub fingerprint : (List ℕ → List ℕ) → List ℕ → List ℕ → List ℕ → List ℕ
unfolding hashed
fingerprint digest method path body = digest (hashed method path body)

-- Printable ASCII, which is what passes both tests of a rune.
abbrev pub is_printable : ℕ → Bool
is_printable c = leb 0x20 c && leb c 0x7e

abbrev pub all_printable : List ℕ → Bool
all_printable [] = true
all_printable (c ∷ s) = is_printable c && all_printable s

-- `CheckKey`: none is accepted. The numbers of the second message are left out.
unfoldable pub check_key : List ℕ → ℕ → Option String
check_key [] max_bytes = some "Idempotency-Key must not be empty"
check_key (c ∷ s) max_bytes =
    if ltb max_bytes (length (c ∷ s))
    then some "Idempotency-Key must be at most that many bytes"
    else if all_printable (c ∷ s)
    then none
    else some "Idempotency-Key must be printable ASCII"

-- `safeMethod`.
unfoldable pub safe_method : List ℕ → Bool
unfolding bytes_eq codes
safe_method m =
    bytes_eq m (codes "GET")
    || (bytes_eq m (codes "HEAD") || (bytes_eq m (codes "OPTIONS") || bytes_eq m (codes "TRACE")))
