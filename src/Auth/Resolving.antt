-- ===== src/Auth/Resolving.antt =====
-- NewResolver and Resolve of internal/auth/auth.go. `digest` stands for SHA-256 of a text's bytes.
use gogolook_task_api.Prelude.{
  ℕ, ◌+◌, ◌-◌, ◌*◌, Bool, true, false, not, ◌&&◌, ◌||◌, Option, none, some, List, [], ◌∷◌, ◌==◌,
  leb, if◌then◌else◌, codes,
}
use gogolook_task_api.Prelude.Int.{ℤ}
use gogolook_task_api.Prelude.Bytes.{bytes_eq}
use gogolook_task_api.Task.{trim_space, is_empty}
use gogolook_task_api.Auth.Address.{cut_first, client_ip}

-- The modes of `config.Auth`; another text behaves as optional.
pub data Mode : Type 0 where
  auth_optional auth_required auth_off : Mode

pub record AuthClient : Type 0 where
  pub id : List ℕ
  pub tier : List ℕ
  pub token_sha256 : List ℕ

pub record Client : Type 0 where
  pub id : List ℕ
  pub tier : List ℕ
  pub digest : List ℕ

pub record Identity : Type 0 where
  pub client_id : List ℕ
  pub tier : List ℕ
  pub key : List ℕ

pub record Resolver : Type 0 where
  pub mode : Mode
  pub clients : List Client
  pub hops : ℤ

pub record Request : Type 0 where
  pub remote : List ℕ
  pub authorization : List ℕ
  pub forwarded : List (List ℕ)

unfoldable pub anonymous : List ℕ
unfolding codes
anonymous = codes "anonymous"

-- `hex.DecodeString(strings.ToLower(…))`.
abbrev pub hex_digit : ℕ → Option ℕ
hex_digit c =
    if leb 0x30 c && leb c 0x39
    then some (c - 0x30)
    else if leb 0x61 c && leb c 0x66
    then some (c - 0x57)
    else if leb 0x41 c && leb c 0x46
    then some (c - 0x37)
    else none

abbrev pub hex_pair : Option ℕ → Option ℕ → Option (List ℕ) → Option (List ℕ)
hex_pair (some a) (some b) (some s) = some ((16 * a + b) ∷ s)
hex_pair (some a) (some b) none = none
hex_pair (some a) none s = none
hex_pair none b s = none

unfoldable pub decode_hex : List ℕ → Option (List ℕ)
decode_hex [] = some []
decode_hex (a ∷ []) = none
decode_hex (a ∷ b ∷ s) = hex_pair (hex_digit a) (hex_digit b) (decode_hex s)

abbrev pub add_client : AuthClient → Option (List ℕ) → List Client → List Client
add_client c none cs = cs
add_client c (some d) cs = record { id = c.id; tier = c.tier; digest = d } ∷ cs

-- The clients of `NewResolver`: one whose digest is not hexadecimal is passed over.
unfoldable pub new_clients : List AuthClient → List Client
unfolding decode_hex
new_clients [] = []
new_clients (c ∷ cs) = add_client c (decode_hex c.token_sha256) (new_clients cs)

unfoldable pub new_resolver : Mode → List AuthClient → ℤ → Resolver
unfolding new_clients
new_resolver mode cs hops = record { mode = mode; clients = new_clients cs; hops = hops }

abbrev pub lower : ℕ → ℕ
lower c = if leb 0x41 c && leb c 0x5a then c + 0x20 else c

-- `strings.EqualFold`, for a text of letters that fold with ASCII letters alone.
unfoldable pub equal_fold : List ℕ → List ℕ → Bool
equal_fold [] [] = true
equal_fold [] (d ∷ t) = false
equal_fold (c ∷ s) [] = false
equal_fold (c ∷ s) (d ∷ t) = lower c == lower d && equal_fold s t

unfoldable pub token_of : Option (List ℕ × List ℕ) → Option (List ℕ)
unfolding equal_fold codes trim_space
token_of none = none
token_of (some (scheme, rest)) =
    if not (equal_fold scheme (codes "Bearer")) || is_empty (trim_space rest)
    then none
    else some (trim_space rest)

-- `bearerToken`: none is no credential.
unfoldable pub bearer_token : List ℕ → Option (List ℕ)
unfolding token_of cut_first
bearer_token header = token_of (cut_first 0x20 header)

-- The scan of `Resolve`: it runs over the whole list, and the last match stands.
abbrev pub later_match : Bool → Client → Option Client → Option Client
later_match b c (some d) = some d
later_match true c none = some c
later_match false c none = none

unfoldable pub matched : List ℕ → List Client → Option Client
unfolding bytes_eq
matched sum [] = none
matched sum (c ∷ cs) = later_match (bytes_eq sum c.digest) c (matched sum cs)

abbrev pub is_required : Mode → Bool
is_required auth_required = true
is_required auth_optional = false
is_required auth_off = false

abbrev pub answer_match : Resolver → Identity → Option Client → Identity × Bool
answer_match r anon none = (anon, not (is_required r.mode))
answer_match r anon (some c) = (record { client_id = c.id; tier = c.tier; key = c.id }, true)

unfoldable pub resolve_token :
    (List ℕ → List ℕ) → Resolver → Identity → Option (List ℕ) → Identity × Bool
unfolding matched
resolve_token digest r anon none = (anon, not (is_required r.mode))
resolve_token digest r anon (some token) = answer_match r anon (matched (digest token) r.clients)

unfoldable pub resolve_mode :
    (List ℕ → List ℕ) → Resolver → Identity → List ℕ → Mode → Identity × Bool
unfolding resolve_token bearer_token
resolve_mode digest r anon header auth_off = (anon, true)
resolve_mode digest r anon header auth_optional = resolve_token digest r anon (bearer_token header)
resolve_mode digest r anon header auth_required = resolve_token digest r anon (bearer_token header)

-- The identity of a caller without a recognised token.
unfoldable pub anonymous_identity : Resolver → Request → Identity
unfolding anonymous client_ip
anonymous_identity r req = record {
  client_id = anonymous;
  tier = anonymous;
  key = client_ip req.remote req.forwarded r.hops;
}

-- `Resolve`: the identity, and whether the caller may go on.
unfoldable pub resolve : (List ℕ → List ℕ) → Resolver → Request → Identity × Bool
unfolding resolve_mode anonymous_identity
resolve digest r req = resolve_mode digest r (anonymous_identity r req) req.authorization r.mode
