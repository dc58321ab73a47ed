-- ===== src/Config/Clients.antt =====
-- What a validated auth section of internal/config/auth.go gives the resolver of internal/auth.
use gogolook_task_api.Prelude.{
  ℕ, suc, codes, true, false, Option, none, some, List, [], ◌∷◌, ◌++◌, ◌≡◌, ◌≢◌, refl, arith, ap,
  sym, subst, ◌∙◌, ◌⊎◌, inl, inr, map, Bool-cases, Option-cases,
}
use gogolook_task_api.Prelude.Int.{ℤ}
use gogolook_task_api.Prelude.Bytes.{
  bytes_eq, bytes_eq_self, bytes_eq_iff, find_key, put_key, find_key-put_key,
}
use gogolook_task_api.Auth.{
  AuthClient, Client, Request, Mode, auth_off, auth_optional, auth_required, lower, decode_hex,
  new_clients, add_client, matched, later_match, new_resolver, bearer_token, resolve, resolve_mode,
  resolve_token, answer_match, anonymous_identity, Resolver, Identity,
}
use gogolook_task_api.Config.Checks.{add_if, one_of}
use gogolook_task_api.Config.Hashes.{decode_hex-lower}
use gogolook_task_api.Config.Silent.{++-silent, in_order-silent}
use gogolook_task_api.Config.CallerSections.{
  Auth, check_id, check_token, clients_from, validate_clients, auth_checks, validate_auth, is_seen,
  client_at, tier_names,
}

abbrev pub IsConfigured : AuthClient → List AuthClient → Type 0
IsConfigured c [] = ⊥
IsConfigured c (d ∷ cs) = (d ≡ c) ⊎ IsConfigured c cs

-- The problems that one turn of the loop finds, and what it leaves to the next.
turn-silent :
    (i : ℕ) (ids : List (List ℕ × ℕ)) (tokens : List (List ℕ × List ℕ)) (c : AuthClient)
    (cs : List AuthClient)
    → clients_from i ids tokens (c ∷ cs) ≡ []
    → ((check_token i c tokens).0 ≡ [])
      × (clients_from (suc i) (check_id i c.id ids).1 (check_token i c tokens).1 cs ≡ [])
unfolding clients_from
turn-silent i ids tokens c cs none_found =
    let token = (check_token i c tokens).0 in
    let after = clients_from (suc i) (check_id i c.id ids).1 (check_token i c tokens).1 cs in
    let tier = one_of (client_at i "tier") c.tier tier_names in
    ++-silent token after
      (++-silent tier (token ++ after)
        (++-silent (check_id i c.id ids).0 (tier ++ (token ++ after)) none_found).1).1

-- A hash that passes is new, and is seen from then on.
check_token-new :
    (i : ℕ) (c : AuthClient) (tokens : List (List ℕ × List ℕ))
    → (check_token i c tokens).0 ≡ []
    → (is_seen (find_key (map lower c.token_sha256) tokens) ≡ false)
      × ((check_token i c tokens).1 ≡ put_key (map lower c.token_sha256) c.id tokens)
unfolding check_token add_if
check_token-new i c tokens none_found = ground arith

seen-stays :
    (k j v : List ℕ) (tokens : List (List ℕ × List ℕ))
    → is_seen (find_key k tokens) ≡ true
    → is_seen (find_key k (put_key j v tokens)) ≡ true
seen-stays k j v tokens seen = rw (find_key-put_key j k v tokens) (ground arith)

-- Nobody else has the hash of a client whose turn has passed.
module _ (c : AuthClient) (sum : List ℕ) (hash : decode_hex c.token_sha256 ≡ some sum) where
  head-unmatched :
      (d : AuthClient) (cs : List AuthClient) (tokens : List (List ℕ × List ℕ))
      → is_seen (find_key (map lower c.token_sha256) tokens) ≡ true
      → is_seen (find_key (map lower d.token_sha256) tokens) ≡ false
      → matched sum (new_clients cs) ≡ none
      → matched sum (new_clients (d ∷ cs)) ≡ none
  unfolding new_clients matched
  head-unmatched d cs tokens seen new none_later = elim (Option-cases (decode_hex d.token_sha256)) [
    | inl unread ↦ rw unread none_later
    | inr (e, read) ↦ elim (Bool-cases (bytes_eq sum e)) [
      | inl same ↦ absurd (
          clash (
            sym (
              ap (λ k. is_seen (find_key k tokens))
                (decode_hex-lower c.token_sha256 d.token_sha256 sum hash
                  (read ∙ ap some (sym ((bytes_eq_iff sum e).0 same)))))
            ∙ seen))
      | inr differs ↦ rw read (rw (differs, none_later) refl)
    ]
  ]
    where
      clash : is_seen (find_key (map lower d.token_sha256) tokens) ≡ true → ⊥
      clash there = ground arith

  later-unmatched :
      (cs : List AuthClient) (i : ℕ) (ids : List (List ℕ × ℕ)) (tokens : List (List ℕ × List ℕ))
      → is_seen (find_key (map lower c.token_sha256) tokens) ≡ true
      → clients_from i ids tokens cs ≡ []
      → matched sum (new_clients cs) ≡ none
  unfolding matched new_clients
  later-unmatched [] i ids tokens seen none_found = refl
  later-unmatched (d ∷ cs) i ids tokens seen none_found =
      let (token, rest) = turn-silent i ids tokens d cs none_found in
      let (new, put) = check_token-new i d tokens token in
      head-unmatched d cs tokens seen new (
        later-unmatched cs (suc i) (check_id i d.id ids).1 (check_token i d tokens).1
          (subst (λ m. is_seen (find_key (map lower c.token_sha256) m) ≡ true) (sym put)
            (seen-stays (map lower c.token_sha256) (map lower d.token_sha256) d.id tokens seen))
          rest)

  abbrev known : Client
  known = record { id = c.id; tier = c.tier; digest = sum }

  head-matched :
      (cs : List AuthClient) (i : ℕ) (ids : List (List ℕ × ℕ)) (tokens : List (List ℕ × List ℕ))
      → clients_from i ids tokens (c ∷ cs) ≡ []
      → matched sum (new_clients (c ∷ cs)) ≡ some known
  unfolding matched new_clients
  head-matched cs i ids tokens none_found =
      let key = map lower c.token_sha256 in
      let (token, rest) = turn-silent i ids tokens c cs none_found in
      let put = (check_token-new i c tokens token).1 in
      let now_seen : is_seen (find_key key (put_key key c.id tokens)) ≡ true =
        rw (find_key-put_key key key c.id tokens, bytes_eq_self key) refl in
      let none_later =
        later-unmatched cs (suc i) (check_id i c.id ids).1 (check_token i c tokens).1
          (subst (λ m. is_seen (find_key key m) ≡ true) (sym put) now_seen) rest in
      rw hash (rw (bytes_eq_self sum, none_later) refl)

  add_client-matched :
      (d : AuthClient) (read : Option (List ℕ)) (cs : List Client)
      → matched sum cs ≡ some known
      → matched sum (add_client d read cs) ≡ some known
  unfolding matched
  add_client-matched d none cs found = found
  add_client-matched d (some e) cs found =
      ap (later_match (bytes_eq sum e) (record { id = d.id; tier = d.tier; digest = e })) found

  clients_from-matched :
      (cs : List AuthClient) (i : ℕ) (ids : List (List ℕ × ℕ)) (tokens : List (List ℕ × List ℕ))
      → IsConfigured c cs
      → clients_from i ids tokens cs ≡ []
      → matched sum (new_clients cs) ≡ some known
  unfolding matched new_clients
  clients_from-matched [] i ids tokens among none_found = absurd among
  clients_from-matched (d ∷ cs) i ids tokens (inl here) none_found =
      subst (λ x. matched sum (new_clients (x ∷ cs)) ≡ some known) (sym here)
        (head-matched cs i ids tokens
          (subst (λ x. clients_from i ids tokens (x ∷ cs) ≡ []) here none_found))
  clients_from-matched (d ∷ cs) i ids tokens (inr later) none_found =
      let rest = (turn-silent i ids tokens d cs none_found).1 in
      add_client-matched d (decode_hex d.token_sha256) (new_clients cs) (
        clients_from-matched cs (suc i) (check_id i d.id ids).1 (check_token i d tokens).1 later
          rest)

resolve_mode-on :
    (digest : List ℕ → List ℕ) (r : Resolver) (anon : Identity) (header : List ℕ) (mode : Mode)
    → mode ≢ auth_off
    → resolve_mode digest r anon header mode ≡ resolve_token digest r anon (bearer_token header)
unfolding resolve_mode
resolve_mode-on digest r anon header auth_off on = absurd (on refl)
resolve_mode-on digest r anon header auth_optional on = refl
resolve_mode-on digest r anon header auth_required on = refl

-- Where the validation finds nothing in an auth section: a request with a token whose digest is the
-- configured one of a client is, in every mode but off, let through as that client, with its
-- tier, whatever other clients are configured.
pub validate_auth-resolve :
    (digest : List ℕ → List ℕ) (a : Auth) (c : AuthClient) (mode : Mode) (hops : ℤ) (req : Request)
    (token : List ℕ)
    → validate_auth a ≡ []
    → IsConfigured c a.clients
    → mode ≢ auth_off
    → bearer_token req.authorization ≡ some token
    → decode_hex c.token_sha256 ≡ some (digest token)
    → resolve digest (new_resolver mode a.clients hops) req
      ≡ (record { client_id = c.id; tier = c.tier; key = c.id }, true)
unfolding validate_auth validate_clients new_resolver resolve
validate_auth-resolve digest a c mode hops req token none_found among on presented hash =
    let found =
      clients_from-matched c (digest token) hash a.clients 0 [] [] among
        (in_order-silent 2 (auth_checks (codes "auth") a) none_found) in
    let anon = anonymous_identity (new_resolver mode a.clients hops) req in
    let r = new_resolver mode a.clients hops in
    resolve_mode-on digest r anon req.authorization mode on
    ∙ ap (resolve_token digest r anon) presented
    ∙ ap (answer_match r anon) found
