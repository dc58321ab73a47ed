-- ===== src/Auth/Resolved.antt =====
-- Whom Resolve of internal/auth/auth.go takes a caller for.
use gogolook_task_api.Prelude.{
  ℕ, true, false, not, none, some, List, [], ◌∷◌, ◌≡◌, ◌⊎◌, inl, inr, refl, ap, ◌∙◌, All,
  Bool-cases, Option-cases,
}
use gogolook_task_api.Prelude.Bytes.{bytes_eq}
use gogolook_task_api.Auth.Resolving.{
  Mode, auth_off, auth_optional, auth_required, Client, Identity, Resolver, Request, matched,
  later_match, is_required, resolve_token, resolve_mode, anonymous_identity, bearer_token, resolve,
}

abbrev pub IsAmong : Client → List Client → Type 0
IsAmong c [] = ⊥
IsAmong c (d ∷ ds) = (d ≡ c) ⊎ IsAmong c ds

abbrev pub identity_of : Client → Identity
identity_of c = record { client_id = c.id; tier = c.tier; key = c.id }

-- A client of the list whose digest is that of the token.
abbrev pub Matches : List ℕ → List Client → Client → Type 0
Matches sum cs c = IsAmong c cs × (bytes_eq sum c.digest ≡ true)

abbrev pub HasNoMatch : List ℕ → List Client → Type 0
HasNoMatch sum cs = All (λ c. bytes_eq sum c.digest ≡ false) cs

matched_cases :
    (sum : List ℕ) (cs : List Client)
    → ((c : Client) × Matches sum cs c × (matched sum cs ≡ some c))
      ⊎ (HasNoMatch sum cs × (matched sum cs ≡ none))
unfolding matched
matched_cases sum [] = inr (tt, refl)
matched_cases sum (c ∷ cs) = elim (matched_cases sum cs) [
  | inl (d, (among, same), found) ↦
      inl (d, (inr among, same), ap (later_match (bytes_eq sum c.digest) c) found)
  | inr (no_other, no_match) ↦ elim (Bool-cases (bytes_eq sum c.digest)) [
    | inl same ↦ inl (c, (inl refl, same), rw (same, no_match) refl)
    | inr differs ↦ inr ((differs, no_other), rw (differs, no_match) refl)
  ]
]

module _ (digest : List ℕ → List ℕ) (r : Resolver) (req : Request) where
  -- The caller presents a token of a configured client, and is that client.
  abbrev pub IsRecognised : Type 0
  IsRecognised =
      (token : List ℕ) × (c : Client) × (bearer_token req.authorization ≡ some token)
      × Matches (digest token) r.clients c
      × (resolve digest r req ≡ (identity_of c, true))

  -- It presents none.
  abbrev pub HasNoToken : Type 0
  HasNoToken =
      (r.mode ≡ auth_off)
      ⊎ ((bearer_token req.authorization ≡ none)
          ⊎ ((token : List ℕ) × (bearer_token req.authorization ≡ some token)
              × HasNoMatch (digest token) r.clients))

  mode_cases :
      (m : Mode) (anon : Identity) (header : List ℕ)
      → (m ≡ auth_off)
        ⊎ (resolve_mode digest r anon header m ≡ resolve_token digest r anon (bearer_token header))
  unfolding resolve_mode
  mode_cases auth_off anon header = inl refl
  mode_cases auth_optional anon header = inr refl
  mode_cases auth_required anon header = inr refl

  token_cases :
      (anon : Identity)
      → ((token : List ℕ) × (c : Client) × (bearer_token req.authorization ≡ some token)
          × Matches (digest token) r.clients c
          × (resolve_token digest r anon (bearer_token req.authorization) ≡ (identity_of c, true)))
        ⊎ (HasNoToken
            × (resolve_token digest r anon (bearer_token req.authorization)
                ≡ (anon, not (is_required r.mode))))
  unfolding resolve_token
  token_cases anon = elim (Option-cases (bearer_token req.authorization)) [
    | inl absent ↦ inr (inr (inl absent), rw absent refl)
    | inr (token, given) ↦ elim (matched_cases (digest token) r.clients) [
      | inl (c, fits, found) ↦ inl (token, c, given, fits, rw (given, found) refl)
      | inr (no_other, no_match) ↦
          inr (inr (inr (token, given, no_other)), rw (given, no_match) refl)
    ]
  ]

  resolve_off :
      (anon : Identity) (header : List ℕ)
      → r.mode ≡ auth_off
      → resolve_mode digest r anon header r.mode ≡ (anon, not (is_required r.mode))
  unfolding resolve_mode
  resolve_off anon header off = rw off refl

  -- A caller either presents a bearer token whose digest is that of a configured client, and goes
  -- on under that client's id, tier and key; or it is the anonymous caller, and goes on unless a
  -- token is required. The second is so only where authentication is off, or no token is presented,
  -- or no configured client has its digest.
  pub resolve_cases :
      IsRecognised
      ⊎ (HasNoToken × (resolve digest r req ≡ (anonymous_identity r req, not (is_required r.mode))))
  unfolding resolve
  resolve_cases = elim (mode_cases r.mode (anonymous_identity r req) req.authorization) [
    | inl off ↦ inr (inl off, resolve_off (anonymous_identity r req) req.authorization off)
    | inr same ↦ elim (token_cases (anonymous_identity r req)) [
      | inl (token, c, given, fits, is_client) ↦ inl (token, c, given, fits, same ∙ is_client)
      | inr (no_token, is_anonymous) ↦ inr (no_token, same ∙ is_anonymous)
    ]
  ]
