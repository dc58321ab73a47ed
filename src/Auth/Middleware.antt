-- ===== src/Auth/Middleware.antt =====
-- internal/auth/middleware.go. The problem body and the identity's place in the context are what
-- the answer carries; the observer is told the name of the outcome.
use gogolook_task_api.Prelude.{
  ℕ, String, Bool, true, false, List, [], ◌∷◌, ◌++◌, ◌≡◌, ◌≢◌, refl, codes, if◌then◌else◌, ap,
  Option, none, some,
}
use gogolook_task_api.Prelude.Bytes.{bytes_eq}
use gogolook_task_api.Auth.Resolving.{
  Client, Mode, auth_off, auth_optional, auth_required, Identity, Resolver, Request, anonymous,
  resolve, resolve_mode, resolve_token, answer_match, is_required, bearer_token, matched,
  anonymous_identity,
}

-- What the middleware does with a request: it goes on with an identity, or is answered 401 with the
-- challenge as its WWW-Authenticate header.
pub data Passed : Type 0 where
  goes_on : Identity → Passed
  unauthorized : (challenge : List ℕ) → Passed

unfoldable pub challenge : (realm : List ℕ) → List ℕ
unfolding codes
challenge realm = codes "Bearer realm=" ++ (0x22 ∷ realm) ++ 0x22 ∷ []

-- `outcome`.
unfoldable pub outcome : Identity → Bool → String
unfolding anonymous bytes_eq
outcome id false = "rejected"
outcome id true = if bytes_eq id.client_id anonymous then "anonymous" else "authenticated"

unfoldable pub pass_resolved : (realm : List ℕ) → Identity × Bool → Passed
unfolding challenge
pass_resolved realm (id, true) = goes_on id
pass_resolved realm (id, false) = unauthorized (challenge realm)

-- `Middleware`: what the observer is told, and what becomes of the request.
unfoldable pub authenticate :
    (List ℕ → List ℕ) → (realm : List ℕ) → Resolver → Request → String × Passed
unfolding outcome pass_resolved resolve
authenticate digest realm r req =
    let (id, ok) = resolve digest r req in (outcome id ok, pass_resolved realm (id, ok))

answer_match-passes :
    (r : Resolver) (anon : Identity) (c : Option Client)
    → is_required r.mode ≡ false
    → (answer_match r anon c).1 ≡ true
answer_match-passes r anon none lenient = rw lenient refl
answer_match-passes r anon (some c) lenient = refl

resolve_token-passes :
    (digest : List ℕ → List ℕ) (r : Resolver) (anon : Identity) (token : Option (List ℕ))
    → is_required r.mode ≡ false
    → (resolve_token digest r anon token).1 ≡ true
unfolding resolve_token
resolve_token-passes digest r anon none lenient = rw lenient refl
resolve_token-passes digest r anon (some t) lenient =
    answer_match-passes r anon (matched (digest t) r.clients) lenient

resolve_mode-passes :
    (digest : List ℕ → List ℕ) (r : Resolver) (anon : Identity) (header : List ℕ) (mode : Mode)
    → r.mode ≡ mode
    → mode ≢ auth_required
    → (resolve_mode digest r anon header mode).1 ≡ true
unfolding resolve_mode
resolve_mode-passes digest r anon header auth_off is_mode lenient = refl
resolve_mode-passes digest r anon header auth_optional is_mode lenient =
    resolve_token-passes digest r anon (bearer_token header) (ap is_required is_mode)
resolve_mode-passes digest r anon header auth_required is_mode lenient = absurd (lenient refl)

-- In every mode but required, whatever the request carries, it goes on, with the identity that
-- Resolve gives it.
pub authenticate-passes :
    (digest : List ℕ → List ℕ) (realm : List ℕ) (r : Resolver) (req : Request)
    → r.mode ≢ auth_required
    → (authenticate digest realm r req).1 ≡ goes_on (resolve digest r req).0
unfolding authenticate
authenticate-passes digest realm r req lenient =
    ap (λ ok. pass_resolved realm ((resolve digest r req).0, ok))
      (resolve_mode-passes digest r (anonymous_identity r req) req.authorization r.mode refl
        lenient)
