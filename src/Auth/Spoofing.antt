-- ===== src/Auth/Spoofing.antt =====
-- What a caller writes into X-Forwarded-For does not reach ClientIP of internal/auth/auth.go.
use gogolook_task_api.Prelude.{
  ℕ, suc, ◌+◌, ◌-◌, ◌≤◌, List, [], ◌∷◌, ◌++◌, ◌==◌, length, if◌then◌else◌, ◌≡◌, refl, ap, ◌∙◌,
  arith,
}
use gogolook_task_api.Prelude.Int.{pos}
use gogolook_task_api.Task.{trim_space}
use gogolook_task_api.Auth.Address.{
  comma, onto_first, split_commas, entries, host, forwarded_for, element_or, before_proxies,
  client_ip,
}

abbrev IsCons : List (List ℕ) → Type 0
IsCons [] = ⊥
IsCons (p ∷ ps) = Unit

onto_first-IsCons : (c : ℕ) (ps : List (List ℕ)) → IsCons (onto_first c ps)
onto_first-IsCons c [] = tt
onto_first-IsCons c (p ∷ ps) = tt

split_commas-IsCons : (s : List ℕ) → IsCons (split_commas s)
unfolding split_commas
split_commas-IsCons [] = tt
split_commas-IsCons (c ∷ s) = ground (arith, onto_first-IsCons c (split_commas s))

onto_first-append :
    (c : ℕ) (ps qs : List (List ℕ)) → IsCons ps → onto_first c (ps ++ qs) ≡ onto_first c ps ++ qs
onto_first-append c [] qs h = absurd h
onto_first-append c (p ∷ ps) qs h = refl

split_commas-append :
    (s t : List ℕ) → split_commas (s ++ comma ∷ t) ≡ split_commas s ++ split_commas t
unfolding split_commas
split_commas-append [] t = refl
split_commas-append (c ∷ s) t = ground (
  arith,
  split_commas-append s t,
  onto_first-append c (split_commas s) (split_commas t) (split_commas-IsCons s),
)

entries-append : (ps qs : List (List ℕ)) → entries (ps ++ qs) ≡ entries ps ++ entries qs
unfolding entries
entries-append [] qs = refl
entries-append (p ∷ ps) qs = ground (arith, entries-append ps qs)

forwarded_for-entries : (t : List ℕ) → forwarded_for t ≡ entries (split_commas t)
unfolding forwarded_for entries split_commas trim_space
forwarded_for-entries [] = refl
forwarded_for-entries (c ∷ t) = refl

forwarded_for-append :
    (s t : List ℕ) → forwarded_for (s ++ comma ∷ t) ≡ forwarded_for s ++ forwarded_for t
forwarded_for-append s t =
    rw
      (
        forwarded_for-entries (s ++ comma ∷ t),
        forwarded_for-entries s,
        forwarded_for-entries t,
        split_commas-append s t,
      )
      (entries-append (split_commas s) (split_commas t))

element_or-append :
    (d : List ℕ) (xs ys : List (List ℕ)) (i : ℕ)
    → element_or d (length xs + i) (xs ++ ys) ≡ element_or d i ys
unfolding element_or
element_or-append d [] ys i =
    let none_left : 0 + i ≡ i = omega arith in ap (λ k. element_or d k ys) none_left
element_or-append d (x ∷ xs) ys i =
    let one_less : suc (length xs) + i ≡ suc (length xs + i) = omega arith in
    ap (λ k. element_or d k (x ∷ (xs ++ ys))) one_less ∙ element_or-append d xs ys i

length-append : (xs ys : List (List ℕ)) → length (xs ++ ys) ≡ length xs + length ys
length-append [] ys = omega arith
length-append (x ∷ xs) ys = omega (arith, length-append xs ys)

before_proxies-append :
    (hops : ℕ) (peer : List ℕ) (xs ys : List (List ℕ))
    → hops + 1 ≤ length ys
    → before_proxies hops peer (xs ++ ys) ≡ before_proxies hops peer ys
unfolding before_proxies
before_proxies-append hops peer xs ys h =
    let place : length (xs ++ ys) - (hops + 1) ≡ length xs + (length ys - (hops + 1)) =
      omega (arith, length-append xs ys, h) in
    let moved : element_or peer (length (xs ++ ys) - (hops + 1)) (xs ++ ys)
        ≡ element_or peer (length ys - (hops + 1)) ys =
      ap (λ k. element_or peer k (xs ++ ys)) place
      ∙ element_or-append peer xs ys (length ys - (hops + 1)) in
    ground (arith, length-append xs ys, moved)

append_assoc : (xs ys zs : List (List ℕ)) → (xs ++ ys) ++ zs ≡ xs ++ (ys ++ zs)
append_assoc [] ys zs = refl
append_assoc (x ∷ xs) ys zs = ap (◌∷◌ x) (append_assoc xs ys zs)

-- Where the trusted proxies have appended at least as many addresses as there are of them to the
-- line of X-Forwarded-For that is read, what stood in it before does not matter: the caller's
-- address is the one that their part alone gives.
pub client_ip-append :
    (remote written trusted : List ℕ) (hops : ℕ) (lines : List (List ℕ))
    → hops ≤ length (forwarded_for trusted)
    → client_ip remote ((written ++ comma ∷ trusted) ∷ lines) (pos hops)
      ≡ client_ip remote (trusted ∷ lines) (pos hops)
unfolding client_ip
client_ip-append remote written trusted hops lines h =
    let same : before_proxies hops (host remote)
          (forwarded_for (written ++ comma ∷ trusted) ++ host remote ∷ [])
        ≡ before_proxies hops (host remote) (forwarded_for trusted ++ host remote ∷ []) =
      ap (λ e. before_proxies hops (host remote) (e ++ host remote ∷ []))
        (forwarded_for-append written trusted)
      ∙ ap (before_proxies hops (host remote))
          (append_assoc (forwarded_for written) (forwarded_for trusted) (host remote ∷ []))
      ∙ before_proxies-append hops (host remote) (forwarded_for written)
          (forwarded_for trusted ++ host remote ∷ [])
          (omega (arith, h, length-append (forwarded_for trusted) (host remote ∷ []))) in
    ap (λ x. if hops == 0 then host remote else x) same
