-- ===== src/Idempotency/Framing.antt =====
-- The framing of Fingerprint in internal/idempotency/idempotency.go cannot be cut in another way.
use gogolook_task_api.Prelude.{
  ℕ, List, [], ◌∷◌, ◌++◌, ◌≡◌, refl, ap, ◌∙◌, sym, length, append_nil, take, drop,
}
use gogolook_task_api.Prelude.Decimal.{
  decimal, value, value-decimal, decimal-All, split_colon, split_colon-append,
}
use gogolook_task_api.Idempotency.Fingerprints.{framed, hashed, canonical_path, colon}

-- Reading a framed part back: the digits up to the first colon, and as many bytes as they say.
abbrev cut_at : List ℕ × List ℕ → List ℕ × List ℕ
cut_at (digits, rest) = (take (value 0 digits) rest, drop (value 0 digits) rest)

abbrev unframe : List ℕ → List ℕ × List ℕ
unframe s = cut_at (split_colon s)

append_middle : (d p s : List ℕ) → (d ++ colon ∷ p) ++ s ≡ d ++ colon ∷ (p ++ s)
append_middle [] p s = refl
append_middle (c ∷ d) p s = ap (◌∷◌ c) (append_middle d p s)

take_append : (p s : List ℕ) → take (length p) (p ++ s) ≡ p
take_append [] s = refl
take_append (c ∷ p) s = ap (◌∷◌ c) (take_append p s)

drop_append : (p s : List ℕ) → drop (length p) (p ++ s) ≡ s
drop_append [] s = refl
drop_append (c ∷ p) s = drop_append p s

unframe-framed : (p s : List ℕ) → unframe (framed p ++ s) ≡ (p, s)
unfolding framed
unframe-framed p s =
    rw
      (
        append_middle (decimal (length p)) p s,
        split_colon-append (decimal (length p)) (p ++ s) (decimal-All (length p)),
        value-decimal (length p),
        take_append p s,
        drop_append p s,
      )
      refl

framed-injective : (p q s t : List ℕ) → framed p ++ s ≡ framed q ++ t → (p ≡ q) × (s ≡ t)
framed-injective p q s t e =
    let both : (p, s) ≡ (q, t) = sym (unframe-framed p s) ∙ ap unframe e ∙ unframe-framed q t in
    (ap (λ x. x.0) both, ap (λ x. x.1) both)

-- What is hashed for two requests is the same only where the methods, the canonical paths and the
-- bodies are all the same: no path and body can be cut into others with the same text.
pub hashed-injective :
    (m n p q b c : List ℕ)
    → hashed m p b ≡ hashed n q c
    → (m ≡ n) × (canonical_path p ≡ canonical_path q) × (b ≡ c)
unfolding hashed
hashed-injective m n p q b c e =
    let one =
      framed-injective m n (framed (canonical_path p) ++ framed b)
        (framed (canonical_path q) ++ framed c) e in
    let two = framed-injective (canonical_path p) (canonical_path q) (framed b) (framed c) one.1 in
    let three =
      framed-injective b c [] [] (append_nil (framed b) ∙ two.1 ∙ sym (append_nil (framed c))) in
    (one.0, two.0, three.0)
