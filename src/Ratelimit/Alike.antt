-- ===== src/Ratelimit/Alike.antt =====
-- The tables of two limiters of internal/ratelimit/limiter.go, of which one sweeps.
use gogolook_task_api.Prelude.{
  ℕ, ◌+◌, ◌≤◌, Bool, true, false, Option, none, some, List, ◌≡◌, refl, ap, ◌∙◌, sym, subst, inl,
  inr, Bool-cases, arith,
}
use gogolook_task_api.Prelude.Bytes.{bytes_eq, bytes_eq_iff, find_key, put_key, find_key-put_key}
use gogolook_task_api.Ratelimit.Limiter.{
  Limits, Rates, Bucket, Buckets, refill, quota_of, limiter_of, decide, is_idle, sweep,
}
use gogolook_task_api.Ratelimit.Traffic.{Documented, IsWithin}
use gogolook_task_api.Ratelimit.Tables.{
  HasKeysOnce, put_key-HasKeysOnce, sweep-HasKeysOnce, swept, sweep-find,
}

-- What a key holds in the table of a limiter that sweeps and in one that does not: the same, or
-- nothing against a bucket whose time has run out by t.
abbrev pub Agrees : {B : Type 0} → (ttl t : ℕ) → Option (Bucket B) → Option (Bucket B) → Type 0
Agrees ttl t none none = Unit
Agrees ttl t none (some b) = b.seen + ttl ≤ t
Agrees ttl t (some a) none = ⊥
Agrees ttl t (some a) (some b) = a ≡ b

module _ {B : Type 0} (rates : Rates B) (law : Documented rates) (cfg : Limits) (drift : ℕ) where
  -- A bucket as the limiter keeps it at t.
  abbrev pub IsKept : ℕ → Option (Bucket B) → Type 0
  IsKept t none = Unit
  IsKept t (some b) =
      (law.used b.limiter ≤ b.seen + drift)
      × (law.used b.limiter ≤ t)
      × (law.quota b.limiter ≡ quota_of cfg b.tier)

  Agrees-swept :
      (t now : ℕ) (o p : Option (Bucket B))
      → t ≤ now
      → Agrees cfg.key_ttl t o p
      → Agrees cfg.key_ttl now (swept cfg.key_ttl now o) p
  Agrees-swept t now none none le h = tt
  Agrees-swept t now none (some b) le h = omega (arith, h, le)
  Agrees-swept t now (some a) none le h = absurd h
  Agrees-swept t now (some a) (some b) le h = elim (Bool-cases (is_idle cfg.key_ttl now a)) [
    | inl idle ↦ rw idle (let same : a.seen ≡ b.seen = ap (λ x. x.seen) h in ground arith)
    | inr busy ↦ rw busy h
  ]

  refilled_limiter :
      (now : ℕ) (tier : List ℕ) (b : Bucket B)
      → IsWithin drift cfg.key_ttl (quota_of cfg tier)
      → law.used b.limiter + refill (quota_of cfg tier) ≤ now
      → law.quota b.limiter ≡ quota_of cfg tier
      → rates.allow_one now b.limiter ≡ rates.allow_one now (rates.new_limiter (quota_of cfg tier))
  refilled_limiter now tier b within idle same =
      law.refilled now b.limiter (subst (λ q. 1 ≤ q.burst) (sym same) within.burst)
        (subst (λ q. law.used b.limiter + refill q ≤ now) (sym same) idle)
      ∙ ap (λ q. rates.allow_one now (rates.new_limiter q)) same

  -- Both limiters answer a request alike.
  pub allow_one-same :
      (t now : ℕ) (tier : List ℕ) (o p : Option (Bucket B))
      → IsWithin drift cfg.key_ttl (quota_of cfg tier)
      → t ≤ now
      → Agrees cfg.key_ttl t o p
      → IsKept t p
      → rates.allow_one now (limiter_of rates cfg tier o)
        ≡ rates.allow_one now (limiter_of rates cfg tier p)
  unfolding limiter_of
  allow_one-same t now tier none none within le h kept = refl
  allow_one-same t now tier none (some b) within le h kept =
      elim (Bool-cases (bytes_eq b.tier tier)) [
        | inr other ↦ rw other refl
        | inl same ↦ rw same (
            sym (
              refilled_limiter now tier b within (omega (arith, le, h, kept.0, within.refills))
                (kept.2 ∙ ap (quota_of cfg) ((bytes_eq_iff b.tier tier).0 same))))
      ]
  allow_one-same t now tier (some a) none within le h kept = absurd h
  allow_one-same t now tier (some a) (some b) within le h kept =
      ap (λ x. rates.allow_one now (limiter_of rates cfg tier (some x))) h

  pub limiter_of-kept :
      (t : ℕ) (tier : List ℕ) (p : Option (Bucket B))
      → IsKept t p
      → (law.used (limiter_of rates cfg tier p) ≤ t)
        × (law.quota (limiter_of rates cfg tier p) ≡ quota_of cfg tier)
  unfolding limiter_of
  limiter_of-kept t tier none kept =
      (omega (arith, law.new_used (quota_of cfg tier)), law.new_quota (quota_of cfg tier))
  limiter_of-kept t tier (some b) kept = elim (Bool-cases (bytes_eq b.tier tier)) [
    | inl same ↦ rw same (kept.1, kept.2 ∙ ap (quota_of cfg) ((bytes_eq_iff b.tier tier).0 same))
    | inr other ↦
        rw other
          (omega (arith, law.new_used (quota_of cfg tier)), law.new_quota (quota_of cfg tier))
  ]

  Agrees-later :
      (t now : ℕ) (o p : Option (Bucket B))
      → t ≤ now
      → Agrees cfg.key_ttl t o p
      → Agrees cfg.key_ttl now o p
  Agrees-later t now none none le h = tt
  Agrees-later t now none (some b) le h = omega (arith, le, h)
  Agrees-later t now (some a) none le h = absurd h
  Agrees-later t now (some a) (some b) le h = h

  IsKept-later : (t now : ℕ) (p : Option (Bucket B)) → t ≤ now → IsKept t p → IsKept now p
  IsKept-later t now none le kept = tt
  IsKept-later t now (some b) le kept = (kept.0, omega (arith, le, kept.1), kept.2)

  -- The bucket that a request leaves.
  pub decide-kept :
      (now : ℕ) (tier : List ℕ) (x : Bool × B)
      → law.used x.1 ≤ now
      → law.quota x.1 ≡ quota_of cfg tier
      → let b = (decide rates cfg tier now x).1 in
        (law.used b ≤ now) × (law.quota b ≡ quota_of cfg tier)
  unfolding decide
  decide-kept now tier (true, b) used quota = (used, quota)
  decide-kept now tier (false, b) used quota =
      (law.probe_used now b used, law.probe_quota now b ∙ quota)

  -- The tables of the two limiters at t.
  pub record IsAlike (t : ℕ) (m n : Buckets B) : Type 0 where
    pub once : HasKeysOnce m
    pub agrees : (k : List ℕ) → Agrees cfg.key_ttl t (find_key k m) (find_key k n)
    pub kept : (k : List ℕ) → IsKept t (find_key k n)

  pub put_key-IsAlike :
      (t now seen : ℕ) (k tier : List ℕ) (a b : B) (m n : Buckets B)
      → t ≤ now
      → now ≤ seen + drift
      → a ≡ b
      → law.used b ≤ now
      → law.quota b ≡ quota_of cfg tier
      → IsAlike t m n
      → IsAlike now
          (put_key k (record { limiter = a; tier = tier; seen = seen }) m)
          (put_key k (record { limiter = b; tier = tier; seen = seen }) n)
  put_key-IsAlike t now seen k tier a b m n le near same used quota alike =
      let v : Bucket B = record { limiter = a; tier = tier; seen = seen } in
      let w : Bucket B = record { limiter = b; tier = tier; seen = seen } in
      record {
        once = put_key-HasKeysOnce k v m alike.once;
        agrees = λ j.
            rw (find_key-put_key k j v m, find_key-put_key k j w n)
              (elim (Bool-cases (bytes_eq k j)) [
                | inl own ↦ rw own (ap (λ x. record { limiter = x; tier = tier; seen = seen }) same)
                | inr other ↦
                    rw other (Agrees-later t now (find_key j m) (find_key j n) le (alike.agrees j))
              ]);
        kept = λ j. rw (find_key-put_key k j w n) (elim (Bool-cases (bytes_eq k j)) [
          | inl own ↦ rw own (omega (arith, used, near), used, quota)
          | inr other ↦ rw other (IsKept-later t now (find_key j n) le (alike.kept j))
        ]);
      }

  pub sweep-IsAlike :
      (t now : ℕ) (m n : Buckets B)
      → t ≤ now
      → IsAlike t m n
      → IsAlike now (sweep cfg.key_ttl now m).0 n
  sweep-IsAlike t now m n le alike = record {
    once = sweep-HasKeysOnce cfg.key_ttl now m alike.once;
    agrees = λ k.
        rw (sweep-find cfg.key_ttl now k m alike.once)
          (Agrees-swept t now (find_key k m) (find_key k n) le (alike.agrees k));
    kept = λ k. IsKept-later t now (find_key k n) le (alike.kept k);
  }
