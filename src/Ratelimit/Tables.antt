-- ===== src/Ratelimit/Tables.antt =====
-- The table of internal/ratelimit/limiter.go: what a sweep leaves under a key.
use gogolook_task_api.Prelude.{
  ℕ, Option, none, some, List, [], ◌∷◌, ◌≡◌, refl, subst, inl, inr, Bool-cases, arith,
  if◌then◌else◌,
}
use gogolook_task_api.Prelude.Bytes.{bytes_eq, bytes_eq_iff, find_key, put_key, find_key-put_key}
use gogolook_task_api.Ratelimit.Limiter.{Bucket, Buckets, is_idle, sweep}

-- The keys of a table are distinct.
abbrev pub HasKeysOnce : {B : Type 0} → Buckets B → Type 0
HasKeysOnce [] = Unit {0}
HasKeysOnce ((k, b) ∷ m) = (find_key k m ≡ none) × HasKeysOnce m

module _ {B : Type 0} where
  pub put_key-HasKeysOnce :
      (k : List ℕ) (v : Bucket B) (m : Buckets B) → HasKeysOnce m → HasKeysOnce (put_key k v m)
  unfolding put_key find_key
  put_key-HasKeysOnce k v [] once = (refl, tt)
  put_key-HasKeysOnce k v ((j, b) ∷ m) once = elim (Bool-cases (bytes_eq j k)) [
    | inl same ↦
        rw same (subst (λ x. find_key x m ≡ none) ((bytes_eq_iff j k).0 same) once.0, once.1)
    | inr other ↦ rw other (
      ground (arith, find_key-put_key k j v m, bytes_eq_iff k j, bytes_eq_iff j k, once.0),
      put_key-HasKeysOnce k v m once.1,
    )
  ]

  sweep-find_none :
      (ttl now : ℕ) (k : List ℕ) (m : Buckets B)
      → find_key k m ≡ none
      → find_key k (sweep ttl now m).0 ≡ none
  unfolding sweep find_key
  sweep-find_none ttl now k [] h = refl
  sweep-find_none ttl now k ((j, b) ∷ m) h = ground (arith, sweep-find_none ttl now k m)

  pub sweep-HasKeysOnce :
      (ttl now : ℕ) (m : Buckets B) → HasKeysOnce m → HasKeysOnce (sweep ttl now m).0
  unfolding sweep
  sweep-HasKeysOnce ttl now [] once = tt
  sweep-HasKeysOnce ttl now ((j, b) ∷ m) once = elim (Bool-cases (is_idle ttl now b)) [
    | inl idle ↦ rw idle (sweep-HasKeysOnce ttl now m once.1)
    | inr busy ↦ rw busy (sweep-find_none ttl now j m once.0, sweep-HasKeysOnce ttl now m once.1)
  ]

  abbrev pub swept : (ttl now : ℕ) → Option (Bucket B) → Option (Bucket B)
  swept ttl now none = none
  swept ttl now (some b) = if is_idle ttl now b then none else some b

  pub sweep-find :
      (ttl now : ℕ) (k : List ℕ) (m : Buckets B)
      → HasKeysOnce m
      → find_key k (sweep ttl now m).0 ≡ swept ttl now (find_key k m)
  unfolding sweep find_key
  sweep-find ttl now k [] once = refl
  sweep-find ttl now k ((j, b) ∷ m) once = elim (Bool-cases (bytes_eq j k)) [
    | inl same ↦
        let gone : find_key k (sweep ttl now m).0 ≡ none =
          sweep-find_none ttl now k m
            (subst (λ x. find_key x m ≡ none) ((bytes_eq_iff j k).0 same) once.0) in
        elim (Bool-cases (is_idle ttl now b)) [
          | inl idle ↦ rw (same, idle) gone
          | inr busy ↦ rw (same, busy) (rw same refl)
        ]
    | inr other ↦ elim (Bool-cases (is_idle ttl now b)) [
      | inl idle ↦ rw (other, idle) (sweep-find ttl now k m once.1)
      | inr busy ↦ rw (other, busy) (rw other (sweep-find ttl now k m once.1))
    ]
  ]
