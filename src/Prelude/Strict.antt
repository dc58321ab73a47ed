-- ===== src/Prelude/Strict.antt =====
-- Lists whose elements stand in strict order, as sorting leaves them where any two can be compared.
use Prim.Native.Nat.{ℕ, zero, suc, ◌<◌, ◌≤◌}
use mathlib.Core.Path.{◌≡◌, refl}
use mathlib.Core.Bool.{Bool, true, ◌||◌, ◌&&◌}
use mathlib.Core.List.{List, [], ◌∷◌}
use native.Mathlib.Omega.{arith}
use gogolook_task_api.Prelude.Lists.{All, keep, length, take, drop, All-keep, All-take}
use gogolook_task_api.Prelude.Sort.{insert, sort, IsOrder, insert-All, sort-All}

abbrev pub last {ℓ} : {A : Type ℓ} → A → List A → A
last x [] = x
last x (y ∷ ys) = last y ys

pub All-last {ℓ κ} :
    {A : Type ℓ} (P : A → Type κ) (x : A) (xs : List A) → P x → All P xs → P (last x xs)
All-last P x [] h a = h
All-last P x (y ∷ ys) h a = All-last P y ys a.0 a.1

pub All-always {ℓ κ} : {A : Type ℓ} (P : A → Type κ) → ((x : A) → P x) → (xs : List A) → All P xs
All-always P h [] = tt
All-always P h (x ∷ xs) = (h x, All-always P h xs)

pub length-keep-le {ℓ} : {A : Type ℓ} (p : A → Bool) (xs : List A) → length (keep p xs) ≤ length xs
length-keep-le p [] = omega arith
length-keep-le p (x ∷ xs) = ground (arith, length-keep-le p xs)

-- A test that is the narrower one filters what is left of the wider one's list.
pub keep-keep {ℓ} :
    {A : Type ℓ} (p q : A → Bool) (xs : List A)
    → ((x : A) → q x ≡ true → p x ≡ true)
    → keep q (keep p xs) ≡ keep q xs
keep-keep p q [] h = refl
keep-keep p q (x ∷ xs) h = ground (arith, h x, keep-keep p q xs h)

-- Two tests in a row filter as their conjunction does.
pub keep-and {ℓ} :
    {A : Type ℓ} (p q : A → Bool) (xs : List A) → keep (λ x. p x && q x) xs ≡ keep q (keep p xs)
keep-and p q [] = refl
keep-and p q (x ∷ xs) = ground (arith, keep-and p q xs)

pub keep-same {ℓ} :
    {A : Type ℓ} (p q : A → Bool) (xs : List A) → ((x : A) → p x ≡ q x) → keep p xs ≡ keep q xs
keep-same p q [] h = refl
keep-same p q (x ∷ xs) h = ground (arith, h x, keep-same p q xs h)

pub keep_always {ℓ} :
    {A : Type ℓ} (p : A → Bool) (xs : List A) → All (λ x. p x ≡ true) xs → keep p xs ≡ xs
keep_always p [] a = refl
keep_always p (x ∷ xs) a = ground (arith, keep_always p xs a.1)

module _ {ℓ} {A : Type ℓ} (before : A → A → Bool) where
  abbrev pub IsStrict : List A → Type 0
  IsStrict [] = Unit
  IsStrict (x ∷ xs) = All (λ y. before x y ≡ true) xs × IsStrict xs

  length-insert : (x : A) (xs : List A) → length (insert before x xs) ≡ suc (length xs)
  unfolding insert
  length-insert x [] = refl
  length-insert x (y ∷ ys) = ground (arith, length-insert x ys)

  pub length-sort : (xs : List A) → length (sort before xs) ≡ length xs
  unfolding sort
  length-sort [] = refl
  length-sort (x ∷ xs) = omega (arith, length-insert x (sort before xs), length-sort xs)

  -- Any two elements at different places can be compared.
  abbrev pub IsComparable : List A → Type 0
  IsComparable [] = Unit
  IsComparable (x ∷ xs) = All (λ y. (before x y || before y x) ≡ true) xs × IsComparable xs

  pub keep-IsStrict : (p : A → Bool) (xs : List A) → IsStrict xs → IsStrict (keep p xs)
  keep-IsStrict p [] s = tt
  keep-IsStrict p (x ∷ xs) s =
      ground (arith, All-keep (λ y. before x y ≡ true) p xs s.0, keep-IsStrict p xs s.1)

  pub keep-IsComparable : (p : A → Bool) (xs : List A) → IsComparable xs → IsComparable (keep p xs)
  keep-IsComparable p [] c = tt
  keep-IsComparable p (x ∷ xs) c = ground (
    arith,
    All-keep (λ y. (before x y || before y x) ≡ true) p xs c.0,
    keep-IsComparable p xs c.1,
  )

  module _ (o : IsOrder before)
      (co : (x y z : A) → before x y ≡ true → before y z ≡ true → before x z ≡ true) where
    All-beyond :
        (x y : A) (ys : List A)
        → before x y ≡ true
        → All (λ z. before y z ≡ true) ys
        → All (λ z. before x z ≡ true) ys
    All-beyond x y [] h a = tt
    All-beyond x y (z ∷ ys) h a = (co x y z h a.0, All-beyond x y ys h a.1)

    insert-IsStrict :
        (x : A) (ys : List A)
        → IsStrict ys
        → All (λ y. (before x y || before y x) ≡ true) ys
        → IsStrict (insert before x ys)
    unfolding insert
    insert-IsStrict x [] s c = (tt, tt)
    insert-IsStrict x (y ∷ ys) s c = ground (
      arith,
      All-beyond x y ys,
      insert-All before (λ z. before y z ≡ true) x ys,
      insert-IsStrict x ys s.1 c.1,
    )

    pub sort-IsStrict : (xs : List A) → IsComparable xs → IsStrict (sort before xs)
    unfolding sort
    sort-IsStrict [] c = tt
    sort-IsStrict (x ∷ xs) c =
        insert-IsStrict x (sort before xs) (sort-IsStrict xs c.1)
          (sort-All before (λ y. (before x y || before y x) ≡ true) xs c.0)

    -- What comes behind the last of the first elements is the rest of the list.
    pub keep-behind :
        (n : ℕ) (x : A) (xs : List A)
        → IsStrict (x ∷ xs)
        → n < length (x ∷ xs)
        → keep (before (last x (take n xs))) (x ∷ xs) ≡ drop n xs
    keep-behind zero x xs s h = ground (arith, keep_always (before x) xs s.0, o.asymmetric x x)
    keep-behind (suc n) x [] s h = ground arith
    keep-behind (suc n) x (y ∷ ys) s h = ground (
      arith,
      o.asymmetric x (last y (take n ys)) (
          All-last (λ z. before x z ≡ true) y (take n ys) s.0.0
            (All-take (λ z. before x z ≡ true) n ys s.0.1)),
      keep-behind n y ys s.1,
    )
