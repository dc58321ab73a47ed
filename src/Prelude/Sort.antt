-- ===== src/Prelude/Sort.antt =====
-- Sorting by a Boolean strict order: an insertion sort, which `slices.SortFunc` and ORDER BY agree
-- with wherever the order leaves one result.
use mathlib.Core.Path.{◌≡◌, refl}
use mathlib.Core.Bool.{Bool, true, false}
use mathlib.Core.List.{List, [], ◌∷◌}
use native.Mathlib.Omega.{arith}
use gogolook_task_api.Prelude.Tests.{if◌then◌else◌}
use gogolook_task_api.Prelude.Lists.{All, keep, count}

module _ {ℓ} {A : Type ℓ} (before : A → A → Bool) where
  unfoldable pub insert : A → List A → List A
  insert x [] = x ∷ []
  insert x (y ∷ ys) = if before x y then x ∷ y ∷ ys else y ∷ insert x ys

  unfoldable pub sort : List A → List A
  unfolding insert
  sort [] = []
  sort (x ∷ xs) = insert x (sort xs)

  -- No element stands behind one that it comes before.
  abbrev pub IsSorted : List A → Type 0
  IsSorted [] = Unit
  IsSorted (x ∷ xs) = All (λ y. before y x ≡ false) xs × IsSorted xs

  pub count-insert : (p : A → Bool) (x : A) (ys : List A) → count p (insert x ys) ≡ count p (x ∷ ys)
  unfolding insert
  count-insert p x [] = refl
  count-insert p x (y ∷ ys) = ground (arith, count-insert p x ys)

  -- Sorting keeps every element as often as it stood in the list.
  pub count-sort : (p : A → Bool) (xs : List A) → count p (sort xs) ≡ count p xs
  unfolding sort
  count-sort p [] = refl
  count-sort p (x ∷ xs) = ground (arith, count-insert p x (sort xs), count-sort p xs)

  pub insert-All {κ} : (P : A → Type κ) (x : A) (ys : List A) → P x → All P ys → All P (insert x ys)
  unfolding insert
  insert-All P x [] h a = (h, tt)
  insert-All P x (y ∷ ys) h a = ground (arith, insert-All P x ys h a.1)

  pub sort-All {κ} : (P : A → Type κ) (xs : List A) → All P xs → All P (sort xs)
  unfolding sort
  sort-All P [] a = tt
  sort-All P (x ∷ xs) a = insert-All P x (sort xs) a.0 (sort-All P xs a.1)

  -- What the order has to satisfy: it is a strict weak order.
  pub record IsOrder : Type ℓ where
    pub asymmetric : (x y : A) → before x y ≡ true → before y x ≡ false
    pub co_transitive : (x y z : A) → before x y ≡ true → before z y ≡ false → before x z ≡ true

  module _ (o : IsOrder) where
    All-behind :
        (x y : A) (ys : List A)
        → before x y ≡ true
        → All (λ z. before z y ≡ false) ys
        → All (λ z. before z x ≡ false) ys
    All-behind x y [] h a = tt
    All-behind x y (z ∷ ys) h a =
        (o.asymmetric x z (o.co_transitive x y z h a.0), All-behind x y ys h a.1)

    insert-IsSorted : (x : A) (ys : List A) → IsSorted ys → IsSorted (insert x ys)
    unfolding insert
    insert-IsSorted x [] s = (tt, tt)
    insert-IsSorted x (y ∷ ys) s = ground (
      arith,
      All-behind x y ys,
      o.asymmetric x y,
      insert-All (λ z. before z y ≡ false) x ys,
      insert-IsSorted x ys s.1,
    )

    pub sort-IsSorted : (xs : List A) → IsSorted (sort xs)
    unfolding sort
    sort-IsSorted [] = tt
    sort-IsSorted (x ∷ xs) = insert-IsSorted x (sort xs) (sort-IsSorted xs)

    -- An element that comes before all of a list is put in front.
    pub insert-front :
        (x : A) (ys : List A) → All (λ y. before x y ≡ true) ys → insert x ys ≡ x ∷ ys
    unfolding insert
    insert-front x [] a = refl
    insert-front x (y ∷ ys) a = ground arith

    All-front :
        (x y : A) (ys : List A)
        → before x y ≡ true
        → All (λ z. before z y ≡ false) ys
        → All (λ z. before x z ≡ true) ys
    All-front x y [] h a = tt
    All-front x y (z ∷ ys) h a = (o.co_transitive x y z h a.0, All-front x y ys h a.1)

    All-keep-front :
        (p : A → Bool) (x : A) (ys : List A)
        → All (λ z. before x z ≡ true) ys
        → All (λ z. before x z ≡ true) (keep p ys)
    All-keep-front p x [] a = tt
    All-keep-front p x (y ∷ ys) a = ground (arith, All-keep-front p x ys a.1)

    keep-insert_in :
        (p : A → Bool) (x : A) (ys : List A)
        → IsSorted ys
        → p x ≡ true
        → keep p (insert x ys) ≡ insert x (keep p ys)
    unfolding insert
    keep-insert_in p x [] s h = ground arith
    keep-insert_in p x (y ∷ ys) s h = ground (
      arith,
      keep-insert_in p x ys s.1,
      All-front x y ys,
      All-keep-front p x ys,
      insert-front x (keep p ys),
    )

    keep-insert_out :
        (p : A → Bool) (x : A) (ys : List A) → p x ≡ false → keep p (insert x ys) ≡ keep p ys
    unfolding insert
    keep-insert_out p x [] h = ground arith
    keep-insert_out p x (y ∷ ys) h = ground (arith, keep-insert_out p x ys h)

    -- Filtering and sorting commute.
    pub keep-sort : (p : A → Bool) (xs : List A) → keep p (sort xs) ≡ sort (keep p xs)
    unfolding sort
    keep-sort p [] = refl
    keep-sort p (x ∷ xs) = ground (
      arith,
      keep-insert_in p x (sort xs) (sort-IsSorted xs),
      keep-insert_out p x (sort xs),
      keep-sort p xs,
    )
