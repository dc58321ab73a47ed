-- ===== src/Prelude/Bytes.antt =====
-- Lists of numbers as texts and bytes, and tables keyed by them.
use Prim.Native.Nat.{ℕ}
use mathlib.Core.Path.{◌≡◌, refl}
use mathlib.Core.Logic.{◌↔◌}
use mathlib.Core.Bool.{Bool, true, false, ◌&&◌}
use mathlib.Core.Option.{Option, none, some}
use mathlib.Core.List.{List, [], ◌∷◌}
use native.Mathlib.Omega.{arith}
use gogolook_task_api.Prelude.Tests.{if◌then◌else◌, ◌==◌}

unfoldable pub bytes_eq : List ℕ → List ℕ → Bool
bytes_eq [] [] = true
bytes_eq [] (y ∷ ys) = false
bytes_eq (x ∷ xs) [] = false
bytes_eq (x ∷ xs) (y ∷ ys) = x == y && bytes_eq xs ys

pub bytes_eq_self : (xs : List ℕ) → bytes_eq xs xs ≡ true
unfolding bytes_eq
bytes_eq_self [] = refl
bytes_eq_self (x ∷ xs) = ground (arith, bytes_eq_self xs)

pub bytes_eq_iff : (xs ys : List ℕ) → (bytes_eq xs ys ≡ true) ↔ (xs ≡ ys)
unfolding bytes_eq
bytes_eq_iff [] [] = ground arith
bytes_eq_iff [] (y ∷ ys) = ground arith
bytes_eq_iff (x ∷ xs) [] = ground arith
bytes_eq_iff (x ∷ xs) (y ∷ ys) = ground (arith, bytes_eq_iff xs ys)

-- A Go map with text keys, as an association list in the order that `range` visits.
module _ {ℓ} {V : Type ℓ} where
  unfoldable pub find_key : List ℕ → List (List ℕ × V) → Option V
  find_key k [] = none
  find_key k ((j, v) ∷ m) = if bytes_eq j k then some v else find_key k m

  unfoldable pub remove_key : List ℕ → List (List ℕ × V) → List (List ℕ × V)
  remove_key k [] = []
  remove_key k ((j, v) ∷ m) =
      let rest = remove_key k m in if bytes_eq j k then rest else (j, v) ∷ rest

  unfoldable pub put_key : List ℕ → V → List (List ℕ × V) → List (List ℕ × V)
  put_key k v [] = (k, v) ∷ []
  put_key k v ((j, u) ∷ m) = if bytes_eq j k then (k, v) ∷ m else (j, u) ∷ put_key k v m

  pub find_key-put_key :
      (k j : List ℕ) (v : V) (m : List (List ℕ × V))
      → find_key j (put_key k v m) ≡ (if bytes_eq k j then some v else find_key j m)
  unfolding find_key put_key
  find_key-put_key k j v [] = refl
  find_key-put_key k j v ((i, u) ∷ m) =
      ground (arith, find_key-put_key k j v m, bytes_eq_iff i k, bytes_eq_iff i j, bytes_eq_iff k j)

  pub find_key-remove_key :
      (k j : List ℕ) (m : List (List ℕ × V))
      → find_key j (remove_key k m) ≡ (if bytes_eq k j then none else find_key j m)
  unfolding find_key remove_key
  find_key-remove_key k j [] = ground arith
  find_key-remove_key k j ((i, u) ∷ m) =
      ground
        (arith, find_key-remove_key k j m, bytes_eq_iff i k, bytes_eq_iff i j, bytes_eq_iff k j)
