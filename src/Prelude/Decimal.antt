-- ===== src/Prelude/Decimal.antt =====
-- `%d` of a natural number, and what its digits stand for.
use Prim.Native.Nat.{ℕ, zero, suc, ◌+◌, ◌-◌, ◌*◌, ◌/◌, ◌%◌, ◌≤◌, ◌<◌}
use mathlib.Core.Path.{◌≡◌, refl, ap, ◌∙◌, sym}
use mathlib.Core.Logic.{inl, inr}
use mathlib.Core.Bool.{false}
use mathlib.Core.List.{List, [], ◌∷◌, ◌++◌}
use native.Mathlib.Omega.{arith}
use gogolook_task_api.Prelude.Tests.{ltb, ◌==◌, if◌then◌else◌, Bool-cases}
use gogolook_task_api.Prelude.Lists.{All}
use gogolook_task_api.Prelude.Int.{ℤ, pos}

-- The digits of the decimal text; the number itself is fuel enough.
unfoldable pub decimal_from : ℕ → ℕ → List ℕ
decimal_from zero n = (n + 48) ∷ []
decimal_from (suc fuel) n =
    let front = decimal_from fuel (n / 10) in
    if ltb n 10 then (n + 48) ∷ [] else front ++ (n % 10 + 48) ∷ []

unfoldable pub decimal : ℕ → List ℕ
unfolding decimal_from
decimal n = decimal_from n n

-- The number that digits stand for.
abbrev pub value : ℕ → List ℕ → ℕ
value n [] = n
value n (d ∷ s) = value (10 * n + (d - 48)) s

value-append_one : (n d : ℕ) (s : List ℕ) → value n (s ++ d ∷ []) ≡ 10 * value n s + (d - 48)
value-append_one n d [] = refl
value-append_one n d (c ∷ s) = value-append_one (10 * n + (c - 48)) d s

pub value-decimal_from : (fuel n : ℕ) → n ≤ fuel → value 0 (decimal_from fuel n) ≡ n
unfolding decimal_from
value-decimal_from zero n h = omega (arith, h)
value-decimal_from (suc fuel) n h = ground (
  arith,
  value-append_one 0 (n % 10 + 48) (decimal_from fuel (n / 10)),
  value-decimal_from fuel (n / 10) (omega (arith, h)),
)

All-append_one : (P : ℕ → Type 0) (s : List ℕ) (d : ℕ) → All P s → P d → All P (s ++ d ∷ [])
All-append_one P [] d a h = (h, tt)
All-append_one P (c ∷ s) d a h = (a.0, All-append_one P s d a.1 h)

module _ (P : ℕ → Type 0) (digit : (n : ℕ) → n < 10 → P (n + 48)) where
  pub decimal_from-All : (fuel n : ℕ) → n ≤ fuel → All P (decimal_from fuel n)
  unfolding decimal_from
  decimal_from-All zero n h = (digit n (omega (arith, h)), tt)
  decimal_from-All (suc fuel) n h = elim (Bool-cases (ltb n 10)) [
    | inl one ↦ rw one (digit n (ground arith), tt)
    | inr more ↦ rw more (
        All-append_one P (decimal_from fuel (n / 10)) (n % 10 + 48)
          (decimal_from-All fuel (n / 10) (omega (arith, h))) (digit (n % 10) (omega arith)))
  ]

abbrev pub IsNoColon : ℕ → Type 0
IsNoColon d = (d == 58) ≡ false

abbrev pub IsNoMinus : ℕ → Type 0
IsNoMinus d = (d == 45) ≡ false

pub value-decimal : (n : ℕ) → value 0 (decimal n) ≡ n
unfolding decimal
value-decimal n = value-decimal_from n n (omega arith)

pub decimal-All : (n : ℕ) → All IsNoColon (decimal n)
unfolding decimal
decimal-All n = decimal_from-All IsNoColon (λ d h. ground arith) n n (omega arith)

decimal-unsigned : (n : ℕ) → All IsNoMinus (decimal n)
unfolding decimal
decimal-unsigned n = decimal_from-All IsNoMinus (λ d h. ground arith) n n (omega arith)

-- The number that the text of an integer stands for, with its sign.
abbrev pub read_int : List ℕ → ℤ
read_int [] = pos 0
read_int (c ∷ s) = if c == 45 then ℤ.negsuc (value 0 s - 1) else pos (value 0 (c ∷ s))

read_int-unsigned : (s : List ℕ) → All IsNoMinus s → read_int s ≡ pos (value 0 s)
read_int-unsigned [] a = refl
read_int-unsigned (c ∷ s) a = rw a.0 refl

pub read_int-decimal : (n : ℕ) → read_int (decimal n) ≡ pos n
read_int-decimal n = rw (read_int-unsigned (decimal n) (decimal-unsigned n), value-decimal n) refl

pub read_int-minus : (n : ℕ) → read_int (45 ∷ decimal (suc n)) ≡ ℤ.negsuc n
read_int-minus n = rw (value-decimal (suc n)) (ap ℤ.negsuc (omega arith))

-- A text cut at its first colon.
abbrev pub split_colon : List ℕ → List ℕ × List ℕ
split_colon [] = ([], [])
split_colon (d ∷ s) =
    let (digits, rest) = split_colon s in if d == 58 then ([], s) else (d ∷ digits, rest)

pub split_colon-append : (d r : List ℕ) → All IsNoColon d → split_colon (d ++ 58 ∷ r) ≡ (d, r)
split_colon-append [] r a = refl
split_colon-append (c ∷ d) r a = rw (a.0, split_colon-append d r a.1) refl

-- Texts without a colon, set before one, are told apart from what follows.
pub append_colon-injective :
    (d e r s : List ℕ)
    → All IsNoColon d
    → All IsNoColon e
    → d ++ 58 ∷ r ≡ e ++ 58 ∷ s
    → (d ≡ e) × (r ≡ s)
append_colon-injective d e r s a b h =
    let both : (d, r) ≡ (e, s) =
      sym (split_colon-append d r a) ∙ ap split_colon h ∙ split_colon-append e s b in
    (ap (λ x. x.0) both, ap (λ x. x.1) both)

pub decimal-injective : (m n : ℕ) → decimal m ≡ decimal n → m ≡ n
decimal-injective m n e = sym (value-decimal m) ∙ ap (value 0) e ∙ value-decimal n
