-- ===== src/Config/Hashes.antt =====
-- When two texts are the same hash to NewResolver of internal/auth/auth.go.
use gogolook_task_api.Prelude.{
  ℕ, ◌+◌, ◌*◌, ◌<◌, Option, none, some, List, [], ◌∷◌, ◌≡◌, ◌≢◌, refl, arith, ap, sym, ◌∙◌, map,
}
use mathlib.Core.Path.{ap₂}
use gogolook_task_api.Auth.{lower, decode_hex, hex_digit, hex_pair}

hex_digit-lower : (a b n : ℕ) → hex_digit a ≡ some n → hex_digit b ≡ some n → lower a ≡ lower b
hex_digit-lower a b n left right = ground arith

hex_digit-bound : (a n : ℕ) → hex_digit a ≡ some n → n < 16
hex_digit-bound a n read = ground arith

-- What a pair of digits in front was read as.
hex_pair-parts :
    (a b : Option ℕ) (rest : Option (List ℕ)) (x : ℕ) (xs : List ℕ)
    → hex_pair a b rest ≡ some (x ∷ xs)
    → (m n : ℕ) × (a ≡ some m) × (b ≡ some n) × (16 * m + n ≡ x) × (rest ≡ some xs)
hex_pair-parts (some m) (some n) (some s) x xs read = (m, n, refl, refl, ground arith, ground arith)
hex_pair-parts (some m) (some n) none x xs read = absurd (ground arith)
hex_pair-parts (some m) none rest x xs read = absurd (ground arith)
hex_pair-parts none b rest x xs read = absurd (ground arith)

hex_pair-nonempty : (a b : Option ℕ) (rest : Option (List ℕ)) → hex_pair a b rest ≢ some []
hex_pair-nonempty (some m) (some n) (some s) read = ground arith
hex_pair-nonempty (some m) (some n) none read = ground arith
hex_pair-nonempty (some m) none rest read = ground arith
hex_pair-nonempty none b rest read = ground arith

-- Two hashes that stand for the same digest are the same text in lower case.
pub decode_hex-lower :
    (s t d : List ℕ) → decode_hex s ≡ some d → decode_hex t ≡ some d → map lower s ≡ map lower t
unfolding decode_hex
decode_hex-lower [] [] d left right = refl
decode_hex-lower (a ∷ []) t d left right = absurd (ground arith)
decode_hex-lower [] (a ∷ []) d left right = absurd (ground arith)
decode_hex-lower (a ∷ b ∷ s) (c ∷ []) d left right = absurd (ground arith)
decode_hex-lower [] (a ∷ b ∷ t) d left right =
    absurd (hex_pair-nonempty (hex_digit a) (hex_digit b) (decode_hex t) (right ∙ sym left))
decode_hex-lower (a ∷ b ∷ s) [] d left right =
    absurd (hex_pair-nonempty (hex_digit a) (hex_digit b) (decode_hex s) (left ∙ sym right))
decode_hex-lower (a ∷ b ∷ s) (a' ∷ b' ∷ t) [] left right =
    absurd (hex_pair-nonempty (hex_digit a) (hex_digit b) (decode_hex s) left)
decode_hex-lower (a ∷ b ∷ s) (a' ∷ b' ∷ t) (x ∷ xs) left right =
    let (m, n, a_is, b_is, sum, rest) =
      hex_pair-parts (hex_digit a) (hex_digit b) (decode_hex s) x xs left in
    let (m', n', a'_is, b'_is, sum', rest') =
      hex_pair-parts (hex_digit a') (hex_digit b') (decode_hex t) x xs right in
    let m_same : m ≡ m' =
      omega (arith, sum, sum', hex_digit-bound b n b_is, hex_digit-bound b' n' b'_is) in
    let n_same : n ≡ n' =
      omega (arith, sum, sum', hex_digit-bound b n b_is, hex_digit-bound b' n' b'_is) in
    ap₂ ◌∷◌ (hex_digit-lower a a' m a_is (a'_is ∙ ap some (sym m_same))) (
      ap₂ ◌∷◌ (hex_digit-lower b b' n b_is (b'_is ∙ ap some (sym n_same)))
        (decode_hex-lower s t xs rest rest'))
