-- ===== src/Config/Silent.antt =====
-- What a validation of internal/config that finds nothing says of its checks.
use gogolook_task_api.Prelude.{
  ℕ, Bool, true, false, String, List, [], ◌∷◌, ◌++◌, ◌≡◌, refl, arith, zero, suc,
}
use gogolook_task_api.Config.Checks.{Problem, add_if, in_order, positive}
use gogolook_task_api.Config.Values.{Duration, int_ltb}
use gogolook_task_api.Prelude.Int.{pos}

pub ++-silent : (a b : List Problem) → a ++ b ≡ [] → (a ≡ []) × (b ≡ [])
++-silent [] b none_found = (refl, none_found)
++-silent (p ∷ a) b none_found = absurd (ground arith)

-- The check at a place of a section, and none behind its last.
abbrev pub check_at : ℕ → List (List Problem) → List Problem
check_at n [] = []
check_at zero (c ∷ checks) = c
check_at (suc n) (c ∷ checks) = check_at n checks

pub in_order-silent :
    (n : ℕ) (checks : List (List Problem)) → in_order checks ≡ [] → check_at n checks ≡ []
unfolding in_order
in_order-silent n [] none_found = refl
in_order-silent zero (c ∷ checks) none_found = (++-silent c (in_order checks) none_found).0
in_order-silent (suc n) (c ∷ checks) none_found =
    in_order-silent n checks (++-silent c (in_order checks) none_found).1

pub add_if-silent :
    (wrong : Bool) (field : List ℕ) (text : String) → add_if wrong field text ≡ [] → wrong ≡ false
unfolding add_if
add_if-silent true field text none_found = absurd (ground arith)
add_if-silent false field text none_found = refl

pub positive-silent :
    (field : List ℕ) (d : Duration) → positive field d ≡ [] → int_ltb (pos 0) d ≡ true
unfolding positive add_if
positive-silent field d none_found = ground arith
