-- ===== src/Config/Checks.antt =====
-- internal/config/problems.go. A problem is its path and the format of its text, whose arguments
-- are left out.
use gogolook_task_api.Prelude.{
  ℕ, String, Bool, true, false, Option, none, some, List, [], ◌∷◌, ◌++◌, if◌then◌else◌, codes,
}
use gogolook_task_api.Prelude.Int.{ℤ, pos}
use gogolook_task_api.Prelude.Bytes.{bytes_eq}
use gogolook_task_api.Task.{trim_space, is_empty}
use gogolook_task_api.Config.Values.{Duration, int_ltb}

pub record Problem : Type 0 where
  pub field : List ℕ
  pub text : String

-- `Add`, where a test finds something.
unfoldable pub add_if : Bool → List ℕ → String → List Problem
add_if wrong field text = if wrong then record { field = field; text = text } ∷ [] else []

-- `join`.
unfoldable pub join : List ℕ → List ℕ → List ℕ
join prefix field = if is_empty prefix then field else prefix ++ 0x2e ∷ field

-- `at` of a section.
unfoldable pub at : List ℕ → String → List ℕ
unfolding join codes
at prefix field = join prefix (codes field)

unfoldable pub not_empty : List ℕ → List ℕ → List Problem
unfolding add_if trim_space
not_empty field value = add_if (is_empty (trim_space value)) field "must not be empty"

unfoldable pub positive : List ℕ → Duration → List Problem
unfolding add_if int_ltb
positive field d = if int_ltb (pos 0) d then [] else add_if true field "must be greater than zero"

unfoldable pub at_least : List ℕ → ℤ → ℕ → List Problem
unfolding add_if int_ltb
at_least field value floor = add_if (int_ltb value (pos floor)) field "must be at least %d, got %d"

unfoldable pub is_one_of : List ℕ → List (List ℕ) → Bool
unfolding bytes_eq
is_one_of value [] = false
is_one_of value (a ∷ allowed) = if bytes_eq value a then true else is_one_of value allowed

unfoldable pub one_of : List ℕ → List ℕ → List (List ℕ) → List Problem
unfolding add_if is_one_of
one_of field value allowed =
    if is_one_of value allowed then [] else add_if true field "%q is not one of: %s"

-- The problems of checks one after another.
unfoldable pub in_order : List (List Problem) → List Problem
in_order [] = []
in_order (c ∷ checks) = c ++ in_order checks

-- `Err`: none where nothing was found.
unfoldable pub err_of : List Problem → Option (List Problem)
err_of [] = none
err_of (p ∷ ps) = some (p ∷ ps)
