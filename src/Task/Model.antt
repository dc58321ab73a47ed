-- ===== src/Task/Model.antt =====
-- internal/task/task.go. A text is its list of code points; ids are the 128-bit numbers behind
-- UUIDs, instants are nanoseconds after Go's zero time.
use gogolook_task_api.Prelude.{
  ℕ, ◌+◌, Bool, true, false, ◌||◌, ◌&&◌, List, [], ◌∷◌, ◌==◌, ltb, leb, if◌then◌else◌,
}
use gogolook_task_api.Prelude.Int.{ℤ, pos, int_eq}
use gogolook_task_api.Apperr.{Err, field_error, new, not_found, conflict}
pub use gogolook_task_api.Apperr.Result.{Result, ok, err}
use mathlib.Core.List.{reverse}

-- `Status`, an int32.
abbrev pub Status : Type 0
Status = ℤ

abbrev pub incomplete : Status
incomplete = pos 0

abbrev pub completed : Status
completed = pos 1

unfoldable pub is_valid_status : Status → Bool
is_valid_status s = int_eq s incomplete || int_eq s completed

abbrev pub max_name_length : ℕ
max_name_length = 255

pub record Task : Type 0 where
  pub id : ℕ
  pub name : List ℕ
  pub status : Status
  pub created_at : ℕ
  pub updated_at : ℕ
  pub version : ℤ

unfoldable pub err_not_found : Err
err_not_found = new not_found "task not found"

unfoldable pub err_conflict : Err
err_conflict = new conflict "the task was modified by someone else"

-- `unicode.IsSpace`.
unfoldable pub is_space : ℕ → Bool
is_space r =
    (leb 9 r && leb r 13)
    || (r == 0x20
        || (r == 0x85
            || (r == 0xa0
                || (r == 0x1680
                    || ((leb 0x2000 r && leb r 0x200a)
                        || (r == 0x2028
                            || (r == 0x2029 || (r == 0x202f || (r == 0x205f || r == 0x3000)))))))))

-- `strings.TrimSpace`.
unfoldable pub trim_left : List ℕ → List ℕ
trim_left [] = []
trim_left (r ∷ s) = if is_space r then trim_left s else r ∷ s

unfoldable pub trim_space : List ℕ → List ℕ
unfolding trim_left
trim_space s = reverse (trim_left (reverse (trim_left s)))

-- The bytes of a code point in UTF-8, and `len` of a text.
abbrev pub utf8_width : ℕ → ℕ
utf8_width r = if ltb r 0x80 then 1 else if ltb r 0x800 then 2 else if ltb r 0x10000 then 3 else 4

abbrev pub byte_length : List ℕ → ℕ
byte_length [] = 0
byte_length (r ∷ s) = utf8_width r + byte_length s

abbrev pub is_empty : List ℕ → Bool
is_empty [] = true
is_empty (r ∷ s) = false

-- `ValidateName`; the numbers of the second message are left out.
unfoldable pub validate_name : List ℕ → Result (Unit {0})
unfolding trim_space
validate_name name =
    if is_empty (trim_space name)
    then err (field_error "name" "must not be empty")
    else if ltb max_name_length (byte_length name)
    then err (field_error "name" "must be at most 255 characters")
    else ok tt

-- `ValidateStatus`; the number of the message is left out.
unfoldable pub validate_status : Status → Result (Unit {0})
unfolding is_valid_status
validate_status s =
    if is_valid_status s
    then ok tt
    else err (field_error "status" "must be 0 (incomplete) or 1 (completed)")
