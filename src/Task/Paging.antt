-- ===== src/Task/Paging.antt =====
-- internal/task/repository.go, less the page token's text. `rank` gives the place of `ID.String()`
-- in the order of texts: the code compares ids by their texts alone.
use gogolook_task_api.Prelude.{
  ℕ, Bool, true, false, not, ◌&&◌, Option, List, ◌==◌, ltb, if◌then◌else◌,
}
use gogolook_task_api.Prelude.Int.{ℤ, pos}
use gogolook_task_api.Apperr.{field_error}
use gogolook_task_api.Task.Model.{Status, Task, Result, ok, err}

abbrev pub default_page_size : ℕ
default_page_size = 20

abbrev pub max_page_size : ℕ
max_page_size = 100

pub record Cursor : Type 0 where
  pub created_at : ℕ
  pub id : ℕ

abbrev pub zero_cursor : Cursor
zero_cursor = record { created_at = 0; id = 0 }

pub record ListQuery : Type 0 where
  pub status : Option Status
  pub limit : ℕ
  pub cursor : Cursor

pub record Page : Type 0 where
  pub tasks : List Task
  pub next : Cursor

unfoldable pub is_zero : Cursor → Bool
is_zero c = c.created_at == 0 && c.id == 0

unfoldable pub cursor_of : Task → Cursor
cursor_of t = record { created_at = t.created_at; id = t.id }

-- `Cursor.After`: whether a task stands strictly behind the cursor.
unfoldable pub after : (ℕ → ℕ) → Cursor → Task → Bool
unfolding is_zero
after rank c t =
    if is_zero c
    then true
    else if ltb c.created_at t.created_at
    then false
    else if ltb t.created_at c.created_at
    then true
    else ltb (rank t.id) (rank c.id)

-- `Less`: the order of a list, newest first.
unfoldable pub less : (ℕ → ℕ) → Task → Task → Bool
less rank a b =
    if not (a.created_at == b.created_at)
    then ltb b.created_at a.created_at
    else ltb (rank b.id) (rank a.id)

-- `clampLimit`; the numbers of the messages are left out.
unfoldable pub clamp_limit : ℤ → Result ℕ
clamp_limit (ℤ.negsuc n) = err (field_error "page_size" "must not be negative")
clamp_limit (pos n) =
    if n == 0
    then ok default_page_size
    else if ltb max_page_size n
    then err (field_error "page_size" "must be at most 100")
    else ok n
