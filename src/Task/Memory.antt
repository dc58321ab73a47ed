-- ===== src/Task/Memory.antt =====
-- internal/task/memrepo/memrepo.go. The map is an association list in the order that `range`
-- visits; `ctx` is `ctx.Err()`. Values do not alias, which is what `Clone` is for.
use gogolook_task_api.Prelude.{
  ℕ, Bool, true, not, ◌&&◌, Option, none, some, List, [], ◌∷◌, ◌==◌, leb, length, take, keep,
  if◌then◌else◌,
}
use gogolook_task_api.Prelude.Int.{ℤ, pos, int_eq, inc64}
use gogolook_task_api.Prelude.Sort.{sort}
use gogolook_task_api.Apperr.{Err}
use gogolook_task_api.Task.Model.{Task, Status, Result, ok, err, err_not_found, err_conflict}
use gogolook_task_api.Task.Paging.{Cursor, ListQuery, Page, zero_cursor, cursor_of, after, less}

abbrev pub Store : Type 0
Store = List (ℕ × Task)

unfoldable pub load : ℕ → Store → Option Task
load i [] = none
load i ((j, t) ∷ m) = if j == i then some t else load i m

-- `m[id] = t` and `delete(m, id)`.
unfoldable pub put : ℕ → Task → Store → Store
put i t [] = (i, t) ∷ []
put i t ((j, u) ∷ m) = if j == i then (i, t) ∷ m else (j, u) ∷ put i t m

unfoldable pub remove : ℕ → Store → Store
remove i [] = []
remove i ((j, u) ∷ m) = let rest = remove i m in if j == i then rest else (j, u) ∷ rest

unfoldable pub create_over : Option Task → Task → Store → Result Task × Store
create_over (some old) t s = (err err_conflict, s)
create_over none t s = (ok t, put t.id t s)

unfoldable pub create : Option Err → Task → Store → Result Task × Store
unfolding create_over
create (some e) t s = (err e, s)
create none t s = create_over (load t.id s) t s

unfoldable pub found : Option Task → Result Task
found none = err err_not_found
found (some t) = ok t

unfoldable pub get : Option Err → ℕ → Store → Result Task × Store
unfolding found
get (some e) i s = (err e, s)
get none i s = (found (load i s), s)

-- The task that an update stores: created_at stays, the version is the store's to bump.
unfoldable pub updated : Task → Task → Task
unfolding inc64
updated existing t = record t { created_at = existing.created_at; version = inc64 existing.version }

unfoldable pub update_over : Option Task → Task → ℤ → Store → Result Task × Store
update_over none t expected s = (err err_not_found, s)
update_over (some existing) t expected s =
    if not (int_eq expected (pos 0)) && not (int_eq existing.version expected)
    then (err err_conflict, s)
    else (ok (updated existing t), put t.id (updated existing t) s)

unfoldable pub update : Option Err → Task → ℤ → Store → Result Task × Store
unfolding update_over
update (some e) t expected s = (err e, s)
update none t expected s = update_over (load t.id s) t expected s

unfoldable pub delete_over : Option Task → ℕ → Store → Result (Unit {0}) × Store
delete_over none i s = (err err_not_found, s)
delete_over (some t) i s = (ok tt, remove i s)

unfoldable pub delete : Option Err → ℕ → Store → Result (Unit {0}) × Store
unfolding delete_over
delete (some e) i s = (err e, s)
delete none i s = delete_over (load i s) i s

abbrev pub values : Store → List Task
values [] = []
values ((i, t) ∷ m) = t ∷ values m

abbrev pub has_status : Option Status → Task → Bool
has_status none t = true
has_status (some w) t = int_eq t.status w

-- `matching` and `sortNewestFirst`.
unfoldable pub matching : (ℕ → ℕ) → ListQuery → Store → List Task
unfolding after
matching rank q s = keep (λ t. has_status q.status t && after rank q.cursor t) (values s)

unfoldable pub sort_newest_first : (ℕ → ℕ) → List Task → List Task
unfolding less sort
sort_newest_first rank ts = sort (less rank) ts

unfoldable pub last_cursor : List Task → Option Cursor
unfolding cursor_of
last_cursor [] = none
last_cursor (t ∷ []) = some (cursor_of t)
last_cursor (t ∷ u ∷ ts) = last_cursor (u ∷ ts)

unfoldable pub cut : List Task → Option Cursor → Option Page
cut ts none = none
cut ts (some c) = some (record { tasks = ts; next = c })

-- `paginate`; `none` is the panic of `page[len(page)-1]` at an empty page.
unfoldable pub paginate : List Task → ℕ → Option Page
unfolding cut last_cursor
paginate ts limit =
    if leb (length ts) limit
    then some (record { tasks = ts; next = zero_cursor })
    else cut (take limit ts) (last_cursor (take limit ts))

-- `List`; the error is the context's.
unfoldable pub list : (ℕ → ℕ) → Option Err → ListQuery → Store → Result (Option Page)
unfolding matching sort_newest_first paginate
list rank (some e) q s = err e
list rank none q s = ok (paginate (sort_newest_first rank (matching rank q s)) q.limit)
