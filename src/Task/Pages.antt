-- ===== src/Task/Pages.antt =====
-- The pages that a client gets who follows the cursors of the in-memory repository's pages,
-- internal/task/memrepo over internal/task/repository.go.
use gogolook_task_api.Prelude.{
  ℕ, zero, suc, ◌≤◌, ◌<◌, true, false, Option, none, some, List, [], ◌∷◌, ◌++◌, if◌then◌else◌, ◌≡◌,
  refl, sym, ◌∙◌, keep, length, take, drop, arith, ap, append_nil,
}
use gogolook_task_api.Prelude.Sort.{keep-sort}
use gogolook_task_api.Prelude.Strict.{IsStrict, last, keep-keep, keep-behind, keep-and, keep-same}
use gogolook_task_api.Task.Model.{Task, Result, ok, err, Status}
use gogolook_task_api.Task.Paging.{
  Cursor, ListQuery, Page, zero_cursor, is_zero, cursor_of, after, less,
}
use gogolook_task_api.Task.Memory.{
  Store, list, values, has_status, matching, sort_newest_first, paginate, cut, last_cursor,
}
use gogolook_task_api.Task.Order.{less-IsOrder, less_trans, after-less, after-behind}

-- The tasks of the pages from a query on, as many pages as there is fuel for.
abbrev pub follow : Result (Option Page) → (Cursor → List Task) → List Task
follow (err e) next = []
follow (ok none) next = []
follow (ok (some p)) next = p.tasks ++ (if is_zero p.next then [] else next p.next)

abbrev pub walk : (ℕ → ℕ) → ℕ → ListQuery → Store → List Task
walk rank zero q s = []
walk rank (suc n) q s = follow (list rank none q s) (λ c. walk rank n (record q { cursor = c }) s)

last_cursor-last : (t : Task) (ts : List Task) → last_cursor (t ∷ ts) ≡ some (cursor_of (last t ts))
unfolding last_cursor
last_cursor-last t [] = refl
last_cursor-last t (u ∷ ts) = last_cursor-last u ts

-- The page of a query, where more tasks match than it takes.
pub paginate-more :
    (n : ℕ) (t : Task) (ts : List Task)
    → n < length ts
    → paginate (t ∷ ts) (suc n)
      ≡ some (record { tasks = t ∷ take n ts; next = cursor_of (last t (take n ts)) })
unfolding paginate cut
paginate-more n t ts h = rw (last_cursor-last t (take n ts)) (ground arith)

pub paginate-all :
    (n : ℕ) (ts : List Task)
    → length ts ≤ n
    → paginate ts n ≡ some (record { tasks = ts; next = zero_cursor })
unfolding paginate
paginate-all n ts h = ground arith

-- All tasks with a status, newest first.
abbrev pub all_of : (ℕ → ℕ) → Option Status → Store → List Task
all_of rank w s = sort_newest_first rank (keep (has_status w) (values s))

sorted-matching :
    (rank : ℕ → ℕ) (q : ListQuery) (s : Store)
    → sort_newest_first rank (matching rank q s)
      ≡ keep (after rank q.cursor) (all_of rank q.status s)
unfolding sort_newest_first matching
sorted-matching rank q s = rw (keep-and (has_status q.status) (after rank q.cursor) (values s)) (
    sym (
      keep-sort (less rank) (less-IsOrder rank) (after rank q.cursor)
        (keep (has_status q.status) (values s))))

pub list-page :
    (rank : ℕ → ℕ) (q : ListQuery) (s : Store)
    → list rank none q s
      ≡ ok (paginate (keep (after rank q.cursor) (all_of rank q.status s)) q.limit)
unfolding list
list-page rank q s = ap (λ ts. ok (paginate ts q.limit)) (sorted-matching rank q s)

-- What is behind the cursor of a page's last task is what the page left out.
pub behind_page :
    (rank : ℕ → ℕ) (c : Cursor) (m : ℕ) (t : Task) (ts ls : List Task)
    → keep (after rank c) ls ≡ t ∷ ts
    → IsStrict (less rank) (t ∷ ts)
    → m < length (t ∷ ts)
    → after rank c (last t (take m ts)) ≡ true
    → is_zero (cursor_of (last t (take m ts))) ≡ false
    → keep (after rank (cursor_of (last t (take m ts)))) ls ≡ drop m ts
behind_page rank c m t ts ls e st h a z =
    keep-same (after rank (cursor_of (last t (take m ts)))) (less rank (last t (take m ts))) ls
      (λ u. after-less rank (last t (take m ts)) u z)
    ∙ sym (
        keep-keep (after rank c) (less rank (last t (take m ts))) ls
          (λ u. after-behind rank c (last t (take m ts)) u a))
    ∙ ap (keep (less rank (last t (take m ts)))) e
    ∙ keep-behind (less rank) (less-IsOrder rank) (less_trans rank) m t ts st h

pub follow_last :
    (ts : List Task) (next : Cursor → List Task)
    → follow (ok (some (record { tasks = ts; next = zero_cursor }))) next ≡ ts
unfolding is_zero
follow_last ts next = append_nil ts

pub follow_more :
    (ts : List Task) (c : Cursor) (next : Cursor → List Task)
    → is_zero c ≡ false
    → follow (ok (some (record { tasks = ts; next = c }))) next ≡ ts ++ next c
follow_more ts c next z = ground arith
