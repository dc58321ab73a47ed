-- ===== src/Task/Walk.antt =====
-- A client that follows the cursors of the in-memory repository's pages, internal/task/memrepo over
-- internal/task/repository.go.
use gogolook_task_api.Prelude.{
  ℕ, zero, suc, ◌≤◌, ◌<◌, true, false, Option, List, [], ◌∷◌, ◌++◌, ◌==◌, ◌≡◌, refl, ◌∙◌, All, keep,
  length, take, drop, arith, ap, leb, subst, Bool-cases, inl, inr, All-take, All-keep_passes,
  length-drop-le, take-append-drop, All-keep, All-weaken, ◌||◌,
}
use gogolook_task_api.Prelude.Sort.{sort-All}
use gogolook_task_api.Prelude.Strict.{
  IsStrict, IsComparable, last, All-last, keep-IsStrict, keep-IsComparable, sort-IsStrict,
  keep_always, length-sort, length-keep-le, All-always,
}
use gogolook_task_api.Task.Model.{Task, ok, Status}
use gogolook_task_api.Task.Paging.{Cursor, ListQuery, zero_cursor, is_zero, cursor_of, after, less}
use gogolook_task_api.Task.Memory.{Store, values, has_status, sort_newest_first, paginate}
use gogolook_task_api.Task.Order.{less-IsOrder, less_trans}
use gogolook_task_api.Task.Pages.{
  follow, walk, all_of, paginate-more, paginate-all, list-page, behind_page, follow_last,
  follow_more,
}

module _ (rank : ℕ → ℕ) (w : Option Status) (m : ℕ) (s : Store) where
  abbrev query : Cursor → ListQuery
  query c = record { status = w; limit = suc m; cursor = c }

  walk_step :
      (n : ℕ) (c : Cursor) (ts : List Task)
      → keep (after rank c) (all_of rank w s) ≡ ts
      → walk rank (suc n) (query c) s
        ≡ follow (ok (paginate ts (suc m))) (λ d. walk rank n (query d) s)
  walk_step n c ts e =
      ap (λ r. follow r (λ d. walk rank n (query d) s))
        (list-page rank (query c) s ∙ ap (λ us. ok (paginate us (suc m))) e)

  walk_short :
      (n : ℕ) (c : Cursor) (ts : List Task)
      → keep (after rank c) (all_of rank w s) ≡ ts
      → length ts ≤ suc m
      → walk rank (suc n) (query c) s ≡ ts
  walk_short n c ts e h =
      walk_step n c ts e
      ∙ ap (λ p. follow (ok p) (λ d. walk rank n (query d) s)) (paginate-all (suc m) ts h)
      ∙ follow_last ts (λ d. walk rank n (query d) s)

  walk_long :
      (n : ℕ) (c : Cursor) (t : Task) (ts : List Task)
      → keep (after rank c) (all_of rank w s) ≡ t ∷ ts
      → m < length ts
      → is_zero (cursor_of (last t (take m ts))) ≡ false
      → walk rank n (query (cursor_of (last t (take m ts)))) s ≡ drop m ts
      → walk rank (suc n) (query c) s ≡ t ∷ ts
  walk_long n c t ts e h z k =
      walk_step n c (t ∷ ts) e
      ∙ ap (λ p. follow (ok p) (λ d. walk rank n (query d) s)) (paginate-more m t ts h)
      ∙ follow_more (t ∷ take m ts) (cursor_of (last t (take m ts))) (λ d. walk rank n (query d) s)
          z
      ∙ ap (λ us. t ∷ take m ts ++ us) k
      ∙ ap (◌∷◌ t) (take-append-drop m ts)

  module _ (st : IsStrict (less rank) (all_of rank w s))
      (nz : All (λ t. is_zero (cursor_of t) ≡ false) (all_of rank w s)) where
    tested :
        (c : Cursor) (t : Task) (ts : List Task)
        → keep (after rank c) (all_of rank w s) ≡ t ∷ ts
        → (P : Task → Type 0) → All P (keep (after rank c) (all_of rank w s))
        → P (last t (take m ts))
    tested c t ts e P a =
        All-last P t (take m ts) (subst (All P) e a).0 (All-take P m ts (subst (All P) e a).1)

    walk_rest :
        (n : ℕ) (c : Cursor) (t : Task) (ts : List Task)
        → keep (after rank c) (all_of rank w s) ≡ t ∷ ts
        → m < length ts
        → ((d : Cursor)
            → keep (after rank d) (all_of rank w s) ≡ drop m ts
            → walk rank n (query d) s ≡ drop m ts)
        → walk rank (suc n) (query c) s ≡ t ∷ ts
    walk_rest n c t ts e h k =
        let nonzero =
          tested c t ts e (λ u. is_zero (cursor_of u) ≡ false)
            (All-keep (λ u. is_zero (cursor_of u) ≡ false) (after rank c) (all_of rank w s) nz) in
        walk_long n c t ts e h nonzero (
          k (cursor_of (last t (take m ts))) (
            behind_page rank c m t ts (all_of rank w s) e
              (subst (IsStrict (less rank)) e
                (keep-IsStrict (less rank) (after rank c) (all_of rank w s) st))
              (omega (arith, h))
              (tested c t ts e (λ u. after rank c u ≡ true)
                (All-keep_passes (after rank c) (all_of rank w s)))
              nonzero))

    walk_list :
        (n : ℕ) (c : Cursor) (ts : List Task)
        → keep (after rank c) (all_of rank w s) ≡ ts
        → length ts ≤ n
        → walk rank n (query c) s ≡ ts
    walk_list zero c [] e h = refl
    walk_list zero c (t ∷ ts) e h = ground arith
    walk_list (suc n) c [] e h = walk_short n c [] e (omega arith)
    walk_list (suc n) c (t ∷ ts) e h = elim (Bool-cases (leb (length ts) m)) [
      | inl few ↦ walk_short n c (t ∷ ts) e (ground arith)
      | inr many ↦
          walk_rest n c t ts e (ground arith)
            (λ d f. walk_list n d (drop m ts) f (omega (arith, h, length-drop-le m ts)))
    ]

-- No two tasks of a list have the same id.
abbrev pub HasDistinctIds : List Task → Type 0
HasDistinctIds [] = Unit
HasDistinctIds (t ∷ ts) = All (λ u. (t.id == u.id) ≡ false) ts × HasDistinctIds ts

distinct-less :
    (rank : ℕ → ℕ) (t u : Task)
    → ((i j : ℕ) → rank i ≡ rank j → i ≡ j)
    → (t.id == u.id) ≡ false
    → (less rank t u || less rank u t) ≡ true
unfolding less
distinct-less rank t u inj h = ground (arith, inj t.id u.id)

distinct-IsComparable :
    (rank : ℕ → ℕ) (ts : List Task)
    → ((i j : ℕ) → rank i ≡ rank j → i ≡ j)
    → HasDistinctIds ts
    → IsComparable (less rank) ts
distinct-IsComparable rank [] inj d = tt
distinct-IsComparable rank (t ∷ ts) inj d = (
  All-weaken (λ u. (t.id == u.id) ≡ false) (λ u. (less rank t u || less rank u t) ≡ true) ts
      (λ u. distinct-less rank t u inj) d.0,
  distinct-IsComparable rank ts inj d.1,
)

length-all_of-le :
    (rank : ℕ → ℕ) (w : Option Status) (s : Store) → length (all_of rank w s) ≤ length (values s)
unfolding sort_newest_first
length-all_of-le rank w s = omega (
  arith,
  length-sort (less rank) (keep (has_status w) (values s)),
  length-keep-le (has_status w) (values s),
)

-- A client that starts at the first page and follows the cursors, where no two tasks have the same
-- id, no two ids the same text, none of the tasks has both the zero time and the zero id, and
-- nothing is written in between, is given every task with the status once, newest first: the pages'
-- tasks, in a row, are the sorted list of the matching ones, for every page size above 0 and any
-- number of rounds that is no less than the tasks.
pub walk_complete :
    (rank : ℕ → ℕ) (w : Option Status) (m : ℕ) (s : Store) (n : ℕ)
    → ((i j : ℕ) → rank i ≡ rank j → i ≡ j)
    → HasDistinctIds (values s)
    → All (λ t. is_zero (cursor_of t) ≡ false) (values s)
    → length (values s) ≤ n
    → walk rank n (record { status = w; limit = suc m; cursor = zero_cursor }) s ≡ all_of rank w s
unfolding sort_newest_first after
walk_complete rank w m s n inj d nz h =
    walk_list rank w m s
      (sort-IsStrict (less rank) (less-IsOrder rank) (less_trans rank)
        (keep (has_status w) (values s))
        (keep-IsComparable (less rank) (has_status w) (values s)
          (distinct-IsComparable rank (values s) inj d)))
      (sort-All (less rank) (λ t. is_zero (cursor_of t) ≡ false) (keep (has_status w) (values s))
        (All-keep (λ t. is_zero (cursor_of t) ≡ false) (has_status w) (values s) nz))
      n zero_cursor (all_of rank w s)
      (keep_always (after rank zero_cursor) (all_of rank w s)
        (All-always (λ t. after rank zero_cursor t ≡ true) (λ t. refl) (all_of rank w s)))
      (omega (arith, h, length-all_of-le rank w s))
