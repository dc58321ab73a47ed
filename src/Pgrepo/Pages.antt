-- ===== src/Pgrepo/Pages.antt =====
-- List of internal/task/pgrepo/pgrepo.go beside that of internal/task/memrepo/memrepo.go.
use gogolook_task_api.Prelude.{
  ℕ, zero, suc, ◌≤◌, ◌<◌, false, ◌&&◌, none, List, [], ◌∷◌, ◌≡◌, refl, ap, ◌∙◌, sym, arith,
  Bool-cases, inl, inr, lt→ltb, ltb, leb, length, take, keep,
}
use mathlib.Core.Path.{fun_ext, ap₂}
use gogolook_task_api.Prelude.Sort.{sort}
use gogolook_task_api.Task.{
  Task, ok, Store, ListQuery, Cursor, list as mem_list, matching, sort_newest_first, paginate, less,
  after, values, has_status,
}
use gogolook_task_api.Postgres.{Session}
use gogolook_task_api.Pgrepo.Statements.{micro}
use gogolook_task_api.Pgrepo.Repo.{is_behind, select_page, page_of, list}

-- The texts of ids are in the order of the ids.
abbrev pub RanksIds : (ℕ → ℕ) → Type 0
RanksIds rank = (i j : ℕ) → ltb (rank i) (rank j) ≡ ltb i j

less_agrees : (rank : ℕ → ℕ) → RanksIds rank → less rank ≡ less (λ i. i)
unfolding less
less_agrees rank r = fun_ext (λ a. fun_ext (λ b. rw (r b.id a.id) refl))

after_agrees :
    (rank : ℕ → ℕ) (c : Cursor)
    → RanksIds rank
    → micro c.created_at ≡ c.created_at
    → (t : Task) → after rank c t ≡ is_behind c t
unfolding after is_behind
after_agrees rank c r whole t = rw (r t.id c.id, whole) (ground arith)

take-take : (n : ℕ) (ts : List Task) → take n (take (suc n) ts) ≡ take n ts
take-take zero ts = refl
take-take (suc n) [] = refl
take-take (suc n) (t ∷ ts) = ap (◌∷◌ t) (take-take n ts)

take-all : (n : ℕ) (ts : List Task) → length ts ≤ n → take n ts ≡ ts
take-all zero [] h = refl
take-all zero (t ∷ ts) h = absurd (omega (arith, h))
take-all (suc n) [] h = refl
take-all (suc n) (t ∷ ts) h = ap (◌∷◌ t) (take-all n ts (omega (arith, h)))

length-take_more : (n : ℕ) (ts : List Task) → n < length ts → length (take (suc n) ts) ≡ suc n
length-take_more n [] h = absurd (omega (arith, h))
length-take_more zero (t ∷ ts) h = refl
length-take_more (suc n) (t ∷ ts) h = ap suc (length-take_more n ts (omega (arith, h)))

page_of-take : (ts : List Task) (n : ℕ) → page_of (take (suc n) ts) n ≡ paginate ts n
unfolding page_of paginate
page_of-take ts n = elim (Bool-cases (leb (length ts) n)) [
  | inl few ↦ rw (take-all (suc n) ts (ground arith)) (ground arith)
  | inr more ↦
      rw
        (more, length-take_more n ts (ground arith), lt→ltb n (suc n) (omega arith), take-take n ts)
        refl
]

-- The rows in the order of the statement are those of the in-memory repository.
rows_agree :
    (rank : ℕ → ℕ) (q : ListQuery) (s : Store)
    → RanksIds rank
    → micro q.cursor.created_at ≡ q.cursor.created_at
    → sort (less rank) (keep (λ t. has_status q.status t && after rank q.cursor t) (values s))
      ≡ sort (less (λ i. i)) (keep (λ t. has_status q.status t && is_behind q.cursor t) (values s))
rows_agree rank q s r whole =
    ap₂ (λ before p. sort before (keep p (values s))) (less_agrees rank r)
      (fun_ext (λ t. ap (◌&&◌ (has_status q.status t)) (after_agrees rank q.cursor r whole t)))

-- Where the texts of ids are in the order of the ids and the cursor is a whole microsecond, the
-- page of a list request that the database answers is the one of the in-memory repository.
pub list-memory :
    (rank : ℕ → ℕ) (q : ListQuery) (s : Session)
    → RanksIds rank
    → micro q.cursor.created_at ≡ q.cursor.created_at
    → list false q s ≡ mem_list rank none q s.committed.tasks
unfolding list select_page mem_list matching sort_newest_first
list-memory rank q s r whole = ap ok (
    page_of-take
      (sort (less (λ i. i))
        (keep (λ t. has_status q.status t && is_behind q.cursor t) (values s.committed.tasks)))
      q.limit
    ∙ ap (λ ts. paginate ts q.limit) (sym (rows_agree rank q s.committed.tasks r whole)))
