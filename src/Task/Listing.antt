-- ===== src/Task/Listing.antt =====
-- List of internal/task/service.go, over a repository's List.
use gogolook_task_api.Prelude.{
  ℕ, zero, suc, ◌≤◌, Option, none, some, List, leb, ◌≡◌, length, length-take-le, arith, ap, refl,
  ◌∙◌, keep, Bool-cases, inl, inr, [], ◌∷◌,
}
use gogolook_task_api.Prelude.Int.{ℤ, pos}
use gogolook_task_api.Apperr.{Err}
use gogolook_task_api.Task.Model.{Task, Status, Result, ok, err, validate_status}
use gogolook_task_api.Task.Paging.{Cursor, Page, after, clamp_limit}
use gogolook_task_api.Task.Service.{Repository, wrap_result}
use gogolook_task_api.Task.Token.{Codec, decode_cursor}
use gogolook_task_api.Task.Memory.{Store, paginate}
use gogolook_task_api.Task.Pages.{paginate-all, paginate-more, list-page, all_of}
use gogolook_task_api.Task.Refinement.{memory}

pub record ListInput : Type 0 where
  pub status : Option Status
  pub page_size : ℤ
  pub page_token : List ℕ

-- A result handed on to what follows, or returned where it is an error.
abbrev pub and_then {ℓ κ} : {A : Type ℓ} {B : Type κ} → Result A → (A → Result B) → Result B
and_then (ok a) k = k a
and_then (err e) k = err e

abbrev pub check_status : Option Status → Result (Unit {0})
check_status none = ok tt
check_status (some w) = validate_status w

unfoldable pub list_tasks :
    Codec → {S : Type 0} → Repository S → Option Err → ListInput → S → Result (Option Page)
unfolding wrap_result
list_tasks codec repo ctx input s = and_then (check_status input.status) (λ u.
    and_then (clamp_limit input.page_size) (λ limit.
      and_then (decode_cursor codec input.page_token) (λ c.
        wrap_result "list tasks"
          (repo.list ctx (record { status = input.status; limit = limit; cursor = c }) s))))

clamp_limit-bounds : (n : ℤ) (limit : ℕ) → clamp_limit n ≡ ok limit → (1 ≤ limit) × (limit ≤ 100)
unfolding clamp_limit
clamp_limit-bounds (pos n) limit h = ground arith
clamp_limit-bounds (ℤ.negsuc n) limit h = ground arith

-- A page, and not a panic, of at most so many tasks.
abbrev pub IsPage : ℕ → Option Page → Type 0
IsPage limit none = ⊥
IsPage limit (some p) = length p.tasks ≤ limit

paginate-IsPage : (ts : List Task) (m : ℕ) → IsPage (suc m) (paginate ts (suc m))
paginate-IsPage [] m = rw (paginate-all (suc m) [] (omega arith)) (omega arith)
paginate-IsPage (t ∷ ts) m = elim (Bool-cases (leb (length ts) m)) [
  | inl few ↦ rw (paginate-all (suc m) (t ∷ ts) (ground arith)) (ground arith)
  | inr many ↦ rw (paginate-more m t ts (ground arith)) (omega (arith, length-take-le m ts))
]

paginate-limit : (ts : List Task) (limit : ℕ) → 1 ≤ limit → IsPage limit (paginate ts limit)
paginate-limit ts zero h = absurd (omega (arith, h))
paginate-limit ts (suc m) h = paginate-IsPage ts m

IsPage-some :
    (limit : ℕ) (r : Option Page)
    → IsPage limit r
    → (p : Page) × (r ≡ some p) × (length p.tasks ≤ limit)
IsPage-some limit none h = absurd h
IsPage-some limit (some p) h = (p, refl, h)

list_tasks-run :
    (codec : Codec) (rank : ℕ → ℕ) (input : ListInput) (s : Store) (limit : ℕ) (c : Cursor)
    → check_status input.status ≡ ok tt
    → clamp_limit input.page_size ≡ ok limit
    → decode_cursor codec input.page_token ≡ ok c
    → list_tasks codec (memory rank) none input s
      ≡ ok (paginate (keep (after rank c) (all_of rank input.status s)) limit)
unfolding list_tasks wrap_result
list_tasks-run codec rank input s limit c st l d =
    rw (st, l, d, list-page rank (record { status = input.status; limit = limit; cursor = c }) s)
      refl

-- A list request with a valid status, a page size that is neither negative nor above 100 and a
-- readable token is answered by the in-memory repository with a page, never with a panic, and the
-- page has at most as many tasks as the limit, which is the page size or, where that is 0, the
-- default, and never more than 100.
pub list_tasks-page :
    (codec : Codec) (rank : ℕ → ℕ) (input : ListInput) (s : Store) (limit : ℕ) (c : Cursor)
    → check_status input.status ≡ ok tt
    → clamp_limit input.page_size ≡ ok limit
    → decode_cursor codec input.page_token ≡ ok c
    → ((p : Page) × (list_tasks codec (memory rank) none input s ≡ ok (some p))
        × (length p.tasks ≤ limit))
      × (limit ≤ 100)
list_tasks-page codec rank input s limit c st l d =
    let bounds = clamp_limit-bounds input.page_size limit l in
    let rows = keep (after rank c) (all_of rank input.status s) in
    let (p, is_p, short) =
      IsPage-some limit (paginate rows limit) (paginate-limit rows limit bounds.0) in
    ((p, list_tasks-run codec rank input s limit c st l d ∙ ap ok is_p, short), bounds.1)
