-- ===== src/Queue/Machine/Tables.antt =====
-- What an UPDATE and a DELETE keep of every row of a table.
use gogolook_task_api.Prelude.{
  ℕ, zero, suc, Bool, true, false, none, some, [], ◌∷◌, All, ◌≡◌, ◌⊎◌, refl, inl, inr, Bool-cases,
  arith,
}
use gogolook_task_api.Queue.Job.{Row}
use gogolook_task_api.Queue.Store.{Table, update_where}
use gogolook_task_api.Queue.Store.Guard.{find, Distinct, find-update}
use gogolook_task_api.Queue.Maintenance.{delete_first}

pub All-update :
    (P Q : Row → Type 0) (p : Row → Bool) (f : Row → Row) (t : Table)
    → ((r : Row) → p r ≡ true → P r → Q (f r))
    → ((r : Row) → P r → Q r)
    → All P t
    → All Q (update_where p f t)
All-update P Q p f [] h k a = tt
All-update P Q p f (r ∷ t) h k a = elim (Bool-cases (p r)) [
  | inl hit ↦ rw hit (h r hit a.0, All-update P Q p f t h k a.1)
  | inr miss ↦ rw miss (k r a.0, All-update P Q p f t h k a.1)
]

pub All-delete :
    (P : Row → Type 0) (n : ℕ) (p : Row → Bool) (t : Table) → All P t → All P (delete_first n p t)
unfolding delete_first
All-delete P n p [] a = tt
All-delete P zero p (r ∷ t) a = ground (arith, All-delete P zero p t a.1)
All-delete P (suc n) p (r ∷ t) a =
    ground (arith, All-delete P n p t a.1, All-delete P (suc n) p t a.1)

find-delete_none :
    (n : ℕ) (p : Row → Bool) (i : ℕ) (t : Table)
    → find i t ≡ none
    → find i (delete_first n p t) ≡ none
unfolding delete_first
find-delete_none n p i [] h = refl
find-delete_none zero p i (r ∷ t) h = ground (arith, find-delete_none zero p i t)
find-delete_none (suc n) p i (r ∷ t) h =
    ground (arith, find-delete_none n p i t, find-delete_none (suc n) p i t)

pub Distinct-delete :
    (n : ℕ) (p : Row → Bool) (t : Table) → Distinct t → Distinct (delete_first n p t)
unfolding delete_first
Distinct-delete n p [] d = tt
Distinct-delete zero p (r ∷ t) d =
    ground (arith, Distinct-delete zero p t d.1, find-delete_none zero p r.id t d.0)
Distinct-delete (suc n) p (r ∷ t) d = ground (
  arith,
  Distinct-delete n p t d.1,
  Distinct-delete (suc n) p t d.1,
  find-delete_none (suc n) p r.id t d.0,
)

pub find-delete_cases :
    (n : ℕ) (p : Row → Bool) (i : ℕ) (t : Table) (r : Row)
    → Distinct t
    → find i t ≡ some r
    → (find i (delete_first n p t) ≡ some r) ⊎ (find i (delete_first n p t) ≡ none)
unfolding delete_first
find-delete_cases n p i [] r d h = inr refl
find-delete_cases zero p i (q ∷ t) r d h = ground (arith, find-delete_cases zero p i t r d.1)
find-delete_cases (suc n) p i (q ∷ t) r d h = ground (
  arith,
  find-delete_cases n p i t r d.1,
  find-delete_cases (suc n) p i t r d.1,
  find-delete_none n p q.id t d.0,
)

-- An UPDATE leaves alone a row that its WHERE does not select.
pub find-update_miss :
    (p : Row → Bool) (f : Row → Row) (i : ℕ) (t : Table) (r : Row)
    → ((r : Row) → (f r).id ≡ r.id)
    → find i t ≡ some r
    → p r ≡ false
    → find i (update_where p f t) ≡ some r
find-update_miss p f i t r h e miss = ground (arith, find-update p f i t h)
