-- ===== src/Queue/Store/Guard.antt =====
-- The claim guard: when a completion write lands, and what it leaves alone.
use gogolook_task_api.Prelude.{
  ℕ, String, str_eq_iff, Bool, true, false, Option, none, some, [], ◌∷◌, ◌==◌, count, if◌then◌else◌,
  ◌≡◌, ◌≢◌, ◌↔◌, refl, ap, arith,
}
use gogolook_task_api.Queue.Job.{Row, Job, State, running, state_eq}
use gogolook_task_api.Queue.Store.Rows.{Table, update_where, is_worker, guard}

-- The row of an id.
abbrev pub find : ℕ → Table → Option Row
find i [] = none
find i (r ∷ t) = if r.id == i then some r else find i t

-- No two rows have one id: the primary key.
abbrev pub Distinct : Table → Type 0
Distinct [] = Unit {0}
Distinct (r ∷ t) = (find r.id t ≡ none) × Distinct t

pub state_eq_iff : (a b : State) → (state_eq a b ≡ true) ↔ (a ≡ b)
state_eq_iff a b = ground arith

pub is_worker_iff : (o : Option String) (w : String) → (is_worker o w ≡ true) ↔ (o ≡ some w)
is_worker_iff none w = ground arith
is_worker_iff (some v) w = ground (arith, str_eq_iff v w)

-- What the guard asks of a row.
pub guard_iff :
    (w : String) (j : Job) (r : Row)
    → (guard w j r ≡ true)
      ↔ ((r.id ≡ j.id) × (r.state ≡ running) × (r.locked_by ≡ some w) × (r.attempt ≡ j.attempt))
unfolding guard
guard_iff w j r = ground (arith, state_eq_iff r.state running, is_worker_iff r.locked_by w)

guard_other : (w : String) (j : Job) (r : Row) → r.id ≢ j.id → guard w j r ≡ false
unfolding guard
guard_other w j r h = ground arith

-- The guard selects none of the rows after the one with the job's id.
count-guard_absent :
    (w : String) (j : Job) (t : Table) → find j.id t ≡ none → count (guard w j) t ≡ 0
count-guard_absent w j [] h = refl
count-guard_absent w j (r ∷ t) h = ground (arith, guard_other w j r, count-guard_absent w j t)

pub update-guard_none :
    (f : Row → Row) (w : String) (j : Job) (t : Table)
    → count (guard w j) t ≡ 0
    → update_where (guard w j) f t ≡ t
update-guard_none f w j [] h = refl
update-guard_none f w j (r ∷ t) h = ground (arith, update-guard_none f w j t)

-- With distinct ids the guard selects the job's own row, or nothing.
abbrev pub one_if : (Row → Bool) → Option Row → ℕ
one_if p none = 0
one_if p (some r) = if p r then 1 else 0

pub count-guard :
    (w : String) (j : Job) (t : Table)
    → Distinct t
    → count (guard w j) t ≡ one_if (guard w j) (find j.id t)
count-guard w j [] d = refl
count-guard w j (r ∷ t) d = ground (
  arith,
  guard_other w j r,
  count-guard_absent w j t,
  count-guard w j t d.1,
  ap (λ i. find i t ≡ none) refl,
)

pub find-update :
    (p : Row → Bool) (f : Row → Row) (i : ℕ) (t : Table)
    → ((r : Row) → (f r).id ≡ r.id)
    → find i (update_where p f t)
      ≡ elim (find i t) [ none ↦ none | some r ↦ some (if p r then f r else r) ]
find-update p f i [] h = refl
find-update p f i (r ∷ t) h = ground (arith, h r, find-update p f i t h)

pub Distinct-update :
    (p : Row → Bool) (f : Row → Row) (t : Table)
    → ((r : Row) → (f r).id ≡ r.id)
    → Distinct t
    → Distinct (update_where p f t)
Distinct-update p f [] h d = tt
Distinct-update p f (r ∷ t) h d =
    ground (arith, h r, find-update p f r.id t h, Distinct-update p f t h d.1)
