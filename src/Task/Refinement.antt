-- ===== src/Task/Refinement.antt =====
-- internal/task/memrepo/memrepo.go keeps the promises of the repository.
use gogolook_task_api.Prelude.{
  ℕ, Option, none, some, [], ◌∷◌, ◌==◌, if◌then◌else◌, ◌≡◌, refl, ap, arith,
}
use gogolook_task_api.Prelude.Int.{ℤ}
use gogolook_task_api.Task.Model.{Task}
use gogolook_task_api.Task.Memory.{
  Store, load, put, remove, create, create_over, get, found, update, update_over, updated, delete,
  delete_over, list,
}
use gogolook_task_api.Task.Service.{Repository}
use gogolook_task_api.Task.Spec.{Implements, created, replaced, read, written, deleted}

load-put :
    (i k : ℕ) (t : Task) (s : Store) → load k (put i t s) ≡ (if i == k then some t else load k s)
unfolding load put
load-put i k t [] = refl
load-put i k t ((j, u) ∷ s) = ground (arith, load-put i k t s)

load-remove : (i k : ℕ) (s : Store) → load k (remove i s) ≡ (if i == k then none else load k s)
unfolding load remove
load-remove i k [] = ground arith
load-remove i k ((j, u) ∷ s) = ground (arith, load-remove i k s)

abbrev pub memory : (ℕ → ℕ) → Repository Store
memory rank = record {
  create = create;
  get = get;
  update = update;
  delete = delete;
  list = list rank;
}

create_over-view :
    (o : Option Task) (t : Task) (s : Store) (i : ℕ)
    → load t.id s ≡ o
    → load i (create_over o t s).1
      ≡ (if t.id == i then written (created o t) (load i s) else load i s)
unfolding create_over
create_over-view none t s i e = ground (arith, load-put t.id i t s)
create_over-view (some u) t s i e = ground arith

update_over-answer :
    (o : Option Task) (t : Task) (v : ℤ) (s : Store) → (update_over o t v s).0 ≡ replaced o t v
unfolding update_over updated
update_over-answer none t v s = refl
update_over-answer (some u) t v s = ground arith

update_over-view :
    (o : Option Task) (t : Task) (v : ℤ) (s : Store) (i : ℕ)
    → load i (update_over o t v s).1
      ≡ (if t.id == i then written (replaced o t v) (load i s) else load i s)
unfolding update_over updated
update_over-view none t v s i = ground arith
update_over-view (some u) t v s i = ground (arith, load-put t.id i (updated u t) s)

delete_over-view :
    (o : Option Task) (i : ℕ) (s : Store) (k : ℕ)
    → load i s ≡ o
    → load k (delete_over o i s).1 ≡ (if i == k then none else load k s)
unfolding delete_over
delete_over-view none i s k e = ground arith
delete_over-view (some u) i s k e = ground (arith, load-remove i k s)

found-read : (o : Option Task) → found o ≡ read o
unfolding found
found-read none = refl
found-read (some t) = refl

create_over-answer : (o : Option Task) (t : Task) (s : Store) → (create_over o t s).0 ≡ created o t
unfolding create_over
create_over-answer none t s = refl
create_over-answer (some u) t s = refl

delete_over-answer : (o : Option Task) (i : ℕ) (s : Store) → (delete_over o i s).0 ≡ deleted o
unfolding delete_over
delete_over-answer none i s = refl
delete_over-answer (some u) i s = refl

-- The in-memory repository implements the map from ids to tasks: its reads, creations, conditional
-- updates and deletions answer as the map does, errors included, and leave the map's next state.
pub memory-Implements : (rank : ℕ → ℕ) → Implements (memory rank) (λ s i. load i s)
unfolding create get update delete
memory-Implements rank = record {
  get_law = λ i s. ap (λ r. (r, s)) (found-read (load i s));
  create_answer = λ t s. create_over-answer (load t.id s) t s;
  create_view = λ t s i. create_over-view (load t.id s) t s i refl;
  update_answer = λ t v s. update_over-answer (load t.id s) t v s;
  update_view = λ t v s i. update_over-view (load t.id s) t v s i;
  delete_answer = λ i s. delete_over-answer (load i s) i s;
  delete_view = λ i s k. delete_over-view (load i s) i s k refl;
}
