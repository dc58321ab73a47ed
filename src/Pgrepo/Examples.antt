-- ===== src/Pgrepo/Examples.antt =====
-- The theorems on internal/task/pgrepo at a database of two tasks, and tests of the definitions.
use gogolook_task_api.Prelude.{ℕ, false, none, [], ◌∷◌, ◌≡◌, refl, codes}
use gogolook_task_api.Prelude.Int.{pos}
use gogolook_task_api.Prelude.Decimal.{decimal, decimal-All, decimal-injective}
use gogolook_task_api.Task.{err, load, list as mem_list, is_valid_status, err_conflict}
use gogolook_task_api.Postgres.{fresh_work}
use gogolook_task_api.Pgrepo.Events.{event_id, event_created, event_for, itoa}
use gogolook_task_api.Pgrepo.Statements.{insert_task, passes_checks, update_row, update_found}
use gogolook_task_api.Pgrepo.Repo.{update, list, write, write_in, then_enqueue, finish_own}
use gogolook_task_api.Pgrepo.Identity.{event_id-injective}
use gogolook_task_api.Pgrepo.Atomic.{IsOwnOutcome, write-IsOwnOutcome}
use gogolook_task_api.Pgrepo.Joined.{IsJoinedOutcome, write-IsJoinedOutcome}
use gogolook_task_api.Pgrepo.Agrees.{no_faults, tasks_of, IsStorable}
use gogolook_task_api.Pgrepo.Operations.{updates, run_durable, run_memory, run_durable-run_memory}
use gogolook_task_api.Pgrepo.Pages.{list-memory}
use gogolook_task_api.Pgrepo.Samples.{
  task_of, sample_event, names, store, database, session, joined, newest, same_event,
}

-- "task.created:3:1".
created_id : event_id names (event_for event_created (task_of 3)) ≡ codes "task.created:3:1"
unfolding event_id event_for event_created itoa decimal codes
created_id = refl

storable : (i : ℕ) → IsStorable (task_of i)
unfolding passes_checks is_valid_status
storable i = record { created = refl; updated = refl; checks = refl }

-- A conflict with the stored version is told, and the rows stay.
conflict :
    tasks_of (update names 7 no_faults false (task_of 1) (pos 5) session)
    ≡ (err err_conflict, store)
unfolding update write write_in update_row update_found then_enqueue finish_own load
conflict = refl

event_id-injective_example :
    (sample_event.event ≡ same_event.event)
    × (sample_event.task_id ≡ same_event.task_id)
    × (sample_event.version ≡ same_event.version)
unfolding event_id
event_id-injective_example =
    event_id-injective names (λ i. decimal-All i) (λ i j e. decimal-injective i j e) sample_event
      same_event (refl, tt) (refl, tt) refl

write-IsOwnOutcome_example :
    IsOwnOutcome names
      (101 ∷ [])
      (insert_task false (task_of 3))
      session
      (write names 7 no_faults (101 ∷ []) (insert_task false (task_of 3)) session)
write-IsOwnOutcome_example =
    write-IsOwnOutcome names 7 no_faults 101 [] (insert_task false (task_of 3)) session refl

write-IsJoinedOutcome_example :
    IsJoinedOutcome names
      (101 ∷ [])
      (insert_task false (task_of 3))
      joined
      (fresh_work database)
      (write names 7 no_faults (101 ∷ []) (insert_task false (task_of 3)) joined)
write-IsJoinedOutcome_example =
    write-IsJoinedOutcome names 7 no_faults 101 [] (insert_task false (task_of 3)) joined
      (fresh_work database) refl

run_durable-run_memory_example :
    tasks_of (run_durable names 7 (updates (task_of 1) (pos 1)) session)
    ≡ run_memory (updates (task_of 1) (pos 1)) store
unfolding load
run_durable-run_memory_example =
    run_durable-run_memory names 7 (updates (task_of 1) (pos 1)) session (λ e. (e.event, refl)) refl
      (storable 1, refl)

list-memory_example : list false newest session ≡ mem_list (λ i. i) none newest store
list-memory_example = list-memory (λ i. i) newest session (λ i j. refl) refl
