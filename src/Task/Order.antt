-- ===== src/Task/Order.antt =====
-- The order of a list in internal/task/repository.go, and how the cursor of a task cuts it.
use gogolook_task_api.Prelude.{ℕ, true, false, ◌≡◌, arith}
use gogolook_task_api.Prelude.Sort.{IsOrder}
use gogolook_task_api.Task.Model.{Task}
use gogolook_task_api.Task.Paging.{Cursor, less, after, cursor_of, is_zero}

pub less-IsOrder : (rank : ℕ → ℕ) → IsOrder (less rank)
unfolding less
less-IsOrder rank = record {
  asymmetric = λ x y h. ground arith;
  co_transitive = λ x y z h k. ground arith;
}

-- What stands behind the cursor of a task is what the order puts behind that task.
pub after-less :
    (rank : ℕ → ℕ) (t u : Task)
    → is_zero (cursor_of t) ≡ false
    → after rank (cursor_of t) u ≡ less rank t u
unfolding after less cursor_of
after-less rank t u h = ground arith

pub less_trans :
    (rank : ℕ → ℕ) (t u v : Task)
    → less rank t u ≡ true
    → less rank u v ≡ true
    → less rank t v ≡ true
unfolding less
less_trans rank t u v h k = ground arith

-- What a list puts behind a task that is itself behind a cursor is behind that cursor.
pub after-behind :
    (rank : ℕ → ℕ) (c : Cursor) (t u : Task)
    → after rank c t ≡ true
    → less rank t u ≡ true
    → after rank c u ≡ true
unfolding after less
after-behind rank c t u h k = ground arith
