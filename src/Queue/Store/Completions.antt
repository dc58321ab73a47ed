-- ===== src/Queue/Store/Completions.antt =====
-- The five completion writes of internal/queue/store.go as one type, for what holds of each.
use gogolook_task_api.Prelude.{ℕ, String, Bool, Option, List}
use gogolook_task_api.Prelude.Interval.{interval}
use gogolook_task_api.Queue.Job.{Row, Job, cancelled, discarded}
use gogolook_task_api.Queue.Store.Rows.{
  Table, succeed, retry, cancel, discard, snooze, err_text, succeed_row, retry_row, terminal_row,
  snooze_row,
}

pub data Completion : Type 0 where
  succeeds : Completion
  retries : ℕ → Option (List ℕ) → Completion
  cancels discards : Option (List ℕ) → Completion
  snoozes : ℕ → Completion

unfoldable pub complete : ℕ → String → Job → Completion → Table → Table × Bool
unfolding succeed retry cancel discard snooze
complete now w j succeeds t = succeed now w j t
complete now w j (retries delay cause) t = retry now w j delay cause t
complete now w j (cancels cause) t = cancel now w j cause t
complete now w j (discards cause) t = discard now w j cause t
complete now w j (snoozes delay) t = snooze now w j delay t

-- What the write does to the row that its guard selects.
unfoldable pub completed_row : ℕ → String → Completion → Row → Row
completed_row now w succeeds = succeed_row now
completed_row now w (retries delay cause) = retry_row now w (interval delay) (err_text cause)
completed_row now w (cancels cause) = terminal_row now w cancelled (err_text cause)
completed_row now w (discards cause) = terminal_row now w discarded (err_text cause)
completed_row now w (snoozes delay) = snooze_row now (interval delay)
