-- ===== src/Config/Heartbeats.antt =====
-- What a validated queue section of internal/config/queue.go gives the statements of
-- internal/queue.
use gogolook_task_api.Prelude.{
  ℕ, ◌+◌, ◌*◌, ◌/◌, ◌^◌, ◌≤◌, ◌<◌, codes, true, false, String, [], ◌≡◌, arith, ap, sym, ◌∙◌,
}
use gogolook_task_api.Prelude.Int.{pos}
use gogolook_task_api.Queue.Job.{Row}
use gogolook_task_api.Queue.Store.{claim_row, heartbeat_row}
use gogolook_task_api.Queue.Maintenance.{lapsed}
use gogolook_task_api.Config.Values.{int_ltb, times64}
use gogolook_task_api.Config.Checks.{at}
use mathlib.Core.Path.{ap₂}
use gogolook_task_api.Config.Silent.{in_order-silent, add_if-silent, positive-silent}
use gogolook_task_api.Config.QueueSection.{Queue, queue_checks, validate_queue, beats_too_slow}

module _ (q : Queue) (none_found : validate_queue q ≡ []) where
  validate_queue-beats : beats_too_slow q.heartbeat_interval q.lease ≡ false
  unfolding validate_queue
  validate_queue-beats =
      add_if-silent (beats_too_slow q.heartbeat_interval q.lease)
        (at (codes "queue") "heartbeat_interval")
        "must be at most one third of %s (%s), so two missed heartbeats are tolerated before the reaper acts"
        (in_order-silent 9 (queue_checks (codes "queue") q) none_found)

  validate_queue-lease : int_ltb (pos 0) q.lease ≡ true
  unfolding validate_queue
  validate_queue-lease =
      positive-silent (at (codes "queue") "lease") q.lease
        (in_order-silent 3 (queue_checks (codes "queue") q) none_found)

  validate_queue-interval : int_ltb (pos 0) q.heartbeat_interval ≡ true
  unfolding validate_queue
  validate_queue-interval =
      positive-silent (at (codes "queue") "heartbeat_interval") q.heartbeat_interval
        (in_order-silent 4 (queue_checks (codes "queue") q) none_found)

beats_too_slow-lease :
    (h l : ℕ)
    → int_ltb (pos 0) (pos h) ≡ true
    → int_ltb (pos 0) (pos l) ≡ true
    → h * 3 < 2 ^ 63
    → beats_too_slow (pos h) (pos l) ≡ false
    → h * 3 ≤ l
unfolding beats_too_slow int_ltb times64
beats_too_slow-lease h l some_interval some_lease small fits = ground arith

-- Where the validation finds nothing in a queue section whose heartbeat interval h is below
-- 2^63 / 3 nanoseconds: a job that was claimed at t, and one whose lease was extended at t, has not
-- lapsed up to the instant t + 3h, in microseconds.
pub validate_queue-lapsed :
    (q : Queue) (h l t now : ℕ) (w : String) (r : Row)
    → validate_queue q ≡ []
    → q.heartbeat_interval ≡ pos h
    → q.lease ≡ pos l
    → h * 3 < 2 ^ 63
    → now ≤ t + h * 3 / 1000
    → (lapsed now (claim_row t w (l / 1000) r) ≡ false)
      × (lapsed now (heartbeat_row t (l / 1000) r) ≡ false)
unfolding lapsed claim_row heartbeat_row
validate_queue-lapsed q h l t now w r none_found every lease small soon =
    let enough =
      beats_too_slow-lease h l
        (sym (ap (int_ltb (pos 0)) every) ∙ validate_queue-interval q none_found)
        (sym (ap (int_ltb (pos 0)) lease) ∙ validate_queue-lease q none_found) small
        (sym (ap₂ beats_too_slow every lease) ∙ validate_queue-beats q none_found) in
    (ground arith, ground arith)
