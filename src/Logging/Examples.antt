-- ===== src/Logging/Examples.antt =====
-- The theorems on internal/logging/throttle.go at a database that is down.
use gogolook_task_api.Prelude.{ℕ, ◌+◌, ◌≤◌, List, [], ◌∷◌, ◌≡◌, refl, arith, length, codes}
use gogolook_task_api.Prelude.Int.{pos}
use gogolook_task_api.Prelude.Bytes.{find_key, bytes_eq}
use gogolook_task_api.Logging.Throttle.{Record, key_of, handle_all, max_throttle_keys}
use gogolook_task_api.Logging.Kept.{handle_all-kept}
use gogolook_task_api.Logging.Counted.{accounted, arrived, held_back, handle_all-counted}

abbrev unreachable : Record
unreachable = record { level = pos 8; message = codes "database unreachable" }

abbrev incident : List (ℕ × Record)
incident = (100, unreachable) ∷ (105, unreachable) ∷ (107, unreachable) ∷ (111, unreachable) ∷ []

-- The first line and the last are emitted, and the last reports the two between them.
two_lines :
    (handle_all 10 incident []).0
    ≡ record { line = unreachable; suppressed = 0 }
      ∷ record { line = unreachable; suppressed = 2 }
      ∷ []
unfolding handle_all codes max_throttle_keys bytes_eq
two_lines = refl

handle_all-kept_example : length (handle_all 10 incident []).1 ≤ 512
handle_all-kept_example = handle_all-kept 10 incident [] (omega arith)

handle_all-counted_example :
    let (lines, seen') = handle_all 10 incident [] in
    accounted (key_of unreachable) lines + held_back (find_key (key_of unreachable) seen')
    ≡ arrived (key_of unreachable) incident + held_back (find_key (key_of unreachable) [])
handle_all-counted_example = handle_all-counted (key_of unreachable) 10 incident [] (omega arith)
