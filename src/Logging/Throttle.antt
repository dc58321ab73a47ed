-- ===== src/Logging/Throttle.antt =====
-- internal/logging/throttle.go. Instants are nanoseconds, and a count has no upper bound.
use gogolook_task_api.Prelude.{
  ℕ, suc, ◌+◌, ◌*◌, Bool, true, false, not, Option, none, some, List, [], ◌∷◌, ◌++◌, ltb, leb,
  length, keep, if◌then◌else◌,
}
use gogolook_task_api.Prelude.Int.{ℤ, pos, negsuc}
use gogolook_task_api.Prelude.Bytes.{find_key, put_key}
use gogolook_task_api.Prelude.Decimal.{decimal}

-- `slog.Record`, as far as the handler reads it.
pub record Record : Type 0 where
  pub level : ℤ
  pub message : List ℕ

-- `throttleEntry`, and the map of the handler.
pub record Entry : Type 0 where
  pub last_emit : ℕ
  pub suppressed : ℕ

abbrev pub Seen : Type 0
Seen = List (List ℕ × Entry)

-- A record as it is handed on, with the attribute `suppressed`, 0 for none.
pub record Emission : Type 0 where
  pub line : Record
  pub suppressed : ℕ

unfoldable pub max_throttle_keys : ℕ
max_throttle_keys = 512

abbrev pub level_text : ℤ → List ℕ
level_text (pos n) = decimal n
level_text (negsuc n) = 0x2d ∷ decimal (suc n)

unfoldable pub key_of : Record → List ℕ
unfolding decimal
key_of r = level_text r.level ++ 0 ∷ r.message

-- The entry is not older than the cutoff of evictLocked.
abbrev pub is_recent : (window now : ℕ) → List ℕ × Entry → Bool
is_recent window now (k, e) = not (ltb (e.last_emit + 10 * window) now)

-- `evictLocked`.
unfoldable pub evict : (window now : ℕ) → Seen → Seen
unfolding max_throttle_keys
evict window now seen =
    let recent = keep (is_recent window now) seen in
    if ltb (length seen) max_throttle_keys
    then seen
    else if leb max_throttle_keys (length recent)
    then []
    else recent

unfoldable pub admit_entry : (window now : ℕ) → List ℕ → Option Entry → Seen → (Bool × ℕ) × Seen
unfolding evict put_key
admit_entry window now key none seen =
    ((true, 0), put_key key (record { last_emit = now; suppressed = 0 }) (evict window now seen))
admit_entry window now key (some e) seen =
    if leb (e.last_emit + window) now
    then ((true, e.suppressed), put_key key (record { last_emit = now; suppressed = 0 }) seen)
    else (
      (false, 0),
      put_key key (record { last_emit = e.last_emit; suppressed = suc e.suppressed }) seen,
    )

-- `admit`: whether the record is emitted, and how many of its twins were dropped.
unfoldable pub admit : (window now : ℕ) → Record → Seen → (Bool × ℕ) × Seen
unfolding admit_entry key_of find_key
admit window now r seen = admit_entry window now (key_of r) (find_key (key_of r) seen) seen

-- Below `slog.LevelWarn`.
abbrev pub is_below_warn : ℤ → Bool
is_below_warn (pos n) = ltb n 4
is_below_warn (negsuc n) = true

-- The record that admission lets through, with its attribute.
abbrev pub emitted : Bool × ℕ → Record → List Emission
emitted (true, n) r = record { line = r; suppressed = n } ∷ []
emitted (false, n) r = []

-- `Handle`: what is handed on.
unfoldable pub handle : (window now : ℕ) → Record → Seen → List Emission × Seen
unfolding admit
handle window now r seen =
    let (verdict, seen') = admit window now r seen in
    if is_below_warn r.level
    then (record { line = r; suppressed = 0 } ∷ [], seen)
    else (emitted verdict r, seen')

-- The handler on records one after another, each at its instant.
unfoldable pub handle_all : (window : ℕ) → List (ℕ × Record) → Seen → List Emission × Seen
unfolding handle
handle_all window [] seen = ([], seen)
handle_all window ((now, r) ∷ rs) seen =
    let (lines, seen') = handle window now r seen in
    let (rest, last) = handle_all window rs seen' in (lines ++ rest, last)
