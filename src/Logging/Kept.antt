-- ===== src/Logging/Kept.antt =====
-- How many entries the map of internal/logging/throttle.go holds.
use gogolook_task_api.Prelude.{
  ℕ, suc, ◌≤◌, ◌<◌, Option, none, some, List, [], ◌∷◌, ◌≡◌, refl, arith, length,
}
use gogolook_task_api.Prelude.Bytes.{find_key, put_key}
use gogolook_task_api.Logging.Throttle.{
  Record, Entry, Seen, max_throttle_keys, key_of, evict, admit_entry, admit, handle, handle_all,
}

pub length-put_key :
    (k : List ℕ) (e : Entry) (seen : Seen) → length (put_key k e seen) ≤ suc (length seen)
unfolding put_key
length-put_key k e [] = omega arith
length-put_key k e ((j, d) ∷ seen) = ground (arith, length-put_key k e seen)

pub length-put_key_known :
    (k : List ℕ) (e d : Entry) (seen : Seen)
    → find_key k seen ≡ some d
    → length (put_key k e seen) ≡ length seen
unfolding put_key find_key
length-put_key_known k e d [] known = absurd (ground arith)
length-put_key_known k e d ((j, c) ∷ seen) known = ground (arith, length-put_key_known k e d seen)

evict-room : (window now : ℕ) (seen : Seen) → length (evict window now seen) < 512
unfolding evict max_throttle_keys
evict-room window now seen = ground arith

admit_entry-kept :
    (window now : ℕ) (k : List ℕ) (known : Option Entry) (seen : Seen)
    → find_key k seen ≡ known
    → length seen ≤ 512
    → length (admit_entry window now k known seen).1 ≤ 512
unfolding admit_entry
admit_entry-kept window now k none seen is_known small =
    let put =
      length-put_key k (record { last_emit = now; suppressed = 0 }) (evict window now seen) in
    omega (arith, put, evict-room window now seen)
admit_entry-kept window now k (some d) seen is_known small =
    let emitted =
      length-put_key_known k (record { last_emit = now; suppressed = 0 }) d seen is_known in
    let dropped =
      length-put_key_known k (record { last_emit = d.last_emit; suppressed = suc d.suppressed }) d
        seen is_known in
    ground arith

handle-kept :
    (window now : ℕ) (r : Record) (seen : Seen)
    → length seen ≤ 512
    → length (handle window now r seen).1 ≤ 512
unfolding handle admit
handle-kept window now r seen small =
    let known = admit_entry-kept window now (key_of r) (find_key (key_of r) seen) seen refl small in
    ground arith

-- Whatever records come and whenever: a map of at most 512 entries, the empty one among them, has
-- at most 512 entries after each.
pub handle_all-kept :
    (window : ℕ) (rs : List (ℕ × Record)) (seen : Seen)
    → length seen ≤ 512
    → length (handle_all window rs seen).1 ≤ 512
unfolding handle_all
handle_all-kept window [] seen small = small
handle_all-kept window ((now, r) ∷ rs) seen small =
    handle_all-kept window rs (handle window now r seen).1 (handle-kept window now r seen small)
