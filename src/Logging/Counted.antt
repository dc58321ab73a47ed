-- ===== src/Logging/Counted.antt =====
-- What becomes of a record that internal/logging/throttle.go holds back.
use gogolook_task_api.Prelude.{
  ℕ, suc, ◌+◌, ◌≤◌, ◌<◌, Bool, true, false, Option, none, some, List, [], ◌∷◌, ◌++◌, ◌≡◌, refl,
  arith, length, if◌then◌else◌, ap, sym, subst, leb, ◌∙◌, Bool-cases, inl, inr,
}
use gogolook_task_api.Prelude.Bytes.{find_key, put_key, bytes_eq, bytes_eq_iff, find_key-put_key}
use gogolook_task_api.Logging.Throttle.{
  Record, Entry, Seen, Emission, emitted, max_throttle_keys, key_of, is_below_warn, evict,
  admit_entry, admit, handle, handle_all,
}
use gogolook_task_api.Logging.Kept.{length-put_key}

-- How many records of a key were handed on or reported as suppressed.
abbrev pub accounted : List ℕ → List Emission → ℕ
accounted k [] = 0
accounted k (l ∷ ls) = (if bytes_eq (key_of l.line) k then suc l.suppressed else 0) + accounted k ls

-- How many of the key the map holds back.
abbrev pub held_back : Option Entry → ℕ
held_back none = 0
held_back (some e) = e.suppressed

abbrev pub arrived : List ℕ → List (ℕ × Record) → ℕ
arrived k [] = 0
arrived k ((now, r) ∷ rs) = (if bytes_eq (key_of r) k then 1 else 0) + arrived k rs

accounted-++ :
    (k : List ℕ) (a b : List Emission) → accounted k (a ++ b) ≡ accounted k a + accounted k b
accounted-++ k [] b = omega arith
accounted-++ k (l ∷ a) b = ground (arith, accounted-++ k a b)

evict-small : (window now : ℕ) (seen : Seen) → length seen < 512 → evict window now seen ≡ seen
unfolding evict max_throttle_keys
evict-small window now seen small = ground arith

put_key-held_back :
    (k j : List ℕ) (e : Entry) (seen : Seen)
    → held_back (find_key k (put_key j e seen))
      ≡ (if bytes_eq j k then e.suppressed else held_back (find_key k seen))
put_key-held_back k j e seen = rw (find_key-put_key j k e seen) (ground arith)

known-held_back :
    (k j : List ℕ) (known : Option Entry) (seen : Seen)
    → find_key j seen ≡ known
    → bytes_eq j k ≡ true
    → held_back (find_key k seen) ≡ held_back known
known-held_back k j known seen is_known same =
    ap (λ x. held_back (find_key x seen)) (sym ((bytes_eq_iff j k).0 same)) ∙ ap held_back is_known

-- A record that is emitted takes what was held back with it; one that is not is held back.
emitted-sum :
    (same : Bool) (n before after : ℕ)
    → after ≡ (if same then 0 else before)
    → (same ≡ true → before ≡ n)
    → (if same then suc n else 0) + 0 + after ≡ (if same then 1 else 0) + before
emitted-sum true n before after now_held was_held = omega (arith, now_held, was_held refl)
emitted-sum false n before after now_held was_held = omega (arith, now_held)

dropped-sum :
    (same : Bool) (n before after : ℕ)
    → after ≡ (if same then suc n else before)
    → (same ≡ true → before ≡ n)
    → 0 + after ≡ (if same then 1 else 0) + before
dropped-sum true n before after now_held was_held = omega (arith, now_held, was_held refl)
dropped-sum false n before after now_held was_held = omega (arith, now_held)

module _ (k : List ℕ) (window now : ℕ) (r : Record) (seen : Seen) where
  abbrev IsCounted : (Bool × ℕ) × Seen → Type 0
  IsCounted answer =
      (accounted k (emitted answer.0 r) + held_back (find_key k answer.1)
        ≡ (if bytes_eq (key_of r) k then 1 else 0) + held_back (find_key k seen))
      × (length answer.1 ≤ suc (length seen))

  admit_entry-IsCounted :
      (known : Option Entry)
      → find_key (key_of r) seen ≡ known
      → length seen < 512
      → IsCounted (admit_entry window now (key_of r) known seen)
  unfolding admit_entry
  admit_entry-IsCounted none is_known small =
      let fresh : Entry = record { last_emit = now; suppressed = 0 } in
      subst (λ m. IsCounted ((true, 0), put_key (key_of r) fresh m))
        (sym (evict-small window now seen small))
        (
          emitted-sum (bytes_eq (key_of r) k) 0 (held_back (find_key k seen))
              (held_back (find_key k (put_key (key_of r) fresh seen)))
              (put_key-held_back k (key_of r) fresh seen)
              (known-held_back k (key_of r) none seen is_known),
          length-put_key (key_of r) fresh seen,
        )
  admit_entry-IsCounted (some d) is_known small =
      elim (Bool-cases (leb (d.last_emit + window) now)) [
        | inl late ↦ rw late (emits, length-put_key (key_of r) fresh seen)
        | inr early ↦ rw early (drops, length-put_key (key_of r) more seen)
      ]
    where
      fresh : Entry
      fresh = record { last_emit = now; suppressed = 0 }

      more : Entry
      more = record { last_emit = d.last_emit; suppressed = suc d.suppressed }

      emits :
          accounted k (emitted (true, d.suppressed) r)
            + held_back (find_key k (put_key (key_of r) fresh seen))
          ≡ (if bytes_eq (key_of r) k then 1 else 0) + held_back (find_key k seen)
      emits =
          emitted-sum (bytes_eq (key_of r) k) d.suppressed (held_back (find_key k seen))
            (held_back (find_key k (put_key (key_of r) fresh seen)))
            (put_key-held_back k (key_of r) fresh seen)
            (known-held_back k (key_of r) (some d) seen is_known)

      drops :
          0 + held_back (find_key k (put_key (key_of r) more seen))
          ≡ (if bytes_eq (key_of r) k then 1 else 0) + held_back (find_key k seen)
      drops =
          dropped-sum (bytes_eq (key_of r) k) d.suppressed (held_back (find_key k seen))
            (held_back (find_key k (put_key (key_of r) more seen)))
            (put_key-held_back k (key_of r) more seen)
            (known-held_back k (key_of r) (some d) seen is_known)

  handle-counted :
      length seen < 512
      → let (lines, seen') = handle window now r seen in
        (accounted k lines + held_back (find_key k seen')
          ≡ (if bytes_eq (key_of r) k then 1 else 0) + held_back (find_key k seen))
        × (length seen' ≤ suc (length seen))
  unfolding handle admit
  handle-counted small =
      let counted = admit_entry-IsCounted (find_key (key_of r) seen) refl small in
      elim (Bool-cases (is_below_warn r.level)) [
        | inl below ↦ rw below (omega arith, omega arith)
        | inr above ↦ rw above counted
      ]

-- While the map has room, no record goes uncounted: of every key, those handed on, those that they
-- report as suppressed and those that the map still holds back are together the records that came,
-- with those held back before. There is room where the entries and the records are at most 512.
pub handle_all-counted :
    (k : List ℕ) (window : ℕ) (rs : List (ℕ × Record)) (seen : Seen)
    → length seen + length rs ≤ 512
    → let (lines, seen') = handle_all window rs seen in
      accounted k lines + held_back (find_key k seen') ≡ arrived k rs + held_back (find_key k seen)
unfolding handle_all
handle_all-counted k window [] seen room = refl
handle_all-counted k window ((now, r) ∷ rs) seen room =
    let (lines, seen') = handle window now r seen in
    let (one, grown) = handle-counted k window now r seen (omega (arith, room)) in
    let rest = handle_all-counted k window rs seen' (omega (arith, room, grown)) in
    omega (arith, one, rest, accounted-++ k lines (handle_all window rs seen').0)
