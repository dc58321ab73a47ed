-- ===== src/Config/Reloaded.antt =====
-- What ApplyHot of internal/config/reload.go leaves for Diff to report.
use gogolook_task_api.Prelude.{
  ℕ, true, false, Option, none, some, List, [], ◌∷◌, ◌≡◌, refl, arith, ap, sym, ◌∙◌, if◌then◌else◌,
  Bool-cases, inl, inr,
}
use mathlib.Core.Path.{ap₂}
use gogolook_task_api.Prelude.Bytes.{
  bytes_eq, bytes_eq_iff, bytes_eq_self, find_key, find_key-put_key,
}
use gogolook_task_api.Config.Reload.{
  Flat, Koanf, Change, is_hot, render, changes, diff_flat, diff, merge_hot, apply_hot, with_both,
  sorted_paths,
}

abbrev or_else {ℓ} : {V : Type ℓ} → Option V → Option V → Option V
or_else none d = d
or_else (some v) d = some v

module _ {C V : Type 0} (koanf : Koanf C V) where
  find_key-merge_hot :
      (k : List ℕ) (old next : Flat V)
      → find_key k (merge_hot koanf old next)
        ≡ (if is_hot k then or_else (find_key k next) (find_key k old) else find_key k old)
  unfolding merge_hot find_key
  find_key-merge_hot k old [] = ground arith
  find_key-merge_hot k old ((j, v) ∷ next) = elim (Bool-cases (is_hot j)) [
    | inl hot ↦ rw hot (
        rw (find_key-put_key j k v (merge_hot koanf old next)) (elim (Bool-cases (bytes_eq j k)) [
          | inl same ↦ rw same (rw (sym (ap is_hot ((bytes_eq_iff j k).0 same)) ∙ hot) refl)
          | inr differs ↦ rw differs (find_key-merge_hot k old next)
        ]))
    | inr cold ↦ rw cold (elim (Bool-cases (bytes_eq j k)) [
      | inl same ↦
          (let k_cold = sym (ap is_hot ((bytes_eq_iff j k).0 same)) ∙ cold in
            find_key-merge_hot k old next ∙ rw k_cold refl)
      | inr differs ↦ rw differs (find_key-merge_hot k old next)
    ])
  ]

  -- Paths that both have with the same value are no change.
  changes-cold :
      (old next : Flat V) (ks : List (List ℕ))
      → ((k : List ℕ) → is_hot k ≡ false → find_key k old ≡ find_key k next)
      → (changes koanf old next ks).1 ≡ []
  unfolding changes
  changes-cold old next [] same = refl
  changes-cold old next (k ∷ ks) same = elim (Bool-cases (is_hot k)) [
    | inl hot ↦ ground (arith, changes-cold old next ks same)
    | inr cold ↦
        rw (same k cold)
          (rw (bytes_eq_self (render koanf (find_key k next))) (changes-cold old next ks same))
  ]

  changes-hot :
      (old next : Flat V) (ks : List (List ℕ))
      → ((k : List ℕ) → is_hot k ≡ true → find_key k old ≡ find_key k next)
      → (changes koanf old next ks).0 ≡ []
  unfolding changes
  changes-hot old next [] same = refl
  changes-hot old next (k ∷ ks) same = elim (Bool-cases (is_hot k)) [
    | inl hot ↦
        rw (same k hot)
          (rw (bytes_eq_self (render koanf (find_key k next))) (changes-hot old next ks same))
    | inr cold ↦ ground (arith, changes-hot old next ks same)
  ]

  -- A configuration that is read back from paths and values flattens to these.
  abbrev pub ReadsBack : Flat V → Type 0
  ReadsBack m =
      (c : C)
      → koanf.unmarshal m ≡ some c
      → (f : Flat V) × (koanf.flatten c ≡ some f) × ((k : List ℕ) → find_key k f ≡ find_key k m)

  merged-old :
      (k : List ℕ) (old next : Flat V)
      → is_hot k ≡ false
      → find_key k old ≡ find_key k (merge_hot koanf old next)
  merged-old k old next cold = rw (find_key-merge_hot k old next, cold) refl

  merged-next :
      (k : List ℕ) (old next : Flat V)
      → (find_key k next ≡ none → find_key k old ≡ none)
      → is_hot k ≡ true
      → find_key k (merge_hot koanf old next) ≡ find_key k next
  merged-next k old next there hot =
      rw (find_key-merge_hot k old next, hot)
        (or_else-first (find_key k next) (find_key k old) there)
    where
      or_else-first : (a b : Option V) → (a ≡ none → b ≡ none) → or_else a b ≡ a
      or_else-first none b absent = absent refl
      or_else-first (some v) b absent = refl

  -- With a koanf that reads back what was merged, and a next configuration with every path of the
  -- old one: of what ApplyHot returns, Diff against the old one reports no change that wants a
  -- restart, and against the next one no hot change. So what is applied is what is reported as hot.
  pub apply_hot-diff :
      (old next out : C) (old_map next_map : Flat V)
      → koanf.flatten old ≡ some old_map
      → koanf.flatten next ≡ some next_map
      → ((k : List ℕ) → find_key k next_map ≡ none → find_key k old_map ≡ none)
      → ReadsBack (merge_hot koanf old_map next_map)
      → apply_hot koanf old next ≡ some out
      → (applied : List Change) × (left : List Change) × (diff koanf old out ≡ some (applied, []))
        × (diff koanf out next ≡ some ([], left))
  unfolding apply_hot diff diff_flat
  apply_hot-diff old next out old_map next_map old_flat next_flat complete reads_back applied =
      let merged = merge_hot koanf old_map next_map in
      let read : koanf.unmarshal merged ≡ some out =
        sym (
          ap₂ (λ a b. with_both a b (λ o n. koanf.unmarshal (merge_hot koanf o n))) old_flat
            next_flat)
        ∙ applied in
      let (out_map, out_flat, same) = reads_back out read in
      let first = diff_flat koanf old_map out_map in
      let second = diff_flat koanf out_map next_map in
      (
        first.0,
        second.1,
        rw (old_flat, out_flat)
            (ap (λ x. some (first.0, x))
              (changes-cold old_map out_map (sorted_paths old_map out_map)
                (λ k cold. merged-old k old_map next_map cold ∙ sym (same k)))),
        rw (out_flat, next_flat)
            (ap (λ x. some (x, second.1))
              (changes-hot out_map next_map (sorted_paths out_map next_map)
                (λ k hot. same k ∙ merged-next k old_map next_map (complete k) hot))),
      )
