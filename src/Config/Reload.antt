-- ===== src/Config/Reload.antt =====
-- internal/config/reload.go over flattened configurations. What koanf does, to flatten a
-- configuration and to read one back, and how a value renders, are parameters.
use gogolook_task_api.Prelude.{
  ℕ, Bool, true, false, ◌&&◌, ◌||◌, Option, none, some, List, [], ◌∷◌, ◌++◌, ltb, ◌==◌,
  if◌then◌else◌, codes,
}
use gogolook_task_api.Prelude.Bytes.{bytes_eq, find_key, put_key}
use gogolook_task_api.Prelude.Sort.{sort}
use gogolook_task_api.Config.Checks.{is_one_of}

-- The paths of a configuration with their values.
abbrev pub Flat : Type 0 → Type 0
Flat V = List (List ℕ × V)

pub record Koanf (C V : Type 0) : Type 0 where
  pub flatten : C → Option (Flat V)
  pub unmarshal : Flat V → Option C
  pub text_of : V → List ℕ

pub record Change : Type 0 where
  pub field : List ℕ
  pub before : List ℕ
  pub after : List ℕ
  pub hot : Bool

unfoldable pub hot_prefixes : List (List ℕ)
unfolding codes
hot_prefixes =
    codes "logging.level"
    ∷ codes "queue.workers"
    ∷ codes "queue.claim_batch"
    ∷ codes "queue.poll_interval"
    ∷ codes "queue.reaper_interval"
    ∷ codes "queue.fetch_cooldown"
    ∷ codes "queue.job_timeout"
    ∷ codes "queue.max_attempts"
    ∷ codes "queue.backoff"
    ∷ codes "queue.retention"
    ∷ codes "ratelimit"
    ∷ codes "breaker"
    ∷ codes "webhook.timeout"
    ∷ codes "webhook.retry"
    ∷ codes "auth.mode"
    ∷ codes "auth.clients"
    ∷ []

-- `strings.HasPrefix`.
unfoldable pub has_prefix : List ℕ → List ℕ → Bool
has_prefix s [] = true
has_prefix [] (p ∷ prefix) = false
has_prefix (c ∷ s) (p ∷ prefix) = c == p && has_prefix s prefix

unfoldable pub is_under : List ℕ → List (List ℕ) → Bool
unfolding bytes_eq has_prefix
is_under path [] = false
is_under path (p ∷ ps) =
    if bytes_eq path p || has_prefix path (p ++ 0x2e ∷ []) then true else is_under path ps

-- `IsHot`.
unfoldable pub is_hot : List ℕ → Bool
unfolding is_under hot_prefixes
is_hot path = is_under path hot_prefixes

-- The order of `sort.Strings`.
unfoldable pub text_ltb : List ℕ → List ℕ → Bool
text_ltb s [] = false
text_ltb [] (d ∷ t) = true
text_ltb (c ∷ s) (d ∷ t) = if c == d then text_ltb s t else ltb c d

unfoldable pub without_repeats : List (List ℕ) → List (List ℕ)
unfolding is_one_of
without_repeats [] = []
without_repeats (k ∷ ks) =
    let rest = without_repeats ks in if is_one_of k ks then rest else k ∷ rest

abbrev pub paths_of {ℓ} : {V : Type ℓ} → List (List ℕ × V) → List (List ℕ)
paths_of [] = []
paths_of ((k, v) ∷ m) = k ∷ paths_of m

-- Two calls of `flatten`, either of which may fail.
abbrev pub with_both {ℓ} : {F D : Type ℓ} → Option F → Option F → (F → F → Option D) → Option D
with_both none next then_do = none
with_both (some old) none then_do = none
with_both (some old) (some next) then_do = then_do old next

-- The paths of either, in order.
unfoldable pub sorted_paths {ℓ} :
    {V : Type ℓ} → List (List ℕ × V) → List (List ℕ × V) → List (List ℕ)
unfolding without_repeats text_ltb sort
sorted_paths old next = sort text_ltb (without_repeats (paths_of old ++ paths_of next))

module _ {C V : Type 0} (koanf : Koanf C V) where
  -- `render`.
  unfoldable pub render : Option V → List ℕ
  unfolding codes
  render none = codes "<unset>"
  render (some v) = koanf.text_of v

  -- The loop of `Diff` over the sorted paths: the hot changes and the others.
  unfoldable pub changes : Flat V → Flat V → List (List ℕ) → List Change × List Change
  unfolding render
  changes old next [] = ([], [])
  changes old next (k ∷ ks) =
      let before = render (find_key k old) in
      let after = render (find_key k next) in
      let (hot, restart_only) = changes old next ks in
      let change : Change = record { field = k; before = before; after = after; hot = is_hot k } in
      if bytes_eq before after
      then (hot, restart_only)
      else if is_hot k
      then (change ∷ hot, restart_only)
      else (hot, change ∷ restart_only)

  unfoldable pub diff_flat : Flat V → Flat V → List Change × List Change
  unfolding changes sorted_paths
  diff_flat old next = changes old next (sorted_paths old next)

  -- `Diff`; none is an error of koanf.
  unfoldable pub diff : C → C → Option (List Change × List Change)
  unfolding diff_flat
  diff old next =
      with_both (koanf.flatten old) (koanf.flatten next)
        (λ old_map next_map. some (diff_flat old_map next_map))

  -- The paths of the old one, and those of the next one that are hot put over them.
  unfoldable pub merge_hot : Flat V → Flat V → Flat V
  merge_hot old [] = old
  merge_hot old ((k, v) ∷ next) =
      let merged = merge_hot old next in if is_hot k then put_key k v merged else merged

  -- `ApplyHot`.
  unfoldable pub apply_hot : C → C → Option C
  unfolding merge_hot
  apply_hot old next =
      with_both (koanf.flatten old) (koanf.flatten next)
        (λ old_map next_map. koanf.unmarshal (merge_hot old_map next_map))
