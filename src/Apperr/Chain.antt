-- ===== src/Apperr/Chain.antt =====
-- `errors.Is` against a classified sentinel, and the classification by `KindOf`.
use gogolook_task_api.Prelude.{Bool, true, ◌||◌, some, ◌≡◌, refl, Option-cases, inl, inr, arith}
use gogolook_task_api.Apperr.Kinds.{internal, not_found}
use gogolook_task_api.Apperr.Error.{
  Classified, Err, plain, context_canceled, deadline_exceeded, terminal_sentinel, snooze_error, app,
  app_cause, wrapped, joined, as_classified, is_sentinel, matches_kind, errors_is_kind, kind_of,
  new, wrap,
}

or-true_left : (a b : Bool) → a ≡ true → (a || b) ≡ true
or-true_left a b h = ground arith

or-true_right : (a b : Bool) → b ≡ true → (a || b) ≡ true
or-true_right a b h = ground arith

is_sentinel-first :
    (e : Err) (c : Classified)
    → as_classified e ≡ some c
    → is_sentinel (matches_kind c.kind) e ≡ true
unfolding is_sentinel as_classified
is_sentinel-first (app d) c h = ground arith
is_sentinel-first (app_cause d e) c h = ground arith
is_sentinel-first (wrapped s e) c h = is_sentinel-first e c h
is_sentinel-first (joined a b) c h = elim (Option-cases (as_classified a)) [
  | inl e ↦
      or-true_right (is_sentinel (matches_kind c.kind) a) _ (is_sentinel-first b c (ground arith))
  | inr (d, e) ↦
      or-true_left (is_sentinel (matches_kind c.kind) a) _ (is_sentinel-first a c (ground arith))
]
is_sentinel-first (plain s) c h = cc
is_sentinel-first context_canceled c h = cc
is_sentinel-first deadline_exceeded c h = cc
is_sentinel-first terminal_sentinel c h = cc
is_sentinel-first (snooze_error d r) c h = cc

-- An error that holds a classified one has the kind of the first of those, and `errors.Is` finds it
-- against every sentinel of that kind.
pub errors_is-kind_of :
    (e : Err) (c : Classified)
    → as_classified e ≡ some c
    → (kind_of (some e) ≡ c.kind) × (errors_is_kind (kind_of (some e)) e ≡ true)
unfolding kind_of errors_is_kind
errors_is-kind_of e c h = rw h (refl, is_sentinel-first e c h)

-- The converse fails: a reclassified error still matches the sentinel of its cause's kind.
reclassified :
    let e = wrap internal (new not_found "task not found") "storage" in
    (errors_is_kind not_found e ≡ true) × (kind_of (some e) ≡ internal)
unfolding kind_of errors_is_kind as_classified wrap new
reclassified = (refl, refl)
