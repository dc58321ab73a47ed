-- ===== src/Apperr/Classify.antt =====
-- What an error's wrapping and its causes do to its classification and to what a client is told.
use gogolook_task_api.Prelude.{
  ℕ, String, List, [], ◌∷◌, Bool, false, none, some, ◌≡◌, refl, ◌∙◌, Option-cases, inl, inr, arith,
}
use gogolook_task_api.Apperr.Error.{
  Err, plain, context_canceled, deadline_exceeded, terminal_sentinel, snooze_error, app, app_cause,
  wrapped, joined, as_classified, is_sentinel, equals_canceled, equals_deadline, standard_kind,
  kind_of, field_of, message, retryable,
}

-- `fmt.Errorf("context: %w", …)` applied once for each context, the last context outermost.
abbrev pub wraps : List String → Err → Err
wraps [] e = e
wraps (s ∷ ss) e = wraps ss (wrapped s e)

as_classified-wraps : (ss : List String) (e : Err) → as_classified (wraps ss e) ≡ as_classified e
unfolding as_classified
as_classified-wraps [] e = refl
as_classified-wraps (s ∷ ss) e = as_classified-wraps ss (wrapped s e)

standard_kind-wraps : (ss : List String) (e : Err) → standard_kind (wraps ss e) ≡ standard_kind e
unfolding standard_kind
standard_kind-wraps [] e = refl
standard_kind-wraps (s ∷ ss) e = standard_kind-wraps ss (wrapped s e)

kind_of-wraps : (ss : List String) (e : Err) → kind_of (some (wraps ss e)) ≡ kind_of (some e)
unfolding kind_of
kind_of-wraps ss e = rw (as_classified-wraps ss e, standard_kind-wraps ss e)

-- Wrapping an error in any number of contexts with `%w` changes neither its kind, nor the field
-- that it names, nor what a client is told, nor whether it is retried.
pub wraps-classification :
    (ss : List String) (e : Err)
    → (kind_of (some (wraps ss e)) ≡ kind_of (some e))
      × (field_of (some (wraps ss e)) ≡ field_of (some e))
      × (message (some (wraps ss e)) ≡ message (some e))
      × (retryable (some (wraps ss e)) ≡ retryable (some e))
unfolding field_of message retryable
wraps-classification ss e = (
  kind_of-wraps ss e,
  rw (as_classified-wraps ss e),
  rw (kind_of-wraps ss e, as_classified-wraps ss e),
  rw (kind_of-wraps ss e),
)

-- An error with all that is internal taken out: causes, contexts and the texts of other packages.
abbrev pub redact : Err → Err
redact (plain s) = plain ""
redact (snooze_error d r) = snooze_error 0 ""
redact (app c) = app c
redact (app_cause c e) = app c
redact (wrapped s e) = redact e
redact (joined a b) = joined (redact a) (redact b)
redact context_canceled = context_canceled
redact deadline_exceeded = deadline_exceeded
redact terminal_sentinel = terminal_sentinel

as_classified-redact : (e : Err) → as_classified (redact e) ≡ as_classified e
unfolding as_classified
as_classified-redact (wrapped s e) = as_classified-redact e
as_classified-redact (joined a b) = rw (as_classified-redact a, as_classified-redact b)
as_classified-redact (plain s) = refl
as_classified-redact (snooze_error d r) = refl
as_classified-redact (app c) = refl
as_classified-redact (app_cause c e) = refl
as_classified-redact context_canceled = refl
as_classified-redact deadline_exceeded = refl
as_classified-redact terminal_sentinel = refl

module _ (p : Err → Bool) (not_wrapped : (s : String) (e : Err) → p (wrapped s e) ≡ false)
    (not_joined : (a b : Err) → p (joined a b) ≡ false)
    (not_plain : (s : String) → p (plain s) ≡ false)
    (not_snooze : (d : ℕ) (r : String) → p (snooze_error d r) ≡ false) where
  -- Without a classified error in the chain a sentinel is found in the redacted one alike.
  is_sentinel-redact :
      (e : Err) → as_classified e ≡ none → is_sentinel p (redact e) ≡ is_sentinel p e
  unfolding is_sentinel as_classified
  is_sentinel-redact (plain s) h = not_plain "" ∙ rw (not_plain s)
  is_sentinel-redact (snooze_error d r) h = not_snooze 0 "" ∙ rw (not_snooze d r)
  is_sentinel-redact (app c) h = cc
  is_sentinel-redact (app_cause c e) h = cc
  is_sentinel-redact (wrapped s e) h = rw (not_wrapped s e) (is_sentinel-redact e h)
  is_sentinel-redact (joined a b) h = ground (
    arith,
    not_joined a b,
    not_joined (redact a) (redact b),
    is_sentinel-redact a,
    is_sentinel-redact b,
  )
  is_sentinel-redact context_canceled h = refl
  is_sentinel-redact deadline_exceeded h = refl
  is_sentinel-redact terminal_sentinel h = refl

standard_kind-redact :
    (e : Err) → as_classified e ≡ none → standard_kind (redact e) ≡ standard_kind e
unfolding standard_kind
standard_kind-redact e h = rw (
  is_sentinel-redact equals_canceled (λ s e. refl) (λ a b. refl) (λ s. refl) (λ d r. refl) e h,
  is_sentinel-redact equals_deadline (λ s e. refl) (λ a b. refl) (λ s. refl) (λ d r. refl) e h,
)

pub kind_of-redact : (e : Err) → kind_of (some (redact e)) ≡ kind_of (some e)
unfolding kind_of
kind_of-redact e = elim (Option-cases (as_classified e)) [
  | inl missing ↦ rw (as_classified-redact e, missing) (standard_kind-redact e missing)
  | inr (c, found) ↦ rw (as_classified-redact e, found)
]

-- What a client is told of an error is what it would be told of the redacted error: no cause, no
-- context of a wrapping and no text of an unclassified error has any part in it.
pub message-redact : (e : Err) → message (some (redact e)) ≡ message (some e)
unfolding message
message-redact e = rw (kind_of-redact e, as_classified-redact e)
