-- ===== src/Apperr/Examples.antt =====
-- The theorems on errors at a stored-procedure failure wrapped twice, and tests of the definitions.
use gogolook_task_api.Prelude.{String, List, [], ◌∷◌, true, false, some, ◌≡◌, refl}
use gogolook_task_api.Apperr.Kinds.{Kind, internal, not_found, invalid, timeout, undefined, string}
use gogolook_task_api.Apperr.Error.{
  Classified, Err, plain, deadline_exceeded, app_cause, wrapped, as_classified, standard_kind,
  kind_of, is_kind, field_of, message, retryable, field_error,
}
use gogolook_task_api.Apperr.Kinds
use gogolook_task_api.Apperr.Classify.{wraps}

abbrev missing_task : Classified
missing_task = record { kind = not_found; field = ""; msg = "task not found" }

abbrev leaky : Err
leaky = app_cause missing_task (plain "dial tcp 10.0.0.3:5432")

abbrev contexts : List String
contexts = "get task 7" ∷ "handler" ∷ []

abbrev tests_open : Kind → Kind
unfolding kind_of standard_kind as_classified message field_of retryable Kinds.kind_retryable string
    Kinds.kind_message field_error is_kind
tests_open k = k

told : message (some (wraps contexts leaky)) ≡ "task not found"
unfolding tests_open
told = refl

told_of_field : message (some (field_error "name" "must not be empty")) ≡ "name: must not be empty"
unfolding tests_open
told_of_field = refl

unclassified : message (some (plain "password=hunter2")) ≡ "internal error"
unfolding tests_open
unclassified = refl

slow :
    (kind_of (some (wrapped "query" deadline_exceeded)) ≡ timeout)
    × (retryable (some (wrapped "query" deadline_exceeded)) ≡ true)
    × (retryable (some leaky) ≡ false)
    × (is_kind (some leaky) not_found ≡ true)
    × (string (undefined 3) ≡ "internal")
    × (field_of (some leaky) ≡ "")
unfolding tests_open
slow = (refl, refl, refl, refl, refl, refl)
