-- ===== src/Api/Told.antt =====
-- What internal/api/errors.go tells a client of an error.
use gogolook_task_api.Prelude.{some, ◌≡◌, refl}
use mathlib.Core.Path.{ap₂}
use gogolook_task_api.Apperr.{Err, Kind, kind_of, message, kind_message}
use gogolook_task_api.Apperr.Classify.{redact, message-redact, kind_of-redact}
use gogolook_task_api.Api.Errors.{internal, code_by_kind, code_or, to_connect_error}

-- The code and the message of an error are those of the redacted error: nothing of its cause, of
-- the context round it or of an unclassified text reaches the client.
pub to_connect_error-redact : (e : Err) → to_connect_error (redact e) ≡ to_connect_error e
unfolding to_connect_error
to_connect_error-redact e =
    ap₂ (λ k m. (code_or (code_by_kind k), m)) (kind_of-redact e) (message-redact e)

-- An error of the internal kind, which is what an unclassified one is, has the internal code and
-- the fixed text of the kind.
pub to_connect_error-fixed :
    (e : Err)
    → kind_of (some e) ≡ Kind.internal
    → to_connect_error e ≡ (internal, kind_message Kind.internal)
unfolding to_connect_error message code_by_kind
to_connect_error-fixed e h = rw h refl
