-- ===== src/Task/Validation.antt =====
-- The name rule of internal/task/task.go.
use mathlib.Core.List.{reverse, reverse-cons}
use gogolook_task_api.Prelude.{
  ℕ, ◌*◌, ◌≤◌, Bool, true, false, ◌&&◌, some, str_eq, str_eq_iff, ap, List, [], ◌∷◌, ◌++◌, length,
  ◌≡◌, ◌≢◌, ◌↔◌, refl, ◌∙◌, arith,
}
use gogolook_task_api.Apperr.{field_error, message, kind_of, as_classified}
use gogolook_task_api.Task.Model.{
  ok, err, is_space, trim_left, trim_space, is_empty, byte_length, validate_name,
}

-- A text of nothing but white space.
abbrev pub is_blank : List ℕ → Bool
is_blank [] = true
is_blank (r ∷ s) = is_space r && is_blank s

is_blank-append : (s t : List ℕ) → is_blank (s ++ t) ≡ (is_blank s && is_blank t)
is_blank-append [] t = refl
is_blank-append (r ∷ s) t = ground (arith, is_blank-append s t)

is_blank-reverse : (s : List ℕ) → is_blank (reverse s) ≡ is_blank s
is_blank-reverse [] = refl
is_blank-reverse (r ∷ s) =
    rw (reverse-cons r s) (ground (arith, is_blank-append (reverse s) (r ∷ []), is_blank-reverse s))

is_blank-trim_left : (s : List ℕ) → is_blank (trim_left s) ≡ is_blank s
unfolding trim_left
is_blank-trim_left [] = refl
is_blank-trim_left (r ∷ s) = ground (arith, is_blank-trim_left s)

is_empty-trim_left : (s : List ℕ) → is_empty (trim_left s) ≡ is_blank s
unfolding trim_left
is_empty-trim_left [] = refl
is_empty-trim_left (r ∷ s) = ground (arith, is_empty-trim_left s)

is_empty-append_one : (s : List ℕ) (r : ℕ) → is_empty (s ++ r ∷ []) ≡ false
is_empty-append_one [] r = refl
is_empty-append_one (q ∷ s) r = refl

is_empty-reverse : (s : List ℕ) → is_empty (reverse s) ≡ is_empty s
is_empty-reverse [] = refl
is_empty-reverse (r ∷ s) = rw (reverse-cons r s) (is_empty-append_one (reverse s) r)

is_empty-trim_space : (s : List ℕ) → is_empty (trim_space s) ≡ is_blank s
unfolding trim_space
is_empty-trim_space s =
    is_empty-reverse (trim_left (reverse (trim_left s)))
    ∙ is_empty-trim_left (reverse (trim_left s))
    ∙ is_blank-reverse (trim_left s)
    ∙ is_blank-trim_left s

length-byte_length : (s : List ℕ) → (length s ≤ byte_length s) × (byte_length s ≤ 4 * length s)
length-byte_length [] = omega arith
length-byte_length (r ∷ s) = ground (arith, length-byte_length s)

long-empty :
    field_error "name" "must be at most 255 characters" ≢ field_error "name" "must not be empty"
unfolding message field_error kind_of as_classified
long-empty same =
    let told : str_eq "name: must be at most 255 characters" "name: must not be empty" ≡ true =
      (str_eq_iff _ _).1 (ap (λ e. message (some e)) same) in
    ground arith

-- A name is accepted exactly when some character of it is no white space and it has at most 255
-- bytes in UTF-8, and is refused as empty exactly when all of it is white space. It has at least as
-- many bytes as characters, and at most four times as many.
pub validate_name_iff :
    (s : List ℕ)
    → ((validate_name s ≡ ok tt) ↔ ((is_blank s ≡ false) × (byte_length s ≤ 255)))
      × ((validate_name s ≡ err (field_error "name" "must not be empty")) ↔ (is_blank s ≡ true))
      × (length s ≤ byte_length s)
      × (byte_length s ≤ 4 * length s)
unfolding validate_name
validate_name_iff s =
    rw (is_empty-trim_space s)
      (ground arith, ground (arith, long-empty), (length-byte_length s).0, (length-byte_length s).1)
