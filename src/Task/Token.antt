-- ===== src/Task/Token.antt =====
-- The page token of internal/task/repository.go. A text is its list of code points. The texts of
-- base64, of times in RFC 3339 and of UUIDs are other packages', given as a parameter.
use gogolook_task_api.Prelude.{
  ℕ, ◌≤◌, true, false, Option, none, some, List, [], ◌∷◌, ◌++◌, ◌==◌, if◌then◌else◌, ◌≡◌, All, refl,
  ap, Bool-cases, inl, inr, arith,
}
use gogolook_task_api.Apperr.{Err, field_error}
use gogolook_task_api.Task.Model.{Result, ok, err, is_empty}
use gogolook_task_api.Task.Paging.{Cursor, is_zero, zero_cursor}

pub record Codec : Type 0 where
  -- `base64.RawURLEncoding`
  pub encode_base64 : List ℕ → List ℕ
  pub decode_base64 : List ℕ → Option (List ℕ)
  -- `Time.Format` and `time.Parse` at `time.RFC3339Nano`
  pub format_time : ℕ → List ℕ
  pub parse_time : List ℕ → Option ℕ
  -- `UUID.String` and `uuid.Parse`
  pub id_text : ℕ → List ℕ
  pub parse_id : List ℕ → Option ℕ

abbrev pub bar : ℕ
bar = 0x7c

-- `strings.Cut` at "|".
unfoldable pub cut_bar : List ℕ → Option (List ℕ × List ℕ)
cut_bar [] = none
cut_bar (r ∷ s) =
    let rest = cut_bar s in
    if r == bar
    then some ([], s)
    else elim rest [ none ↦ none | some (before, after) ↦ some (r ∷ before, after) ]

abbrev pub bad_token : Err
bad_token = field_error "page_token" "is not a valid page token"

module _ (codec : Codec) where
  -- `Cursor.Encode`.
  unfoldable pub encode_cursor : Cursor → List ℕ
  encode_cursor c =
      if is_zero c
      then []
      else codec.encode_base64 (codec.format_time c.created_at ++ bar ∷ codec.id_text c.id)

  unfoldable pub cursor_from : Option ℕ → Option ℕ → Result Cursor
  cursor_from none id = err bad_token
  cursor_from (some at) none = err bad_token
  cursor_from (some at) (some id) = ok (record { created_at = at; id = id })

  unfoldable pub decode_parts : Option (List ℕ × List ℕ) → Result Cursor
  unfolding cursor_from
  decode_parts none = err bad_token
  decode_parts (some (at, id)) = cursor_from (codec.parse_time at) (codec.parse_id id)

  unfoldable pub decode_raw : Option (List ℕ) → Result Cursor
  unfolding cut_bar decode_parts
  decode_raw none = err bad_token
  decode_raw (some raw) = decode_parts (cut_bar raw)

  -- `DecodeCursor`.
  unfoldable pub decode_cursor : List ℕ → Result Cursor
  unfolding decode_raw
  decode_cursor token =
      if is_empty token then ok zero_cursor else decode_raw (codec.decode_base64 token)

-- The last instant that RFC 3339 can write, in the year 9999.
abbrev pub last_instant : ℕ
last_instant = 315537897599999999999

-- What the packages document: each text is read back, and no time is written with a bar.
pub record CodecLaws (codec : Codec) : Type 0 where
  pub base64_round : (s : List ℕ) → codec.decode_base64 (codec.encode_base64 s) ≡ some s
  pub base64_nonempty : (s : List ℕ) → is_empty s ≡ false → is_empty (codec.encode_base64 s) ≡ false
  pub time_round : (n : ℕ) → n ≤ last_instant → codec.parse_time (codec.format_time n) ≡ some n
  pub time_without_bar : (n : ℕ) → All (λ r. (r == bar) ≡ false) (codec.format_time n)
  pub id_round : (i : ℕ) → codec.parse_id (codec.id_text i) ≡ some i

cut_bar-append :
    (s t : List ℕ) → All (λ r. (r == bar) ≡ false) s → cut_bar (s ++ bar ∷ t) ≡ some (s, t)
unfolding cut_bar
cut_bar-append [] t a = refl
cut_bar-append (r ∷ s) t a = rw (a.0, cut_bar-append s t a.1) refl

is_empty-append_cons : (s t : List ℕ) (r : ℕ) → is_empty (s ++ r ∷ t) ≡ false
is_empty-append_cons [] t r = refl
is_empty-append_cons (q ∷ s) t r = refl

is_zero-equal : (c : Cursor) → is_zero c ≡ true → zero_cursor ≡ c
unfolding is_zero
is_zero-equal c z = ground arith

-- The token of a cursor decodes to the cursor it was made from, the start of the sequence included:
-- for every cursor but a zero id at the zero time the text goes through base64, and the time and
-- the id are found in it again, for times up to the year 9999.
pub decode_cursor-encode_cursor :
    (codec : Codec) (laws : CodecLaws codec) (c : Cursor)
    → c.created_at ≤ last_instant
    → decode_cursor codec (encode_cursor codec c) ≡ ok c
unfolding decode_cursor encode_cursor decode_raw decode_parts cursor_from
decode_cursor-encode_cursor codec laws c h = elim (Bool-cases (is_zero c)) [
  | inl z ↦ rw z (ap ok (is_zero-equal c z))
  | inr z ↦
      rw
        (
          z,
          laws.base64_nonempty (codec.format_time c.created_at ++ bar ∷ codec.id_text c.id)
              (is_empty-append_cons (codec.format_time c.created_at) (codec.id_text c.id) bar),
          laws.base64_round (codec.format_time c.created_at ++ bar ∷ codec.id_text c.id),
          cut_bar-append (codec.format_time c.created_at) (codec.id_text c.id)
              (laws.time_without_bar c.created_at),
          laws.time_round c.created_at h,
          laws.id_round c.id,
        )
        refl
]
