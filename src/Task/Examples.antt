-- ===== src/Task/Examples.antt =====
-- The theorems on tasks at concrete inputs.
use gogolook_task_api.Prelude.{
  true, false, ◌↔◌, ◌*◌, ◌≤◌, length, ℕ, zero, suc, ◌+◌, ◌-◌, Option, none, some, List, [], ◌∷◌,
  ◌≡◌, refl, arith,
}
use gogolook_task_api.Prelude.Int.{pos}
use gogolook_task_api.Apperr.{field_error}
use gogolook_task_api.Task.{
  is_zero, byte_length, cursor_of, Task, ok, err, validate_name, incomplete, completed, Store, load,
  zero_cursor, CreateInput, UpdateInput,
}
use gogolook_task_api.Task.Validation.{is_blank, validate_name_iff}
use gogolook_task_api.Task.Spec.{Implements}
use gogolook_task_api.Task.Refinement.{memory, memory-Implements}
use gogolook_task_api.Task.Pages.{walk, all_of}
use gogolook_task_api.Task.Walk.{walk_complete}
use gogolook_task_api.Task.Token.{
  Codec, CodecLaws, decode_cursor, encode_cursor, decode_cursor-encode_cursor,
}
use gogolook_task_api.Task.Listing.{ListInput}

abbrev hi : List ℕ
hi = 104 ∷ 105 ∷ []

-- A face of four bytes, so many times.
abbrev faces : ℕ → List ℕ
faces zero = []
faces (suc n) = 0x1f600 ∷ faces n

abbrev same_rank : ℕ → ℕ
same_rank i = i

abbrev task_at : (id at : ℕ) → Task
task_at id at = record {
  id = id;
  name = hi;
  status = incomplete;
  created_at = at;
  updated_at = at;
  version = pos 4;
}

-- Two tasks of the same instant, which their ids order, and a newer one.
abbrev three : Store
three = (7, task_at 7 100) ∷ (9, task_at 9 100) ∷ (8, task_at 8 200) ∷ []

abbrev held : Store → ℕ → Option Task
held s i = load i s

abbrev asked : UpdateInput
asked = record { id = 9; name = hi; status = completed; expected_version = pos 4 }

abbrev draft : CreateInput
draft = record { name = hi; status = incomplete }

-- Texts of one character: a time and an id are written past the bar, base64 in front of a letter.
abbrev one_time : ℕ → List ℕ
one_time n = (n + 200) ∷ []

abbrev parse_one : List ℕ → Option ℕ
parse_one [] = none
parse_one (r ∷ s) = some (r - 200)

abbrev letter_first : List ℕ → List ℕ
letter_first s = 65 ∷ s

abbrev rest_of : List ℕ → Option (List ℕ)
rest_of [] = none
rest_of (r ∷ s) = some s

abbrev plain_codec : Codec
plain_codec = record {
  encode_base64 = letter_first;
  decode_base64 = rest_of;
  format_time = one_time;
  parse_time = parse_one;
  id_text = one_time;
  parse_id = parse_one;
}

plain_laws : CodecLaws plain_codec
plain_laws = record {
  base64_round = λ s. refl;
  base64_nonempty = λ s h. refl;
  time_round = λ n h. ground arith;
  time_without_bar = λ n. (ground arith, tt);
  id_round = λ i. ground arith;
}

abbrev page_two : ListInput
page_two = record { status = none; page_size = pos 2; page_token = [] }

validate_name_iff_example :
    ((validate_name (faces 65) ≡ ok tt)
      ↔ ((is_blank (faces 65) ≡ false) × (byte_length (faces 65) ≤ 255)))
    × ((validate_name (faces 65) ≡ err (field_error "name" "must not be empty"))
        ↔ (is_blank (faces 65) ≡ true))
    × (length (faces 65) ≤ byte_length (faces 65))
    × (byte_length (faces 65) ≤ 4 * length (faces 65))
validate_name_iff_example = validate_name_iff (faces 65)

memory-Implements_example : Implements (memory same_rank) (λ s i. load i s)
memory-Implements_example = memory-Implements same_rank

walk_complete_example :
    walk same_rank 3 (record { status = none; limit = 2; cursor = zero_cursor }) three
    ≡ all_of same_rank none three
unfolding is_zero cursor_of
walk_complete_example =
    walk_complete same_rank none 1 three 3 (λ i j h. h) (ground arith) (ground arith) (omega arith)

decode_cursor-encode_cursor_example :
    decode_cursor plain_codec (encode_cursor plain_codec (record { created_at = 100; id = 7 }))
    ≡ ok (record { created_at = 100; id = 7 })
decode_cursor-encode_cursor_example =
    decode_cursor-encode_cursor plain_codec plain_laws (record { created_at = 100; id = 7 })
      (omega arith)
