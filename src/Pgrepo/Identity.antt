-- ===== src/Pgrepo/Identity.antt =====
-- Event.ID of internal/task/pgrepo/event.go tells events apart, by what the outbox dedupes them.
use gogolook_task_api.Prelude.{ℕ, ◌∷◌, ◌++◌, ◌≡◌, ap, ◌∙◌, sym, All}
use gogolook_task_api.Prelude.Int.{ℤ, pos}
use gogolook_task_api.Prelude.Decimal.{
  IsNoColon, read_int, read_int-decimal, read_int-minus, append_colon-injective,
}
use gogolook_task_api.Pgrepo.Events.{Event, EventCodec, itoa, event_id, separator}

read_int-itoa : (v : ℤ) → read_int (itoa v) ≡ v
unfolding itoa
read_int-itoa (pos n) = read_int-decimal n
read_int-itoa (ℤ.negsuc n) = read_int-minus n

itoa-injective : (v w : ℤ) → itoa v ≡ itoa w → v ≡ w
itoa-injective v w e = sym (read_int-itoa v) ∙ ap read_int e ∙ read_int-itoa w

-- Where the texts of UUIDs have no colon and tell UUIDs apart, two events whose names have no colon
-- have the same id only if they have the same name, task and version.
pub event_id-injective :
    (codec : EventCodec)
    → ((i : ℕ) → All IsNoColon (codec.id_text i))
    → ((i j : ℕ) → codec.id_text i ≡ codec.id_text j → i ≡ j)
    → (d e : Event) → All IsNoColon d.event
    → All IsNoColon e.event
    → event_id codec d ≡ event_id codec e
    → (d.event ≡ e.event) × (d.task_id ≡ e.task_id) × (d.version ≡ e.version)
unfolding event_id
event_id-injective codec plain tells d e hd he h =
    let one =
      append_colon-injective d.event e.event (codec.id_text d.task_id ++ separator ∷ itoa d.version)
        (codec.id_text e.task_id ++ separator ∷ itoa e.version) hd he h in
    let two =
      append_colon-injective (codec.id_text d.task_id) (codec.id_text e.task_id) (itoa d.version)
        (itoa e.version) (plain d.task_id) (plain e.task_id) one.1 in
    (one.0, tells d.task_id e.task_id two.0, itoa-injective d.version e.version two.1)
