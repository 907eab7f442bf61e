-- ===== src/Pb/Static.antt =====
-- `decode_static_field` of pb_decode.c: a field that has its storage in the message.
pub mod Bounds
pub mod Rounds
use daily_diary.Base.{
  ℕ, zero, suc, ◌+◌, ◌*◌, u32, u64, leb, ltb, ◌==◌, ◌&&◌, if◌then◌else◌, true, false,
}
use daily_diary.Pb.{
  Field, ltype, htype, htype_required, htype_optional, htype_repeated, htype_oneof,
}
use daily_diary.Pb.{ltype_submessage, Res, ok, fail, fault, array_overflow, invalid_field_type}
use daily_diary.Pb.IStream.{IStream, return_error}
use daily_diary.Pb.Decode.{pb_make_string_substream, pb_close_string_substream}
use daily_diary.Pb.Iter.{Iter, field_at}
use daily_diary.Pb.Scalar.{Memory, load, store}
use daily_diary.Pb.Blobs.{Outcome, and_then}
use daily_diary.Pb.Defaults.{Change}
use daily_diary.Base.{Option, none, some}
use daily_diary.Pb.Message.Arrays.{last_packable}

-- `func(stream, iter->pos, ·)`, from an address.
abbrev pub ItemDecoder : Type 0
ItemDecoder = ℕ → Memory → IStream → Outcome

-- `pItem` of the entry `i`; the product is one of 32 bits.
abbrev pub item_address : Field → ℕ → ℕ → ℕ
item_address field pdata i = u64 (pdata + u32 (field.data_size * i))

-- `(*size)++`.
abbrev pub count_up : ℕ → Memory → Memory
count_up psize mem = store 4 (u32 (load 4 psize mem + 1)) psize mem

-- The `while` loop over the substream; `fail` is the end with a status of false.
unfoldable pub packed_loop : ℕ → ItemDecoder → Field → ℕ → ℕ → Memory → IStream → Outcome
packed_loop zero item field pdata psize mem sub = (fault, mem)
packed_loop (suc rounds) item field pdata psize mem sub =
    elim (ltb 0 sub.bytes_left && ltb (load 4 psize mem) field.array_size) [
      | false ↦ (ok tt sub, mem)
      | true ↦
          and_then (item (item_address field pdata (load 4 psize mem)) mem sub)
            (λ mem' sub'. packed_loop rounds item field pdata psize (count_up psize mem') sub')
    ]

-- Behind `pb_close_string_substream`, with its result, where `status` is false.
unfoldable pub close_failed : Res IStream (Unit {0}) → Res IStream (Unit {0})
close_failed (ok _ s) = fail s
close_failed (fail s) = fail s
close_failed fault = fault

-- Behind the loop.
unfoldable pub finish_packed : IStream → Outcome → Outcome
unfolding close_failed
finish_packed s (ok _ sub, mem) =
    if sub.bytes_left == 0
    then (pb_close_string_substream sub s, mem)
    else (return_error array_overflow s, mem)
finish_packed s (fail sub, mem) =
    if sub.bytes_left == 0
    then (close_failed (pb_close_string_substream sub s), mem)
    else (return_error array_overflow s, mem)
finish_packed s (fault, mem) = (fault, mem)

-- Behind `pb_make_string_substream`, with its result. Each round counts an entry and takes a byte at
-- least, so there is one round more than the array has entries and the substream bytes.
unfoldable pub decode_packed : Res IStream IStream → ItemDecoder → Field → ℕ → ℕ → Memory → Outcome
unfolding finish_packed
decode_packed (ok sub s) item field pdata psize mem =
    finish_packed s
      (packed_loop (suc (field.array_size + sub.bytes_left)) item field pdata psize mem sub)
decode_packed (fail s) item field pdata psize mem = (fail s, mem)
decode_packed fault item field pdata psize mem = (fault, mem)

-- The `else` branch of a repeated field.
unfoldable pub decode_entry : ItemDecoder → Field → ℕ → ℕ → Memory → IStream → Outcome
decode_entry item field pdata psize mem s =
    if leb field.array_size (load 4 psize mem)
    then (return_error array_overflow s, count_up psize mem)
    else item (item_address field pdata (load 4 psize mem)) (count_up psize mem) s

-- `defaults` is `pb_message_set_to_defaults(iter->pos->ptr, ·)`.
unfoldable pub enter_oneof : (ℕ → Change) → Field → ℕ → ℕ → Change
enter_oneof defaults field pdata psize mem =
    if ltype field.type == ltype_submessage
    then defaults pdata (store field.data_size 0 pdata (store 4 field.tag psize mem))
    else some (store 4 field.tag psize mem)

-- What follows a call that changes the memory.
unfoldable pub after_change : Option Memory → Memory → (Memory → Outcome) → Outcome
after_change none mem k = (fault, mem)
after_change (some mem') mem k = k mem'

abbrev pub set_present : ℕ → ℕ → Memory → Memory
set_present pdata psize mem = if psize == pdata then mem else store 1 1 psize mem

-- The `switch`. `wire_type` is 2 for PB_WT_STRING.
unfoldable pub decode_by_htype :
    ItemDecoder → (ℕ → Change) → ℕ → Field → ℕ → ℕ → Memory → IStream → Outcome
unfolding decode_packed decode_entry enter_oneof after_change
decode_by_htype item defaults wire_type field pdata psize mem s =
    if htype field.type == htype_required
    then item pdata mem s
    else if htype field.type == htype_optional
    then item pdata (set_present pdata psize mem) s
    else if htype field.type == htype_repeated
    then (if wire_type == 2 && leb (ltype field.type) last_packable
        then decode_packed (pb_make_string_substream s) item field pdata psize mem
        else decode_entry item field pdata psize mem s)
    else if htype field.type == htype_oneof
    then after_change (enter_oneof defaults field pdata psize mem) mem (λ mem'. item pdata mem' s)
    else (return_error invalid_field_type s, mem)

unfoldable pub decode_static_field :
    (Field → ItemDecoder) → (ℕ → ℕ → Change) → ℕ → Iter → Memory → IStream → Outcome
unfolding decode_by_htype
decode_static_field func defaults wire_type it mem s =
    let field = field_at it.start it.pos in
    decode_by_htype (func field) (defaults field.ptr) wire_type field it.pdata it.psize mem s
