-- ===== src/Pb/Decoder/Pointers.antt =====
-- `decode_pointer_field` and `initialize_pointer_field` of pb_decode.c: a field that has its storage
-- on the heap.
use daily_diary.Base.{ℕ, zero, suc, ◌+◌, ◌-◌, ◌/◌, ◌==◌, ◌&&◌, ◌||◌, not, u64, leb, ltb}
use daily_diary.Base.{if◌then◌else◌, Bool, true, false, some}
use daily_diary.Pb.{Field, ltype, htype, ltype_submessage, htype_required, htype_optional}
use daily_diary.Pb.{htype_repeated, htype_oneof, size_max, Res, ok, fail, fault}
use daily_diary.Pb.{invalid_field_type, too_many_array_entries}
use daily_diary.Pb.IStream.{IStream, return_error}
use daily_diary.Pb.Decode.{pb_make_string_substream, pb_close_string_substream}
use daily_diary.Pb.Iter.{Iter, field_at}
use daily_diary.Pb.Scalar.{Memory, load, store}
use daily_diary.Pb.Blobs.{Outcome, and_then, allocate_field}
use daily_diary.Pb.Message.Arrays.{last_packable}
use daily_diary.Pb.Defaults.{Change}
use daily_diary.Pb.Static.{ItemDecoder, item_address, count_up, after_change, close_failed}
use daily_diary.Pb.Decoder.{Result, and_with}
use daily_diary.Pb.Decoder.Release.{is_blob}

-- `defaults` is `pb_message_set_to_defaults(iter->pos->ptr, ·)`.
unfoldable pub initialize_pointer_field : (ℕ → Change) → Field → ℕ → Change
initialize_pointer_field defaults field item mem =
    if is_blob field
    then some (store 8 0 item mem)
    else if ltype field.type == ltype_submessage
    then defaults item (store field.data_size 0 item mem)
    else some mem

-- `allocated_size`, with the guess of how many entries remain. A division by zero is none.
abbrev pub grown : Field → ℕ → IStream → ℕ
grown field allocated sub = u64 (allocated + ((sub.bytes_left - 1) / field.data_size + 1))

-- Behind the loop over a packed array, where `ok` tells whether there is no entry too many.
-- `stream->errmsg` is assigned, whatever it was.
unfoldable pub finish_pointers : IStream → Result Bool → Outcome
unfolding close_failed
finish_pointers s (ok true sub, mem) = (pb_close_string_substream sub s, mem)
finish_pointers s (ok false sub, mem) = (
  close_failed (pb_close_string_substream sub (record s { errmsg = some too_many_array_entries })),
  mem,
)
finish_pointers s (fail sub, mem) = (close_failed (pb_close_string_substream sub s), mem)
finish_pointers s (fault, mem) = (fault, mem)

abbrev pub set_which : Field → ℕ → Memory → Memory
set_which field psize mem =
    if htype field.type == htype_oneof then store 4 field.tag psize mem else mem

-- `item` is `func(stream, iter->pos, ·)`, and `release` is `pb_release_single_field(iter)`.
module _ (pb_realloc : ℕ → ℕ → Memory → ℕ × Memory) (item : ItemDecoder) (defaults : ℕ → Change)
    (release : Change) (field : Field) (pdata psize : ℕ) where
  -- `initialize_pointer_field(pItem, iter)` and the call of `func`.
  unfoldable pub decode_new : ℕ → Memory → IStream → Outcome
  unfolding after_change initialize_pointer_field
  decode_new a mem s =
      after_change (initialize_pointer_field defaults field a mem) mem (λ mem'. item a mem' s)

  -- `if ((size_t)*size + 1 > allocated_size) { … }`.
  unfoldable pub grow : ℕ → Memory → IStream → Result ℕ
  unfolding allocate_field and_with
  grow allocated mem sub =
      if ltb allocated (load 4 psize mem + 1)
      then (if field.data_size == 0
          then (fault, mem)
          else and_with
              (allocate_field pb_realloc pdata field.data_size (grown field allocated sub) mem sub)
              (λ _ mem' t. (ok (grown field allocated sub) t, mem')))
      else (ok allocated sub, mem)

  -- The `while` loop over the substream.
  unfoldable pub pointers_loop : ℕ → ℕ → Memory → IStream → Result Bool
  unfolding grow decode_new
  pointers_loop zero allocated mem sub = (fault, mem)
  pointers_loop (suc rounds) allocated mem sub = elim (ltb 0 sub.bytes_left) [
    | false ↦ (ok true sub, mem)
    | true ↦ and_with (grow allocated mem sub) (λ allocated' mem' sub'.
        and_with (decode_new (item_address field (load 8 pdata mem') (load 4 psize mem')) mem' sub')
          (λ _ mem'' sub''. elim (load 4 psize mem'' == size_max) [
            | true ↦ (ok false sub'', mem'')
            | false ↦ pointers_loop rounds allocated' (count_up psize mem'') sub''
          ]))
  ]

  -- Behind `pb_make_string_substream`, with its result. A packable entry takes a byte at least, so
  -- there is one round more than the substream has bytes.
  unfoldable pub decode_pointers : Res IStream IStream → Memory → Outcome
  unfolding finish_pointers
  decode_pointers (ok sub s) mem =
      finish_pointers s (pointers_loop (suc sub.bytes_left) (load 4 psize mem) mem sub)
  decode_pointers (fail s) mem = (fail s, mem)
  decode_pointers fault mem = (fault, mem)

  -- One more entry of an array.
  unfoldable pub decode_one_pointer : Memory → IStream → Outcome
  unfolding decode_new
  decode_one_pointer mem s =
      if load 4 psize mem == size_max
      then (return_error too_many_array_entries s, mem)
      else let mem' = count_up psize mem in
        and_then (allocate_field pb_realloc pdata field.data_size (load 4 psize mem') mem' s)
          (λ m t. decode_new (item_address field (load 8 pdata m) (load 4 psize m - 1)) m t)

  -- Behind the release of what the pointer held.
  unfoldable pub decode_single_pointer : Memory → IStream → Outcome
  unfolding decode_new
  decode_single_pointer mem s =
      let mem' = set_which field psize mem in
      if is_blob field
      then item pdata mem' s
      else and_then (allocate_field pb_realloc pdata field.data_size 1 mem' s) (λ m t.
        after_change (initialize_pointer_field defaults field (load 8 pdata m) m) m
          (λ m'. item (load 8 pdata m') m' t))

  -- The `switch`.
  unfoldable pub pointer_by_htype : ℕ → Memory → IStream → Outcome
  unfolding decode_single_pointer decode_one_pointer decode_pointers
  pointer_by_htype wire_type mem s =
      if htype field.type == htype_required
        || (htype field.type == htype_optional || htype field.type == htype_oneof)
      then after_change
          (if ltype field.type == ltype_submessage && not (load 8 pdata mem == 0)
            then release mem
            else some mem)
          mem (λ mem'. decode_single_pointer mem' s)
      else if htype field.type == htype_repeated
      then (if wire_type == 2 && leb (ltype field.type) last_packable
          then decode_pointers (pb_make_string_substream s) mem
          else decode_one_pointer mem s)
      else (return_error invalid_field_type s, mem)

unfoldable pub decode_pointer_field :
    (ℕ → ℕ → Memory → ℕ × Memory)
    → (Field → ItemDecoder)
    → (ℕ → ℕ → Change)
    → (Iter → Change)
    → ℕ
    → Iter
    → Memory
    → IStream
    → Outcome
unfolding pointer_by_htype
decode_pointer_field pb_realloc func defaults release wire_type it =
    let field = field_at it.start it.pos in
    pointer_by_htype pb_realloc (func field) (defaults field.ptr) (release it) field it.pdata
      it.psize wire_type
