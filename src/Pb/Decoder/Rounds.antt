-- ===== src/Pb/Decoder/Rounds.antt =====
-- The loop of `pb_decode_noinit` of pb_decode.c over the fields in a stream, and what is tested
-- behind it.
pub mod Reads
use daily_diary.Base.{ℕ, zero, suc, ◌-◌, ◌^◌, ◌==◌, ◌&&◌, ◌||◌, not, leb, ltb, if◌then◌else◌}
use daily_diary.Base.{Bool, true, false, List, [], ◌∷◌, length, Option, none, some}
use daily_diary.Pb.{Field, htype, htype_repeated, Res, ok, fail, fault}
use daily_diary.Pb.{wrong_size_for_fixed_count_field, missing_required_field}
use daily_diary.Pb.IStream.{IStream, return_error}
use daily_diary.Pb.Decode.{Tag, pb_decode_tag, pb_skip_field}
use daily_diary.Pb.Iter.{Iter, field_at, pb_field_iter_begin, pb_field_iter_find}
use daily_diary.Pb.Scalar.{Memory, load, store}
use daily_diary.Pb.Blobs.{Outcome}
use daily_diary.Pb.Decoder.{Result, and_with}
use daily_diary.Pb.Decoder.Fields.{find_extension_field}
use daily_diary.Pb.Decoder.Required.{mark_required, FieldsEnd, seek_end, required_count, all_seen}

-- The local variables of `pb_decode_noinit`, but `fixed_count_size`, which is in memory, since
-- `iter.pSize` may point to it. `fixed_count_field` is an index into the fields, `none` for NULL.
pub record Locals : Type 0 where
  pub it : Iter
  pub fields_seen : List ℕ
  pub extension_range_start : ℕ
  pub fixed_count_field : Option ℕ

abbrev pub first_locals : List Field → ℕ → Locals
first_locals fields dest = record {
  it = (pb_field_iter_begin fields dest).0;
  fields_seen = 0 ∷ 0 ∷ [];
  extension_range_start = 0;
  fixed_count_field = none;
}

-- Whether `fixed_count_field` has not got all of its entries.
unfoldable pub is_wrong_size : ℕ → Iter → Option ℕ → Memory → Bool
is_wrong_size counter it none mem = false
is_wrong_size counter it (some i) mem = not (load 4 counter mem == (field_at it.start i).array_size)

unfoldable pub is_same_field : ℕ → Option ℕ → Bool
is_same_field pos none = false
is_same_field pos (some i) = i == pos

abbrev pub counts_into : ℕ → Locals → Locals
counts_into counter v = record v {
  it = record v.it { psize = counter };
  fixed_count_field = some v.it.pos;
}

-- The branch for an array of a fixed count; `counter` is `&fixed_count_size`.
unfoldable pub enter_fixed_count : ℕ → Locals → Memory → IStream → Result Locals
unfolding is_same_field is_wrong_size
enter_fixed_count counter v mem s =
    if htype (field_at v.it.start v.it.pos).type == htype_repeated && v.it.psize == v.it.pdata
    then (if is_same_field v.it.pos v.fixed_count_field
        then (ok (counts_into counter v) s, mem)
        else if is_wrong_size counter v.it v.fixed_count_field mem
        then (return_error wrong_size_for_fixed_count_field s, mem)
        else (ok (counts_into counter v) s, store 4 0 counter mem))
    else (ok v s, mem)

abbrev pub mark : Locals → Locals
mark v = record v { fields_seen = mark_required v.it v.fields_seen }

-- `decode_field` and `decode_extension`, from a wire type or a tag and a wire type, an iterator, the
-- memory and the stream; `counter` is `&fixed_count_size`.
module _ (decode_field : ℕ → Iter → Memory → IStream → Result Iter)
    (decode_extension : ℕ → ℕ → Iter → Memory → IStream → Outcome) (counter : ℕ) where
  -- The end of a round, for a field of the message.
  unfoldable pub known_field : ℕ → Locals → Memory → IStream → Result Locals
  unfolding enter_fixed_count and_with
  known_field wire_type v mem s = and_with (enter_fixed_count counter v mem s) (λ v' mem' s'.
      and_with (decode_field wire_type v'.it mem' s')
        (λ it mem'' s''. (ok (record (mark v') { it = it }) s'', mem'')))

  -- `if (!pb_skip_field(stream, wire_type)) return false; continue;`.
  unfoldable pub skip_unknown : ℕ → Locals → Memory → IStream → Result Locals
  unfolding and_with
  skip_unknown wire_type v mem s =
      and_with (pb_skip_field wire_type s, mem) (λ _ mem' s'. (ok v s', mem'))

  -- Behind `find_extension_field`, with its result and `tag >= extension_range_start`.
  unfoldable pub try_extension :
      Tag → Locals → Option (Iter × Bool) → Memory → IStream → Result Locals
  unfolding skip_unknown
  try_extension t v none mem s = (fault, mem)
  try_extension t v (some (it, found)) mem s =
      let start = if found then (field_at it.start it.pos).tag else 2 ^ 32 - 1 in
      let v' = record v { it = it; extension_range_start = start } in
      if leb start t.tag
      then and_with (decode_extension t.tag t.wire_type it mem s) (λ _ mem' s'.
        if s.bytes_left == s'.bytes_left
        then skip_unknown t.wire_type v' mem' s'
        else (ok v' s', mem'))
      else skip_unknown t.wire_type v' mem s

  -- Behind `pb_field_iter_find`, with its result.
  unfoldable pub dispatch : Tag → Locals → Option (Iter × Bool) → Memory → IStream → Result Locals
  unfolding known_field try_extension
  dispatch t v none mem s = (fault, mem)
  dispatch t v (some (it, true)) mem s = known_field t.wire_type (record v { it = it }) mem s
  dispatch t v (some (it, false)) mem s =
      let v' = record v { it = it } in
      if leb v.extension_range_start t.tag
      then try_extension t v' (find_extension_field it) mem s
      else skip_unknown t.wire_type v' mem s

  -- Behind `pb_decode_tag`, with its result and `eof`; `again` is the next round.
  unfoldable pub behind_tag :
      Res IStream Tag × Bool
      → Locals
      → Memory
      → (Locals → Memory → IStream → Result Locals)
      → Result Locals
  unfolding dispatch
  behind_tag (ok t s, eof) v mem again =
      and_with (dispatch t v (pb_field_iter_find t.tag v.it) mem s) again
  behind_tag (fail s, true) v mem again = (ok v s, mem)
  behind_tag (fail s, false) v mem again = (fail s, mem)
  behind_tag (fault, eof) v mem again = (fault, mem)

  -- The `while` loop.
  unfoldable pub message_loop : ℕ → Locals → Memory → IStream → Result Locals
  unfolding behind_tag
  message_loop zero v mem s = (fault, mem)
  message_loop (suc rounds) v mem s = elim (ltb 0 s.bytes_left) [
    | true ↦ behind_tag (pb_decode_tag s) v mem (message_loop rounds)
    | false ↦ (ok v s, mem)
  ]

  -- Behind the loop that seeks the end of the fields.
  unfoldable pub check_required : Option FieldsEnd → List ℕ → Memory → IStream → Outcome
  check_required none seen mem s = (fault, mem)
  check_required (some end) seen mem s =
      if all_seen (required_count end) seen
      then (ok tt s, mem)
      else (return_error missing_required_field s, mem)

  -- Behind the `while` loop. No field is met twice on the way to the end.
  unfoldable pub finish_message : Locals → Memory → IStream → Outcome
  unfolding check_required
  finish_message v mem s =
      if is_wrong_size counter v.it v.fixed_count_field mem
      then (return_error wrong_size_for_fixed_count_field s, mem)
      else check_required (seek_end (suc (length v.it.start)) v.it) v.fields_seen mem s

  -- Each round reads a byte of a tag, so there is one round more than the stream has bytes.
  unfoldable pub decode_message : List Field → ℕ → Memory → IStream → Outcome
  unfolding message_loop finish_message
  decode_message fields dest mem s =
      and_with
        (message_loop (suc s.bytes_left) (first_locals fields dest) (store 4 0 counter mem) s)
        finish_message
