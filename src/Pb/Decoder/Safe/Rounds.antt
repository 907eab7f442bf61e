-- ===== src/Pb/Decoder/Safe/Rounds.antt =====
-- The loop of `pb_decode_noinit` ends, and stays inside of the array.
use native.Mathlib.Decide.{dec_le}
use daily_diary.Base.{ℕ, zero, suc, ◌+◌, ◌-◌, ◌^◌, ◌<◌, ◌≡◌, sym, ap, arith}
use daily_diary.Base.{Bool, true, false, ◌==◌, ◌&&◌, leb, ltb, Option, none, some, List, length}
use daily_diary.Base.{if◌then◌else◌}
use daily_diary.Pb.{Field, htype, htype_repeated, Res, ok, fail, fault}
use daily_diary.Pb.IStream.{IStream}
use daily_diary.Pb.Decode.{Tag}
use daily_diary.Pb.Decode.{pb_skip_field}
use daily_diary.Pb.Decode.Bounds.{IsInBounds, Follows, Follows-IsInBounds, Follows-refl}
use daily_diary.Pb.Decode.Bounds.{Stays}
use daily_diary.Pb.Decode.Loops.{pb_skip_field-Stays}
use daily_diary.Pb.Iter.{Iter, field_at, is_wanted}
use daily_diary.Pb.Iter.Find.{inner_next}
use daily_diary.Pb.Iter.Index.{IsIndexed, next-IsIndexed}
use daily_diary.Pb.Iter.Ends.{EndsOn, find-EndsOn}
use daily_diary.Pb.Scalar.{Memory, store}
use daily_diary.Pb.Blobs.{Outcome}
use daily_diary.Pb.Decoder.{Result}
use daily_diary.Pb.Decoder.Fields.{find_extension_field}
use daily_diary.Pb.Decoder.Fields.Ends.{is_extension, find_extension_field-EndsOn}
use daily_diary.Pb.Decoder.Fields.Index.{Yields}
use daily_diary.Pb.Decoder.Required.{FieldsEnd, seek_end, required_count, all_seen}
use daily_diary.Pb.Decoder.Rounds.{Locals, counts_into, enter_fixed_count, is_same_field}
use daily_diary.Pb.Decoder.Rounds.{
  is_wrong_size, known_field, skip_unknown, try_extension, dispatch,
}
use daily_diary.Pb.Decoder.Rounds.{behind_tag, message_loop, check_required, finish_message}
use daily_diary.Pb.Decoder.Rounds.{decode_message, first_locals}
use daily_diary.Pb.Decoder.Rounds.Reads.{FieldDecoder, ExtensionDecoder}
use daily_diary.Pb.Iter.Index.{next_goes_on, next_ends}
use daily_diary.Pb.Decoder.Safe.{Safe, Ends-error, if-Safe, Follows-Within}
use daily_diary.Pb.Decoder.Safe.Results.{SafeWith, SafeWith-trans, and_with-SafeWith, if-SafeWith}
use daily_diary.Pb.Decoder.Safe.Results.{and_with-SafeBoth}
use daily_diary.Pb.Decoder.Safe.Tags.{TagRead, decode_tag-TagRead, combined, and_with-Less}

module _ (fields : List Field) (word : length fields < 2 ^ 32) where
  abbrev pub OnPlain : Iter → Type 0
  OnPlain it = IsIndexed fields it × (is_extension (field_at it.start it.pos) ≡ false)

  abbrev InMessage : Locals → Type 0
  InMessage v = IsIndexed fields v.it

  counts-OnPlain : (counter : ℕ) (v : Locals) → OnPlain v.it → OnPlain (counts_into counter v).it
  counts-OnPlain counter v (h, plain) = (
    record {
      same = h.same;
      is_iter = record { on_field = h.is_iter.on_field; tagged = h.is_iter.tagged };
      index = h.index;
    },
    plain,
  )

  enter-Safe :
      (counter : ℕ) (v : Locals) (mem : Memory) (s : IStream)
      → IsInBounds s
      → OnPlain v.it
      → SafeWith (λ v. OnPlain v.it) s (enter_fixed_count counter v mem s)
  unfolding enter_fixed_count
  enter-Safe counter v mem s h on =
      let counted : Follows s s × OnPlain (counts_into counter v).it =
        (Follows-refl s h, counts-OnPlain counter v on) in
      if-SafeWith _
        (htype (field_at v.it.start v.it.pos).type == htype_repeated && v.it.psize == v.it.pdata) s
        _ (ok v s, mem)
        (if-SafeWith _ (is_same_field v.it.pos v.fixed_count_field) s
          (ok (counts_into counter v) s, mem) _ counted
          (if-SafeWith _ (is_wrong_size counter v.it v.fixed_count_field mem) s _
            (ok (counts_into counter v) s, store 4 0 counter mem) (Ends-error s _ h) counted))
        (Follows-refl s h, on)

  module _ (field : FieldDecoder) (extension : ExtensionDecoder) (counter : ℕ)
      (field_safe : (wire_type : ℕ) (it : Iter) (mem : Memory) (s : IStream)
        → IsInBounds s
        → OnPlain it
        → Safe s (field wire_type it mem s))
      (field_keeps : (wire_type : ℕ) (it : Iter) (mem : Memory) (s : IStream)
        → IsIndexed fields it
        → Yields (IsIndexed fields) (field wire_type it mem s))
      (extension_safe : (tag wire_type : ℕ) (it : Iter) (mem : Memory) (s : IStream)
        → IsInBounds s
        → IsIndexed fields it
        → Safe s (extension tag wire_type it mem s)) where
    known_field-Safe :
        (wire_type : ℕ) (v : Locals) (mem : Memory) (s : IStream)
        → IsInBounds s
        → OnPlain v.it
        → SafeWith InMessage s (known_field field extension counter wire_type v mem s)
    unfolding known_field
    known_field-Safe wire_type v mem s h on =
        and_with-SafeBoth (λ v. OnPlain v.it) InMessage s _ _ h (enter-Safe counter v mem s h on)
          (λ v' mem' t k on'.
            and_with-SafeBoth (IsIndexed fields) InMessage t _ _ k
              (combined (IsIndexed fields) t _ (field_safe wire_type v'.it mem' t k on')
                (field_keeps wire_type v'.it mem' t on'.0))
              (λ it m u l e. (Follows-refl u l, e)))

    skip-Safe :
        (wire_type : ℕ) (v : Locals) (mem : Memory) (s : IStream)
        → IsInBounds s
        → InMessage v
        → SafeWith InMessage s (skip_unknown field extension counter wire_type v mem s)
    unfolding skip_unknown
    skip-Safe wire_type v mem s h e =
        and_with-SafeBoth (λ u. Unit {0}) InMessage s _ _ h
          (skipped (pb_skip_field wire_type s) (pb_skip_field-Stays wire_type s h))
          (λ u m t k q. (Follows-refl t k, e))
      where
        skipped : (r : Res IStream (Unit {0})) → Stays s r → SafeWith (λ u. Unit {0}) s (r, mem)
        skipped (ok u t) p = (p, tt)
        skipped (fail t) p = Follows-Within p
        skipped fault p = p

    try-Safe :
        (tag : Tag) (v : Locals) (r : Option (Iter × Bool)) (mem : Memory) (s : IStream)
        → IsInBounds s
        → EndsOn fields word is_extension r
        → SafeWith InMessage s (try_extension field extension counter tag v r mem s)
    unfolding try_extension
    try-Safe tag v none mem s h e = e
    try-Safe tag v (some (it, found)) mem s h e =
        let start = if found then (field_at it.start it.pos).tag else 2 ^ 32 - 1 in
        let v' = record v { it = it; extension_range_start = start } in
        let e' = on_message it found e in
        if-SafeWith InMessage (leb start tag.tag) s _ _
          (and_with-SafeBoth (λ u. Unit {0}) InMessage s _ _ h
            (done _ (extension_safe tag.tag tag.wire_type it mem s h e'))
            (λ u mem' t k q.
              if-SafeWith InMessage (s.bytes_left == t.bytes_left) t _ (ok v' t, mem')
                (skip-Safe tag.wire_type v' mem' t k e') (Follows-refl t k, e')))
          (skip-Safe tag.wire_type v' mem s h e')
      where
        on_message :
            (it : Iter) (found : Bool)
            → EndsOn fields word is_extension (some (it, found))
            → IsIndexed fields it
        on_message it true (e, w) = e
        on_message it false e = e

        done : (r : Outcome) → Safe s r → SafeWith (λ u. Unit {0}) s r
        done (ok u t, mem) p = (p, tt)
        done (fail t, mem) p = p
        done (fault, mem) p = p

    dispatch-Safe :
        (tag : Tag) (v : Locals) (r : Option (Iter × Bool)) (mem : Memory) (s : IStream)
        → IsInBounds s
        → EndsOn fields word (is_wanted tag.tag) r
        → SafeWith InMessage s (dispatch field extension counter tag v r mem s)
    unfolding dispatch
    dispatch-Safe tag v none mem s h e = e
    dispatch-Safe tag v (some (it, true)) mem s h (e, w) =
        known_field-Safe tag.wire_type (record v { it = it }) mem s h (e, ground arith)
    dispatch-Safe tag v (some (it, false)) mem s h e =
        let v' = record v { it = it } in
        if-SafeWith InMessage (leb v.extension_range_start tag.tag) s _ _
          (try-Safe tag v' (find_extension_field it) mem s h
            (find_extension_field-EndsOn fields word it e))
          (skip-Safe tag.wire_type v' mem s h e)

    behind_tag-Safe :
        (s : IStream) (r : Res IStream Tag × Bool) (v : Locals) (mem : Memory)
        (again : Locals → Memory → IStream → Result Locals)
        → IsInBounds s
        → InMessage v
        → TagRead s r
        → ((v : Locals) (mem : Memory) (t : IStream)
            → IsInBounds t
            → InMessage v
            → t.bytes_left < s.bytes_left
            → SafeWith InMessage t (again v mem t))
        → SafeWith InMessage s (behind_tag field extension counter r v mem again)
    unfolding behind_tag
    behind_tag-Safe s (ok t u, eof) v mem again h e (p, less) next =
        let k = Follows-IsInBounds h p in
        SafeWith-trans InMessage s u _ p (
          and_with-Less InMessage u _ again k
            (dispatch-Safe t v _ mem u k (find-EndsOn fields word t.tag v.it e))
            (λ v' mem' x l q shorter. next v' mem' x l q (omega arith)))
    behind_tag-Safe s (fail u, true) v mem again h e p next = (p, e)
    behind_tag-Safe s (fail u, false) v mem again h e p next = Follows-Within p
    behind_tag-Safe s (fault, eof) v mem again h e p next = p

    message_loop-Safe :
        (rounds : ℕ) (v : Locals) (mem : Memory) (s : IStream)
        → IsInBounds s
        → InMessage v
        → s.bytes_left < rounds
        → SafeWith InMessage s (message_loop field extension counter rounds v mem s)
    unfolding message_loop
    message_loop-Safe zero v mem s h e less = absurd (omega arith)
    message_loop-Safe (suc rounds) v mem s h e less = either (ltb 0 s.bytes_left) _ (
        behind_tag-Safe s _ v mem _ h e (decode_tag-TagRead s h)
          (λ v' mem' t k e' fewer. message_loop-Safe rounds v' mem' t k e' (omega arith)))
      where
        either :
            (c : Bool) (r : Result Locals)
            → SafeWith InMessage s r
            → SafeWith InMessage s (elim c [ true ↦ r | false ↦ (ok v s, mem) ])
        either true r p = p
        either false r p = (Follows-refl s h, e)

    abbrev Found : Option FieldsEnd → Type 0
    Found none = ⊥
    Found (some end) = Unit {0}

    seek_end-Found :
        (rounds : ℕ) (it : Iter)
        → IsIndexed fields it
        → length fields < it.pos + rounds
        → Found (seek_end rounds it)
    unfolding seek_end
    seek_end-Found zero it h enough =
        let on : it.pos < length fields = rw (sym h.same) h.is_iter.on_field in absurd (omega arith)
    seek_end-Found (suc rounds) it h enough = elim (dec_le (suc (suc it.pos)) (length it.start)) [
      | yes inner ↦
          let there = (inner_next it h.is_iter inner).1 in
          rw (next_goes_on it h.is_iter inner, seek_end, Found)
            (seek_end-Found rounds _ (next-IsIndexed fields word it h) (omega arith))
      | no last ↦
          let on = h.is_iter.on_field in
          let size : length it.start ≡ length fields = ap (λ fs. length fs) h.same in
          rw (next_ends it h.is_iter (omega arith), seek_end, Found) tt
    ]

    finish-Safe :
        (v : Locals) (mem : Memory) (s : IStream)
        → IsInBounds s
        → InMessage v
        → Safe s (finish_message field extension counter v mem s)
    unfolding finish_message check_required
    finish-Safe v mem s h e =
        let size : length v.it.start ≡ length fields = ap (λ fs. length fs) e.same in
        if-Safe (is_wrong_size counter v.it v.fixed_count_field mem) s _ _ (λ c. Ends-error s _ h)
          (λ c.
            checked (seek_end (suc (length v.it.start)) v.it)
              (seek_end-Found (suc (length v.it.start)) v.it e (omega arith)))
      where
        checked :
            (end : Option FieldsEnd)
            → Found end
            → Safe s (check_required field extension counter end v.fields_seen mem s)
        checked none f = absurd f
        checked (some end) f =
            if-Safe (all_seen (required_count end) v.fields_seen) s (ok tt s, mem) _
              (λ c. Follows-refl s h) (λ c. Ends-error s _ h)

    -- The whole of a message.
    pub decode_message-Safe :
        (dest : ℕ) (mem : Memory) (s : IStream)
        → IsInBounds s
        → InMessage (first_locals fields dest)
        → Safe s (decode_message field extension counter fields dest mem s)
    unfolding decode_message
    decode_message-Safe dest mem s h e =
        and_with-SafeWith InMessage s _ _ h
          (message_loop-Safe (suc s.bytes_left) (first_locals fields dest) (store 4 0 counter mem) s
            h e (omega arith))
          (λ v mem' t k e'. finish-Safe v mem' t k e')
