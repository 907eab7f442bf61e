-- ===== src/Pb/Decoder/Safe/Pointers.antt =====
-- `decode_pointer_field` returns, and stays inside of the array.
use daily_diary.Base.{ℕ, zero, suc, ◌+◌, ◌<◌, ◌≡◌, arith, Bool, true, false, some}
use daily_diary.Base.{Option, ltb, leb, ◌==◌, ◌&&◌, ◌||◌, not, if◌then◌else◌, Bool-cases, inl, inr}
use daily_diary.Pb.{
  Field, ltype, htype, htype_required, htype_optional, htype_repeated, htype_oneof,
}
use daily_diary.Pb.{ltype_submessage, size_max, Res, ok, fail, fault}
use daily_diary.Pb.IStream.{IStream}
use daily_diary.Pb.Decode.Bounds.{IsInBounds, Follows-refl}
use daily_diary.Pb.Scalar.{Memory, load}
use daily_diary.Pb.Defaults.{Change}
use daily_diary.Pb.Message.Arrays.{last_packable}
use daily_diary.Pb.Static.{ItemDecoder, item_address, count_up}
use daily_diary.Pb.Decoder.{Result}
use daily_diary.Pb.Decoder.Release.{is_blob}
use daily_diary.Pb.Decoder.Pointers.{initialize_pointer_field, grown, finish_pointers}
use daily_diary.Pb.Decoder.Pointers.{decode_new, grow, pointers_loop, decode_pointers}
use daily_diary.Pb.Decoder.Pointers.{decode_one_pointer, decode_single_pointer, pointer_by_htype}
use daily_diary.Pb.Decoder.Safe.{Safe, Fewer, Returns, Ends-error, if-Safe}
use daily_diary.Pb.Decoder.Safe.{and_then-Safe, and_with-Safe, after_change-Safe, IsSafeItem}
use daily_diary.Pb.Decoder.Safe.{IsEating, Follows-Within, and_with-Eats, after_change-Fewer}
use daily_diary.Pb.{ErrMsg}
use daily_diary.Pb.Decoder.Safe.Blobs.{allocate_field-Safe}
use daily_diary.Pb.Decoder.Safe.Static.{elim-Safe}
use daily_diary.Pb.Decoder.Safe.Substreams.{
  Frames, Makes, make-Makes, close-Ends, close_failed-Ends,
}

-- A message on the parent moves nothing.
marked :
    (s sub t : IStream) (e : Option ErrMsg)
    → Frames s sub t
    → Frames s sub (record t { errmsg = e })
marked s sub t e frames = record {
  inner = frames.inner;
  outer = record {
    is_buffer = frames.outer.is_buffer;
    shrinks = frames.outer.shrinks;
    room = frames.outer.room;
  };
  place = frames.place;
  both = frames.both;
}

finish_pointers-Safe :
    (s sub t : IStream) (r : Result Bool)
    → IsInBounds s
    → Frames s sub t
    → Safe sub r
    → Safe s (finish_pointers t r)
unfolding finish_pointers
finish_pointers-Safe s sub t (ok true sub', mem) h frames p = close-Ends s sub t sub' frames p
finish_pointers-Safe s sub t (ok false sub', mem) h frames p =
    close_failed-Ends s sub _ sub' (marked s sub t _ frames) (Follows-Within p)
finish_pointers-Safe s sub t (fail sub', mem) h frames p = close_failed-Ends s sub t sub' frames p
finish_pointers-Safe s sub t (fault, mem) h frames p = p

module _ (pb_realloc : ℕ → ℕ → Memory → ℕ × Memory) (item : ItemDecoder) (defaults : ℕ → Change)
    (release : Change) (field : Field) (pdata psize : ℕ) (safe : IsSafeItem item)
    (initialized : ltype field.type ≡ ltype_submessage
      → (a : ℕ) (mem : Memory) → Returns (defaults a mem)) where
  initialize-Returns :
      (a : ℕ) (mem : Memory) → Returns (initialize_pointer_field defaults field a mem)
  unfolding initialize_pointer_field
  initialize-Returns a mem = elim (Bool-cases (is_blob field)) [
    | inl c ↦ rw c tt
    | inr c ↦ elim (Bool-cases (ltype field.type == ltype_submessage)) [
      | inl d ↦ rw (c, d) (initialized (ground arith) a _)
      | inr d ↦ rw (c, d) tt
    ]
  ]

  decode_new-Safe :
      (a : ℕ) (mem : Memory) (s : IStream)
      → IsInBounds s
      → Safe s (decode_new pb_realloc item defaults release field pdata psize a mem s)
  unfolding decode_new
  decode_new-Safe a mem s h =
      after_change-Safe s _ mem _ (initialize-Returns a mem) (λ mem'. safe a mem' s h)

  module _ (eats : IsEating item) (sized : (field.data_size == 0) ≡ false) where
    decode_new-Fewer :
        (a : ℕ) (mem : Memory) (s : IStream)
        → IsInBounds s
        → Fewer s (decode_new pb_realloc item defaults release field pdata psize a mem s).0
    unfolding decode_new
    decode_new-Fewer a mem s h = after_change-Fewer s _ mem _ (λ mem'. eats a mem' s h)

    grow-Safe :
        (allocated : ℕ) (mem : Memory) (s : IStream)
        → IsInBounds s
        → Safe s (grow pb_realloc item defaults release field pdata psize allocated mem s)
    unfolding grow
    grow-Safe allocated mem s h =
        if-Safe (ltb allocated (load 4 psize mem + 1)) s _ (ok allocated s, mem)
          (λ c.
            if-Safe (field.data_size == 0) s (fault, mem) _ (λ zero. absurd (ground arith))
              (λ d.
                and_with-Safe s _ _ h
                  (allocate_field-Safe pb_realloc pdata field.data_size (grown field allocated s)
                    mem s h)
                  (λ u mem' t k p. Follows-refl t k)))
          (λ c. Follows-refl s h)

    pointers_loop-Safe :
        (rounds allocated : ℕ) (mem : Memory) (sub : IStream)
        → IsInBounds sub
        → sub.bytes_left < rounds
        → Safe sub (
            pointers_loop pb_realloc item defaults release field pdata psize rounds allocated mem
              sub)
    unfolding pointers_loop
    pointers_loop-Safe zero allocated mem sub h less = absurd (omega arith)
    pointers_loop-Safe (suc rounds) allocated mem sub h less =
        elim-Safe (ltb 0 sub.bytes_left) sub (ok true sub, mem) _ (Follows-refl sub h)
          (λ c. and_with-Safe sub _ _ h (grow-Safe allocated mem sub h) (λ allocated' mem' t k p.
            and_with-Eats t _ _ k (decode_new-Safe _ mem' t k)
              (decode_new-Fewer (item_address field (load 8 pdata mem') (load 4 psize mem')) mem' t
                k)
              (λ u mem'' x l fewer.
                let shrinks = p.shrinks in
                elim-Safe (load 4 psize mem'' == size_max) x _ (ok false x, mem'')
                  (pointers_loop-Safe rounds allocated' (count_up psize mem'') x l (omega arith))
                  (λ c. Follows-refl x l))))

    decode_pointers-Safe :
        (s : IStream) (r : Res IStream IStream) (mem : Memory)
        → IsInBounds s
        → Makes s r
        → Safe s (decode_pointers pb_realloc item defaults release field pdata psize r mem)
    unfolding decode_pointers
    decode_pointers-Safe s (ok sub t) mem h frames = finish_pointers-Safe s sub t _ h frames (
        pointers_loop-Safe (suc sub.bytes_left) (load 4 psize mem) mem sub frames.inner
          (omega arith))
    decode_pointers-Safe s (fail t) mem h p = p
    decode_pointers-Safe s fault mem h p = p

  decode_one_pointer-Safe :
      (mem : Memory) (s : IStream)
      → IsInBounds s
      → Safe s (decode_one_pointer pb_realloc item defaults release field pdata psize mem s)
  unfolding decode_one_pointer
  decode_one_pointer-Safe mem s h =
      if-Safe (load 4 psize mem == size_max) s _ _ (λ c. Ends-error s _ h)
        (λ c.
          and_then-Safe s _ _ h (allocate_field-Safe pb_realloc pdata field.data_size _ _ s h)
            (λ m t k. decode_new-Safe _ m t k))

  decode_single_pointer-Safe :
      (mem : Memory) (s : IStream)
      → IsInBounds s
      → Safe s (decode_single_pointer pb_realloc item defaults release field pdata psize mem s)
  unfolding decode_single_pointer
  decode_single_pointer-Safe mem s h =
      if-Safe (is_blob field) s _ _ (λ c. safe pdata _ s h)
        (λ c.
          and_then-Safe s _ _ h (allocate_field-Safe pb_realloc pdata field.data_size 1 _ s h)
            (λ m t k.
              after_change-Safe t _ m _ (initialize-Returns (load 8 pdata m) m)
                (λ m'. safe (load 8 pdata m') m' t k)))

  module _
      (frees : ltype field.type ≡ ltype_submessage → (mem : Memory) → Returns (release mem)) where
    freed :
        (mem : Memory)
        → Returns (
            if ltype field.type == ltype_submessage && not (load 8 pdata mem == 0)
            then release mem
            else some mem)
    freed mem =
        elim (Bool-cases (ltype field.type == ltype_submessage && not (load 8 pdata mem == 0))) [
          | inl c ↦ rw c (frees (ground arith) mem)
          | inr c ↦ rw c tt
        ]

    pub pointer_by_htype-Safe :
        (wire_type : ℕ) (mem : Memory) (s : IStream)
        → (leb (ltype field.type) last_packable ≡ true → IsEating item)
        → (field.data_size == 0) ≡ false
        → IsInBounds s
        → Safe s
            (pointer_by_htype pb_realloc item defaults release field pdata psize wire_type mem s)
    unfolding pointer_by_htype
    pointer_by_htype-Safe wire_type mem s eats sized h =
        if-Safe
          (htype field.type == htype_required
            || (htype field.type == htype_optional || htype field.type == htype_oneof))
          s _ _
          (λ c.
            after_change-Safe s _ mem _ (freed mem) (λ mem'. decode_single_pointer-Safe mem' s h))
          (λ c.
            if-Safe (htype field.type == htype_repeated) s _ _
              (λ c.
                if-Safe (wire_type == 2 && leb (ltype field.type) last_packable) s _ _
                  (λ c. decode_pointers-Safe (eats (ground arith)) sized s _ mem h (make-Makes s h))
                  (λ c. decode_one_pointer-Safe mem s h))
              (λ c. Ends-error s _ h))
