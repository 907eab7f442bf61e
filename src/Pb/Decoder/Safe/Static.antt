-- ===== src/Pb/Decoder/Safe/Static.antt =====
-- `decode_static_field` returns, and stays inside of the array.
use daily_diary.Base.{ℕ, zero, suc, ◌+◌, ◌<◌, ◌≡◌, refl, arith, Bool, true, false, Option}
use daily_diary.Base.{ltb, leb, ◌==◌, ◌&&◌}
use daily_diary.Pb.{
  Field, ltype, htype, htype_required, htype_optional, htype_repeated, htype_oneof,
}
use daily_diary.Pb.{ltype_submessage, Res, ok, fail, fault}
use daily_diary.Pb.IStream.{IStream}
use daily_diary.Pb.Decode.Bounds.{IsInBounds, Follows-refl}
use daily_diary.Pb.Scalar.{Memory, load}
use daily_diary.Pb.Blobs.{Outcome}
use daily_diary.Pb.Defaults.{Change}
use daily_diary.Pb.Message.Arrays.{last_packable}
use daily_diary.Pb.Static.{ItemDecoder, count_up, packed_loop, finish_packed}
use daily_diary.Pb.Static.{decode_packed, decode_entry, enter_oneof, decode_by_htype}
use daily_diary.Pb.Decoder.Safe.{Safe, Returns, Within, Within-trans, Ends-error, if-Safe}
use daily_diary.Pb.Decoder.Safe.{and_then-Eats, after_change-Safe, IsSafeItem, IsEating}
use daily_diary.Pb.{ErrMsg}
use daily_diary.Base.{Bool-cases, inl, inr}
use daily_diary.Pb.Decoder.{Result}
use daily_diary.Pb.Decoder.Safe.{Within-IsInBounds}
use daily_diary.Pb.Decoder.Safe.Substreams.{
  Frames, Makes, make-Makes, close-Ends, close_failed-Ends,
}

-- The two ways that a loop goes.
pub elim-Safe :
    {A : Type 0} (c : Bool) (s : IStream) (x y : Result A)
    → Safe s x
    → (c ≡ true → Safe s y)
    → Safe s (elim c as (λ c. Result A) [ false ↦ x | true ↦ y ])
elim-Safe false s x y p q = p
elim-Safe true s x y p q = q refl

-- An error on the parent of a substream.
pub parent_error :
    (s sub t : IStream) (e : Option ErrMsg)
    → IsInBounds s
    → Frames s sub t
    → Within s (record t { errmsg = e })
parent_error s sub t e h frames =
    Within-trans frames.outer (Ends-error t e (Within-IsInBounds h frames.outer))

module _ (field : Field) (pdata psize : ℕ) (item : ItemDecoder) (safe : IsSafeItem item) where
  module _ (eats : IsEating item) where
    packed_loop-Safe :
        (rounds : ℕ) (mem : Memory) (sub : IStream)
        → IsInBounds sub
        → sub.bytes_left < rounds
        → Safe sub (packed_loop rounds item field pdata psize mem sub)
    unfolding packed_loop
    packed_loop-Safe zero mem sub h less = absurd (omega arith)
    packed_loop-Safe (suc rounds) mem sub h less =
        elim-Safe (ltb 0 sub.bytes_left && ltb (load 4 psize mem) field.array_size) sub
          (ok tt sub, mem) _ (Follows-refl sub h)
          (λ c.
            and_then-Eats sub _ _ h (safe _ mem sub h) (eats _ mem sub h)
              (λ mem' t k fewer. packed_loop-Safe rounds (count_up psize mem') t k (omega arith)))

    finish_packed-Safe :
        (s sub t : IStream) (r : Outcome)
        → IsInBounds s
        → Frames s sub t
        → Safe sub r
        → Safe s (finish_packed t r)
    unfolding finish_packed
    finish_packed-Safe s sub t (ok u sub', mem) h frames p =
        if-Safe (sub'.bytes_left == 0) s _ _ (λ c. close-Ends s sub t sub' frames p)
          (λ c. parent_error s sub t _ h frames)
    finish_packed-Safe s sub t (fail sub', mem) h frames p =
        if-Safe (sub'.bytes_left == 0) s _ _ (λ c. close_failed-Ends s sub t sub' frames p)
          (λ c. parent_error s sub t _ h frames)
    finish_packed-Safe s sub t (fault, mem) h frames p = p

    decode_packed-Safe :
        (s : IStream) (r : Res IStream IStream) (mem : Memory)
        → IsInBounds s
        → Makes s r
        → Safe s (decode_packed r item field pdata psize mem)
    unfolding decode_packed
    decode_packed-Safe s (ok sub t) mem h frames = finish_packed-Safe s sub t _ h frames (
        packed_loop-Safe (suc (field.array_size + sub.bytes_left)) mem sub frames.inner
          (omega arith))
    decode_packed-Safe s (fail t) mem h p = p
    decode_packed-Safe s fault mem h p = p

  decode_entry-Safe :
      (mem : Memory) (s : IStream)
      → IsInBounds s
      → Safe s (decode_entry item field pdata psize mem s)
  unfolding decode_entry
  decode_entry-Safe mem s h =
      if-Safe (leb field.array_size (load 4 psize mem)) s _ _ (λ c. Ends-error s _ h)
        (λ c. safe _ _ s h)

  module _ (defaults : ℕ → Change)
      (initialized : ltype field.type ≡ ltype_submessage
        → (a : ℕ) (mem : Memory) → Returns (defaults a mem)) where
    enter_oneof-Returns : (mem : Memory) → Returns (enter_oneof defaults field pdata psize mem)
    unfolding enter_oneof
    enter_oneof-Returns mem = elim (Bool-cases (ltype field.type == ltype_submessage)) [
      | inl c ↦ rw c (initialized (ground arith) pdata _)
      | inr c ↦ rw c tt
    ]

    pub decode_by_htype-Safe :
        (wire_type : ℕ) (mem : Memory) (s : IStream)
        → (leb (ltype field.type) last_packable ≡ true → IsEating item)
        → IsInBounds s
        → Safe s (decode_by_htype item defaults wire_type field pdata psize mem s)
    unfolding decode_by_htype
    decode_by_htype-Safe wire_type mem s eats h =
        if-Safe (htype field.type == htype_required) s _ _ (λ c. safe pdata mem s h)
          (λ c.
            if-Safe (htype field.type == htype_optional) s _ _ (λ c. safe pdata _ s h)
              (λ c.
                if-Safe (htype field.type == htype_repeated) s _ _
                  (λ c.
                    if-Safe (wire_type == 2 && leb (ltype field.type) last_packable) s _ _
                      (λ c. decode_packed-Safe (eats (ground arith)) s _ mem h (make-Makes s h))
                      (λ c. decode_entry-Safe mem s h))
                  (λ c.
                    if-Safe (htype field.type == htype_oneof) s _ _
                      (λ c.
                        after_change-Safe s _ mem _ (enter_oneof-Returns mem)
                          (λ mem'. safe pdata mem' s h))
                      (λ c. Ends-error s _ h))))
