-- ===== src/Pb/Decoder/Safe/Callbacks.antt =====
-- `decode_callback_field` returns, and stays inside of the array, where the user's function does.
use daily_diary.Base.{
  ℕ, zero, suc, ◌+◌, ◌<◌, ◌≡◌, refl, arith, Bool, true, false, List, ◌∷◌, length,
}
use daily_diary.Base.{ltb, ◌==◌, ◌||◌, bit_and}
use native.Mathlib.Nat.{le_refl}
use daily_diary.Pb.{Field, Res, ok, fail, fault}
use daily_diary.Pb.IStream.{IStream, pb_istream_from_buffer}
use daily_diary.Pb.Decode.{raw_varint, read_raw_value}
use daily_diary.Pb.Decode.Bounds.{
  IsInBounds, Follows, Follows-IsInBounds, Follows-refl, Follows-trans,
}
use daily_diary.Pb.Decode.Bounds.{Stays, Follows-error, readbyte_cases, one, at_end}
use daily_diary.Pb.Decode.Bounds.{pb_read-Stays}
use daily_diary.Pb.Decode.Loops.{Stays-if, pb_skip_field-Stays}
use daily_diary.Pb.Iter.{Iter, field_at}
use daily_diary.Pb.Scalar.{Memory, load}
use daily_diary.Pb.Blobs.{Outcome}
use daily_diary.Pb.Decoder.Callbacks.{Callback, callback_round, callback_loop, finish_callback}
use daily_diary.Pb.Decoder.Callbacks.{string_callback, parent_status, scalar_callback}
use daily_diary.Pb.Decoder.Callbacks.{decode_callback_field}
use daily_diary.Pb.Decoder.Safe.{Safe, Fewer, Ends, Ends-trans, Follows-Within, Stays-Ends, if-Safe}
use daily_diary.Pb.Decoder.Safe.Static.{parent_error}
use daily_diary.Pb.Decoder.Safe.Substreams.{Frames, Makes, make-Makes, close-Ends}

-- A function of the user that returns, stays inside of the stream it is given, and reads a byte of
-- it at least, where there is one.
abbrev pub IsReading : Callback → Type 0
IsReading callback =
    (mem : Memory) (s : IStream)
    → IsInBounds s
    → Safe s (callback mem s) × (0 < s.bytes_left → Fewer s (callback mem s).0)

consed :
    (s t : IStream) (byte : ℕ) (r : Res IStream (List ℕ))
    → Follows s t
    → Stays t r
    → Stays s (elim r [ ok more u ↦ ok (byte ∷ more) u | fail u ↦ fail u | fault ↦ fault ])
consed s t byte (ok more u) p q = Follows-trans p q
consed s t byte (fail u) p q = Follows-trans p q
consed s t byte fault p q = q

either-Stays :
    (c : Bool) (s : IStream) (x y : Res IStream (List ℕ))
    → Stays s x
    → Stays s y
    → Stays s (elim c [ true ↦ x | false ↦ y ])
either-Stays true s x y p q = p
either-Stays false s x y p q = q

raw_varint-Stays : (room : ℕ) (s : IStream) → IsInBounds s → Stays s (raw_varint room s)
unfolding raw_varint
raw_varint-Stays zero s h = Follows-refl s h
raw_varint-Stays (suc room) s h = elim (readbyte_cases s h) [
  | one b t _ e p less ↦
      rw (e, raw_varint, Stays)
        (either-Stays (bit_and b 0x80 == 0) s _ _ p
          (consed s t b _ p (raw_varint-Stays room t (Follows-IsInBounds h p))))
  | at_end t _ e p ↦ rw (e, raw_varint, Stays) p
]

read_raw_value-Stays :
    (wire_type max_size : ℕ) (s : IStream)
    → IsInBounds s
    → Stays s (read_raw_value wire_type max_size s)
unfolding read_raw_value
read_raw_value-Stays w n s h = Stays-if (w == 0) s _ _ (raw_varint-Stays n s h) (
    Stays-if (w == 1) s _ _ (pb_read-Stays 8 s h)
      (Stays-if (w == 5) s _ _ (pb_read-Stays 4 s h) (Follows-error s _ h)))

whole-IsInBounds : (bs : List ℕ) → IsInBounds (pb_istream_from_buffer bs (length bs))
unfolding pb_istream_from_buffer
whole-IsInBounds bs = record { is_buffer = refl; fits = le_refl _ }

module _ (callback : Callback) (reading : IsReading callback) where
  round-Safe :
      (sub : IStream) (r : Outcome) (again : Callback)
      → IsInBounds sub
      → Safe sub r
      → (0 < sub.bytes_left → Fewer sub r.0)
      → ((mem : Memory) (t : IStream)
          → IsInBounds t
          → t.bytes_left < sub.bytes_left
          → Safe t (again mem t))
      → Safe sub (callback_round r again)
  unfolding callback_round
  round-Safe sub (ok u t, mem) again h p fewer next = more (ltb 0 t.bytes_left) refl
    where
      more :
          (c : Bool)
          → ltb 0 t.bytes_left ≡ c
          → Safe sub (elim c [ true ↦ again mem t | false ↦ (ok tt t, mem) ])
      more true e =
          let shrinks = p.shrinks in
          let some_left : 0 < sub.bytes_left = ground arith in
          Ends-trans sub t (again mem t).0 p (next mem t (Follows-IsInBounds h p) (fewer some_left))
      more false e = p
  round-Safe sub (fail t, mem) again h p fewer next = p
  round-Safe sub (fault, mem) again h p fewer next = p

  callback_loop-Safe :
      (rounds : ℕ) (mem : Memory) (sub : IStream)
      → IsInBounds sub
      → sub.bytes_left < rounds
      → Safe sub (callback_loop rounds callback mem sub)
  unfolding callback_loop
  callback_loop-Safe zero mem sub h less = absurd (omega arith)
  callback_loop-Safe (suc rounds) mem sub h less =
      round-Safe sub _ _ h (reading mem sub h).0 (reading mem sub h).1
        (λ mem' t k fewer. callback_loop-Safe rounds mem' t k (omega arith))

  finish_callback-Safe :
      (s sub t : IStream) (r : Outcome)
      → IsInBounds s
      → Frames s sub t
      → Safe sub r
      → Safe s (finish_callback t r)
  unfolding finish_callback
  finish_callback-Safe s sub t (ok u sub', mem) h frames p = close-Ends s sub t sub' frames p
  finish_callback-Safe s sub t (fail sub', mem) h frames p = parent_error s sub t _ h frames
  finish_callback-Safe s sub t (fault, mem) h frames p = p

  string_callback-Safe :
      (s : IStream) (r : Res IStream IStream) (mem : Memory)
      → IsInBounds s
      → Makes s r
      → Safe s (string_callback callback r mem)
  unfolding string_callback
  string_callback-Safe s (ok sub t) mem h frames =
      finish_callback-Safe s sub t _ h frames
        (callback_loop-Safe (suc sub.bytes_left) mem sub frames.inner (omega arith))
  string_callback-Safe s (fail t) mem h p = p
  string_callback-Safe s fault mem h p = p

  parent_status-Ends :
      (s t sub : IStream) (r : Res IStream (Unit {0}))
      → Follows s t
      → Ends sub r
      → Ends s (parent_status t r)
  unfolding parent_status
  parent_status-Ends s t sub (ok u x) p q = p
  parent_status-Ends s t sub (fail x) p q = Follows-Within p
  parent_status-Ends s t sub fault p q = q

  scalar_callback-Safe :
      (s : IStream) (r : Res IStream (List ℕ)) (mem : Memory)
      → Stays s r
      → Safe s (scalar_callback callback r mem)
  unfolding scalar_callback
  scalar_callback-Safe s (ok bs t) mem p =
      parent_status-Ends s t (pb_istream_from_buffer bs (length bs)) _ p
        (reading mem _ (whole-IsInBounds bs)).0
  scalar_callback-Safe s (fail t) mem p = Follows-Within p
  scalar_callback-Safe s fault mem p = p

-- Where every function of the user is such, `decode_callback_field` returns, and stays inside of
-- the array.
pub decode_callback_field-Safe :
    (decode : ℕ → Field → ℕ → Memory → IStream → Outcome) (wire_type : ℕ) (it : Iter) (mem : Memory)
    (s : IStream)
    → ((f : ℕ) (field : Field) (arg : ℕ) → IsReading (decode f field arg))
    → IsInBounds s
    → Safe s (decode_callback_field decode wire_type it mem s)
unfolding decode_callback_field
decode_callback_field-Safe decode wire_type it mem s reading h =
    let callback = decode (load 8 it.pdata mem) (field_at it.start it.pos) (it.pdata + 8) in
    let f = reading (load 8 it.pdata mem) (field_at it.start it.pos) (it.pdata + 8) in
    if-Safe (it.pdata == 0 || load 8 it.pdata mem == 0) s _ _
      (λ c. Stays-Ends s _ (pb_skip_field-Stays wire_type s h))
      (λ c.
        if-Safe (wire_type == 2) s _ _
          (λ c. string_callback-Safe callback f s _ mem h (make-Makes s h))
          (λ c. scalar_callback-Safe callback f s _ mem (read_raw_value-Stays wire_type 10 s h)))
