-- ===== src/Pb/Decode/Loops.antt =====
-- The loops that read varints stay inside the array and end: each round takes a byte, and a stream
-- has `bytes_left` of them.
use native.Mathlib.Decide.{dec_le}
use daily_diary.Base.{ℕ, zero, suc, ◌+◌, ◌*◌, ◌^◌, ◌≤◌, ◌<◌, ◌≡◌, arith}
use daily_diary.Base.{List, Bool, true, false}
use daily_diary.Base.{bit_and, bit_or, u8, u64, ◌==◌, leb, ◌&&◌, not, if◌then◌else◌}
use daily_diary.Pb.{varint_overflow, Res, ok, fail, fault}
use daily_diary.Pb.IStream.{IStream, pb_read, pb_readbyte}
use daily_diary.Pb.IStream.{pb_read_null, forget, return_error}
use daily_diary.Pb.Decode.{varint32_loop, pb_decode_varint32_eof, pb_decode_varint32, is_overflow}
use daily_diary.Pb.Decode.{or_group32, finish32, varint_loop, pb_decode_varint}
use daily_diary.Pb.Decode.{skip_varint_loop, pb_skip_varint, pb_skip_string, pb_skip_field}
use daily_diary.Pb.Decode.Bounds.{IsInBounds, Stays, Follows-refl, Follows-error, Stays-trans}
use daily_diary.Pb.Decode.Bounds.{Follows-IsInBounds, one, at_end, readbyte_cases, pb_read-Stays}
use daily_diary.Pb.Decode.Bounds.{Stays-bind}

-- Either way on.
pub Stays-if :
    {A : Type 0} (c : Bool) (s : IStream) (x y : Res IStream A)
    → Stays s x
    → Stays s y
    → Stays s (if c then x else y)
Stays-if true s x y p q = p
Stays-if false s x y p q = q

pub Stays-elim :
    {A : Type 0} (c : Bool) (s : IStream) (x y : Res IStream A)
    → Stays s x
    → Stays s y
    → Stays s (elim c [ true ↦ x | false ↦ y ])
Stays-elim true s x y p q = p
Stays-elim false s x y p q = q

finish32-Stays :
    (bitpos result b : ℕ) (t : IStream) → IsInBounds t → Stays t (finish32 bitpos b result t)
finish32-Stays bitpos result b t h =
    Stays-if (bitpos == 35 && not (bit_and b 0x70 == 0)) t _ _ (Follows-error t _ h)
      (Follows-refl t h)

-- One round of a loop: at the end of the stream it fails, and else goes on with a byte less.
varint32_round :
    (rounds bitpos result : ℕ) (s : IStream) (b : ℕ) (t : IStream)
    → IsInBounds t
    → pb_readbyte s ≡ ok b t
    → ((bitpos' result' : ℕ) → Stays t (varint32_loop rounds bitpos' result' t))
    → Stays t (varint32_loop (suc rounds) bitpos result s)
unfolding varint32_loop
varint32_round rounds bitpos result s b t h e next =
    rw (e, varint32_loop, Stays) (test (leb 32 bitpos && is_overflow result b bitpos))
  where
    test :
        (c : Bool)
        → Stays t (elim c [
          | true ↦ return_error varint_overflow t
          | false ↦ elim (bit_and b 0x80 == 0) [
            | true ↦
                finish32
                  (u8 (bitpos + 7))
                  b
                  (if leb 32 bitpos then result else or_group32 result b bitpos)
                  t
            | false ↦
                varint32_loop rounds
                  (u8 (bitpos + 7))
                  (if leb 32 bitpos then result else or_group32 result b bitpos)
                  t
          ]
        ])
    test true = Follows-error t _ h
    test false = Stays-elim (bit_and b 0x80 == 0) t _ _ (finish32-Stays _ _ b t h) (next _ _)

pub varint32_loop-Stays :
    (rounds bitpos result : ℕ) (s : IStream)
    → IsInBounds s
    → s.bytes_left < rounds
    → Stays s (varint32_loop rounds bitpos result s)
unfolding varint32_loop
varint32_loop-Stays zero bitpos result s h less = absurd (omega arith)
varint32_loop-Stays (suc rounds) bitpos result s h less = elim (readbyte_cases s h) [
  | one b t e _ p fewer ↦
      let h' = Follows-IsInBounds h p in
      Stays-trans _ p (
        varint32_round rounds bitpos result s b t h' e
          (λ bitpos' result'. varint32_loop-Stays rounds bitpos' result' t h' (omega arith)))
  | at_end t e _ p ↦ rw (e, varint32_loop, Stays) p
]

-- Whatever the bytes, `pb_decode_varint32` on a stream in bounds returns true or false, reads
-- nothing outside of the array, and leaves a stream moved on inside the array.
pub pb_decode_varint32-Stays : (s : IStream) → IsInBounds s → Stays s (pb_decode_varint32 s)
unfolding pb_decode_varint32
pb_decode_varint32-Stays s h = elim (readbyte_cases s h) [
  | one b t e _ p fewer ↦
      rw (e, pb_decode_varint32_eof, Stays)
        (Stays-if (bit_and b 0x80 == 0) s _ _ p
          (Stays-trans _ p (varint32_loop-Stays _ _ _ t (Follows-IsInBounds h p) (omega arith))))
  | at_end t e _ p ↦ rw (e, pb_decode_varint32_eof, Stays) p
]

-- The 64-bit loop ends after ten rounds at the latest, at `bitpos` 70.
pub varint_loop-Stays :
    (rounds j result : ℕ) (s : IStream)
    → IsInBounds s
    → j ≤ 10
    → 10 < j + rounds
    → Stays s (varint_loop rounds (7 * j) result s)
unfolding varint_loop
varint_loop-Stays zero j result s h hj hn = absurd (omega arith)
varint_loop-Stays (suc rounds) j result s h hj hn = elim (dec_le j 9) [
  | no ten ↦ rw (ten_stops (omega arith)) (Follows-error s _ h)
  | yes more ↦ elim (readbyte_cases s h) [
    | one b t e _ p fewer ↦
        let h' = Follows-IsInBounds h p in
        rw (goes_on b t more e) (
          Stays-trans _ p (
            Stays-elim (bit_and b 0x80 == 0) t _ _ (Follows-refl t h')
              (varint_loop-Stays rounds (suc j) _ t h' (omega arith) (omega arith))))
    | at_end t e _ p ↦ rw (ends t more e) p
  ]
]
  where
    ten_stops : 10 ≤ j → varint_loop (suc rounds) (7 * j) result s ≡ return_error varint_overflow s
    ten_stops ten = ground arith

    goes_on :
        (b : ℕ) (t : IStream)
        → j ≤ 9
        → pb_readbyte s ≡ ok b t
        → varint_loop (suc rounds) (7 * j) result s ≡ elim (bit_and b 0x80 == 0) [
          | true ↦ ok (bit_or result (u64 (bit_and b 0x7f * 2 ^ (7 * j)))) t
          | false ↦
              varint_loop rounds (7 * suc j) (bit_or result (u64 (bit_and b 0x7f * 2 ^ (7 * j)))) t
        ]
    goes_on b t more e = ground arith

    ends :
        (t : IStream)
        → j ≤ 9
        → pb_readbyte s ≡ fail t
        → varint_loop (suc rounds) (7 * j) result s ≡ fail t
    ends t more e = ground arith

-- Whatever the bytes, `pb_decode_varint` on a stream in bounds returns true or false, reads
-- nothing outside of the array, and leaves a stream moved on inside the array.
pub pb_decode_varint-Stays : (s : IStream) → IsInBounds s → Stays s (pb_decode_varint s)
unfolding pb_decode_varint
pb_decode_varint-Stays s h = varint_loop-Stays 11 0 0 s h (omega arith) (omega arith)

pub forget-Stays : (s : IStream) (r : Res IStream (List ℕ)) → Stays s r → Stays s (forget r)
unfolding forget
forget-Stays s (ok bs t) p = p
forget-Stays s (fail t) p = p
forget-Stays s fault p = p

pub buffer_skip :
    (count : ℕ) (s : IStream) → IsInBounds s → pb_read_null count s ≡ forget (pb_read count s)
unfolding pb_read_null
buffer_skip count s h = ground arith

-- Over a buffer `pb_read` with a NULL buffer returns true or false and stays inside the array.
pub pb_read_null-Stays : (count : ℕ) (s : IStream) → IsInBounds s → Stays s (pb_read_null count s)
unfolding pb_read_null
pb_read_null-Stays count s h =
    rw (buffer_skip count s h) (forget-Stays s _ (pb_read-Stays count s h))

pub skip_varint_loop-Stays :
    (rounds : ℕ) (s : IStream)
    → IsInBounds s
    → s.bytes_left < rounds
    → Stays s (skip_varint_loop rounds s)
unfolding skip_varint_loop
skip_varint_loop-Stays zero s h less = absurd (omega arith)
skip_varint_loop-Stays (suc rounds) s h less = elim (readbyte_cases s h) [
  | one b t _ e p fewer ↦
      let h' = Follows-IsInBounds h p in
      rw (e, skip_varint_loop, Stays)
        (Stays-trans _ p (
          Stays-elim (bit_and b 0x80 == 0) t _ _ (Follows-refl t h')
            (skip_varint_loop-Stays rounds t h' (omega arith))))
  | at_end t _ e p ↦ rw (e, skip_varint_loop, Stays) p
]

pub pb_skip_varint-Stays : (s : IStream) → IsInBounds s → Stays s (pb_skip_varint s)
unfolding pb_skip_varint
pb_skip_varint-Stays s h = skip_varint_loop-Stays (suc s.bytes_left) s h (omega arith)

pub pb_skip_string-Stays : (s : IStream) → IsInBounds s → Stays s (pb_skip_string s)
unfolding pb_skip_string
pb_skip_string-Stays s h =
    Stays-bind s _ _ h (pb_decode_varint32-Stays s h) (λ n t h'. pb_read_null-Stays n t h')

-- Whatever the wire type and the bytes, `pb_skip_field` on a stream in bounds returns true or
-- false, reads nothing outside of the array, and leaves a stream moved on inside the array.
pub pb_skip_field-Stays :
    (wire_type : ℕ) (s : IStream) → IsInBounds s → Stays s (pb_skip_field wire_type s)
unfolding pb_skip_field
pb_skip_field-Stays w s h = Stays-if (w == 0) s _ _ (pb_skip_varint-Stays s h) (
    Stays-if (w == 1) s _ _ (pb_read_null-Stays 8 s h) (
      Stays-if (w == 2) s _ _ (pb_skip_string-Stays s h)
        (Stays-if (w == 5) s _ _ (pb_read_null-Stays 4 s h) (Follows-error s _ h))))
