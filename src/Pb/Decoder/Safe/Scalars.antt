-- ===== src/Pb/Decoder/Safe/Scalars.antt =====
-- The decoders of single values return, and stay inside of the array.
use daily_diary.Base.{ℕ, ◌<◌, arith, Bool, true, false, if◌then◌else◌}
use daily_diary.Base.{bit_and, ◌==◌}
use native.Mathlib.Decide.{dec_le}
use daily_diary.Pb.{Field, Res, ok, fail, fault}
use daily_diary.Pb.IStream.{IStream, pb_read}
use daily_diary.Pb.Decode.{pb_decode_varint32_eof, varint_loop}
use daily_diary.Pb.Decode.{pb_decode_varint, pb_decode_svarint}
use daily_diary.Pb.Decode.Bounds.{IsInBounds, Follows-IsInBounds, Follows-refl, Stays}
use daily_diary.Pb.Decode.Bounds.{Follows-error, Stays-bind, readbyte_cases, one, at_end}
use daily_diary.Pb.Decode.Bounds.{pb_read-Stays, read_some, read_none}
use daily_diary.Pb.Decode.Loops.{Stays-if, Stays-elim, varint32_loop-Stays, varint_loop-Stays}
use daily_diary.Pb.Decode.Loops.{pb_decode_varint-Stays}
use daily_diary.Pb.Fixed.{pb_decode_fixed32, pb_decode_fixed64}
use daily_diary.Pb.Scalar.{Memory, store_clamped, pb_dec_varint, pb_dec_uvarint, pb_dec_svarint}
use daily_diary.Pb.Scalar.{pb_dec_fixed32, pb_dec_fixed64, is_int_size}
use daily_diary.Pb.Decoder.Safe.{
  if-Safe, Safe, Fewer, Ends-Fewer, Stays-Ends, Ends-error, with_value-Safe, with_value-Fewer,
}

if-Fewer :
    {A : Type 0} (c : Bool) (s : IStream) (x y : Res IStream A)
    → Fewer s x
    → Fewer s y
    → Fewer s (if c then x else y)
if-Fewer true s x y p q = p
if-Fewer false s x y p q = q

pub varint32_eof-Fewer : (s : IStream) → IsInBounds s → Fewer s (pb_decode_varint32_eof false s).0
unfolding pb_decode_varint32_eof
varint32_eof-Fewer s h = elim (readbyte_cases s h) [
  | one b t e _ p less ↦
      rw (e, pb_decode_varint32_eof, Fewer)
        (if-Fewer (bit_and b 0x80 == 0) s _ _ less (
          Ends-Fewer s t _ less
            (Stays-Ends t _ (varint32_loop-Stays _ _ _ t (Follows-IsInBounds h p) (omega arith)))))
  | at_end t e _ p ↦ rw (e, pb_decode_varint32_eof, Fewer) tt
]

pub varint-Fewer : (s : IStream) → IsInBounds s → Fewer s (pb_decode_varint s)
unfolding pb_decode_varint varint_loop
varint-Fewer s h = elim (readbyte_cases s h) [
  | one b t e _ p less ↦
      rw (e, varint_loop, Fewer)
        (Ends-Fewer s t _ less (
          Stays-Ends t _ (
            Stays-elim (bit_and b 0x80 == 0) t _ _ (Follows-refl t (Follows-IsInBounds h p))
              (varint_loop-Stays 10 1 _ t (Follows-IsInBounds h p) (omega arith) (omega arith)))))
  | at_end t e _ p ↦ rw (e, varint_loop, Fewer) tt
]

bind-Fewer :
    {A B : Type 0} (s : IStream) (r : Res IStream A) (f : A → IStream → Res IStream B)
    → IsInBounds s
    → Stays s r
    → Fewer s r
    → ((a : A) (t : IStream) → IsInBounds t → Stays t (f a t))
    → Fewer s (elim r [ ok a t ↦ f a t | fail t ↦ fail t | fault ↦ fault ])
bind-Fewer s (ok a t) f h p less next =
    Ends-Fewer s t (f a t) less (Stays-Ends t _ (next a t (Follows-IsInBounds h p)))
bind-Fewer s (fail t) f h p less next = tt
bind-Fewer s fault f h p less next = tt

pub read-Fewer : (count : ℕ) (s : IStream) → 0 < count → IsInBounds s → Fewer s (pb_read count s)
read-Fewer count s pos h = elim (dec_le count s.bytes_left) [
  | yes enough ↦ rw (read_some count s h enough) (omega arith)
  | no short ↦ rw (read_none count s (omega arith)) tt
]

svarint-Stays : (s : IStream) → IsInBounds s → Stays s (pb_decode_svarint s)
unfolding pb_decode_svarint
svarint-Stays s h = Stays-bind s _ _ h (pb_decode_varint-Stays s h) (λ v t h'. Follows-refl t h')

svarint-Fewer : (s : IStream) → IsInBounds s → Fewer s (pb_decode_svarint s)
unfolding pb_decode_svarint
svarint-Fewer s h =
    bind-Fewer s _ _ h (pb_decode_varint-Stays s h) (varint-Fewer s h) (λ v t h'. Follows-refl t h')

fixed32-Stays : (s : IStream) → IsInBounds s → Stays s (pb_decode_fixed32 s)
unfolding pb_decode_fixed32
fixed32-Stays s h = Stays-bind s _ _ h (pb_read-Stays 4 s h) (λ v t h'. Follows-refl t h')

fixed64-Stays : (s : IStream) → IsInBounds s → Stays s (pb_decode_fixed64 s)
unfolding pb_decode_fixed64
fixed64-Stays s h = Stays-bind s _ _ h (pb_read-Stays 8 s h) (λ v t h'. Follows-refl t h')

fixed32-Fewer : (s : IStream) → IsInBounds s → Fewer s (pb_decode_fixed32 s)
unfolding pb_decode_fixed32
fixed32-Fewer s h =
    bind-Fewer s _ _ h (pb_read-Stays 4 s h) (read-Fewer 4 s (omega arith) h)
      (λ v t h'. Follows-refl t h')

fixed64-Fewer : (s : IStream) → IsInBounds s → Fewer s (pb_decode_fixed64 s)
unfolding pb_decode_fixed64
fixed64-Fewer s h =
    bind-Fewer s _ _ h (pb_read-Stays 8 s h) (read-Fewer 8 s (omega arith) h)
      (λ v t h'. Follows-refl t h')

module _ (clamp : ℕ → ℕ → ℕ) (field : Field) (dest : ℕ) (mem : Memory) where
  clamped-Safe :
      (value : ℕ) (s : IStream) → IsInBounds s → Safe s (store_clamped clamp field dest mem value s)
  unfolding store_clamped
  clamped-Safe value s h =
      if-Safe (is_int_size field.data_size) s _ _
        (λ c. Stays-Ends s _ (
          Stays-if (clamp field.data_size value == value) s (ok tt s) _ (Follows-refl s h)
            (Follows-error s _ h)))
        (λ c. Ends-error s _ h)

module _ (field : Field) (dest : ℕ) (mem : Memory) (s : IStream) (h : IsInBounds s) where
  -- The decoders of packable types, which read a byte at least.
  pub dec_varint-Safe :
      Safe s (pb_dec_varint field dest mem s) × Fewer s (pb_dec_varint field dest mem s).0
  unfolding pb_dec_varint
  dec_varint-Safe = (
    with_value-Safe s _ mem _ h (pb_decode_varint-Stays s h)
        (λ v t k. clamped-Safe _ field dest mem _ t k),
    with_value-Fewer s _ mem _ h (pb_decode_varint-Stays s h) (varint-Fewer s h)
        (λ v t k. clamped-Safe _ field dest mem _ t k),
  )

  pub dec_uvarint-Safe :
      Safe s (pb_dec_uvarint field dest mem s) × Fewer s (pb_dec_uvarint field dest mem s).0
  unfolding pb_dec_uvarint
  dec_uvarint-Safe = (
    with_value-Safe s _ mem _ h (pb_decode_varint-Stays s h)
        (λ v t k. clamped-Safe _ field dest mem v t k),
    with_value-Fewer s _ mem _ h (pb_decode_varint-Stays s h) (varint-Fewer s h)
        (λ v t k. clamped-Safe _ field dest mem v t k),
  )

  pub dec_svarint-Safe :
      Safe s (pb_dec_svarint field dest mem s) × Fewer s (pb_dec_svarint field dest mem s).0
  unfolding pb_dec_svarint
  dec_svarint-Safe = (
    with_value-Safe s _ mem _ h (svarint-Stays s h) (λ v t k. clamped-Safe _ field dest mem v t k),
    with_value-Fewer s _ mem _ h (svarint-Stays s h) (svarint-Fewer s h)
        (λ v t k. clamped-Safe _ field dest mem v t k),
  )

  pub dec_fixed32-Safe :
      Safe s (pb_dec_fixed32 field dest mem s) × Fewer s (pb_dec_fixed32 field dest mem s).0
  unfolding pb_dec_fixed32
  dec_fixed32-Safe = (
    with_value-Safe s _ mem _ h (fixed32-Stays s h) (λ v t k. Follows-refl t k),
    with_value-Fewer s _ mem _ h (fixed32-Stays s h) (fixed32-Fewer s h)
        (λ v t k. Follows-refl t k),
  )

  pub dec_fixed64-Safe :
      Safe s (pb_dec_fixed64 field dest mem s) × Fewer s (pb_dec_fixed64 field dest mem s).0
  unfolding pb_dec_fixed64
  dec_fixed64-Safe = (
    with_value-Safe s _ mem _ h (fixed64-Stays s h) (λ v t k. Follows-refl t k),
    with_value-Fewer s _ mem _ h (fixed64-Stays s h) (fixed64-Fewer s h)
        (λ v t k. Follows-refl t k),
  )
