-- ===== src/Pb/Decoder/Safe/Tags.antt =====
-- A round of the loop of `pb_decode_noinit` takes a byte for its tag.
use daily_diary.Base.{ℕ, ◌/◌, ◌^◌, ◌≤◌, bit_and, ◌<◌}
use daily_diary.Base.{Bool, true, false, ◌==◌}
use daily_diary.Base.{if◌then◌else◌}
use daily_diary.Pb.{Res, ok, fail, fault}
use daily_diary.Pb.IStream.{IStream}
use daily_diary.Pb.Decode.{
  Tag, pb_decode_tag, pb_decode_varint32, pb_decode_varint32_eof, split_tag,
}
use daily_diary.Pb.Decode.Bounds.{IsInBounds, Follows, Follows-IsInBounds}
use daily_diary.Pb.Decode.Bounds.{Stays}
use daily_diary.Pb.Decode.Loops.{pb_decode_varint32-Stays}
use daily_diary.Pb.Scalar.{Memory}
use daily_diary.Pb.Decoder.{Result, and_with}
use daily_diary.Pb.Decoder.Fields.Index.{Yields}
use daily_diary.Pb.Decoder.Safe.{Safe, Fewer}
use daily_diary.Pb.Decoder.Safe.Scalars.{varint32_eof-Fewer}
use daily_diary.Pb.Decoder.Safe.Results.{SafeWith, SafeWith-trans}

-- A tag that was read took a byte.
abbrev pub TagRead : IStream → Res IStream Tag × Bool → Type 0
TagRead s (ok t u, eof) = Follows s u × (u.bytes_left < s.bytes_left)
TagRead s (fail u, eof) = Follows s u
TagRead s (fault, eof) = ⊥

split-TagRead :
    (s : IStream) (r : Res IStream ℕ × Bool) → Stays s r.0 → Fewer s r.0 → TagRead s (split_tag r)
split-TagRead s (ok temp t, eof) p less = choose (temp == 0)
  where
    choose :
        (c : Bool)
        → TagRead s (
            if c
            then (fail t, true)
            else (ok (record { tag = temp / 2 ^ 3; wire_type = bit_and temp 7 }) t, eof))
    choose true = p
    choose false = (p, less)
split-TagRead s (fail t, eof) p less = p
split-TagRead s (fault, eof) p less = p

pub decode_tag-TagRead : (s : IStream) → IsInBounds s → TagRead s (pb_decode_tag s)
unfolding pb_decode_tag pb_decode_varint32
decode_tag-TagRead s h =
    split-TagRead s (pb_decode_varint32_eof false s) (pb_decode_varint32-Stays s h)
      (varint32_eof-Fewer s h)

pub combined :
    {A : Type 0} (P : A → Type 0) (s : IStream) (r : Result A)
    → Safe s r
    → Yields P r
    → SafeWith P s r
combined P s (ok a t, mem) p q = (p, q)
combined P s (fail t, mem) p q = p
combined P s (fault, mem) p q = p

-- A call whose stream goes on into the next round.
pub and_with-Less :
    {A : Type 0} (P : A → Type 0) (s : IStream) (r : Result A) (k : A → Memory → IStream → Result A)
    → IsInBounds s
    → SafeWith P s r
    → ((a : A) (mem : Memory) (t : IStream)
        → IsInBounds t
        → P a
        → t.bytes_left ≤ s.bytes_left
        → SafeWith P t (k a mem t))
    → SafeWith P s (and_with r k)
unfolding and_with
and_with-Less P s (ok a t, mem) k h (p, q) each =
    SafeWith-trans P s t (k a mem t) p (each a mem t (Follows-IsInBounds h p) q p.shrinks)
and_with-Less P s (fail t, mem) k h p each = p
and_with-Less P s (fault, mem) k h p each = p
