-- ===== src/Pb/RoundTrip.antt =====
-- What the encoders of pb_encode.c write, the decoders of pb_decode.c read back: through the two
-- stream types, over one buffer.
use mathlib.Core.List.{append-nil}
use daily_diary.Base.{ℕ, ◌+◌, ◌-◌, ◌*◌, ◌^◌, ◌≤◌, ◌<◌, ◌≡◌, sym, ap, ◌∙◌}
use daily_diary.Base.{arith, List, [], ◌++◌, length, none, false, bit_and_mask}
use daily_diary.Base.{IsU32, IsU64, u64, Option}
use daily_diary.Pb.{ErrMsg, WireType, wire_code, Res, ok, >>=-ok}
use daily_diary.Pb.OStream.{OStream, pb_ostream_from_buffer}
use daily_diary.Pb.OStream.Emits.{Emits, appended, pb_ostream_from_buffer-IsBuffer}
use daily_diary.Pb.IStream.{IStream, pb_istream_from_buffer}
use daily_diary.Pb.IStream.Buffer.{buffer}
use daily_diary.Pb.Encode.{pb_encode_varint, pb_encode_svarint, zigzag, pb_encode_fixed32}
use daily_diary.Pb.Encode.{pb_encode_fixed64, pb_encode_tag}
use daily_diary.Pb.Encode.Varint.{
  encoding, length-encoding, encoding-IsVarint, varint_value-encoding,
}
use daily_diary.Pb.Encode.Varint.{length-encoding32}
use daily_diary.Pb.Encode.Scalars.{little_endian, zigzag-lt, pb_encode_varint-Emits}
use daily_diary.Pb.Encode.Scalars.{
  pb_encode_svarint-Emits, pb_encode_tag-Emits, pb_encode_fixed32-Emits,
}
use daily_diary.Pb.Encode.Scalars.{pb_encode_fixed64-Emits}
use daily_diary.Pb.Decode.{pb_decode_varint, pb_decode_varint32, pb_decode_varint32_eof}
use daily_diary.Pb.Decode.{unzigzag, pb_decode_svarint, pb_decode_tag, split_tag}
use daily_diary.Pb.Decode.Varint.{varint_value, pb_decode_varint-value}
use daily_diary.Pb.Decode.Varint32.{pb_decode_varint32-value}
use daily_diary.Pb.Fixed.{pb_decode_fixed32, pb_decode_fixed64}
use daily_diary.Pb.Fixed.Value.{pb_decode_fixed32-value, pb_decode_fixed64-value}

-- Encoded into a buffer of `n` bytes by `e`, a value is read back by `d`, which leaves nothing.
abbrev pub ReadsBack :
    {A : Type 0} → (OStream → Res OStream (Unit {0})) → (IStream → Res IStream A) → ℕ → A → Type 0
ReadsBack e d n a =
    (t : OStream) × (e (pb_ostream_from_buffer n) ≡ ok tt t)
    × (d (pb_istream_from_buffer t.out t.bytes_written) ≡ ok a (pb_istream_from_buffer [] 0))

-- An encoder that emits `bs`, and a decoder that takes just `bs` from any buffer.
reads_back :
    {A : Type 0} (e : OStream → Res OStream (Unit {0})) (d : IStream → Res IStream A) (n : ℕ)
    (a : A) (bs : List ℕ)
    → n < 2 ^ 63
    → Emits e bs
    → length bs ≤ n
    → d (buffer (bs ++ []) (length bs + 0) none) ≡ ok a (buffer [] 0 none)
    → ReadsBack e d n a
unfolding pb_ostream_from_buffer pb_istream_from_buffer
reads_back e d n a bs word emits fits taken = (
  appended bs (pb_ostream_from_buffer n),
  emits.full _ (pb_ostream_from_buffer-IsBuffer n word) (omega arith),
  ap (λ b. d (buffer bs b none)) counted
      ∙ ap (λ xs. d (buffer xs (length bs + 0) none)) (sym (append-nil bs))
      ∙ taken,
)
  where
    counted : 0 + length bs ≡ length bs + 0
    counted = omega arith

-- The value decoders on what was encoded, whatever stands behind it.
pub decode_encoding :
    (v : ℕ) (rest : List ℕ) (k : ℕ) (e : Option ErrMsg)
    → IsU64 v
    → pb_decode_varint (buffer (encoding v ++ rest) (length (encoding v) + k) e)
      ≡ ok v (buffer rest k e)
decode_encoding v rest k e h =
    pb_decode_varint-value (encoding v) rest k e (encoding-IsVarint v h) (length-encoding v).1
    ∙ ap (λ w. ok w (buffer rest k e)) value
  where
    value : u64 (varint_value (encoding v)) ≡ v
    value = omega (arith, varint_value-encoding v h)

pub decode_encoding32 :
    (v : ℕ) (rest : List ℕ) (k : ℕ) (e : Option ErrMsg)
    → IsU32 v
    → pb_decode_varint32 (buffer (encoding v ++ rest) (length (encoding v) + k) e)
      ≡ ok v (buffer rest k e)
decode_encoding32 v rest k e h =
    let len = length-encoding32 v h in
    pb_decode_varint32-value (encoding v) rest k e (encoding-IsVarint v (omega arith)) len
      (rw value h)
    ∙ ap (λ w. ok w (buffer rest k e)) value
  where
    value : varint_value (encoding v) ≡ v
    value = varint_value-encoding v (omega arith)

-- A uint64 that `pb_encode_varint` writes to a buffer with ten bytes of room or more is read
-- back by `pb_decode_varint`, which leaves nothing unread.
pub pb_decode_varint-encode :
    (v n : ℕ) → IsU64 v → 10 ≤ n → n < 2 ^ 63 → ReadsBack (pb_encode_varint v) pb_decode_varint n v
pb_decode_varint-encode v n h room word =
    reads_back _ pb_decode_varint n v (encoding v) word (pb_encode_varint-Emits v h)
      (omega (arith, length-encoding v)) (decode_encoding v [] 0 none h)

unzigzag-zigzag : (v : ℕ) → IsU64 v → unzigzag (zigzag v) ≡ v
unfolding unzigzag zigzag
unzigzag-zigzag v h =
    ground (arith, bit_and_mask 1 (2 ^ 64 - 1 - u64 (v * 2)), bit_and_mask 1 (u64 (v * 2)))

-- An int64_t, given by its bit pattern, that `pb_encode_svarint` writes to a buffer with ten
-- bytes of room or more is read back by `pb_decode_svarint`, which leaves nothing unread.
pub pb_decode_svarint-encode :
    (v n : ℕ)
    → IsU64 v
    → 10 ≤ n
    → n < 2 ^ 63
    → ReadsBack (pb_encode_svarint v) pb_decode_svarint n v
pb_decode_svarint-encode v n h room word =
    reads_back _ pb_decode_svarint n v (encoding (zigzag v)) word (pb_encode_svarint-Emits v h)
      (omega (arith, length-encoding (zigzag v))) read
  where
    read :
        pb_decode_svarint
          (buffer (encoding (zigzag v) ++ []) (length (encoding (zigzag v)) + 0) none)
        ≡ ok v (buffer [] 0 none)
    read =
        unfold pb_decode_svarint in
        >>=-ok pb_decode_varint _ _ (decode_encoding (zigzag v) [] 0 none (zigzag-lt v h))
        ∙ ap (λ w. ok w (buffer [] 0 none)) (unzigzag-zigzag v h)

-- Where `pb_decode_varint32` succeeds, no end of the stream is reported.
eof_unset :
    (s t : IStream) (v : ℕ)
    → pb_decode_varint32 s ≡ ok v t
    → pb_decode_varint32_eof false s ≡ (ok v t, false)
unfolding pb_decode_varint32 pb_decode_varint32_eof
eof_unset s t v e = ground arith

-- Above three bits of wire type stands the field number.
split_word :
    (w : WireType) (number : ℕ) (s t : IStream)
    → 0 < number
    → pb_decode_varint32 s ≡ ok (8 * number + wire_code w) t
    → pb_decode_tag s ≡ (ok (record { tag = number; wire_type = wire_code w }) t, false)
unfolding pb_decode_tag
split_word w number s t pos e =
    ap split_tag (eof_unset s t _ e)
    ∙ ground (arith, bit_and_mask 3 (8 * number + wire_code w), code_small w)
  where
    code_small : (w : WireType) → wire_code w < 8
    code_small WireType.varint = omega arith
    code_small WireType.bits64 = omega arith
    code_small WireType.string = omega arith
    code_small WireType.bits32 = omega arith

-- A field number other than 0 and below 2 ^ 29 and its wire type, written by `pb_encode_tag` to
-- a buffer with five bytes of room or more, are read back by `pb_decode_tag`, which reports no
-- end of the stream.
pub pb_decode_tag-encode :
    (w : WireType) (number n : ℕ)
    → 0 < number
    → number < 2 ^ 29
    → 5 ≤ n
    → n < 2 ^ 63
    → (t : OStream) × (pb_encode_tag w number (pb_ostream_from_buffer n) ≡ ok tt t)
      × (pb_decode_tag (pb_istream_from_buffer t.out t.bytes_written) ≡ (
        ok (record { tag = number; wire_type = wire_code w }) (pb_istream_from_buffer [] 0),
        false,
      ))
pb_decode_tag-encode w number n pos small room word =
    let (t, wrote, read) =
      reads_back _ pb_decode_varint32 n (8 * number + wire_code w)
        (encoding (8 * number + wire_code w)) word (pb_encode_tag-Emits w number (omega arith))
        (omega (arith, length-encoding32 _ (word_fits w)))
        (decode_encoding32 _ [] 0 none (word_fits w)) in
    (t, wrote, split_word w number _ _ pos read)
  where
    word_fits : (w : WireType) → IsU32 (8 * number + wire_code w)
    word_fits WireType.varint = omega arith
    word_fits WireType.bits64 = omega arith
    word_fits WireType.string = omega arith
    word_fits WireType.bits32 = omega arith

-- A uint32 that `pb_encode_fixed32` writes to a buffer with four bytes of room or more is read
-- back by `pb_decode_fixed32`, which leaves nothing unread.
pub pb_decode_fixed32-encode :
    (v n : ℕ) → IsU32 v → 4 ≤ n → n < 2 ^ 63 → ReadsBack (pb_encode_fixed32 v) pb_decode_fixed32 n v
pb_decode_fixed32-encode v n h room word =
    reads_back _ pb_decode_fixed32 n v (little_endian 4 v) word (pb_encode_fixed32-Emits v) room
      (pb_decode_fixed32-value v [] 0 none h)

-- A uint64 that `pb_encode_fixed64` writes to a buffer with eight bytes of room or more is read
-- back by `pb_decode_fixed64`, which leaves nothing unread.
pub pb_decode_fixed64-encode :
    (v n : ℕ) → IsU64 v → 8 ≤ n → n < 2 ^ 63 → ReadsBack (pb_encode_fixed64 v) pb_decode_fixed64 n v
pb_decode_fixed64-encode v n h room word =
    reads_back _ pb_decode_fixed64 n v (little_endian 8 v) word (pb_encode_fixed64-Emits v) room
      (pb_decode_fixed64-value v [] 0 none h)
