-- ===== src/Pb/Encode/Scalars.antt =====
-- The bytes that each scalar encoder emits.
use daily_diary.Base.{ℕ, zero, suc, ◌+◌, ◌*◌, ◌/◌, ◌%◌, ◌^◌, ◌<◌, ◌≡◌}
use daily_diary.Base.{arith, List, [], ◌∷◌, ◌++◌, length, length-append}
use daily_diary.Base.{bit_or, u64, IsU32, IsU64, bit_and_mask, bit_or_fields, bit_or_comm}
use mathlib.Core.Path.{fun_ext}
use daily_diary.Pb.{WireType, wire_code}
use daily_diary.Pb.OStream.{bytes}
use daily_diary.Pb.OStream.Emits.{Emits, pb_write-Emits, >>-Emits}
use daily_diary.Pb.Encode.Varint.{encoding, pb_encode_varint-encoding, length-encoding}
use daily_diary.Pb.Encode.{pb_encode_varint, zigzag, pb_encode_svarint, byte_at, pb_encode_fixed32}
use daily_diary.Pb.Encode.{pb_encode_fixed64, pb_encode_tag}
use daily_diary.Pb.Encode.{pb_encode_string}

-- `n` bytes of a number, the lowest first.
abbrev pub little_endian : ℕ → ℕ → List ℕ
little_endian zero v = []
little_endian (suc n) v = v % 256 ∷ little_endian n (v / 256)

pub pb_encode_varint-Emits : (v : ℕ) → IsU64 v → Emits (pb_encode_varint v) (encoding v)
pb_encode_varint-Emits v h =
    rw (fun_ext (λ s. pb_encode_varint-encoding v s h))
      (pb_write-Emits (encoding v) (omega (arith, length-encoding v)))

-- Small absolute values get small codes: 0, -1, 1, -2, … go to 0, 1, 2, 3, …
pub zigzag-lt : (v : ℕ) → IsU64 v → IsU64 (zigzag v)
unfolding zigzag
zigzag-lt v h = ground arith

pub pb_encode_svarint-Emits : (v : ℕ) → IsU64 v → Emits (pb_encode_svarint v) (encoding (zigzag v))
unfolding pb_encode_svarint
pb_encode_svarint-Emits v h = pb_encode_varint-Emits (zigzag v) (zigzag-lt v h)

pub tag_word :
    (w : WireType) (n : ℕ) → IsU32 n → bit_or (u64 (n * 2 ^ 3)) (wire_code w) ≡ 8 * n + wire_code w
tag_word w n h = rw bit_or_comm (ground (arith, fields (wire_code w), code_small w))
  where
    code_small : (w : WireType) → wire_code w < 2 ^ 3
    code_small WireType.varint = omega arith
    code_small WireType.bits64 = omega arith
    code_small WireType.string = omega arith
    code_small WireType.bits32 = omega arith

    fields : (c : ℕ) → c < 2 ^ 3 → bit_or c (n * 2 ^ 3) ≡ c + n * 2 ^ 3
    fields c hc = bit_or_fields 3 c n hc

pub pb_encode_tag-Emits :
    (w : WireType) (n : ℕ) → IsU32 n → Emits (pb_encode_tag w n) (encoding (8 * n + wire_code w))
unfolding pb_encode_tag
pb_encode_tag-Emits w n h = rw (tag_word w n h) (pb_encode_varint-Emits _ (code_fits w))
  where
    code_fits : (w : WireType) → IsU64 (8 * n + wire_code w)
    code_fits WireType.varint = omega arith
    code_fits WireType.bits64 = omega arith
    code_fits WireType.string = omega arith
    code_fits WireType.bits32 = omega arith

pub pb_encode_string-Emits :
    (bs : List ℕ)
    → length (encoding (length bs) ++ bs) < 2 ^ 63
    → Emits (pb_encode_string (bytes bs)) (encoding (length bs) ++ bs)
unfolding pb_encode_string
pb_encode_string-Emits bs h =
    >>-Emits
      (pb_encode_varint-Emits (length bs) (omega (arith, length-append (encoding (length bs)) bs)))
      (pb_write-Emits bs (omega (arith, length-append (encoding (length bs)) bs))) h

low_byte : (v k : ℕ) → byte_at v k ≡ v / 2 ^ k % 256
low_byte v k = bit_and_mask 8 (v / 2 ^ k)

fixed32_bytes :
    (v : ℕ) → (byte_at v 0 ∷ byte_at v 8 ∷ byte_at v 16 ∷ byte_at v 24 ∷ []) ≡ little_endian 4 v
fixed32_bytes v = ground (arith, low_byte v 0, low_byte v 8, low_byte v 16, low_byte v 24)

fixed64_bytes :
    (v : ℕ)
    → (byte_at v 0
        ∷ byte_at v 8
        ∷ byte_at v 16
        ∷ byte_at v 24
        ∷ byte_at v 32
        ∷ byte_at v 40
        ∷ byte_at v 48
        ∷ byte_at v 56
        ∷ [])
      ≡ little_endian 8 v
fixed64_bytes v = ground (
  arith,
  low_byte v 0,
  low_byte v 8,
  low_byte v 16,
  low_byte v 24,
  low_byte v 32,
  low_byte v 40,
  low_byte v 48,
  low_byte v 56,
)

pub pb_encode_fixed32-Emits : (v : ℕ) → Emits (pb_encode_fixed32 v) (little_endian 4 v)
unfolding pb_encode_fixed32
pb_encode_fixed32-Emits v = rw (fixed32_bytes v) (pb_write-Emits _ (omega arith))

pub pb_encode_fixed64-Emits : (v : ℕ) → Emits (pb_encode_fixed64 v) (little_endian 8 v)
unfolding pb_encode_fixed64
pb_encode_fixed64-Emits v = rw (fixed64_bytes v) (pb_write-Emits _ (omega arith))
