-- ===== src/Pb/Scalar.antt =====
-- The field codecs of pb_encode.c and pb_decode.c for integers: `pb_enc_varint` to
-- `pb_enc_fixed32`, and `pb_dec_varint` to `pb_dec_fixed64`.
pub mod Store
use daily_diary.Base.{
  ℕ, zero, suc, ◌+◌, ◌-◌, ◌*◌, ◌/◌, ◌%◌, ◌^◌, List, Bool, leb, ◌==◌, ◌||◌, if◌then◌else◌,
}
use daily_diary.Pb.{Field, Res, ok, fail, fault, invalid_data_size, integer_too_large}
use daily_diary.Pb.OStream
use daily_diary.Pb.OStream.{OStream}
use daily_diary.Pb.IStream.{IStream, return_error}
use daily_diary.Pb.Encode.{
  pb_encode_varint, pb_encode_svarint, pb_encode_fixed32, pb_encode_fixed64,
}
use daily_diary.Pb.Decode.{pb_decode_varint, pb_decode_svarint}
use daily_diary.Pb.Fixed.{pb_decode_fixed32, pb_decode_fixed64}

-- The bytes at all addresses. The target is little-endian.
abbrev pub Memory : Type 0
Memory = ℕ → ℕ

unfoldable pub load : ℕ → ℕ → Memory → ℕ
load zero a mem = 0
load (suc size) a mem = mem a + 256 * load size (suc a) mem

unfoldable pub store : ℕ → ℕ → ℕ → Memory → Memory
store zero v a mem = mem
store (suc size) v a mem = store size (v / 256) (suc a) (λ x. if x == a then v % 256 else mem x)

-- The sizes of the four integer types.
abbrev pub is_int_size : ℕ → Bool
is_int_size size = size == 8 || size == 4 || size == 2 || size == 1

-- A conversion to the unsigned, and to the signed type of a size, as a 64-bit pattern.
abbrev pub to_unsigned : ℕ → ℕ → ℕ
to_unsigned size v = v % 256 ^ size

abbrev pub to_signed : ℕ → ℕ → ℕ
to_signed size v =
    if leb (256 ^ size) (2 * (v % 256 ^ size))
    then v % 256 ^ size + (2 ^ 64 - 256 ^ size)
    else v % 256 ^ size

-- Behind the reading of `value`: the store by `data_size`, and the test for an overflow. The
-- result is that of the call, and the memory.
unfoldable pub store_clamped :
    (ℕ → ℕ → ℕ) → Field → ℕ → Memory → ℕ → IStream → Res IStream (Unit {0}) × Memory
store_clamped clamp field dest mem value s =
    if is_int_size field.data_size
    then (
      (if clamp field.data_size value == value then ok tt s else return_error integer_too_large s),
      store field.data_size value dest mem,
    )
    else (return_error invalid_data_size s, mem)

-- `if (!pb_decode_varint(stream, &value)) return false;` before what uses the value.
unfoldable pub with_value :
    Res IStream ℕ
    → Memory
    → (ℕ → IStream → Res IStream (Unit {0}) × Memory)
    → Res IStream (Unit {0}) × Memory
with_value (ok value s) mem k = k value s
with_value (fail s) mem k = (fail s, mem)
with_value fault mem k = (fault, mem)

-- `svalue`: fields of at most 32 bits are cast to int32_t first.
abbrev pub svalue_of : Field → ℕ → ℕ
svalue_of field value = if field.data_size == 8 then value else to_signed 4 value

unfoldable pub pb_dec_varint : Field → ℕ → Memory → IStream → Res IStream (Unit {0}) × Memory
pb_dec_varint field dest mem s =
    with_value (pb_decode_varint s) mem
      (λ value t. store_clamped to_signed field dest mem (svalue_of field value) t)

unfoldable pub pb_dec_uvarint : Field → ℕ → Memory → IStream → Res IStream (Unit {0}) × Memory
pb_dec_uvarint field dest mem s =
    with_value (pb_decode_varint s) mem
      (λ value t. store_clamped to_unsigned field dest mem value t)

unfoldable pub pb_dec_svarint : Field → ℕ → Memory → IStream → Res IStream (Unit {0}) × Memory
pb_dec_svarint field dest mem s =
    with_value (pb_decode_svarint s) mem (λ value t. store_clamped to_signed field dest mem value t)

unfoldable pub pb_dec_fixed32 : Field → ℕ → Memory → IStream → Res IStream (Unit {0}) × Memory
pb_dec_fixed32 field dest mem s =
    with_value (pb_decode_fixed32 s) mem (λ value t. (ok tt t, store 4 value dest mem))

unfoldable pub pb_dec_fixed64 : Field → ℕ → Memory → IStream → Res IStream (Unit {0}) × Memory
pb_dec_fixed64 field dest mem s =
    with_value (pb_decode_fixed64 s) mem (λ value t. (ok tt t, store 8 value dest mem))

-- The value of a field, by `data_size`.
abbrev pub load_int : (ℕ → ℕ → ℕ) → Field → ℕ → Memory → ℕ
load_int convert field src mem = convert field.data_size (load field.data_size src mem)

unfoldable pub pb_enc_varint : Field → ℕ → Memory → OStream → Res OStream (Unit {0})
pb_enc_varint field src mem s =
    if is_int_size field.data_size
    then pb_encode_varint (load_int to_signed field src mem) s
    else OStream.return_error invalid_data_size s

unfoldable pub pb_enc_uvarint : Field → ℕ → Memory → OStream → Res OStream (Unit {0})
pb_enc_uvarint field src mem s =
    if is_int_size field.data_size
    then pb_encode_varint (load_int to_unsigned field src mem) s
    else OStream.return_error invalid_data_size s

unfoldable pub pb_enc_svarint : Field → ℕ → Memory → OStream → Res OStream (Unit {0})
pb_enc_svarint field src mem s =
    if is_int_size field.data_size
    then pb_encode_svarint (load_int to_signed field src mem) s
    else OStream.return_error invalid_data_size s

unfoldable pub pb_enc_fixed64 : Field → ℕ → Memory → OStream → Res OStream (Unit {0})
pb_enc_fixed64 field src mem = pb_encode_fixed64 (load 8 src mem)

unfoldable pub pb_enc_fixed32 : Field → ℕ → Memory → OStream → Res OStream (Unit {0})
pb_enc_fixed32 field src mem = pb_encode_fixed32 (load 4 src mem)
