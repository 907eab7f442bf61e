-- ===== src/Pb/Encode.antt =====
-- The helper functions of pb_encode.c that write scalars, tags and strings.
pub mod Varint
pub mod Scalars
use daily_diary.Base.{ℕ, zero, suc, ◌-◌, ◌*◌, ◌/◌, ◌^◌, List, [], ◌∷◌, bit_and, bit_or}
use daily_diary.Base.{Option, none, some, if◌then◌else◌, ◌==◌, leb}
use daily_diary.Base.{u8, u64}
use daily_diary.Pb.{Res, fault, invalid_field_type, ◌>>◌, WireType, wire_code, Field, ltype}
use daily_diary.Pb.{ltype_varint, ltype_uvarint, ltype_svarint, ltype_fixed32, ltype_fixed64}
use daily_diary.Pb.{ltype_bytes, ltype_string, ltype_submessage, ltype_fixed_length_bytes}
use daily_diary.Pb.OStream.{OStream, Buf, bytes, count, pb_write, return_error}

-- `while (value) { buffer[i] = (value & 0x7F) | 0x80; value >>= 7; i++; }` with `room` entries of
-- `buffer` left; `none` is a write behind the array.
pub fill_groups : ℕ → ℕ → Option (List ℕ)
fill_groups room zero = some []
fill_groups zero (suc v) = none
fill_groups (suc room) (suc v) = elim (fill_groups room (suc v / 128)) [
  | none ↦ none
  | some bs ↦ some (u8 (bit_or (bit_and (suc v) 0x7f) 0x80) ∷ bs)
]

-- `buffer[i-1] &= 0x7F`.
pub unset_last : List ℕ → List ℕ
unset_last [] = []
unset_last (b ∷ []) = bit_and b 0x7f ∷ []
unset_last (b ∷ c ∷ bs) = b ∷ unset_last (c ∷ bs)

pub write_groups : Option (List ℕ) → OStream → Res OStream (Unit {0})
unfolding unset_last
write_groups none s = fault
write_groups (some bs) s = pb_write (bytes (unset_last bs)) s

unfoldable pub pb_encode_varint : ℕ → OStream → Res OStream (Unit {0})
unfolding write_groups
pb_encode_varint value =
    if leb value 0x7f then pb_write (bytes (u8 value ∷ [])) else write_groups (fill_groups 10 value)

-- The zigzag form of an int64_t, given as its bit pattern; `~x` is `2^64 - 1 - x`.
unfoldable pub zigzag : ℕ → ℕ
zigzag value = if leb (2 ^ 63) value then 2 ^ 64 - 1 - u64 (value * 2) else u64 (value * 2)

unfoldable pub pb_encode_svarint : ℕ → OStream → Res OStream (Unit {0})
unfolding zigzag
pb_encode_svarint value = pb_encode_varint (zigzag value)

-- The byte of `val` that `(val >> k) & 0xFF` takes.
abbrev pub byte_at : ℕ → ℕ → ℕ
byte_at val k = bit_and (val / 2 ^ k) 0xff

unfoldable pub pb_encode_fixed32 : ℕ → OStream → Res OStream (Unit {0})
pb_encode_fixed32 val =
    pb_write (bytes (byte_at val 0 ∷ byte_at val 8 ∷ byte_at val 16 ∷ byte_at val 24 ∷ []))

unfoldable pub pb_encode_fixed64 : ℕ → OStream → Res OStream (Unit {0})
pb_encode_fixed64 val = pb_write (
    bytes (
      byte_at val 0
      ∷ byte_at val 8
      ∷ byte_at val 16
      ∷ byte_at val 24
      ∷ byte_at val 32
      ∷ byte_at val 40
      ∷ byte_at val 48
      ∷ byte_at val 56
      ∷ []))

unfoldable pub pb_encode_tag : WireType → ℕ → OStream → Res OStream (Unit {0})
pb_encode_tag wiretype field_number =
    pb_encode_varint (bit_or (u64 (field_number * 2 ^ 3)) (wire_code wiretype))

-- The `switch` over PB_LTYPE; `none` is its default branch.
unfoldable pub wire_type_of : ℕ → Option WireType
wire_type_of t =
    if t == ltype_varint
    then some WireType.varint
    else if t == ltype_uvarint
    then some WireType.varint
    else if t == ltype_svarint
    then some WireType.varint
    else if t == ltype_fixed32
    then some WireType.bits32
    else if t == ltype_fixed64
    then some WireType.bits64
    else if t == ltype_bytes
    then some WireType.string
    else if t == ltype_string
    then some WireType.string
    else if t == ltype_submessage
    then some WireType.string
    else if t == ltype_fixed_length_bytes
    then some WireType.string
    else none

unfoldable pub pb_encode_tag_for_field : Field → OStream → Res OStream (Unit {0})
unfolding wire_type_of
pb_encode_tag_for_field field s = elim (wire_type_of (ltype field.type)) [
  | none ↦ return_error invalid_field_type s
  | some wiretype ↦ pb_encode_tag wiretype field.tag s
]

unfoldable pub pb_encode_string : Buf → OStream → Res OStream (Unit {0})
pb_encode_string buffer = do pb_encode_varint (count buffer); pb_write buffer
