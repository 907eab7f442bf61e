-- ===== src/Pb.antt =====
-- What pb.h declares for both directions: error messages, wire types, the type byte of a field
-- descriptor and the descriptor itself. The build sets PB_FIELD_32BIT, PB_ENABLE_MALLOC and
-- PB_NO_PACKED_STRUCTS, so `pb_size_t` is 32 bits wide and error messages are kept.
pub mod OStream
pub mod Encode
pub mod IStream
pub mod Decode
pub mod Fixed
pub mod RoundTrip
pub mod Iter
pub mod Scalar
pub mod Message
pub mod Blobs
pub mod Static
pub mod Defaults
pub mod Decoder
use daily_diary.Base.{ℕ, ◌^◌, ◌-◌, bit_and, Option, none, some}
pub use daily_diary.Base.{Res, ok, fail, fault, ◌>>=◌, ◌>>◌, >>=-ok, >>=-fail}

-- The literals that PB_RETURN_ERROR is given.
pub data ErrMsg : Type 0 where
  stream_full io_error end_of_stream varint_overflow invalid_wire_type : ErrMsg
  parent_stream_too_short invalid_field_type invalid_data_size integer_too_large : ErrMsg
  bytes_overflow bytes_size_exceeded size_too_large string_overflow : ErrMsg
  incorrect_fixed_length_bytes_size no_malloc_support array_max_size_exceeded : ErrMsg
  missing_required_field callback_error submsg_size_changed invalid_field_descriptor : ErrMsg
  invalid_size realloc_failed array_overflow too_many_array_entries callback_failed : ErrMsg
  invalid_union_tag iterator_error wrong_size_for_fixed_count_field : ErrMsg

-- PB_SET_ERROR keeps the first message.
abbrev pub first_error : Option ErrMsg → ErrMsg → Option ErrMsg
first_error none m = some m
first_error (some e) m = some e

pub data WireType : Type 0 where
  varint bits64 string bits32 : WireType

-- The enumerators' values; 3, 4, 6 and 7 name no enumerator.
abbrev pub wire_code : WireType → ℕ
wire_code varint = 0
wire_code bits64 = 1
wire_code string = 2
wire_code bits32 = 5

abbrev pub ltype_varint : ℕ
ltype_varint = 0x00

abbrev pub ltype_uvarint : ℕ
ltype_uvarint = 0x01

abbrev pub ltype_svarint : ℕ
ltype_svarint = 0x02

abbrev pub ltype_fixed32 : ℕ
ltype_fixed32 = 0x03

abbrev pub ltype_fixed64 : ℕ
ltype_fixed64 = 0x04

abbrev pub ltype_bytes : ℕ
ltype_bytes = 0x05

abbrev pub ltype_string : ℕ
ltype_string = 0x06

abbrev pub ltype_submessage : ℕ
ltype_submessage = 0x07

abbrev pub ltype_extension : ℕ
ltype_extension = 0x08

abbrev pub ltype_fixed_length_bytes : ℕ
ltype_fixed_length_bytes = 0x09

abbrev pub htype_required : ℕ
htype_required = 0x00

abbrev pub htype_optional : ℕ
htype_optional = 0x10

abbrev pub htype_repeated : ℕ
htype_repeated = 0x20

abbrev pub htype_oneof : ℕ
htype_oneof = 0x30

abbrev pub atype_static : ℕ
atype_static = 0x00

abbrev pub atype_pointer : ℕ
atype_pointer = 0x80

abbrev pub atype_callback : ℕ
atype_callback = 0x40

-- PB_LTYPE, PB_HTYPE and PB_ATYPE.
abbrev pub ltype : ℕ → ℕ
ltype t = bit_and t 0x0f

abbrev pub htype : ℕ → ℕ
htype t = bit_and t 0x30

abbrev pub atype : ℕ → ℕ
atype t = bit_and t 0xc0

-- PB_SIZE_MAX, of a 32-bit pb_size_t.
abbrev pub size_max : ℕ
size_max = 2 ^ 32 - 1

-- pb_field_t. `size_offset` is the bit pattern of an int32_t, and `ptr` an address, 0 for NULL.
pub record Field : Type 0 where
  pub tag : ℕ
  pub type : ℕ
  pub data_offset : ℕ
  pub size_offset : ℕ
  pub data_size : ℕ
  pub array_size : ℕ
  pub ptr : ℕ
