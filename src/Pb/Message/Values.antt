-- ===== src/Pb/Message/Values.antt =====
-- The encoders of pb_encode.c for bytes, strings and submessages, and the table of all encoders.
use daily_diary.Base.{ℕ, zero, suc, ◌+◌, ◌-◌, ◌^◌, List, [], ◌∷◌, get_or}
use daily_diary.Base.{true, false, ltb, ◌==◌, ◌&&◌, if◌then◌else◌, Option, none, some}
use daily_diary.Pb.{Field, atype, atype_static, atype_pointer, ltype, fault}
use daily_diary.Pb.{bytes_size_exceeded, invalid_field_descriptor}
use daily_diary.Pb.OStream.{bytes, null_buf, return_error}
use daily_diary.Pb.Encode.{pb_encode_string}
use daily_diary.Pb.Scalar.{Memory, load, pb_enc_varint, pb_enc_uvarint, pb_enc_svarint}
use daily_diary.Pb.Scalar.{pb_enc_fixed32, pb_enc_fixed64}
use daily_diary.Pb.Message.{Encoder, MessageEncoder, Env, load_bytes}
use daily_diary.Pb.Message.Submessage.{pb_encode_submessage}

-- `while (size < max_size && *p != '\0') { size++; p++; }`.
unfoldable pub string_size : ℕ → ℕ → Memory → ℕ
string_size zero p mem = 0
string_size (suc max_size) p mem = elim (mem p == 0) [
  | true ↦ 0
  | false ↦ suc (string_size max_size (suc p) mem)
]

-- A pb_bytes_array_t is a pb_size_t of 4 bytes and then the bytes.
unfoldable pub pb_enc_bytes : Memory → Encoder
pb_enc_bytes mem field src =
    if src == 0
    then pb_encode_string (null_buf 0)
    else if atype field.type == atype_static && ltb field.data_size (load 4 src mem + 4)
    then return_error bytes_size_exceeded
    else pb_encode_string (bytes (load_bytes (load 4 src mem) (src + 4) mem))

abbrev pub max_string_size : Field → ℕ
max_string_size field = if atype field.type == atype_pointer then 2 ^ 64 - 1 else field.data_size

unfoldable pub pb_enc_string : Memory → Encoder
pb_enc_string mem field src =
    if src == 0
    then pb_encode_string (null_buf 0)
    else pb_encode_string (bytes (load_bytes (string_size (max_string_size field) src mem) src mem))

unfoldable pub pb_enc_submessage : MessageEncoder → Env → Encoder
pb_enc_submessage pb_encode env field src =
    if field.ptr == 0
    then return_error invalid_field_descriptor
    else pb_encode_submessage pb_encode (env.fields_at field.ptr) src

unfoldable pub pb_enc_fixed_length_bytes : Memory → Encoder
pb_enc_fixed_length_bytes mem field src =
    pb_encode_string (bytes (load_bytes field.data_size src mem))

-- PB_ENCODERS.
unfoldable pub pb_encoders : MessageEncoder → Env → List (Option Encoder)
pb_encoders pb_encode env =
    some (λ field src. pb_enc_varint field src env.mem)
    ∷ some (λ field src. pb_enc_uvarint field src env.mem)
    ∷ some (λ field src. pb_enc_svarint field src env.mem)
    ∷ some (λ field src. pb_enc_fixed32 field src env.mem)
    ∷ some (λ field src. pb_enc_fixed64 field src env.mem)
    ∷ some (pb_enc_bytes env.mem)
    ∷ some (pb_enc_string env.mem)
    ∷ some (pb_enc_submessage pb_encode env)
    ∷ none
    ∷ some (pb_enc_fixed_length_bytes env.mem)
    ∷ []

-- `func = PB_ENCODERS[PB_LTYPE(field->type)]`. A type behind the table gives NULL; each call of
-- `func` comes behind a tag, which no such type has.
unfoldable pub encoder_of : MessageEncoder → Env → Field → Option Encoder
unfolding pb_encoders
encoder_of pb_encode env field = get_or (pb_encoders pb_encode env) (ltype field.type) none

-- `func(stream, field, pData)`.
unfoldable pub call : Option Encoder → Encoder
call none field p = λ s. fault
call (some func) field p = func field p
