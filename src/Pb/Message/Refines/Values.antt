-- ===== src/Pb/Message/Refines/Values.antt =====
-- Tags and single values.
use mathlib.Core.Path.{fun_ext}
use mathlib.Core.List.{append-nil}
use daily_diary.Base.{ℕ, ◌+◌, ◌*◌, ◌^◌, ◌≡◌, refl, sym, arith, List, []}
use daily_diary.Base.{true, Bool-cases, inl, inr, Option, none, some, ltb, ◌==◌, ◌&&◌, IsU64}
use daily_diary.Pb.{Field, WireType, atype, atype_static, wire_code, invalid_field_type, ltype}
use daily_diary.Pb.OStream.{OStream, bytes, null_buf, pb_write, return_error}
use daily_diary.Pb.OStream.Emits.{Emits, >>-Emits}
use daily_diary.Pb.Encode.{pb_encode_tag, wire_type_of, pb_encode_tag_for_field, zigzag}
use daily_diary.Pb.Encode.{pb_encode_string}
use daily_diary.Pb.Encode.Varint.{encoding}
use daily_diary.Pb.Encode.Scalars.{
  pb_encode_tag-Emits, pb_encode_varint-Emits, pb_encode_svarint-Emits,
}
use daily_diary.Pb.Encode.Scalars.{
  pb_encode_string-Emits, pb_encode_fixed32-Emits, pb_encode_fixed64-Emits,
}
use daily_diary.Pb.Scalar.{Memory, load, is_int_size, load_int, to_signed, to_unsigned}
use daily_diary.Pb.Scalar.{
  pb_enc_varint, pb_enc_uvarint, pb_enc_svarint, pb_enc_fixed32, pb_enc_fixed64,
}
use daily_diary.Pb.Message.{Action}
use daily_diary.Pb.Message.Values.{pb_enc_bytes, pb_enc_string, pb_enc_fixed_length_bytes}
use daily_diary.Pb.Message.Format.{
  tag_bytes, int_value, fixed_value, bytes_value, string_value, delimited,
}
use daily_diary.Pb.Message.Format.{fixed_length_value}
use daily_diary.Pb.Message.Describes.{
  Describes, none-Describes, some-Describes, if-Describes, if_in-Describes, guard-Describes,
}

-- `pb_encode_tag_for_field`, by its wire type.
pub encode_tag : Option WireType → ℕ → Action
encode_tag none n = return_error invalid_field_type
encode_tag (some w) n = pb_encode_tag w n

pub pb_encode_tag-Describes :
    (w : WireType) (n : ℕ) → Describes (tag_bytes (some w) n) (pb_encode_tag w n)
pb_encode_tag-Describes w n = guard-Describes (ltb n (2 ^ 32)) (λ fits.
    some-Describes (encoding (8 * n + wire_code w))
      (λ short. pb_encode_tag-Emits w n (ground arith)))

encode_tag-Describes : (w : Option WireType) (n : ℕ) → Describes (tag_bytes w n) (encode_tag w n)
unfolding encode_tag
encode_tag-Describes none n = none-Describes
encode_tag-Describes (some w) n = pb_encode_tag-Describes w n

encode_tag-lem :
    (w : Option WireType) (n : ℕ) (s : OStream)
    → encode_tag w n s
      ≡ elim w [ none ↦ return_error invalid_field_type s | some x ↦ pb_encode_tag x n s ]
unfolding encode_tag
encode_tag-lem none n s = refl
encode_tag-lem (some w) n s = refl

pb_encode_tag_for_field-encode_tag :
    (field : Field)
    → pb_encode_tag_for_field field ≡ encode_tag (wire_type_of (ltype field.type)) field.tag
unfolding pb_encode_tag_for_field
pb_encode_tag_for_field-encode_tag field =
    fun_ext (λ s. sym (encode_tag-lem (wire_type_of (ltype field.type)) field.tag s))

pub pb_encode_tag_for_field-Describes :
    (field : Field)
    → Describes
        (tag_bytes (wire_type_of (ltype field.type)) field.tag)
        (pb_encode_tag_for_field field)
pb_encode_tag_for_field-Describes field =
    rw (pb_encode_tag_for_field-encode_tag field) (encode_tag-Describes _ _)

int_size_lem : (P : ℕ → Type 0) (n : ℕ) → P 8 → P 4 → P 2 → P 1 → is_int_size n ≡ true → P n
int_size_lem P n p8 p4 p2 p1 h = elim (Bool-cases (n == 8)) [
  | inl e ↦ let e' : n ≡ 8 = ground arith in rw e' p8
  | inr n8 ↦ elim (Bool-cases (n == 4)) [
    | inl e ↦ let e' : n ≡ 4 = ground arith in rw e' p4
    | inr n4 ↦ elim (Bool-cases (n == 2)) [
      | inl e ↦ let e' : n ≡ 2 = ground arith in rw e' p2
      | inr n2 ↦ let e' : n ≡ 1 = ground arith in rw e' p1
    ]
  ]
]

to_signed-lt :
    (field : Field) (p : ℕ) (mem : Memory)
    → is_int_size field.data_size ≡ true
    → IsU64 (load_int to_signed field p mem)
to_signed-lt field p mem h =
    int_size_lem (λ n. IsU64 (to_signed n (load n p mem))) field.data_size (ground arith)
      (ground arith) (ground arith) (ground arith) h

to_unsigned-lt :
    (field : Field) (p : ℕ) (mem : Memory)
    → is_int_size field.data_size ≡ true
    → IsU64 (load_int to_unsigned field p mem)
to_unsigned-lt field p mem h =
    int_size_lem (λ n. IsU64 (to_unsigned n (load n p mem))) field.data_size (omega arith)
      (omega arith) (omega arith) (omega arith) h

pub pb_enc_varint-Describes :
    (mem : Memory) (field : Field) (p : ℕ)
    → Describes (int_value to_signed (λ v. v) mem field p) (pb_enc_varint field p mem)
unfolding pb_enc_varint
pb_enc_varint-Describes mem field p =
    if_in-Describes _
      (λ c. some-Describes _ (λ short. pb_encode_varint-Emits _ (to_signed-lt field p mem c)))
      (λ c. none-Describes)

pub pb_enc_uvarint-Describes :
    (mem : Memory) (field : Field) (p : ℕ)
    → Describes (int_value to_unsigned (λ v. v) mem field p) (pb_enc_uvarint field p mem)
unfolding pb_enc_uvarint
pb_enc_uvarint-Describes mem field p =
    if_in-Describes _
      (λ c. some-Describes _ (λ short. pb_encode_varint-Emits _ (to_unsigned-lt field p mem c)))
      (λ c. none-Describes)

pub pb_enc_svarint-Describes :
    (mem : Memory) (field : Field) (p : ℕ)
    → Describes (int_value to_signed zigzag mem field p) (pb_enc_svarint field p mem)
unfolding pb_enc_svarint
pb_enc_svarint-Describes mem field p =
    if_in-Describes _
      (λ c. some-Describes _ (λ short. pb_encode_svarint-Emits _ (to_signed-lt field p mem c)))
      (λ c. none-Describes)

pub pb_enc_fixed32-Describes :
    (mem : Memory) (field : Field) (p : ℕ)
    → Describes (fixed_value 4 mem field p) (pb_enc_fixed32 field p mem)
unfolding pb_enc_fixed32
pb_enc_fixed32-Describes mem field p = some-Describes _ (λ short. pb_encode_fixed32-Emits _)

pub pb_enc_fixed64-Describes :
    (mem : Memory) (field : Field) (p : ℕ)
    → Describes (fixed_value 8 mem field p) (pb_enc_fixed64 field p mem)
unfolding pb_enc_fixed64
pb_enc_fixed64-Describes mem field p = some-Describes _ (λ short. pb_encode_fixed64-Emits _)

null_buf-Emits : Emits (pb_write (null_buf 0)) []
unfolding pb_write
null_buf-Emits = record {
  short = omega arith;
  sized = λ s h u. ground arith;
  full = λ s b h. ground (arith, append-nil s.out);
  refused = λ s b h. absurd (let w = b.within in omega arith);
}

empty-Describes : Describes (some (delimited [])) (pb_encode_string (null_buf 0))
unfolding pb_encode_string
empty-Describes =
    some-Describes _
      (λ short. >>-Emits (pb_encode_varint-Emits 0 (omega arith)) null_buf-Emits short)

string-Describes : (bs : List ℕ) → Describes (some (delimited bs)) (pb_encode_string (bytes bs))
string-Describes bs = some-Describes _ (λ short. pb_encode_string-Emits bs short)

pub pb_enc_bytes-Describes :
    (mem : Memory) (field : Field) (p : ℕ)
    → Describes (bytes_value mem field p) (pb_enc_bytes mem field p)
unfolding pb_enc_bytes
pb_enc_bytes-Describes mem field p =
    if-Describes (p == 0) (λ c. empty-Describes)
      (λ c.
        if-Describes (atype field.type == atype_static && ltb field.data_size (load 4 p mem + 4))
          (λ d. none-Describes) (λ d. string-Describes _))

pub pb_enc_string-Describes :
    (mem : Memory) (field : Field) (p : ℕ)
    → Describes (string_value mem field p) (pb_enc_string mem field p)
unfolding pb_enc_string
pb_enc_string-Describes mem field p =
    if-Describes (p == 0) (λ c. empty-Describes) (λ c. string-Describes _)

pub pb_enc_fixed_length_bytes-Describes :
    (mem : Memory) (field : Field) (p : ℕ)
    → Describes (fixed_length_value mem field p) (pb_enc_fixed_length_bytes mem field p)
unfolding pb_enc_fixed_length_bytes
pb_enc_fixed_length_bytes-Describes mem field p = string-Describes _
