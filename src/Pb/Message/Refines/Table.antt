-- ===== src/Pb/Message/Refines/Table.antt =====
-- The table of encoders, and the `switch` over the rules of a field.
use daily_diary.Base.{ℕ, zero, suc, ◌≡◌, arith, List, length, get_or}
use daily_diary.Base.{Bool, true, Option, none, some, ◌==◌}
use daily_diary.Pb.{Field, ltype, htype, ltype_fixed32, ltype_fixed64}
use daily_diary.Pb.{htype_required, htype_optional, htype_repeated, htype_oneof}
use daily_diary.Pb.Iter.{size_address}
use daily_diary.Pb.Scalar.{load}
use daily_diary.Pb.Message.{MessageEncoder, Env}
use daily_diary.Pb.Message.Values.{call, pb_encoders, encoder_of, pb_enc_submessage}
use daily_diary.Pb.Encode.Scalars.{little_endian}
use daily_diary.Pb.Message.Arrays.{encode_entry, encode_array}
use daily_diary.Pb.Message.Fields.{has_size, field_data, has_field, encode_by_htype, encode_present}
use daily_diary.Pb.Message.Format.{
  Bytes, entry_bytes, array_bytes, MessageValue, values, no_value, value_of, rule_bytes,
  present_bytes,
}
use daily_diary.Pb.Message.Format.{submessage_value}
use daily_diary.Pb.Message.Describes.{Describes, none-Describes, ok-Describes, if-Describes}
use daily_diary.Pb.Message.Refines.Values.{
  pb_enc_varint-Describes, pb_enc_uvarint-Describes, pb_enc_svarint-Describes,
}
use daily_diary.Pb.Message.Refines.Values.{
  pb_enc_fixed32-Describes, pb_enc_fixed64-Describes, pb_enc_bytes-Describes,
  pb_enc_string-Describes,
}
use daily_diary.Pb.Message.Refines.Values.{pb_enc_fixed_length_bytes-Describes}
use daily_diary.Pb.Message.Refines.Submessage.{pb_encode_submessage-Describes}
use daily_diary.Pb.Message.Refines.Arrays.{encode_entry-Describes, encode_array-Describes}

some-length : (xs bs : List ℕ) → ◌≡◌ {A = Bytes} (some xs) (some bs) → length bs ≡ length xs
some-length xs bs h = ground arith

module _ (message : MessageValue) (pb_encode : MessageEncoder)
    (inner : (fields : List Field) (src : ℕ)
      → Describes (message fields src) (pb_encode fields src))
    (env : Env) where
  pb_enc_submessage-Describes :
      (field : Field) (p : ℕ)
      → Describes (submessage_value message env field p) (pb_enc_submessage pb_encode env field p)
  unfolding pb_enc_submessage
  pb_enc_submessage-Describes field p =
      if-Describes (field.ptr == 0) (λ c. none-Describes)
        (λ c. pb_encode_submessage-Describes pb_encode (env.fields_at field.ptr) p _ (inner _ p))

  table-Describes :
      (t : ℕ) (field : Field) (p : ℕ)
      → Describes
          (get_or (values message env) t no_value field p)
          (call (get_or (pb_encoders pb_encode env) t none) field p)
  unfolding pb_encoders call
  table-Describes zero field p = pb_enc_varint-Describes env.mem field p
  table-Describes (suc zero) field p = pb_enc_uvarint-Describes env.mem field p
  table-Describes (suc (suc zero)) field p = pb_enc_svarint-Describes env.mem field p
  table-Describes (suc (suc (suc zero))) field p = pb_enc_fixed32-Describes env.mem field p
  table-Describes (suc (suc (suc (suc zero)))) field p = pb_enc_fixed64-Describes env.mem field p
  table-Describes (suc (suc (suc (suc (suc zero))))) field p =
      pb_enc_bytes-Describes env.mem field p
  table-Describes (suc (suc (suc (suc (suc (suc zero)))))) field p =
      pb_enc_string-Describes env.mem field p
  table-Describes (suc (suc (suc (suc (suc (suc (suc zero))))))) field p =
      pb_enc_submessage-Describes field p
  table-Describes (suc (suc (suc (suc (suc (suc (suc (suc zero)))))))) field p = none-Describes
  table-Describes (suc (suc (suc (suc (suc (suc (suc (suc (suc zero))))))))) field p =
      pb_enc_fixed_length_bytes-Describes env.mem field p
  table-Describes (suc (suc (suc (suc (suc (suc (suc (suc (suc (suc t)))))))))) field p =
      none-Describes

  value_of-Describes :
      (field : Field) (p : ℕ)
      → Describes
          (value_of message env field field p)
          (call (encoder_of pb_encode env field) field p)
  unfolding value_of encoder_of
  value_of-Describes field p = table-Describes (ltype field.type) field p

  length-fixed32 :
      (t : ℕ)
      → (t == ltype_fixed32) ≡ true
      → (field : Field) (p : ℕ) (bs : List ℕ)
      → get_or (values message env) t no_value field p ≡ some bs
      → length bs ≡ 4
  length-fixed32 t is_fixed =
      let e : t ≡ 3 = ground arith in
      rw e (λ field p bs h. some-length (little_endian 4 (load 4 p env.mem)) bs h)

  length-fixed64 :
      (t : ℕ)
      → (t == ltype_fixed64) ≡ true
      → (field : Field) (p : ℕ) (bs : List ℕ)
      → get_or (values message env) t no_value field p ≡ some bs
      → length bs ≡ 8
  length-fixed64 t is_fixed =
      let e : t ≡ 4 = ground arith in
      rw e (λ field p bs h. some-length (little_endian 8 (load 8 p env.mem)) bs h)

  length-value_of32 :
      (field : Field)
      → (ltype field.type == ltype_fixed32) ≡ true
      → (p : ℕ) (bs : List ℕ) → value_of message env field field p ≡ some bs
      → length bs ≡ 4
  unfolding value_of
  length-value_of32 field c = length-fixed32 (ltype field.type) c field

  length-value_of64 :
      (field : Field)
      → (ltype field.type == ltype_fixed64) ≡ true
      → (p : ℕ) (bs : List ℕ) → value_of message env field field p ≡ some bs
      → length bs ≡ 8
  unfolding value_of
  length-value_of64 field c = length-fixed64 (ltype field.type) c field

  encode_by_htype-Describes :
      (field : Field) (p : ℕ) (has : Bool)
      → Describes
          (rule_bytes (value_of message env field) env field p has)
          (encode_by_htype (call (encoder_of pb_encode env field) field) env field p has)
  unfolding rule_bytes encode_by_htype
  encode_by_htype-Describes field p has =
      if-Describes (htype field.type == htype_required)
        (λ r. if-Describes (field_data env field p == 0) (λ z. none-Describes) (λ z. entry _))
        (λ nr.
          if-Describes (htype field.type == htype_optional)
            (λ o. if-Describes (has_field env field p has) (λ y. entry _) (λ n. ok-Describes))
            (λ no.
              if-Describes (htype field.type == htype_repeated) (λ r. array _ _)
                (λ nr.
                  if-Describes (htype field.type == htype_oneof)
                    (λ o.
                      if-Describes (has_size field)
                        (λ y.
                          if-Describes (load 4 (size_address p field) env.mem == field.tag)
                            (λ y. entry _) (λ n. ok-Describes))
                        (λ n. none-Describes))
                    (λ bad. none-Describes))))
    where
      entry :
          (q : ℕ)
          → Describes
              (entry_bytes (value_of message env field) field q)
              (encode_entry (call (encoder_of pb_encode env field) field) field q)
      entry =
          encode_entry-Describes (call (encoder_of pb_encode env field) field)
            (value_of message env field) field (value_of-Describes field)

      array :
          (q count : ℕ)
          → Describes
              (array_bytes (value_of message env field) env field q count)
              (encode_array (call (encoder_of pb_encode env field) field) env field q count)
      array =
          encode_array-Describes (call (encoder_of pb_encode env field) field)
            (value_of message env field) env field (value_of-Describes field)
            (length-value_of32 field) (length-value_of64 field)

  pub encode_present-Describes :
      (field : Field) (p : ℕ) (has : Option Bool)
      → Describes
          (present_bytes (value_of message env field) env field p has)
          (encode_present (call (encoder_of pb_encode env field) field) env field p has)
  unfolding present_bytes encode_present
  encode_present-Describes field p none = none-Describes
  encode_present-Describes field p (some has) = encode_by_htype-Describes field p _
