-- ===== src/Tests/Messages.antt =====
-- The message encoder at concrete inputs.
use mathlib.Core.Option
use daily_diary.Base.{ℕ, ◌-◌, ◌^◌, ◌≡◌, refl, arith, List, [], ◌∷◌, none, some, ◌==◌}
use daily_diary.Base.{true, if◌then◌else◌, length, zero, suc, ◌<◌}
use daily_diary.Pb.{Field, ok, fault}
use daily_diary.Pb.OStream.Emits.{Emits}
use daily_diary.Pb.Iter.{field_at, pb_field_iter_begin, pb_field_iter_next}
use daily_diary.Pb.Scalar.{Memory, load}
use daily_diary.Pb.Message.{Env}
use daily_diary.Pb.Message.Absent.{message_visits, visits, pb_check_proto3_default_value}
use daily_diary.Pb.Message.Encode.{pb_encode, pb_get_encoded_size}
use daily_diary.Pb.Message.Format.{
  UserBytes, message_bytes, visited_bytes, visits_bytes, visit_bytes,
}
use daily_diary.Pb.Message.Format.{
  field_bytes, basic_bytes, present_bytes, rule_bytes, entry_bytes, array_bytes,
}
use daily_diary.Pb.Message.Format.{items_bytes, value_of}
use daily_diary.Pb.Message.Values.{string_size}
use daily_diary.Pb.Encode.{wire_type_of}
use daily_diary.Pb.Encode.Varint.{encoding, groups}
use daily_diary.Pb.Message.Describes.{none-Describes}
use daily_diary.Pb.Message.Refines.{pb_encode-Emits, pb_get_encoded_size-length}
use daily_diary.Pb.Message.Refines.Fields.{IsDescribed}
use daily_diary.Pb.Message.Depth.{IsNested, pb_encode_deep_enough}
use daily_diary.Pb.Message.Visits.{visited_fields, message_visits-visited_fields}

abbrev inner_number : Field
inner_number = record {
  tag = 1;
  type = 0x00;
  data_offset = 0;
  size_offset = 0;
  data_size = 4;
  array_size = 0;
  ptr = 0;
}

-- Its presence is the byte before it.
abbrev pub inner_text : Field
inner_text = record {
  tag = 2;
  type = 0x16;
  data_offset = 1;
  size_offset = 2 ^ 32 - 1;
  data_size = 8;
  array_size = 0;
  ptr = 0;
}

abbrev outer_inner : Field
outer_inner = record {
  tag = 3;
  type = 0x07;
  data_offset = 0;
  size_offset = 0;
  data_size = 16;
  array_size = 0;
  ptr = 0x1000;
}

-- Its count stands in the four bytes before it.
abbrev pub outer_numbers : Field
outer_numbers = record {
  tag = 4;
  type = 0x20;
  data_offset = 4;
  size_offset = 2 ^ 32 - 4;
  data_size = 4;
  array_size = 4;
  ptr = 0;
}

-- `message Inner { required int32 number = 1; optional string text = 2; }` and
-- `message Outer { required Inner inner = 3; repeated int32 numbers = 4; }`.
abbrev inner_fields : List Field
inner_fields = inner_number ∷ inner_text ∷ []

abbrev pub outer_fields : List Field
outer_fields = outer_inner ∷ outer_numbers ∷ []

-- At 100, an inner message with 150 and "hi", and the numbers 3 and 270.
abbrev pub outer_memory : Memory
outer_memory a =
    if a == 100
    then 150
    else if a == 104
    then 1
    else if a == 105
    then 0x68
    else if a == 106
    then 0x69
    else if a == 116
    then 2
    else if a == 120
    then 3
    else if a == 124
    then 14
    else if a == 125
    then 1
    else 0

abbrev outer_env : Env
outer_env = record {
  mem = outer_memory;
  fields_at = λ p. if p == 0x1000 then inner_fields else [];
  encode_callback = λ f field arg s. fault;
  extensions_at = λ p. [];
}

abbrev no_user : UserBytes
no_user = record { callback_bytes = λ f field arg. none; extension_bytes = λ x. none }

outer_env-IsDescribed : IsDescribed outer_env no_user
outer_env-IsDescribed = record {
  callbacks = λ f field arg. none-Describes;
  extensions = λ x encode h. none-Describes;
}

abbrev outer_bytes : List ℕ
outer_bytes = 26 ∷ 7 ∷ 8 ∷ 150 ∷ 1 ∷ 18 ∷ 2 ∷ 104 ∷ 105 ∷ 34 ∷ 3 ∷ 3 ∷ 142 ∷ 2 ∷ []

outer_is_message : message_bytes 2 outer_env no_user outer_fields 100 ≡ some outer_bytes
unfolding message_bytes visited_bytes visits_bytes visit_bytes field_bytes basic_bytes present_bytes
    rule_bytes entry_bytes array_bytes items_bytes value_of message_visits visits
    pb_field_iter_begin pb_field_iter_next load string_size wire_type_of encoding groups
    pb_check_proto3_default_value
outer_is_message = refl

pb_encode-Emits_example : Emits (pb_encode 2 outer_env outer_fields 100) outer_bytes
pb_encode-Emits_example =
    pb_encode-Emits 2 outer_env no_user outer_env-IsDescribed outer_fields 100 outer_bytes
      outer_is_message (omega arith)

pb_get_encoded_size-length_example : pb_get_encoded_size 2 outer_env outer_fields 100 ≡ ok 14 tt
pb_get_encoded_size-length_example =
    pb_get_encoded_size-length 2 outer_env no_user outer_env-IsDescribed outer_fields 100
      outer_bytes outer_is_message (omega arith)

outer_fields-IsNested : IsNested 2 outer_env outer_fields
unfolding message_visits visits pb_field_iter_begin pb_field_iter_next
outer_fields-IsNested src =
    (((λ src'. ((refl, tt), ((refl, tt), tt))), tt), (((λ src'. tt), tt), tt))

pb_encode_deep_enough_example :
    pb_encode 3 outer_env outer_fields ≡ pb_encode 9 outer_env outer_fields
pb_encode_deep_enough_example =
    pb_encode_deep_enough 2 3 9 outer_env outer_fields outer_fields-IsNested (omega arith)
      (omega arith)

outer_fields_tagged : (i : ℕ) → i < length outer_fields → 0 < (field_at outer_fields i).tag
outer_fields_tagged zero h = omega arith
outer_fields_tagged (suc zero) h = omega arith
outer_fields_tagged (suc (suc i)) h = absurd (omega arith)

message_visits-visited_fields_example :
    Option.map visited_fields (message_visits outer_fields 100) ≡ some outer_fields
message_visits-visited_fields_example =
    message_visits-visited_fields outer_fields 100 outer_fields_tagged

-- An array of a fixed count, of two numbers.
abbrev fixed_numbers : Field
fixed_numbers = record {
  tag = 5;
  type = 0x20;
  data_offset = 0;
  size_offset = 0;
  data_size = 4;
  array_size = 2;
  ptr = 0;
}

abbrev fixed_env : Env
fixed_env = record {
  mem = λ a. if a == 204 then 7 else 0;
  fields_at = λ p. [];
  encode_callback = λ f field arg s. fault;
  extensions_at = λ p. [];
}

-- The numbers 0 and 7 at 200 pass for an absent field: the first one is taken for their count.
zero_first_passes : pb_check_proto3_default_value 1 fixed_env fixed_numbers 200 ≡ some true
unfolding pb_check_proto3_default_value load
zero_first_passes = refl
