-- ===== src/Tests/Arrays.antt =====
-- `decode_static_field` at a concrete packed array.
use daily_diary.Base.{ℕ, ◌≡◌, refl, arith, [], ◌∷◌, none}
use daily_diary.Pb.{Field}
use daily_diary.Pb.IStream.{IStream}
use daily_diary.Pb.IStream.Buffer.{buffer}
use daily_diary.Pb.Iter.{Iter}
use daily_diary.Pb.Scalar.{pb_dec_varint}
use daily_diary.Pb.Scalar.Store.{integer_decoders-outside}
use daily_diary.Pb.Static.{decode_static_field, packed_loop, ItemDecoder}
use daily_diary.Pb.Static.Bounds.{HasRoom, IsConfined, decode_static_field-outside}
use daily_diary.Pb.Static.Rounds.{packed_loop_rounds_enough}
use daily_diary.Base.{inl, inr, some}
use daily_diary.Pb.Defaults.{Change}
use daily_diary.Tests.Messages.{outer_numbers, outer_fields, outer_memory}

-- The numbers of the outer message at 100.
abbrev on_numbers : Iter
on_numbers = record {
  start = outer_fields;
  pos = 1;
  required_field_index = 1;
  dest_struct = 100;
  pdata = 120;
  psize = 116;
}

abbrev dec_varint : Field → ItemDecoder
dec_varint field a mem s = pb_dec_varint field a mem s

abbrev no_defaults : ℕ → ℕ → Change
no_defaults ptr a mem = some mem

numbers-HasRoom : HasRoom outer_numbers 120 16
numbers-HasRoom = record {
  one = omega arith;
  all = omega arith;
  word = omega arith;
  address = omega arith;
}

dec_varint-IsConfined : (s : IStream) → IsConfined 4 (λ a mem. (dec_varint outer_numbers a mem s).1)
dec_varint-IsConfined s a mem x h = (integer_decoders-outside outer_numbers a mem s x h).0

abbrev three_items : IStream
three_items = buffer (3 ∷ 3 ∷ 142 ∷ 2 ∷ []) 4 none

decode_static_field-outside_example :
    (decode_static_field dec_varint no_defaults 2 on_numbers outer_memory three_items).1 136
    ≡ outer_memory 136
decode_static_field-outside_example =
    decode_static_field-outside dec_varint no_defaults 2 16 on_numbers outer_memory three_items 136
      numbers-HasRoom dec_varint-IsConfined (λ a mem x h. refl) (inr (omega arith))
      (inr (omega arith))

packed_loop_rounds_enough_example :
    packed_loop 5 (dec_varint outer_numbers) outer_numbers 120 116 outer_memory three_items
    ≡ packed_loop 9 (dec_varint outer_numbers) outer_numbers 120 116 outer_memory three_items
packed_loop_rounds_enough_example =
    packed_loop_rounds_enough outer_numbers 120 116 16 numbers-HasRoom (inl (omega arith))
      (dec_varint outer_numbers) dec_varint-IsConfined 4 8 outer_memory three_items (omega arith)
      (omega arith) (omega arith)
