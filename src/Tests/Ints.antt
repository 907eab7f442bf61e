-- ===== src/Tests/Ints.antt =====
-- The integer field decoders at concrete inputs.
use daily_diary.Base.{◌+◌, ◌≡◌, refl, arith, inr, [], ◌∷◌, ◌++◌, length, none, some}
use daily_diary.Pb.{Field, fail, integer_too_large, ltype_uvarint}
use daily_diary.Pb.IStream.Buffer.{buffer}
use daily_diary.Pb.Encode.Varint.{encoding}
use daily_diary.Pb.Scalar.{Memory, store, load, pb_dec_varint, pb_dec_uvarint, pb_dec_svarint}
use daily_diary.Pb.Scalar.Store.{integer_decoders-outside, pb_dec_uvarint-too_large}

abbrev short_field : Field
short_field = record {
  tag = 1;
  type = ltype_uvarint;
  data_offset = 0;
  size_offset = 0;
  data_size = 2;
  array_size = 0;
  ptr = 0;
}

abbrev empty_memory : Memory
empty_memory = λ x. 0

stored_300 : load 2 8 (store 2 300 8 empty_memory) ≡ 300
unfolding load store
stored_300 = refl

integer_decoders-outside_example :
    ((pb_dec_varint short_field 8 empty_memory (buffer (5 ∷ []) 1 none)).1 10 ≡ 0)
    × ((pb_dec_uvarint short_field 8 empty_memory (buffer (5 ∷ []) 1 none)).1 10 ≡ 0)
    × ((pb_dec_svarint short_field 8 empty_memory (buffer (5 ∷ []) 1 none)).1 10 ≡ 0)
integer_decoders-outside_example =
    integer_decoders-outside short_field 8 empty_memory (buffer (5 ∷ []) 1 none) 10
      (inr (omega arith))

pb_dec_uvarint-too_large_example :
    pb_dec_uvarint short_field 8 empty_memory
      (buffer (encoding 70000 ++ []) (length (encoding 70000) + 0) none)
    ≡ (fail (buffer [] 0 (some integer_too_large)), store 2 70000 8 empty_memory)
pb_dec_uvarint-too_large_example =
    pb_dec_uvarint-too_large short_field 8 empty_memory 70000 [] 0 none refl (omega arith)
      (omega arith)
