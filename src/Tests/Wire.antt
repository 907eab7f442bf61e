-- ===== src/Tests/Wire.antt =====
-- The varint, tag, string and substream functions at concrete inputs.
use daily_diary.Base.{ℕ, ◌+◌, ◌-◌, ◌^◌, ◌≡◌, refl, arith, List, [], ◌∷◌, ◌++◌, length, none}
use daily_diary.Base.{u64, false}
use daily_diary.Pb.{WireType, ok}
use daily_diary.Pb.OStream.{OStream, pb_ostream_from_buffer}
use daily_diary.Pb.IStream.{IStream, pb_istream_from_buffer}
use daily_diary.Pb.IStream.Buffer.{buffer}
use daily_diary.Pb.Encode.{pb_encode_varint, pb_encode_svarint}
use daily_diary.Pb.Encode.{pb_encode_tag}
use daily_diary.Pb.Encode.Varint.{encoding}
use daily_diary.Pb.Decode.{pb_decode_varint, pb_decode_varint32, pb_decode_svarint, pb_decode_tag}
use daily_diary.Pb.Decode.{pb_make_string_substream, pb_close_string_substream, pb_skip_field}
use daily_diary.Pb.Decode.Varint.{pb_decode_varint-value}
use daily_diary.Pb.Decode.Varint32.{padding}
use daily_diary.Pb.Decode.Varint32.{pb_decode_varint32-wraps}
use daily_diary.Pb.Decode.Bounds.{IsInBounds, Stays}
use daily_diary.Pb.Decode.Loops.{pb_skip_field-Stays, pb_decode_varint-Stays}
use daily_diary.Pb.Decode.Substream.{substream_frames_field}
use daily_diary.Pb.RoundTrip.{ReadsBack, pb_decode_varint-encode, pb_decode_svarint-encode}
use daily_diary.Pb.RoundTrip.{pb_decode_tag-encode}

abbrev three_hundred : List ℕ
three_hundred = 0xac ∷ 0x02 ∷ []

pb_decode_varint-value_example :
    pb_decode_varint (buffer (three_hundred ++ (7 ∷ [])) (2 + 1) none)
    ≡ ok (u64 300) (buffer (7 ∷ []) 1 none)
pb_decode_varint-value_example =
    pb_decode_varint-value three_hundred (7 ∷ []) 1 none (omega arith) (omega arith)

pb_decode_varint32-wraps_example :
    pb_decode_varint32 (buffer (padding 37 (5 ∷ [])) 38 none) ≡ ok 40 (buffer [] 0 none)
pb_decode_varint32-wraps_example = pb_decode_varint32-wraps 5 [] none (omega arith)

abbrev short_stream : IStream
short_stream = buffer (2 ∷ 0x80 ∷ 9 ∷ []) 2 none

short_stream-IsInBounds : IsInBounds short_stream
short_stream-IsInBounds = record { is_buffer = refl; fits = omega arith }

pb_skip_field-Stays_example : Stays short_stream (pb_skip_field 2 short_stream)
pb_skip_field-Stays_example = pb_skip_field-Stays 2 short_stream short_stream-IsInBounds

pb_decode_varint-Stays_example : Stays short_stream (pb_decode_varint short_stream)
pb_decode_varint-Stays_example = pb_decode_varint-Stays short_stream short_stream-IsInBounds

pb_decode_varint-encode_example : ReadsBack (pb_encode_varint 300) pb_decode_varint 16 300
pb_decode_varint-encode_example =
    pb_decode_varint-encode 300 16 (omega arith) (omega arith) (omega arith)

pb_decode_svarint-encode_example :
    ReadsBack (pb_encode_svarint (2 ^ 64 - 3)) pb_decode_svarint 16 (2 ^ 64 - 3)
pb_decode_svarint-encode_example =
    pb_decode_svarint-encode (2 ^ 64 - 3) 16 (omega arith) (omega arith) (omega arith)

pb_decode_tag-encode_example :
    (t : OStream) × (pb_encode_tag WireType.string 150 (pb_ostream_from_buffer 8) ≡ ok tt t)
    × (pb_decode_tag (pb_istream_from_buffer t.out t.bytes_written)
        ≡ (ok (record { tag = 150; wire_type = 2 }) (pb_istream_from_buffer [] 0), false))
pb_decode_tag-encode_example =
    pb_decode_tag-encode WireType.string 150 8 (omega arith) (omega arith) (omega arith)
      (omega arith)

substream_frames_field_example :
    (parent : IStream) × (pb_make_string_substream
        (buffer (encoding 3 ++ ((4 ∷ 5 ∷ 6 ∷ []) ++ (7 ∷ []))) (length (encoding 3) + (3 + 1)) none)
      ≡ ok (buffer (4 ∷ 5 ∷ 6 ∷ 7 ∷ []) 3 none) parent)
    × (pb_close_string_substream (buffer (5 ∷ 6 ∷ 7 ∷ []) 2 none) parent
        ≡ ok tt (buffer (7 ∷ []) 1 none))
substream_frames_field_example =
    substream_frames_field (4 ∷ []) (5 ∷ 6 ∷ []) (7 ∷ []) 1 none none (omega arith)
