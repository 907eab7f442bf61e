-- ===== src/Tests/Decoding.antt =====
-- `pb_decode` on a concrete message, and what the theorems on the message decoder state of it.
use daily_diary.Pb.Decoder.Safe.{Returns}
use daily_diary.Pb.Decoder.Safe.Returns.{pb_message_set_to_defaults-Returns}
use daily_diary.Pb.Defaults.{pb_message_set_to_defaults, pb_field_set_to_default}
use daily_diary.Pb.Decoder.Messages.{pb_decode_delimited}
use daily_diary.Pb.Decoder.Safe.Messages.{pb_decode_delimited-Safe}
use daily_diary.Base.{ℕ, zero, suc, ◌+◌, ◌*◌, ◌<◌, ◌≡◌, refl, arith, [], ◌∷◌, List, none, ◌==◌}
use daily_diary.Base.{if◌then◌else◌, true, false, ◌||◌}
use daily_diary.Pb.{Field, Res, ok, fail, fault}
use daily_diary.Pb.IStream.{IStream, pb_read}
use daily_diary.Pb.IStream.Buffer.{buffer}
use daily_diary.Pb.Iter.{field_at}
use daily_diary.Pb.Scalar.{Memory}
use daily_diary.Pb.Blobs.{read_into, store_read}
use daily_diary.Pb.Decoder.{DecodeEnv}
use daily_diary.Pb.Decoder.Fields.Ends.{is_extension}
use daily_diary.Pb.Decoder.{and_with}
use daily_diary.Pb.Decoder.Messages.{pb_decode, pb_decode_noinit, pb_decoders}
use daily_diary.Pb.Decoder.Messages.{field_decoder, extension_decoder}
use daily_diary.Pb.Decoder.Rounds.{decode_message, is_wrong_size}
use daily_diary.Pb.Decoder.Fields.{decode_field, decode_by_atype}
use daily_diary.Pb.Static.{decode_static_field}
use daily_diary.Pb.Decode.{pb_decode_tag, pb_decode_varint32_eof, pb_decode_varint, varint_loop}
use daily_diary.Pb.IStream.{pb_readbyte}
use daily_diary.Pb.Iter.{pb_field_iter_begin, pb_field_iter_find, find_loop, pb_field_iter_next}
use daily_diary.Pb.Iter.Index.{required_before}
use daily_diary.Pb.Scalar.{pb_dec_uvarint, with_value, store_clamped}
use daily_diary.Pb.Decoder.Required.{mark_seen, seek_end, required_count, all_seen}
use daily_diary.Pb.Decoder.Required.Complete.{DecodesField, pb_decode_noinit-decodes_required}
use daily_diary.Pb.Decoder.Safe.{Safe, Fewer}
use daily_diary.Pb.Decoder.Safe.Scalars.{read-Fewer}
use daily_diary.Pb.Decoder.Safe.Blobs.{read_into-Safe}
use daily_diary.Pb.Decoder.Safe.Callbacks.{IsReading}
use daily_diary.Pb.Decoder.Safe.Depth.{
  is_pointer, is_decodable, HasShape, IsInside, IsMessage, IsHost,
}
use daily_diary.Pb.Decoder.Safe.Messages.{pb_decode-Safe}

abbrev zeros : Memory
zeros a = 0

-- A required number, then an array of two numbers of a fixed count, then an optional number.
abbrev id_field : Field
id_field = record {
  tag = 1;
  type = 0x01;
  data_offset = 0;
  size_offset = 0;
  data_size = 4;
  array_size = 0;
  ptr = 0;
}

-- A heap of one block at 4096.
abbrev host : DecodeEnv
host = record {
  env = record {
    mem = zeros;
    fields_at = λ p. if p == 0x1000 then id_field ∷ [] else [];
    encode_callback = λ p field a s. ok tt s;
    extensions_at = λ p. [];
  };
  decode_callback = λ f field arg mem s. read_into 1 arg mem s;
  decode_extension = λ x. none;
  pb_realloc = λ p size mem. (4096, mem);
  pb_free = λ p mem. mem;
  fixed_count_at = λ depth. 8000 + 4 * depth;
}

abbrev pair_field : Field
pair_field = record {
  tag = 2;
  type = 0x21;
  data_offset = 0;
  size_offset = 0;
  data_size = 4;
  array_size = 2;
  ptr = 0;
}

abbrev name_field : Field
name_field = record {
  tag = 3;
  type = 0x11;
  data_offset = 0;
  size_offset = 0;
  data_size = 4;
  array_size = 0;
  ptr = 0;
}

-- A message with a required number, at 0x1000.
abbrev inner_field : Field
inner_field = record {
  tag = 4;
  type = 0x07;
  data_offset = 0;
  size_offset = 0;
  data_size = 4;
  array_size = 0;
  ptr = 0x1000;
}

abbrev fields : List Field
fields = id_field ∷ pair_field ∷ name_field ∷ inner_field ∷ []

abbrev whole : IStream
whole = buffer (8 ∷ 150 ∷ 1 ∷ 16 ∷ 7 ∷ 24 ∷ 9 ∷ 40 ∷ 1 ∷ 34 ∷ 2 ∷ 8 ∷ 5 ∷ 16 ∷ 6 ∷ []) 15 none

abbrev run_memory : Memory
run_memory = (pb_decode 4 host fields 100 zeros whole).1

reads_a_byte : (arg : ℕ) → IsReading (λ mem s. read_into 1 arg mem s)
unfolding store_read
reads_a_byte arg mem s h =
    (read_into-Safe 1 arg mem s h, λ pos. fewer (pb_read 1 s) (read-Fewer 1 s (omega arith) h))
  where
    fewer : (r : Res IStream (List ℕ)) → Fewer s r → Fewer s (store_read r arg mem).0
    fewer (ok bs t) p = p
    fewer (fail t) p = p
    fewer fault p = p

host-IsHost : IsHost host
host-IsHost = record { reading = λ f field arg. reads_a_byte arg; extensions = λ p. tt }

inner-HasShape : HasShape (id_field ∷ [])
inner-HasShape = record {
  word = omega arith;
  some_field = omega arith;
  tagged = tagged;
  decodable = decodable;
  no_pointer = no_pointer;
}
  where
    no_pointer : (j : ℕ) → j < 1 → is_pointer (field_at (id_field ∷ []) j) ≡ false
    no_pointer zero h = refl
    no_pointer (suc j) h = absurd (omega arith)

    tagged : (j : ℕ) → j < 1 → 0 < (field_at (id_field ∷ []) j).tag
    tagged zero h = omega arith
    tagged (suc j) h = absurd (omega arith)

    decodable :
        (j : ℕ)
        → j < 1
        → is_extension (field_at (id_field ∷ []) j) || is_decodable (field_at (id_field ∷ []) j)
          ≡ true
    decodable zero h = refl
    decodable (suc j) h = absurd (omega arith)

fields_tagged : (j : ℕ) → j < 4 → 0 < (field_at fields j).tag
fields_tagged zero h = omega arith
fields_tagged (suc zero) h = omega arith
fields_tagged (suc (suc zero)) h = omega arith
fields_tagged (suc (suc (suc zero))) h = omega arith
fields_tagged (suc (suc (suc (suc j)))) h = absurd (omega arith)

fields-HasShape : HasShape fields
fields-HasShape = record {
  word = omega arith;
  some_field = omega arith;
  tagged = fields_tagged;
  decodable = decodable;
  no_pointer = no_pointer;
}
  where
    no_pointer : (j : ℕ) → j < 4 → is_pointer (field_at fields j) ≡ false
    no_pointer zero h = refl
    no_pointer (suc zero) h = refl
    no_pointer (suc (suc zero)) h = refl
    no_pointer (suc (suc (suc zero))) h = refl
    no_pointer (suc (suc (suc (suc j)))) h = absurd (omega arith)

    decodable :
        (j : ℕ)
        → j < 4
        → is_extension (field_at fields j) || is_decodable (field_at fields j) ≡ true
    decodable zero h = refl
    decodable (suc zero) h = refl
    decodable (suc (suc zero)) h = refl
    decodable (suc (suc (suc zero))) h = refl
    decodable (suc (suc (suc (suc j)))) h = absurd (omega arith)

fields-IsMessage : IsMessage 2 host.env fields
fields-IsMessage = (fields-HasShape, inside)
  where
    numbers :
        (j : ℕ) → j < 1 → IsInside host.env (IsMessage 0 host.env) (field_at (id_field ∷ []) j)
    numbers zero h c = absurd (ground arith)
    numbers (suc j) h c = absurd (omega arith)

    inside : (j : ℕ) → j < 4 → IsInside host.env (IsMessage 1 host.env) (field_at fields j)
    inside zero h c = absurd (ground arith)
    inside (suc zero) h c = absurd (ground arith)
    inside (suc (suc zero)) h c = absurd (ground arith)
    inside (suc (suc (suc zero))) h c = (inner-HasShape, numbers)
    inside (suc (suc (suc (suc j)))) h c = absurd (omega arith)

pb_decode-Safe_example : Safe whole (pb_decode 4 host fields 100 zeros whole)
pb_decode-Safe_example =
    pb_decode-Safe host 2 4 fields 100 zeros whole host-IsHost fields-IsMessage (omega arith)
      (record { is_buffer = refl; fits = omega arith })

abbrev number : IStream
number = buffer (8 ∷ 5 ∷ []) 2 none

abbrev number_memory : Memory
number_memory = (pb_decode_noinit 1 host (id_field ∷ []) 100 zeros number).1

number_decodes :
    pb_decode_noinit 1 host (id_field ∷ []) 100 zeros number
    ≡ (ok tt (buffer [] 0 none), number_memory)
unfolding pb_decode_noinit decode_message decode_field decode_by_atype decode_static_field
    pb_decoders pb_dec_uvarint pb_decode_tag pb_decode_varint32_eof pb_readbyte pb_field_iter_begin
    pb_field_iter_find find_loop pb_field_iter_next with_value pb_decode_varint varint_loop
    store_clamped mark_seen seek_end required_count all_seen and_with is_wrong_size
number_decodes = refl

pb_decode_noinit-decodes_required_example :
    DecodesField
      (field_decoder 0 host (pb_decode_noinit 0 host))
      (extension_decoder 0 host (pb_decode_noinit 0 host))
      8000
      (id_field ∷ [])
      0
      100
      zeros
      number
      number_memory
unfolding required_before
pb_decode_noinit-decodes_required_example =
    pb_decode_noinit-decodes_required (id_field ∷ []) (omega arith) inner-HasShape.tagged 0
      (omega arith) 0 host 100 zeros number_memory number (buffer [] 0 none) refl (omega arith)
      number_decodes

-- A message of four bytes behind its length, and one byte more.
abbrev delimited_number : IStream
delimited_number = buffer (4 ∷ 8 ∷ 5 ∷ 34 ∷ 0 ∷ 9 ∷ []) 6 none

pb_decode_delimited-Safe_example :
    Safe delimited_number (pb_decode_delimited 4 host fields 100 zeros delimited_number)
pb_decode_delimited-Safe_example =
    pb_decode_delimited-Safe host 2 4 fields 100 zeros delimited_number host-IsHost fields-IsMessage
      (omega arith) (record { is_buffer = refl; fits = omega arith })

pb_message_set_to_defaults-Returns_example :
    Returns (pb_message_set_to_defaults (pb_field_set_to_default 3 host.env) fields 100 zeros)
pb_message_set_to_defaults-Returns_example =
    pb_message_set_to_defaults-Returns host host-IsHost 2 3 fields fields-IsMessage (omega arith)
      100 zeros
