-- ===== src/Pb/Decoder/Messages.antt =====
-- `pb_decode` of pb_decode.c, the functions on it, and the decoder of a message in a message.
use daily_diary.Base.{ℕ, zero, suc, ◌==◌, if◌then◌else◌, List}
use daily_diary.Pb.{Field, ltype, ltype_varint, ltype_uvarint, ltype_svarint, ltype_fixed32}
use daily_diary.Pb.{ltype_fixed64, ltype_bytes, ltype_string, ltype_submessage, htype}
use daily_diary.Pb.{ltype_fixed_length_bytes, htype_repeated, Res, ok, fail, fault}
use daily_diary.Pb.{invalid_field_descriptor}
use daily_diary.Pb.IStream.{IStream, return_error}
use daily_diary.Pb.Decode.{pb_make_string_substream, pb_close_string_substream}
use daily_diary.Pb.Scalar.{Memory, pb_dec_varint, pb_dec_uvarint, pb_dec_svarint}
use daily_diary.Pb.Scalar.{pb_dec_fixed32, pb_dec_fixed64}
use daily_diary.Pb.Blobs.{Outcome, pb_dec_bytes, pb_dec_string, pb_dec_fixed_length_bytes}
use daily_diary.Pb.Defaults.{Change, pb_field_set_to_default, pb_message_set_to_defaults}
use daily_diary.Pb.Static.{ItemDecoder, after_change, close_failed}
use daily_diary.Pb.Decoder.{DecodeEnv, Result}
use daily_diary.Pb.Iter.{Iter}
use daily_diary.Pb.Decoder.Release.{pb_release, pb_release_single_field}
use daily_diary.Pb.Decoder.Fields.{decode_field, decode_extension}
use daily_diary.Pb.Decoder.Rounds.{decode_message}

-- The descriptors of a message, its address, the memory and the stream.
abbrev pub MessageDecoder : Type 0
MessageDecoder = List Field → ℕ → Memory → IStream → Outcome

-- Behind a call on the substream.
unfoldable pub close_message : IStream → Outcome → Outcome
close_message s (ok _ sub, mem) = (pb_close_string_substream sub s, mem)
close_message s (fail sub, mem) = (close_failed (pb_close_string_substream sub s), mem)
close_message s (fault, mem) = (fault, mem)

-- Behind `pb_make_string_substream`, with its result.
unfoldable pub in_substream : (Memory → IStream → Outcome) → Res IStream IStream → Memory → Outcome
unfolding close_message
in_substream decode (ok sub s) mem = close_message s (decode mem sub)
in_substream decode (fail s) mem = (fail s, mem)
in_substream decode fault mem = (fault, mem)

-- The release behind a decoding that failed.
unfoldable pub release_failed : Change → Outcome → Outcome
release_failed release (ok _ s, mem) = (ok tt s, mem)
release_failed release (fail s, mem) = after_change (release mem) mem (λ mem'. (fail s, mem'))
release_failed release (fault, mem) = (fault, mem)

-- `noinit` is `pb_decode_noinit`, and `depth` is how many calls the stack has room for.
module _ (host : DecodeEnv) (depth : ℕ) where
  abbrev pub defaults_at : ℕ → ℕ → Change
  defaults_at ptr =
      pb_message_set_to_defaults (pb_field_set_to_default depth host.env) (host.env.fields_at ptr)

  module _ (noinit : MessageDecoder) where
    unfoldable pub pb_decode_by : MessageDecoder
    unfolding release_failed
    pb_decode_by fields dest mem s =
        after_change
          (pb_message_set_to_defaults (pb_field_set_to_default depth host.env) fields dest mem) mem
          (λ mem'.
            release_failed
              (pb_release host.pb_free (pb_release_single_field host.pb_free depth host.env) fields
                dest)
              (noinit fields dest mem' s))

    -- Behind `pb_make_string_substream`, with its result.
    unfoldable pub decode_submessage : Field → ℕ → Res IStream IStream → Memory → Outcome
    unfolding pb_decode_by in_substream
    decode_submessage field dest (fail s) mem = (fail s, mem)
    decode_submessage field dest fault mem = (fault, mem)
    decode_submessage field dest (ok sub s) mem =
        let fields = host.env.fields_at field.ptr in
        if field.ptr == 0
        then (return_error invalid_field_descriptor s, mem)
        else in_substream
            (if htype field.type == htype_repeated
              then pb_decode_by fields dest
              else noinit fields dest)
            (ok sub s) mem

    unfoldable pub pb_dec_submessage : Field → ItemDecoder
    unfolding decode_submessage
    pb_dec_submessage field dest mem s =
        decode_submessage field dest (pb_make_string_substream s) mem

    -- PB_DECODERS; there is none for extensions.
    unfoldable pub pb_decoders : Field → ItemDecoder
    unfolding pb_dec_submessage
    pb_decoders field =
        let t = ltype field.type in
        if t == ltype_varint
        then pb_dec_varint field
        else if t == ltype_uvarint
        then pb_dec_uvarint field
        else if t == ltype_svarint
        then pb_dec_svarint field
        else if t == ltype_fixed32
        then pb_dec_fixed32 field
        else if t == ltype_fixed64
        then pb_dec_fixed64 field
        else if t == ltype_bytes
        then pb_dec_bytes host.pb_realloc field
        else if t == ltype_string
        then pb_dec_string host.pb_realloc field
        else if t == ltype_submessage
        then pb_dec_submessage field
        else if t == ltype_fixed_length_bytes
        then pb_dec_fixed_length_bytes field
        else λ dest mem s. (fault, mem)

-- The calls in the loop; `noinit` is `pb_decode_noinit` on the messages inside.
module _ (depth : ℕ) (host : DecodeEnv) (noinit : MessageDecoder) where
  abbrev pub field_decoder : ℕ → Iter → Memory → IStream → Result Iter
  field_decoder =
      decode_field host (pb_decoders host depth noinit) (defaults_at host depth)
        (pb_release_single_field host.pb_free depth host.env)

  abbrev pub extension_decoder : ℕ → ℕ → Iter → Memory → IStream → Outcome
  extension_decoder =
      decode_extension host (pb_decoders host depth noinit) (defaults_at host depth)
        (pb_release_single_field host.pb_free depth host.env)

unfoldable pub pb_decode_noinit : ℕ → DecodeEnv → MessageDecoder
pb_decode_noinit zero host = λ fields dest mem s. (fault, mem)
pb_decode_noinit (suc depth) host =
    decode_message (field_decoder depth host (pb_decode_noinit depth host))
      (extension_decoder depth host (pb_decode_noinit depth host)) (host.fixed_count_at depth)

unfoldable pub pb_decode : ℕ → DecodeEnv → MessageDecoder
unfolding pb_decode_by
pb_decode depth host = pb_decode_by host depth (pb_decode_noinit depth host)

unfoldable pub pb_decode_delimited_noinit : ℕ → DecodeEnv → MessageDecoder
unfolding in_substream
pb_decode_delimited_noinit depth host fields dest mem s =
    in_substream (pb_decode_noinit depth host fields dest) (pb_make_string_substream s) mem

unfoldable pub pb_decode_delimited : ℕ → DecodeEnv → MessageDecoder
unfolding in_substream
pb_decode_delimited depth host fields dest mem s =
    in_substream (pb_decode depth host fields dest) (pb_make_string_substream s) mem

unfoldable pub pb_decode_nullterminated : ℕ → DecodeEnv → MessageDecoder
pb_decode_nullterminated depth host = pb_decode depth host
