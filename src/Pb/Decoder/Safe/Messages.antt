-- ===== src/Pb/Decoder/Safe/Messages.antt =====
-- `pb_decode` returns, and stays inside of the array, whatever is in it.
use daily_diary.Base.{ℕ, zero, suc, ◌+◌, ◌<◌, ◌≡◌, arith}
use daily_diary.Base.{List}
use daily_diary.Base.{All-map}
use daily_diary.Pb.{Field}
use daily_diary.Pb.IStream.{IStream}
use daily_diary.Pb.Decode.Bounds.{IsInBounds}
use daily_diary.Pb.Iter.{Iter, field_at}
use daily_diary.Pb.Scalar.{Memory, load}
use daily_diary.Pb.Defaults.{Change}
use daily_diary.Pb.Static.{ItemDecoder}
use daily_diary.Pb.Decoder.{DecodeEnv}
use daily_diary.Pb.Decoder.Release.{pb_release_single_field}
use daily_diary.Pb.Decoder.Fields.Index.{decode_field-Yields}
use daily_diary.Pb.Decoder.Messages.{MessageDecoder}
use daily_diary.Pb.Decoder.Messages.{defaults_at}
use daily_diary.Pb.Decoder.Messages.{pb_decoders, pb_decode_noinit}
use daily_diary.Pb.Decoder.Messages.{pb_decode, pb_decode_delimited}
use daily_diary.Pb.Decoder.Safe.{Safe, Returns}
use daily_diary.Pb.Decoder.Safe.Substreams.{make-Makes}
use daily_diary.Pb.Decoder.Safe.Fields.{decode_field-Safe}
use daily_diary.Pb.Decoder.Safe.Fields.{decode_extension-Safe}
use daily_diary.Pb.Decoder.Safe.Rounds.{decode_message-Safe}
use daily_diary.Base.{false}
use daily_diary.Pb.Decoder.Safe.Depth.{is_pointer, IsInside, IsMessage}
use daily_diary.Pb.Decoder.Safe.Depth.{IsHost, first-IsIndexed}
use daily_diary.Pb.Decoder.Safe.Returns.{pb_message_set_to_defaults-Returns, field_release-Returns}
use daily_diary.Pb.Decoder.Safe.Returns.{release-Returns}
use daily_diary.Pb.Decoder.Safe.Decoders.{
  in_substream-Safe, pb_decode_by-Safe, field-Ready, extension_ready,
}

-- The release of a field of a message.
field_frees :
    (host : DecodeEnv) (user : IsHost host) (n depth : ℕ) (field : Field) (it : Iter) (mem : Memory)
    → IsInside host.env (IsMessage n host.env) field
    → is_pointer field ≡ false
    → n + 1 < depth
    → field_at it.start it.pos ≡ field
    → Returns (pb_release_single_field host.pb_free depth host.env it mem)
field_frees host user n zero field it mem inner no_pointer less e = absurd (omega arith)
field_frees host user n (suc depth) field it mem inner no_pointer less e =
    field_release-Returns host user n depth it mem (rw e inner) (rw e no_pointer) (omega arith)

-- The same of `pb_decode_noinit`, under the conditions of `pb_decode-Safe` below.
pub pb_decode_noinit-Safe :
    (host : DecodeEnv) (n depth : ℕ) (fields : List Field) (dest : ℕ) (mem : Memory) (s : IStream)
    → IsHost host
    → IsMessage n host.env fields
    → n + 1 < depth
    → IsInBounds s
    → Safe s (pb_decode_noinit depth host fields dest mem s)
unfolding pb_decode_noinit
pb_decode_noinit-Safe host zero depth fields dest mem s user msg less h =
    absurd (omega (arith, msg))
pb_decode_noinit-Safe host (suc n) zero fields dest mem s user msg less h = absurd (omega arith)
pb_decode_noinit-Safe host (suc n) (suc depth) fields dest mem s user (shape, inner) less h =
    decode_message-Safe fields shape.word _ _ (host.fixed_count_at depth)
      (λ wire_type it m t k on.
        decode_field-Safe host func (defaults_at host depth) release user.reading fields shape.word
          (λ j below plain.
            field-Ready host depth noinit user _ (let d = shape.decodable j below in ground arith)
              (λ c. (
                λ dest' m' s'.
                    pb_decode_noinit-Safe host n depth _ dest' m' s' user (inner j below c)
                      (omega arith),
                pb_message_set_to_defaults-Returns host user n depth _ (inner j below c)
                    (omega arith),
                release-Returns host user n depth _ (inner j below c) (omega arith),
              ))
              (λ it' m' e.
                field_frees host user n depth (field_at fields j) it' m' (inner j below)
                  (shape.no_pointer j below) (omega arith) e))
          wire_type it m t k on)
      (λ wire_type it m t on.
        decode_field-Yields fields shape.word host func (defaults_at host depth) release wire_type
          it m t on)
      (λ tag wire_type it m t k on.
        decode_extension-Safe host func (defaults_at host depth) release user.reading tag wire_type
          it m t
          (All-map (λ x plain. extension_ready host depth noinit user x plain (omega arith)) _
            (user.extensions (load 8 it.pdata m)))
          k)
      dest mem s h (first-IsIndexed fields dest shape)
  where
    noinit : MessageDecoder
    noinit = pb_decode_noinit depth host

    func : Field → ItemDecoder
    func = pb_decoders host depth noinit

    release : Iter → Change
    release = pb_release_single_field host.pb_free depth host.env

-- For messages nested at most `n` deep, each with a field, fewer than 2 ^ 32 of them, none with
-- the tag 0, no field a pointer, and every field an extension field or of a type in PB_DECODERS
-- and of a size other than 0; where each pointer to extensions leads to a list of them, the
-- field of an extension is no message, no extension and no pointer, and decoders of the user
-- return and stay inside of the stream they are given, and callbacks read a byte of it where
-- there is one: whatever bytes a stream in bounds holds, on a stack with room for more than `n`
-- + 1 calls `pb_decode` returns; it returns true with the stream moved on inside of the array,
-- or false with a stream that ends no later.
pub pb_decode-Safe :
    (host : DecodeEnv) (n depth : ℕ) (fields : List Field) (dest : ℕ) (mem : Memory) (s : IStream)
    → IsHost host
    → IsMessage n host.env fields
    → n + 1 < depth
    → IsInBounds s
    → Safe s (pb_decode depth host fields dest mem s)
unfolding pb_decode
pb_decode-Safe host n depth fields dest mem s user message less h =
    pb_decode_by-Safe host depth (pb_decode_noinit depth host) fields dest
      (
        λ d m t k. pb_decode_noinit-Safe host n depth fields d m t user message less k,
        pb_message_set_to_defaults-Returns host user n depth fields message (omega arith),
        release-Returns host user n depth fields message (omega arith),
      )
      mem s h

-- Under the conditions of `pb_decode-Safe`, whatever bytes a stream in bounds holds,
-- `pb_decode_delimited` returns true with the stream moved on inside of the array, or false with
-- a stream that ends no later.
pub pb_decode_delimited-Safe :
    (host : DecodeEnv) (n depth : ℕ) (fields : List Field) (dest : ℕ) (mem : Memory) (s : IStream)
    → IsHost host
    → IsMessage n host.env fields
    → n + 1 < depth
    → IsInBounds s
    → Safe s (pb_decode_delimited depth host fields dest mem s)
unfolding pb_decode_delimited
pb_decode_delimited-Safe host n depth fields dest mem s user message less h =
    in_substream-Safe (pb_decode depth host fields dest) s _ mem
      (λ m t k. pb_decode-Safe host n depth fields dest m t user message less k) (make-Makes s h)
