-- ===== src/Pb/Decode/Substream.antt =====
-- Length-delimited fields: `pb_encode_string` on one side, a substream of just the field on the
-- other, and the parent behind the field once the substream is closed.
use native.Mathlib.Nat.{add-zero}
use daily_diary.Base.{ℕ, ◌+◌, ◌<◌, ◌≡◌, refl, sym, ap, ◌∙◌, arith}
use daily_diary.Base.{List, [], ◌∷◌, ◌++◌, length}
use daily_diary.Base.{IsU32, Option}
use daily_diary.Pb.{ErrMsg, parent_stream_too_short, first_error, ok, fail, >>=-ok}
use daily_diary.Pb.IStream.{IStream, pb_read_null}
use daily_diary.Pb.IStream.Buffer.{buffer, pb_read_null-buffer}
use daily_diary.Pb.Encode.Varint.{encoding}
use daily_diary.Pb.RoundTrip.{decode_encoding32}
use daily_diary.Pb.Decode.{pb_decode_varint32, pb_make_string_substream, pb_close_string_substream}
use daily_diary.Pb.Decode.{pb_skip_string, split_stream}

-- A parent of which `k` bytes lie behind the field at hand.
make_on_field :
    (bs rest : List ℕ) (k : ℕ) (e : Option ErrMsg)
    → IsU32 (length bs)
    → pb_make_string_substream (
        buffer
          (encoding (length bs) ++ (bs ++ rest))
          (length (encoding (length bs)) + (length bs + k))
          e)
      ≡ ok (buffer (bs ++ rest) (length bs) e) (buffer (bs ++ rest) k e)
unfolding pb_make_string_substream
make_on_field bs rest k e h =
    >>=-ok pb_decode_varint32 split_stream _
      (decode_encoding32 (length bs) (bs ++ rest) (length bs + k) e h)
    ∙ ground arith

-- A varint length that is larger than what the parent stream has left behind it is refused by
-- `pb_make_string_substream`, with "parent stream too short" where no message was set before.
pub pb_make_string_substream-short :
    (size n : ℕ) (rest : List ℕ) (e : Option ErrMsg)
    → IsU32 size
    → n < size
    → pb_make_string_substream (buffer (encoding size ++ rest) (length (encoding size) + n) e)
      ≡ fail (buffer rest n (first_error e parent_stream_too_short))
unfolding pb_make_string_substream
pb_make_string_substream-short size n rest e h less =
    >>=-ok pb_decode_varint32 split_stream _ (decode_encoding32 size rest n e h) ∙ ground arith

skip_all :
    (left rest : List ℕ) (e : Option ErrMsg)
    → pb_read_null (length left) (buffer (left ++ rest) (length left) e) ≡ ok tt (buffer rest 0 e)
skip_all left rest e =
    ap (λ n. pb_read_null (length left) (buffer (left ++ rest) n e)) (sym (add-zero (length left)))
    ∙ pb_read_null-buffer left rest 0 e

-- Closing skips what the substream has left, and takes over its message.
close_on_rest :
    (left rest : List ℕ) (e : Option ErrMsg) (parent : IStream)
    → pb_close_string_substream (buffer (left ++ rest) (length left) e) parent
      ≡ ok tt (record parent { state = rest; errmsg = e })
unfolding pb_close_string_substream
close_on_rest [] rest e parent = refl
close_on_rest (x ∷ xs) rest e parent = ground (arith, skip_all (x ∷ xs) rest e)

-- A field that stands in a buffer behind its varint length is handed over whole by
-- `pb_make_string_substream`, and whatever part `done` of it is read,
-- `pb_close_string_substream` puts the parent behind the field and takes over the message of the
-- substream.
pub substream_frames_field :
    (done left rest : List ℕ) (k : ℕ) (e f : Option ErrMsg)
    → IsU32 (length (done ++ left))
    → (parent : IStream) × (pb_make_string_substream (
          buffer
            (encoding (length (done ++ left)) ++ ((done ++ left) ++ rest))
            (length (encoding (length (done ++ left))) + (length (done ++ left) + k))
            e)
        ≡ ok (buffer ((done ++ left) ++ rest) (length (done ++ left)) e) parent)
      × (pb_close_string_substream (buffer (left ++ rest) (length left) f) parent
          ≡ ok tt (buffer rest k f))
substream_frames_field done left rest k e f h = (
  buffer ((done ++ left) ++ rest) k e,
  make_on_field (done ++ left) rest k e h,
  close_on_rest left rest f _,
)

-- On a field that stands in a buffer behind its varint length, `pb_skip_string` skips just the
-- length and the field.
pub pb_skip_string-field :
    (bs rest : List ℕ) (k : ℕ) (e : Option ErrMsg)
    → IsU32 (length bs)
    → pb_skip_string (
        buffer
          (encoding (length bs) ++ (bs ++ rest))
          (length (encoding (length bs)) + (length bs + k))
          e)
      ≡ ok tt (buffer rest k e)
unfolding pb_skip_string
pb_skip_string-field bs rest k e h =
    >>=-ok pb_decode_varint32 pb_read_null _
      (decode_encoding32 (length bs) (bs ++ rest) (length bs + k) e h)
    ∙ pb_read_null-buffer bs rest k e
