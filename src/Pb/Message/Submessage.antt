-- ===== src/Pb/Message/Submessage.antt =====
-- `pb_encode_submessage` of pb_encode.c: a message inside a message, written twice, the first
-- time for its size.
use daily_diary.Base.{ℕ, ◌+◌, u64, ltb, ◌==◌, if◌then◌else◌, none}
use daily_diary.Pb.{Res, ok, fail, fault, ◌>>◌, stream_full, submsg_size_changed}
use daily_diary.Pb.OStream.{OStream, null_buf, sizing, pb_write, is_null, return_error}
use daily_diary.Pb.Encode.{pb_encode_varint}
use daily_diary.Pb.Message.{Action, MessageEncoder}

-- The substream that the message is written through.
abbrev pub bounded : ℕ → OStream → OStream
bounded size s = record s { max_size = size; bytes_written = 0; errmsg = none }

-- What the stream takes over from the substream.
abbrev pub take_over : OStream → OStream → OStream
take_over sub s = record s {
  out = sub.out;
  room = sub.room;
  bytes_written = u64 (s.bytes_written + sub.bytes_written);
  errmsg = sub.errmsg;
}

-- Behind the second `pb_encode`, with its result.
unfoldable pub finish_submessage : ℕ → OStream → Res OStream (Unit {0}) → Res OStream (Unit {0})
finish_submessage size s (ok _ sub) =
    if sub.bytes_written == size
    then ok tt (take_over sub s)
    else return_error submsg_size_changed (take_over sub s)
finish_submessage size s (fail sub) =
    if sub.bytes_written == size
    then fail (take_over sub s)
    else return_error submsg_size_changed (take_over sub s)
finish_submessage size s fault = fault

-- Behind the writing of the size, which the first `pb_encode` has found.
unfoldable pub write_submessage : Action → ℕ → Action
unfolding finish_submessage
write_submessage encode size s =
    if is_null s.callback
    then pb_write (null_buf size) s
    else if ltb s.max_size (u64 (s.bytes_written + size))
    then return_error stream_full s
    else finish_submessage size s (encode (bounded size s))

-- Behind the first `pb_encode`, with its result.
unfoldable pub sized_submessage : Action → Res OStream (Unit {0}) → Action
unfolding write_submessage
sized_submessage encode (ok _ sub) =
    pb_encode_varint sub.bytes_written >> write_submessage encode sub.bytes_written
sized_submessage encode (fail sub) = λ s. fail (record s { errmsg = sub.errmsg })
sized_submessage encode fault = λ s. fault

unfoldable pub pb_encode_submessage : MessageEncoder → MessageEncoder
unfolding sized_submessage
pb_encode_submessage pb_encode fields src_struct =
    sized_submessage (pb_encode fields src_struct) (pb_encode fields src_struct sizing)
