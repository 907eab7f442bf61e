-- ===== src/Pb/OStream.antt =====
-- Output streams of pb_encode.c and pb_encode.h: `pb_ostream_t`, `buf_write`,
-- `pb_ostream_from_buffer`, PB_OSTREAM_SIZING and `pb_write`.
pub mod Emits
use daily_diary.Base.{ℕ, ◌+◌, ◌-◌, ◌^◌, List, [], ◌++◌, length, Bool, true, false, leb, ltb}
use daily_diary.Base.{if◌then◌else◌, ◌==◌, u64, Option, none}
use daily_diary.Pb.{ErrMsg, stream_full, io_error, Res, ok, fail, fault, first_error}

-- The `callback` pointer. A custom callback is given the data behind `state` and the bytes, and
-- answers whether it took them and what it left behind `state`.
pub data Writer : Type 0 where
  null buf_write : Writer
  custom : (List ℕ → List ℕ → Bool × List ℕ) → Writer

-- pb_ostream_t. For a memory buffer `out` is what was written below the pointer `state`, and
-- `room` the bytes of the caller's array from `state` on; for a custom stream `out` is its data.
pub record OStream : Type 0 where
  pub callback : Writer
  pub out : List ℕ
  pub room : ℕ
  pub max_size : ℕ
  pub bytes_written : ℕ
  pub errmsg : Option ErrMsg

-- The `buf` and `count` of a write: so many bytes in memory, or NULL and a count.
pub data Buf : Type 0 where
  bytes : List ℕ → Buf
  null_buf : ℕ → Buf

abbrev pub count : Buf → ℕ
count (bytes bs) = length bs
count (null_buf n) = n

abbrev pub contents : Buf → List ℕ
contents (bytes bs) = bs
contents (null_buf n) = []

unfoldable pub pb_ostream_from_buffer : ℕ → OStream
pb_ostream_from_buffer bufsize = record {
  callback = buf_write;
  out = [];
  room = bufsize;
  max_size = bufsize;
  bytes_written = 0;
  errmsg = none;
}

unfoldable pub sizing : OStream
sizing = record {
  callback = null;
  out = [];
  room = 0;
  max_size = 0;
  bytes_written = 0;
  errmsg = none;
}

-- PB_RETURN_ERROR.
abbrev pub return_error : {A : Type 0} → ErrMsg → OStream → Res OStream A
return_error m s = fail (record s { errmsg = first_error s.errmsg m })

-- `for (i = 0; i < count; i++) dest[i] = buf[i];` on the caller's array.
pub copy_out : Buf → OStream → Res OStream (Unit {0})
copy_out (bytes bs) s =
    if leb (length bs) s.room
    then ok tt (record s { out = s.out ++ bs; room = s.room - length bs })
    else fault
copy_out (null_buf n) s = if n == 0 then ok tt s else fault

-- The call of `stream->callback`, which is not NULL.
pub call_writer : Writer → Buf → OStream → Res OStream (Unit {0})
unfolding copy_out
call_writer null b s = fault
call_writer buf_write b s = copy_out b s
call_writer (custom f) b s =
    let (taken, out) = f s.out (contents b) in
    if taken then ok tt (record s { out = out }) else fail (record s { out = out })

-- `stream->bytes_written += count`.
abbrev pub add_written : ℕ → OStream → OStream
add_written n s = record s { bytes_written = u64 (s.bytes_written + n) }

-- The tail of `pb_write`, behind the test for a NULL callback.
pub write_through : Buf → OStream → Res OStream (Unit {0})
unfolding call_writer
write_through b s =
    if ltb s.max_size (u64 (s.bytes_written + count b))
    then return_error stream_full s
    else elim (call_writer s.callback b s) [
      | ok _ t ↦ ok tt (add_written (count b) t)
      | fail t ↦ return_error io_error t
      | fault ↦ fault
    ]

abbrev pub is_null : Writer → Bool
is_null null = true
is_null buf_write = false
is_null (custom f) = false

unfoldable pub pb_write : Buf → OStream → Res OStream (Unit {0})
unfolding write_through
pb_write b s = if is_null s.callback then ok tt (add_written (count b) s) else write_through b s
