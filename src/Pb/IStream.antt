-- ===== src/Pb/IStream.antt =====
-- Input streams of pb_decode.c and pb_decode.h: `pb_istream_t`, `buf_read`, `pb_read`,
-- `pb_readbyte` and `pb_istream_from_buffer`.
pub mod Buffer
pub mod Length
use daily_diary.Base.{ℕ, zero, suc, ◌-◌, List, [], ◌∷◌, length, take, drop, Bool, true, false}
use daily_diary.Base.{leb, ltb, ◌==◌, if◌then◌else◌, Option, none}
use daily_diary.Pb.{ErrMsg, end_of_stream, io_error, Res, ok, fail, fault, first_error}

-- What a custom callback answers: whether it returned true, the bytes it stored and the data
-- that it left behind `state`.
pub record Answer : Type 0 where
  pub success : Bool
  pub got : List ℕ
  pub left : List ℕ

-- The `callback` pointer: `buf_read`, or the caller's own.
pub data Reader : Type 0 where
  buf_read : Reader
  custom : (List ℕ → ℕ → Answer) → Reader

-- pb_istream_t. For a memory buffer `state` is the array from the pointer on; for a custom stream
-- it is its data.
pub record IStream : Type 0 where
  pub callback : Reader
  pub state : List ℕ
  pub bytes_left : ℕ
  pub errmsg : Option ErrMsg

unfoldable pub pb_istream_from_buffer : List ℕ → ℕ → IStream
pb_istream_from_buffer buf bufsize = record {
  callback = buf_read;
  state = buf;
  bytes_left = bufsize;
  errmsg = none;
}

-- PB_RETURN_ERROR.
abbrev pub return_error : {A : Type 0} → ErrMsg → IStream → Res IStream A
return_error m s = fail (record s { errmsg = first_error s.errmsg m })

-- `buf_read`: the pointer moves on by `count`, and that many bytes are copied.
pub advance : ℕ → IStream → Res IStream (List ℕ)
advance count s =
    if leb count (length s.state)
    then ok (take count s.state) (record s { state = drop count s.state })
    else fault

-- The call of `stream->callback`. A callback that reports success has stored `count` bytes: what
-- is read from the caller's array otherwise was never set.
pub call_reader : Reader → ℕ → IStream → Res IStream (List ℕ)
unfolding advance
call_reader buf_read count s = advance count s
call_reader (custom f) count s =
    let answer = f s.state count in
    let t = record s { state = answer.left } in
    if answer.success then if length answer.got == count then ok answer.got t else fault else fail t

-- `pb_read` with a buffer to fill.
unfoldable pub pb_read : ℕ → IStream → Res IStream (List ℕ)
unfolding call_reader
pb_read count s =
    if ltb s.bytes_left count
    then return_error end_of_stream s
    else elim (call_reader s.callback count s) [
      | ok bs t ↦ ok bs (record t { bytes_left = t.bytes_left - count })
      | fail t ↦ return_error io_error t
      | fault ↦ fault
    ]

unfoldable pub forget : Res IStream (List ℕ) → Res IStream (Unit {0})
forget (ok bs t) = ok tt t
forget (fail t) = fail t
forget fault = fault

-- `while (count > 16)` on a custom stream, by a `tmp` of 16 bytes. Each round takes 16 off, so
-- `count` rounds are more than enough.
pub skip_blocks : ℕ → ℕ → IStream → Res IStream (Unit {0})
unfolding forget
skip_blocks zero count s = fault
skip_blocks (suc rounds) count s = elim (ltb 16 count) [
  | true ↦ elim (pb_read 16 s) [
    | ok bs t ↦ skip_blocks rounds (count - 16) t
    | fail t ↦ fail t
    | fault ↦ fault
  ]
  | false ↦ forget (pb_read count s)
]

-- `pb_read` with a NULL buffer, which skips `count` bytes.
pub skip_with : Reader → ℕ → IStream → Res IStream (Unit {0})
unfolding forget
skip_with buf_read count s = forget (pb_read count s)
skip_with (custom f) count s = skip_blocks (suc count) count s

unfoldable pub pb_read_null : ℕ → IStream → Res IStream (Unit {0})
unfolding skip_with
pb_read_null count s = skip_with s.callback count s

-- `*buf` after a successful callback.
pub store_byte : List ℕ → IStream → Res IStream ℕ
store_byte [] t = fault
store_byte (b ∷ bs) t = ok b (record t { bytes_left = t.bytes_left - 1 })

unfoldable pub pb_readbyte : IStream → Res IStream ℕ
unfolding call_reader store_byte
pb_readbyte s =
    if s.bytes_left == 0 then return_error end_of_stream s else elim (call_reader s.callback 1 s) [
      | ok bs t ↦ store_byte bs t
      | fail t ↦ return_error io_error t
      | fault ↦ fault
    ]
