-- ===== src/Pb/Decoder/Callbacks.antt =====
-- `decode_callback_field` of pb_decode.c: a field that the user's own function decodes.
use daily_diary.Base.{ℕ, zero, suc, ◌+◌, ◌==◌, ◌||◌, ltb, if◌then◌else◌, true, false}
use daily_diary.Base.{List, length}
use daily_diary.Pb.{Field, Res, ok, fail, fault, callback_failed}
use daily_diary.Pb.IStream.{IStream, return_error, pb_istream_from_buffer}
use daily_diary.Pb.Decode.{pb_make_string_substream, pb_close_string_substream, pb_skip_field}
use daily_diary.Pb.Decode.{read_raw_value}
use daily_diary.Pb.Iter.{Iter, field_at}
use daily_diary.Pb.Scalar.{Memory, load}
use daily_diary.Pb.Blobs.{Outcome}

-- The call of the user's function.
abbrev pub Callback : Type 0
Callback = Memory → IStream → Outcome

-- The end of a round of the `do` loop; `again` is the next one.
unfoldable pub callback_round : Outcome → Callback → Outcome
callback_round (ok _ sub, mem) again = elim (ltb 0 sub.bytes_left) [
  | true ↦ again mem sub
  | false ↦ (ok tt sub, mem)
]
callback_round (fail sub, mem) again = (fail sub, mem)
callback_round (fault, mem) again = (fault, mem)

-- The `do` loop. A function that reads nothing is called again and again.
unfoldable pub callback_loop : ℕ → Callback → Callback
unfolding callback_round
callback_loop zero callback mem sub = (fault, mem)
callback_loop (suc rounds) callback mem sub =
    callback_round (callback mem sub) (callback_loop rounds callback)

-- Behind the loop.
unfoldable pub finish_callback : IStream → Outcome → Outcome
finish_callback s (ok _ sub, mem) = (pb_close_string_substream sub s, mem)
finish_callback s (fail sub, mem) = (return_error callback_failed s, mem)
finish_callback s (fault, mem) = (fault, mem)

-- Behind `pb_make_string_substream`, with its result. There is a round for each byte, and one for
-- the empty string.
unfoldable pub string_callback : Callback → Res IStream IStream → Memory → Outcome
unfolding callback_loop finish_callback
string_callback callback (ok sub s) mem =
    finish_callback s (callback_loop (suc sub.bytes_left) callback mem sub)
string_callback callback (fail s) mem = (fail s, mem)
string_callback callback fault mem = (fault, mem)

-- The result of the function, with the stream as `read_raw_value` left it.
unfoldable pub parent_status : IStream → Res IStream (Unit {0}) → Res IStream (Unit {0})
parent_status s (ok _ sub) = ok tt s
parent_status s (fail sub) = fail s
parent_status s fault = fault

-- Behind `read_raw_value`, with the bytes it has stored in `buffer`.
unfoldable pub scalar_callback : Callback → Res IStream (List ℕ) → Memory → Outcome
unfolding parent_status
scalar_callback callback (ok bs s) mem =
    let r = callback mem (pb_istream_from_buffer bs (length bs)) in (parent_status s r.0, r.1)
scalar_callback callback (fail s) mem = (fail s, mem)
scalar_callback callback fault mem = (fault, mem)

-- A skipped field changes no memory.
abbrev pub skip : ℕ → Memory → IStream → Outcome
skip wire_type mem s = (pb_skip_field wire_type s, mem)

-- `decode` is the function at an address; a pb_callback_t is the pointer to it and then `arg`.
unfoldable pub decode_callback_field :
    (ℕ → Field → ℕ → Memory → IStream → Outcome) → ℕ → Iter → Memory → IStream → Outcome
unfolding string_callback scalar_callback
decode_callback_field decode wire_type it mem s =
    let callback = decode (load 8 it.pdata mem) (field_at it.start it.pos) (it.pdata + 8) in
    if it.pdata == 0 || load 8 it.pdata mem == 0
    then skip wire_type mem s
    else if wire_type == 2
    then string_callback callback (pb_make_string_substream s) mem
    else scalar_callback callback (read_raw_value wire_type 10 s) mem
