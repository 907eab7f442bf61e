-- ===== src/Pb/Decode.antt =====
-- The helper functions of pb_decode.c that read varints, tags, raw values and substreams.
pub mod Varint
pub mod Varint32
pub mod Bounds
pub mod Loops
pub mod Substream
use daily_diary.Base.{ℕ, zero, suc, ◌+◌, ◌-◌, ◌*◌, ◌/◌, ◌^◌, List, [], ◌∷◌, bit_and, bit_or}
use daily_diary.Base.{u8, u32, u64, Bool, true, false, not, ◌&&◌, ◌||◌, leb, ltb, ◌==◌}
use daily_diary.Base.{if◌then◌else◌}
use daily_diary.Pb.{varint_overflow, invalid_wire_type, parent_stream_too_short}
use daily_diary.Pb.{Res, ok, fail, fault, ◌>>=◌}
use daily_diary.Pb.IStream.{IStream, return_error, pb_read, pb_read_null, pb_readbyte}

-- `result |= (uint32_t)(byte & 0x7F) << bitpos`.
abbrev pub or_group32 : ℕ → ℕ → ℕ → ℕ
or_group32 result byte bitpos = bit_or result (u32 (bit_and byte 0x7f * 2 ^ bitpos))

-- The test for bytes past bit 32, which may only be empty or extend a sign.
abbrev pub is_overflow : ℕ → ℕ → ℕ → Bool
is_overflow result byte bitpos =
    let sign_extension = if ltb bitpos 63 then 0xff else 0x01 in
    not (bit_and byte 0x7f == 0) && (result / 2 ^ 31 == 0 || not (byte == sign_extension))

-- Behind the loop: at `bitpos` 35 the last byte went to bit 28, where four bits fit.
abbrev pub finish32 : ℕ → ℕ → ℕ → IStream → Res IStream ℕ
finish32 bitpos byte result s =
    if bitpos == 35 && not (bit_and byte 0x70 == 0)
    then return_error varint_overflow s
    else ok result s

-- The `do` loop of the multibyte case. `bitpos` is a uint_fast8_t, which is 8 bits wide on every
-- target of the build. Each round takes a byte, so `bytes_left + 1` rounds are enough.
pub varint32_loop : ℕ → ℕ → ℕ → IStream → Res IStream ℕ
varint32_loop zero bitpos result s = fault
varint32_loop (suc rounds) bitpos result s = elim (pb_readbyte s) [
  | fault ↦ fault
  | fail t ↦ fail t
  | ok byte t ↦ elim (leb 32 bitpos && is_overflow result byte bitpos) [
    | true ↦ return_error varint_overflow t
    | false ↦
        let result' = if leb 32 bitpos then result else or_group32 result byte bitpos in
        elim (bit_and byte 0x80 == 0) [
          | true ↦ finish32 (u8 (bitpos + 7)) byte result' t
          | false ↦ varint32_loop rounds (u8 (bitpos + 7)) result' t
        ]
  ]
]

-- The result, and `*eof` as the call leaves it.
unfoldable pub pb_decode_varint32_eof : Bool → IStream → Res IStream ℕ × Bool
pb_decode_varint32_eof eof s = elim (pb_readbyte s) [
  | fault ↦ (fault, eof)
  | fail t ↦ (fail t, if t.bytes_left == 0 then true else eof)
  | ok byte t ↦ (
    (if bit_and byte 0x80 == 0
        then ok byte t
        else varint32_loop (suc t.bytes_left) 7 (bit_and byte 0x7f) t),
    eof,
  )
]

unfoldable pub pb_decode_varint32 : IStream → Res IStream ℕ
unfolding pb_decode_varint32_eof
pb_decode_varint32 s = (pb_decode_varint32_eof false s).0

-- The `do` loop of `pb_decode_varint`. `bitpos` reaches 64 after ten rounds.
unfoldable pub varint_loop : ℕ → ℕ → ℕ → IStream → Res IStream ℕ
varint_loop zero bitpos result s = fault
varint_loop (suc rounds) bitpos result s = elim (leb 64 bitpos) [
  | true ↦ return_error varint_overflow s
  | false ↦ elim (pb_readbyte s) [
    | fault ↦ fault
    | fail t ↦ fail t
    | ok byte t ↦
        let result' = bit_or result (u64 (bit_and byte 0x7f * 2 ^ bitpos)) in
        elim (bit_and byte 0x80 == 0) [
          | true ↦ ok result' t
          | false ↦ varint_loop rounds (u8 (bitpos + 7)) result' t
        ]
  ]
]

unfoldable pub pb_decode_varint : IStream → Res IStream ℕ
pb_decode_varint s = varint_loop 11 0 0 s

-- The bit pattern of the int64_t that `pb_decode_svarint` stores; `~x` is `2^64 - 1 - x`.
unfoldable pub unzigzag : ℕ → ℕ
unzigzag value = if bit_and value 1 == 0 then value / 2 else 2 ^ 64 - 1 - value / 2

unfoldable pub pb_decode_svarint : IStream → Res IStream ℕ
unfolding unzigzag
pb_decode_svarint = do value ← pb_decode_varint; λ s. ok (unzigzag value) s

pub skip_varint_loop : ℕ → IStream → Res IStream (Unit {0})
skip_varint_loop zero s = fault
skip_varint_loop (suc rounds) s = elim (pb_read 1 s) [
  | ok [] t ↦ fault
  | ok (byte ∷ bs) t ↦ elim (bit_and byte 0x80 == 0) [
    | true ↦ ok tt t
    | false ↦ skip_varint_loop rounds t
  ]
  | fail t ↦ fail t
  | fault ↦ fault
]

unfoldable pub pb_skip_varint : IStream → Res IStream (Unit {0})
pb_skip_varint s = skip_varint_loop (suc s.bytes_left) s

unfoldable pub pb_skip_string : IStream → Res IStream (Unit {0})
pb_skip_string = do length ← pb_decode_varint32; pb_read_null length

-- `*tag` and `*wire_type` of a successful call; `temp & 7` need be no enumerator.
pub record Tag : Type 0 where
  pub tag : ℕ
  pub wire_type : ℕ

abbrev pub split_tag : Res IStream ℕ × Bool → Res IStream Tag × Bool
split_tag (fault, eof) = (fault, eof)
split_tag (fail t, eof) = (fail t, eof)
split_tag (ok temp t, eof) =
    if temp == 0
    then (fail t, true)
    else (ok (record { tag = temp / 2 ^ 3; wire_type = bit_and temp 7 }) t, eof)

-- The result and `*eof`.
unfoldable pub pb_decode_tag : IStream → Res IStream Tag × Bool
pb_decode_tag s = split_tag (pb_decode_varint32_eof false s)

unfoldable pub pb_skip_field : ℕ → IStream → Res IStream (Unit {0})
pb_skip_field wire_type s =
    if wire_type == 0
    then pb_skip_varint s
    else if wire_type == 1
    then pb_read_null 8 s
    else if wire_type == 2
    then pb_skip_string s
    else if wire_type == 5
    then pb_read_null 4 s
    else return_error invalid_wire_type s

-- The PB_WT_VARINT case of `read_raw_value`, with `room` bytes of the buffer left.
unfoldable pub raw_varint : ℕ → IStream → Res IStream (List ℕ)
raw_varint zero s = fail s
raw_varint (suc room) s = elim (pb_read 1 s) [
  | ok [] t ↦ fault
  | ok (byte ∷ bs) t ↦ elim (bit_and byte 0x80 == 0) [
    | true ↦ ok (byte ∷ []) t
    | false ↦ elim (raw_varint room t) [
      | ok more u ↦ ok (byte ∷ more) u
      | fail u ↦ fail u
      | fault ↦ fault
    ]
  ]
  | fail t ↦ fail t
  | fault ↦ fault
]

-- The bytes stored in `buf`, of which `*size` is the number.
unfoldable pub read_raw_value : ℕ → ℕ → IStream → Res IStream (List ℕ)
read_raw_value wire_type max_size s =
    if wire_type == 0
    then raw_varint max_size s
    else if wire_type == 1
    then pb_read 8 s
    else if wire_type == 5
    then pb_read 4 s
    else return_error invalid_wire_type s

-- `*substream = *stream` and the tests and assignments behind it.
abbrev pub split_stream : ℕ → IStream → Res IStream IStream
split_stream size s =
    if ltb s.bytes_left size
    then return_error parent_stream_too_short s
    else ok (record s { bytes_left = size }) (record s { bytes_left = s.bytes_left - size })

-- The result is the substream; the state is the parent.
unfoldable pub pb_make_string_substream : IStream → Res IStream IStream
pb_make_string_substream = do size ← pb_decode_varint32; split_stream size

-- `stream->state = substream->state; stream->errmsg = substream->errmsg;`
abbrev pub rejoin : IStream → IStream → IStream
rejoin sub s = record s { state = sub.state; errmsg = sub.errmsg }

unfoldable pub pb_close_string_substream : IStream → IStream → Res IStream (Unit {0})
pb_close_string_substream sub s =
    if sub.bytes_left == 0 then ok tt (rejoin sub s) else elim (pb_read_null sub.bytes_left sub) [
      | ok _ sub' ↦ ok tt (rejoin sub' s)
      | fail sub' ↦ fail s
      | fault ↦ fault
    ]
