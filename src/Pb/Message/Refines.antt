-- ===== src/Pb/Message/Refines.antt =====
-- The message encoder of pb_encode.c writes the bytes of the format.
pub mod Values
pub mod Submessage
pub mod Arrays
pub mod Table
pub mod Fields
use daily_diary.Base.{
  ℕ, zero, suc, ◌+◌, ◌^◌, ◌≤◌, ◌<◌, ◌≡◌, refl, ap, ◌∙◌, arith, List, [], ◌∷◌, ◌++◌, length,
  length-append, Bool,
}
use daily_diary.Base.{some, u64}
use daily_diary.Pb.{Field, Res, ok, fail, stream_full}
use daily_diary.Pb.OStream.{OStream, sizing, pb_ostream_from_buffer, add_written}
use daily_diary.Pb.OStream.Emits.{
  Emits, pb_ostream_from_buffer-IsBuffer, pb_write-Emits, >>-Emits, IsRefused,
}
use daily_diary.Pb.Message.{Env}
use daily_diary.Pb.Message.Absent.{message_visits, pb_check_proto3_default_value}
use daily_diary.Pb.Message.Encode.{
  pb_encode, encoded_size, pb_get_encoded_size, pb_encode_delimited, pb_encode_nullterminated,
}
use daily_diary.Pb.Message.Format.{UserBytes, message_bytes, delimited, delimited_bytes}
use daily_diary.Pb.Message.Describes.{Describes, none-Describes}
use daily_diary.Pb.Message.Refines.Fields.{IsDescribed, encode_visited-Describes}
use daily_diary.Pb.Message.Refines.Submessage.{pb_encode_submessage-Describes}

message-Describes :
    (depth : ℕ) (env : Env) (user : UserBytes)
    → IsDescribed env user
    → (fields : List Field) (src : ℕ)
    → Describes (message_bytes depth env user fields src) (pb_encode depth env fields src)
unfolding message_bytes pb_encode
message-Describes zero env user told fields src = none-Describes
message-Describes (suc depth) env user told fields src =
    encode_visited-Describes (message_bytes depth env user) (pb_encode depth env)
      (message-Describes depth env user told) (pb_check_proto3_default_value (suc depth) env) env
      user told (message_visits fields src)

module _ (depth : ℕ) (env : Env) (user : UserBytes) (told : IsDescribed env user)
    (fields : List Field) (src : ℕ) (bs : List ℕ)
    (is_message : message_bytes depth env user fields src ≡ some bs) where
  -- Where the bytes of a message are described (`message_bytes`: fields in the order of the
  -- descriptor, values by type, packed and unpacked arrays, messages inside, oneofs, proto3
  -- defaults, callbacks and extensions that write what is said of them) and are fewer than 2 ^ 63,
  -- `pb_encode` counts them on a sizing stream, writes exactly them to a buffer without an error
  -- and with room for them, and ends with "stream full" on one without.
  pub pb_encode-Emits : length bs < 2 ^ 63 → Emits (pb_encode depth env fields src) bs
  pb_encode-Emits short = message-Describes depth env user told fields src bs is_message short

  -- Where the bytes of a message are described and are fewer than 2 ^ 63, `pb_get_encoded_size`
  -- gives their number.
  pub pb_get_encoded_size-length :
      length bs < 2 ^ 63 → pb_get_encoded_size depth env fields src ≡ ok (length bs) tt
  unfolding pb_get_encoded_size sizing
  pb_get_encoded_size-length short =
      ap encoded_size ((pb_encode-Emits short).sized sizing refl (omega arith))
      ∙ ap (λ n. ok n tt) word
    where
      word : u64 (0 + length bs) ≡ length bs
      word = omega arith

  pub pb_encode-fits :
      (n : ℕ)
      → n < 2 ^ 63
      → length bs ≤ n
      → (t : OStream) × (pb_encode depth env fields src (pb_ostream_from_buffer n) ≡ ok tt t)
        × (t.out ≡ bs)
        × (t.bytes_written ≡ length bs)
  unfolding pb_ostream_from_buffer
  pb_encode-fits n word h = (
    _,
    (pb_encode-Emits (omega arith)).full _ (pb_ostream_from_buffer-IsBuffer n word) (omega arith),
    refl,
    omega arith,
  )

  -- Where the bytes of a message are described, and fewer than 2 ^ 63, but more than the buffer
  -- has room for, `pb_encode` fails with "stream full", and has written at most as many bytes as
  -- the buffer has.
  pub pb_encode_full :
      (n : ℕ)
      → n < length bs
      → length bs < 2 ^ 63
      → (t : OStream) × (pb_encode depth env fields src (pb_ostream_from_buffer n) ≡ fail t)
        × (t.errmsg ≡ some stream_full)
        × (length t.out ≤ n)
  unfolding pb_ostream_from_buffer
  pb_encode_full n small short =
      let r =
        (pb_encode-Emits short).refused _ (pb_ostream_from_buffer-IsBuffer n (omega arith))
          (omega arith) in
      (
        r.after,
        r.returns,
        r.message,
        let stays = r.stays in let wrote = ap length r.wrote in omega arith,
      )

  pub pb_encode_delimited-Emits :
      length (delimited bs) < 2 ^ 63
      → Emits (pb_encode_delimited depth env fields src) (delimited bs)
  unfolding pb_encode_delimited
  pb_encode_delimited-Emits short =
      pb_encode_submessage-Describes (pb_encode depth env) fields src (some bs)
        (λ xs h. message-Describes depth env user told fields src xs (is_message ∙ h))
        (delimited bs) refl short

  pub pb_encode_nullterminated-Emits :
      length (bs ++ 0 ∷ []) < 2 ^ 63
      → Emits (pb_encode_nullterminated depth env fields src) (bs ++ 0 ∷ [])
  unfolding pb_encode_nullterminated
  pb_encode_nullterminated-Emits short =
      >>-Emits (pb_encode-Emits (omega (arith, length-append bs (0 ∷ []))))
        (pb_write-Emits (0 ∷ []) (omega arith)) short
