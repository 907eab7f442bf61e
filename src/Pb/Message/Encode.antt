-- ===== src/Pb/Message/Encode.antt =====
-- `pb_encode` of pb_encode.c and the functions on it.
use daily_diary.Base.{ℕ, zero, suc, List, [], ◌∷◌}
use daily_diary.Pb.{Field, Res, ok, fail, fault, ◌>>◌}
use daily_diary.Pb.OStream.{OStream, bytes, sizing, pb_write}
use daily_diary.Pb.Message.{MessageEncoder, Env}
use daily_diary.Pb.Message.Absent.{message_visits, pb_check_proto3_default_value}
use daily_diary.Pb.Message.Fields.{encode_visited}
use daily_diary.Pb.Message.Submessage.{pb_encode_submessage}

-- `depth` is how many messages deep the calls can be before the stack is full.
unfoldable pub pb_encode : ℕ → Env → MessageEncoder
unfolding encode_visited
pb_encode zero env fields = λ src s. fault
pb_encode (suc depth) env fields = λ src.
    encode_visited (pb_encode depth env) (pb_check_proto3_default_value (suc depth) env) env
      (message_visits fields src)

unfoldable pub pb_encode_delimited : ℕ → Env → MessageEncoder
unfolding pb_encode_submessage
pb_encode_delimited depth env = pb_encode_submessage (pb_encode depth env)

unfoldable pub pb_encode_nullterminated : ℕ → Env → MessageEncoder
pb_encode_nullterminated depth env fields src = do
  pb_encode depth env fields src
  pb_write (bytes (0 ∷ []))

-- `*size`, from the result of `pb_encode`.
unfoldable pub encoded_size : Res OStream (Unit {0}) → Res (Unit {0}) ℕ
encoded_size (ok _ stream) = ok stream.bytes_written tt
encoded_size (fail stream) = fail tt
encoded_size fault = fault

unfoldable pub pb_get_encoded_size : ℕ → Env → List Field → ℕ → Res (Unit {0}) ℕ
unfolding encoded_size
pb_get_encoded_size depth env fields src = encoded_size (pb_encode depth env fields src sizing)
