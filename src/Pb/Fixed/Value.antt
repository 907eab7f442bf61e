-- ===== src/Pb/Fixed/Value.antt =====
-- The fixed-width numbers are read in little-endian order.
use daily_diary.Base.{ℕ, ◌+◌, ◌*◌, ◌%◌, ◌^◌, ◌<◌, ◌≡◌, ap, ◌∙◌, arith}
use daily_diary.Base.{List, [], ◌∷◌, ◌++◌, bit_or, bit_or_fields, IsU32, IsU64, Option}
use daily_diary.Pb.{ErrMsg, ok, >>=-ok}
use daily_diary.Pb.IStream.{pb_read}
use daily_diary.Pb.IStream.Buffer.{buffer, pb_read-buffer}
use daily_diary.Pb.Encode.Scalars.{little_endian}
use daily_diary.Pb.Fixed.{join32, join64, pb_decode_fixed32, pb_decode_fixed64}

-- The bytes of the lower word, each below 256, do not overlap.
join32_sum :
    (a b c d : ℕ) (more : List ℕ)
    → a < 256
    → b < 256
    → c < 256
    → d < 256
    → join32 (a ∷ b ∷ c ∷ d ∷ more) ≡ a + b * 2 ^ 8 + c * 2 ^ 16 + d * 2 ^ 24
join32_sum a b c d more ha hb hc hd = ground (
  arith,
  bit_or_fields 8 (a * 2 ^ 0) b,
  bit_or_fields 16 (a + b * 2 ^ 8) c,
  bit_or_fields 24 (a + b * 2 ^ 8 + c * 2 ^ 16) d,
)

-- The bytes of the upper word, above the lower word `w`.
upper_sum :
    (w a b c d : ℕ)
    → w < 2 ^ 32
    → a < 256
    → b < 256
    → c < 256
    → d < 256
    → bit_or (bit_or (bit_or (bit_or w (a * 2 ^ 32)) (b * 2 ^ 40)) (c * 2 ^ 48)) (d * 2 ^ 56)
      ≡ w + a * 2 ^ 32 + b * 2 ^ 40 + c * 2 ^ 48 + d * 2 ^ 56
upper_sum w a b c d hw ha hb hc hd = ground (
  arith,
  bit_or_fields 32 w a,
  bit_or_fields 40 (w + a * 2 ^ 32) b,
  bit_or_fields 48 (w + a * 2 ^ 32 + b * 2 ^ 40) c,
  bit_or_fields 56 (w + a * 2 ^ 32 + b * 2 ^ 40 + c * 2 ^ 48) d,
)

join64_sum :
    (a b c d e f g h : ℕ)
    → a < 256
    → b < 256
    → c < 256
    → d < 256
    → e < 256
    → f < 256
    → g < 256
    → h < 256
    → join64 (a ∷ b ∷ c ∷ d ∷ e ∷ f ∷ g ∷ h ∷ [])
      ≡ a + b * 2 ^ 8 + c * 2 ^ 16 + d * 2 ^ 24 + e * 2 ^ 32 + f * 2 ^ 40 + g * 2 ^ 48 + h * 2 ^ 56
join64_sum a b c d e f g h ha hb hc hd he hf hg hh =
    let low = join32_sum a b c d (e ∷ f ∷ g ∷ h ∷ []) ha hb hc hd in
    ap
      (λ w. bit_or (bit_or (bit_or (bit_or w (e * 2 ^ 32)) (f * 2 ^ 40)) (g * 2 ^ 48)) (h * 2 ^ 56))
      low
    ∙ upper_sum _ e f g h (omega arith) he hf hg hh

join32-little_endian : (v : ℕ) → IsU32 v → join32 (little_endian 4 v) ≡ v
join32-little_endian v h =
    join32_sum _ _ _ _ [] (omega arith) (omega arith) (omega arith) (omega arith) ∙ omega arith

join64-little_endian : (v : ℕ) → IsU64 v → join64 (little_endian 8 v) ≡ v
join64-little_endian v h =
    join64_sum (v % 256) _ _ _ _ _ _ _ (omega arith) (omega arith) (omega arith) (omega arith)
      (omega arith) (omega arith) (omega arith) (omega arith)
    ∙ omega arith

-- `pb_decode_fixed32` and `pb_decode_fixed64` read back the little-endian bytes of a number.
pub pb_decode_fixed32-value :
    (v : ℕ) (rest : List ℕ) (k : ℕ) (e : Option ErrMsg)
    → IsU32 v
    → pb_decode_fixed32 (buffer (little_endian 4 v ++ rest) (4 + k) e) ≡ ok v (buffer rest k e)
unfolding pb_decode_fixed32
pb_decode_fixed32-value v rest k e h =
    >>=-ok (pb_read 4) _ _ (pb_read-buffer (little_endian 4 v) rest k e)
    ∙ ap (λ w. ok w (buffer rest k e)) (join32-little_endian v h)

pub pb_decode_fixed64-value :
    (v : ℕ) (rest : List ℕ) (k : ℕ) (e : Option ErrMsg)
    → IsU64 v
    → pb_decode_fixed64 (buffer (little_endian 8 v ++ rest) (8 + k) e) ≡ ok v (buffer rest k e)
unfolding pb_decode_fixed64
pb_decode_fixed64-value v rest k e h =
    >>=-ok (pb_read 8) _ _ (pb_read-buffer (little_endian 8 v) rest k e)
    ∙ ap (λ w. ok w (buffer rest k e)) (join64-little_endian v h)
