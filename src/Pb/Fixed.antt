-- ===== src/Pb/Fixed.antt =====
-- `pb_decode_fixed32` and `pb_decode_fixed64` of pb_decode.c.
pub mod Value
use daily_diary.Base.{ℕ, ◌*◌, ◌^◌, List, get_or, bit_or}
use daily_diary.Pb.{Res, ok, ◌>>=◌}
use daily_diary.Pb.IStream.{IStream, pb_read}

-- `(uint32_t)bytes[i] << k`, and the same in 64 bits: no bit of a byte is shifted out.
abbrev pub placed : List ℕ → ℕ → ℕ → ℕ
placed bytes i k = get_or bytes i 0 * 2 ^ k

-- The `|` of the four bytes.
abbrev pub join32 : List ℕ → ℕ
join32 bs =
    bit_or (bit_or (bit_or (placed bs 0 0) (placed bs 1 8)) (placed bs 2 16)) (placed bs 3 24)

-- The `|` of the eight bytes.
abbrev pub join64 : List ℕ → ℕ
join64 bs =
    bit_or (bit_or (bit_or (bit_or (join32 bs) (placed bs 4 32)) (placed bs 5 40)) (placed bs 6 48))
      (placed bs 7 56)

unfoldable pub pb_decode_fixed32 : IStream → Res IStream ℕ
pb_decode_fixed32 = do bytes ← pb_read 4; λ s. ok (join32 bytes) s

unfoldable pub pb_decode_fixed64 : IStream → Res IStream ℕ
pb_decode_fixed64 = do bytes ← pb_read 8; λ s. ok (join64 bytes) s
