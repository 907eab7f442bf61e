-- ===== src/Pb/Decode/Varint.antt =====
-- What `pb_decode_varint` makes of a buffer, byte by byte.
use native.Mathlib.Nat.{mod-add-mod, zero-add}
use daily_diary.Base.{ℕ, zero, suc, ◌+◌, ◌*◌, ◌%◌, ◌^◌, ◌≤◌, ◌<◌, ◌≡◌, ap, ◌∙◌}
use daily_diary.Base.{arith, All, List, [], ◌∷◌, ◌++◌, length, bit_and, bit_or, u64, and_7f, and_80}
use daily_diary.Base.{bit_or_shifted, pow-add, Option}
use daily_diary.Pb.{ErrMsg, varint_overflow, end_of_stream, ok, fail, first_error}
use daily_diary.Pb.IStream.{IStream, return_error}
use daily_diary.Pb.IStream.Buffer.{buffer, pb_readbyte-append, pb_readbyte-buffer, pb_readbyte-end}
use daily_diary.Pb.IStream.{pb_readbyte}
use daily_diary.Pb.Decode.{varint_loop, pb_decode_varint}

-- The bytes of one varint: all but the last have the top bit set.
abbrev pub IsVarint : List ℕ → Type 0
IsVarint [] = ⊥
IsVarint (b ∷ []) = b < 128
IsVarint (b ∷ c ∷ bs) = (128 ≤ b) × (b < 256) × IsVarint (c ∷ bs)

-- The number that groups of seven bits stand for, the lowest first.
abbrev pub varint_value : List ℕ → ℕ
varint_value [] = 0
varint_value (b ∷ bs) = b % 128 + 128 * varint_value bs

pub shift_group : (j : ℕ) → 2 ^ (7 * suc j) ≡ 128 * 2 ^ (7 * j)
shift_group j = omega (arith, ap (λ (t : ℕ). 2 ^ t) seven_more, pow-add 7 (7 * j))
  where
    seven_more : 7 * suc j ≡ 7 + 7 * j
    seven_more = omega arith

-- One round of the loop at bit `7 * j`, on the last byte and on an inner one.
last_round :
    (rounds j result b : ℕ) (s t : IStream)
    → j ≤ 9
    → result < 2 ^ (7 * j)
    → b < 128
    → pb_readbyte s ≡ ok b t
    → varint_loop (suc rounds) (7 * j) result s ≡ ok (u64 (result + b * 2 ^ (7 * j))) t
unfolding varint_loop
last_round rounds j result b s t hj hr hb e =
    ground (arith, and_7f b, and_80 b, bit_or_shifted 64 (7 * j) result b)

inner_round :
    (rounds j result b : ℕ) (s t : IStream)
    → j ≤ 9
    → result < 2 ^ (7 * j)
    → 128 ≤ b
    → b < 256
    → pb_readbyte s ≡ ok b t
    → varint_loop (suc rounds) (7 * j) result s
      ≡ varint_loop rounds (7 * suc j) (u64 (result + b % 128 * 2 ^ (7 * j))) t
unfolding varint_loop
inner_round rounds j result b s t hj hr lo hi e =
    ground (arith, and_7f b, and_80 b, bit_or_shifted 64 (7 * j) result (b % 128))

-- An inner byte moves on by seven bits, whatever was read before.
abbrev pub IsInner : ℕ → Type 0
IsInner b = (128 ≤ b) × (b < 256)

skip_inner :
    (rounds j result b : ℕ) (s t : IStream)
    → j ≤ 9
    → IsInner b
    → pb_readbyte s ≡ ok b t
    → varint_loop (suc rounds) (7 * j) result s
      ≡ varint_loop rounds (7 * suc j) (bit_or result (u64 (bit_and b 0x7f * 2 ^ (7 * j)))) t
unfolding varint_loop
skip_inner rounds j result b s t hj (lo, hi) e = ground (arith, and_80 b)

-- The words that the rounds build up; `p` is the weight of the group at hand.
join_words : (r g v p : ℕ) → u64 (u64 (r + g * p) + v * (128 * p)) ≡ u64 (r + (g + 128 * v) * p)
join_words r g v p = mod-add-mod _ _ _ ∙ ap (λ (t : ℕ). u64 t) (omega arith)

next_fits : (j r g : ℕ) → r < 2 ^ (7 * j) → g < 128 → u64 (r + g * 2 ^ (7 * j)) < 2 ^ (7 * suc j)
next_fits j r g hr hg = rw (shift_group j) (omega (arith, weigh hg))
  where
    weigh : g < 128 → g * 2 ^ (7 * j) + 2 ^ (7 * j) ≤ 128 * 2 ^ (7 * j)
    weigh h = grind arith

varint_loop-value :
    (bs rest : List ℕ) (rounds j result k : ℕ) (e : Option ErrMsg)
    → IsVarint bs
    → length bs ≤ rounds
    → j + length bs ≤ 10
    → result < 2 ^ (7 * j)
    → varint_loop rounds (7 * j) result (buffer (bs ++ rest) (length bs + k) e)
      ≡ ok (u64 (result + varint_value bs * 2 ^ (7 * j))) (buffer rest k e)
varint_loop-value [] rest rounds j result k e h hn hj hr = absurd h
varint_loop-value (b ∷ bs) rest zero j result k e h hn hj hr = absurd (omega arith)
varint_loop-value (b ∷ []) rest (suc rounds) j result k e h hn hj hr =
    last_round rounds j result b _ _ (omega arith) hr h (pb_readbyte-append b _ _ k e)
    ∙ ground (arith, ap (λ (g : ℕ). g * 2 ^ (7 * j)) (own_group h))
  where
    own_group : b < 128 → b ≡ b % 128 + 128 * 0
    own_group small = omega arith
varint_loop-value (b ∷ c ∷ bs) rest (suc rounds) j result k e (lo, hi, h) hn hj hr =
    inner_round rounds j result b _ _ (omega arith) hr lo hi (pb_readbyte-append b _ _ k e)
    ∙ varint_loop-value (c ∷ bs) rest rounds (suc j) _ k e h (omega arith) (omega arith)
        (next_fits j result (b % 128) hr (omega arith))
    ∙ ap (λ w. ok w (buffer rest k e)) (joined (c ∷ bs))
  where
    joined :
        (bs : List ℕ)
        → u64 (u64 (result + b % 128 * 2 ^ (7 * j)) + varint_value bs * 2 ^ (7 * suc j))
          ≡ u64 (result + (b % 128 + 128 * varint_value bs) * 2 ^ (7 * j))
    joined bs = rw (shift_group j) (join_words result (b % 128) (varint_value bs) (2 ^ (7 * j)))

-- On one whole varint of at most ten bytes `pb_decode_varint` takes exactly these bytes, and
-- stores the number they stand for, modulo 2 ^ 64.
pub pb_decode_varint-value :
    (bs rest : List ℕ) (k : ℕ) (e : Option ErrMsg)
    → IsVarint bs
    → length bs ≤ 10
    → pb_decode_varint (buffer (bs ++ rest) (length bs + k) e)
      ≡ ok (u64 (varint_value bs)) (buffer rest k e)
unfolding pb_decode_varint
pb_decode_varint-value bs rest k e h hn =
    varint_loop-value bs rest 11 0 0 k e h (omega arith) (omega arith) (omega arith)
    ∙ ap (λ w. ok (u64 w) (buffer rest k e)) (omega arith)

stop_at_ten :
    (rounds j result : ℕ) (s : IStream)
    → j ≡ 10
    → varint_loop (suc rounds) (7 * j) result s ≡ return_error varint_overflow s
unfolding varint_loop
stop_at_ten rounds j result s hj = ground arith

stop_at_end :
    (rounds j result : ℕ) (rest : List ℕ) (e : Option ErrMsg)
    → j ≤ 9
    → varint_loop (suc rounds) (7 * j) result (buffer rest 0 e)
      ≡ fail (buffer rest 0 (first_error e end_of_stream))
unfolding varint_loop
stop_at_end rounds j result rest e hj = ground (arith, pb_readbyte-end rest e)

-- Ten bytes with the top bit set end the loop: `bitpos` is 70, and what follows is not read.
varint_loop-overflow :
    (bs rest : List ℕ) (rounds j result k : ℕ) (e : Option ErrMsg)
    → All IsInner bs
    → length bs + j ≡ 10
    → length bs < rounds
    → varint_loop rounds (7 * j) result (buffer (bs ++ rest) (length bs + k) e)
      ≡ fail (buffer rest k (first_error e varint_overflow))
varint_loop-overflow bs rest zero j result k e h hj hn = absurd (omega arith)
varint_loop-overflow [] rest (suc rounds) j result k e h hj hn =
    stop_at_ten rounds j result _ (omega arith)
    ∙ ap (λ n. fail (buffer rest n (first_error e varint_overflow))) (zero-add k)
varint_loop-overflow (b ∷ bs) rest (suc rounds) j result k e (hb, h) hj hn =
    skip_inner rounds j result b _ _ (omega arith) hb (pb_readbyte-append b _ _ k e)
    ∙ varint_loop-overflow bs rest rounds (suc j) _ k e h (omega arith) (omega arith)

-- Ten bytes with their top bit set are refused by `pb_decode_varint` with no byte behind them
-- read, with "varint overflow" where no message was set before.
pb_decode_varint-overflow :
    (bs rest : List ℕ) (k : ℕ) (e : Option ErrMsg)
    → All IsInner bs
    → length bs ≡ 10
    → pb_decode_varint (buffer (bs ++ rest) (length bs + k) e)
      ≡ fail (buffer rest k (first_error e varint_overflow))
unfolding pb_decode_varint
pb_decode_varint-overflow bs rest k e h hn =
    varint_loop-overflow bs rest 11 0 0 k e h (omega arith) (omega arith)

varint_loop-truncated :
    (bs rest : List ℕ) (rounds j result : ℕ) (e : Option ErrMsg)
    → All IsInner bs
    → length bs + j ≤ 9
    → length bs < rounds
    → varint_loop rounds (7 * j) result (buffer (bs ++ rest) (length bs) e)
      ≡ fail (buffer rest 0 (first_error e end_of_stream))
varint_loop-truncated bs rest zero j result e h hj hn = absurd (omega arith)
varint_loop-truncated [] rest (suc rounds) j result e h hj hn =
    stop_at_end rounds j result rest e (omega arith)
varint_loop-truncated (b ∷ bs) rest (suc rounds) j result e (hb, h) hj hn =
    skip_inner rounds j result b _ _ (omega arith) hb (pb_readbyte-buffer b _ _ e)
    ∙ varint_loop-truncated bs rest rounds (suc j) _ e h (omega arith) (omega arith)

-- At most nine bytes with their top bit set, at the end of the stream, are refused by
-- `pb_decode_varint`, with "end-of-stream" where no message was set before.
pub pb_decode_varint-truncated :
    (bs rest : List ℕ) (e : Option ErrMsg)
    → All IsInner bs
    → length bs ≤ 9
    → pb_decode_varint (buffer (bs ++ rest) (length bs) e)
      ≡ fail (buffer rest 0 (first_error e end_of_stream))
unfolding pb_decode_varint
pb_decode_varint-truncated bs rest e h hn =
    varint_loop-truncated bs rest 11 0 0 e h (omega arith) (omega arith)
