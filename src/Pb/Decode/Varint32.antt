-- ===== src/Pb/Decode/Varint32.antt =====
-- What `pb_decode_varint32` makes of a buffer.
use native.Mathlib.Nat.{zero-add, zero-mul}
use daily_diary.Base.{ℕ, zero, suc, ◌+◌, ◌*◌, ◌%◌, ◌^◌, ◌≤◌, ◌<◌, ◌≡◌, sym, ap, ◌∙◌}
use daily_diary.Base.{arith, List, [], ◌∷◌, ◌++◌, length, bit_or, u8, u32, and_7f, and_80}
use daily_diary.Base.{and_70, bit_or_shifted, Option, All}
use daily_diary.Pb.{ErrMsg, varint_overflow, ok, fail, first_error}
use daily_diary.Pb.IStream.{IStream, return_error, pb_readbyte}
use daily_diary.Pb.IStream.Buffer.{buffer, pb_readbyte-append, pb_readbyte-buffer}
use daily_diary.Pb.Decode.Varint.{IsVarint, IsInner, varint_value, shift_group}
use daily_diary.Pb.Decode.{varint32_loop, pb_decode_varint32}
use daily_diary.Pb.Decode.{or_group32}

-- One round of the loop at bit `7 * j` below 32, on a last byte that fits and on an inner one.
last_round32 :
    (rounds j result b : ℕ) (s t : IStream)
    → j ≤ 4
    → result < 2 ^ (7 * j)
    → b < 128
    → result + b * 2 ^ (7 * j) < 2 ^ 32
    → (j ≡ 4 → b < 16)
    → pb_readbyte s ≡ ok b t
    → varint32_loop (suc rounds) (7 * j) result s ≡ ok (result + b * 2 ^ (7 * j)) t
unfolding varint32_loop
last_round32 rounds j result b s t hj hr hb fits top e =
    ground (arith, and_7f b, and_80 b, and_70 b, bit_or_shifted 32 (7 * j) result b)

inner_round32 :
    (rounds j result b : ℕ) (s t : IStream)
    → j ≤ 4
    → result < 2 ^ (7 * j)
    → IsInner b
    → pb_readbyte s ≡ ok b t
    → varint32_loop (suc rounds) (7 * j) result s
      ≡ varint32_loop rounds (7 * suc j) (u32 (result + b % 128 * 2 ^ (7 * j))) t
unfolding varint32_loop
inner_round32 rounds j result b s t hj hr (lo, hi) e =
    ground (arith, and_7f b, and_80 b, bit_or_shifted 32 (7 * j) result (b % 128))

-- The weight of a group: from one group to the next the rest is 128 times as heavy.
weights :
    (r b v j : ℕ) → r + (b + 128 * v) * 2 ^ (7 * j) ≡ r + b * 2 ^ (7 * j) + v * 2 ^ (7 * suc j)
weights r b v j = rw (shift_group j) (omega arith)

top_group : (j r b : ℕ) → r + b * 2 ^ (7 * j) < 2 ^ 32 → j ≡ 4 → b < 16
top_group j r b h q = omega (arith, ap (λ (t : ℕ). b * 2 ^ (7 * t)) q)

group_fits : (j r b : ℕ) → r < 2 ^ (7 * j) → r + b % 128 * 2 ^ (7 * j) < 2 ^ (7 * suc j)
group_fits j r b hr = rw (shift_group j) (omega (arith, weigh (b % 128) (omega arith)))
  where
    weigh : (g : ℕ) → g < 128 → g * 2 ^ (7 * j) + 2 ^ (7 * j) ≤ 128 * 2 ^ (7 * j)
    weigh g h = grind arith

varint32_loop-value :
    (bs rest : List ℕ) (rounds j result k : ℕ) (e : Option ErrMsg)
    → IsVarint bs
    → length bs ≤ rounds
    → j + length bs ≤ 5
    → result < 2 ^ (7 * j)
    → result + varint_value bs * 2 ^ (7 * j) < 2 ^ 32
    → varint32_loop rounds (7 * j) result (buffer (bs ++ rest) (length bs + k) e)
      ≡ ok (result + varint_value bs * 2 ^ (7 * j)) (buffer rest k e)
varint32_loop-value [] rest rounds j result k e h hn hj hr fits = absurd h
varint32_loop-value (b ∷ bs) rest zero j result k e h hn hj hr fits = absurd (omega arith)
varint32_loop-value (b ∷ []) rest (suc rounds) j result k e h hn hj hr fits =
    last_round32 rounds j result b _ _ (omega arith) hr h small (top_group j result b small)
      (pb_readbyte-append b _ _ k e)
    ∙ ground (arith, weight)
  where
    weight : b * 2 ^ (7 * j) ≡ (b % 128 + 128 * 0) * 2 ^ (7 * j)
    weight = ap (λ (g : ℕ). g * 2 ^ (7 * j)) (omega arith)

    small : result + b * 2 ^ (7 * j) < 2 ^ 32
    small = omega (arith, weight)
varint32_loop-value (b ∷ c ∷ bs) rest (suc rounds) j result k e (lo, hi, h) hn hj hr fits =
    inner_round32 rounds j result b _ _ (omega arith) hr (lo, hi) (pb_readbyte-append b _ _ k e)
    ∙ ap
        (λ w.
          varint32_loop rounds (7 * suc j) w (buffer (c ∷ (bs ++ rest)) (length (c ∷ bs) + k) e))
        whole
    ∙ varint32_loop-value (c ∷ bs) rest rounds (suc j) _ k e h (omega arith) (omega arith)
        (group_fits j result b hr) (omega (arith, joined))
    ∙ ap (λ w. ok w (buffer rest k e)) (sym joined)
  where
    joined :
        result + varint_value (b ∷ c ∷ bs) * 2 ^ (7 * j)
        ≡ result + b % 128 * 2 ^ (7 * j) + varint_value (c ∷ bs) * 2 ^ (7 * suc j)
    joined = weights result (b % 128) (varint_value (c ∷ bs)) j

    whole : u32 (result + b % 128 * 2 ^ (7 * j)) ≡ result + b % 128 * 2 ^ (7 * j)
    whole = omega (arith, joined)

-- The call on a single byte, and on a first byte of several.
one_byte :
    (b : ℕ) (s t : IStream) → b < 128 → pb_readbyte s ≡ ok b t → pb_decode_varint32 s ≡ ok b t
unfolding pb_decode_varint32
one_byte b s t h e = ground (arith, and_80 b)

many_bytes :
    (b : ℕ) (s t : IStream)
    → IsInner b
    → pb_readbyte s ≡ ok b t
    → pb_decode_varint32 s ≡ varint32_loop (suc t.bytes_left) 7 (b % 128) t
unfolding pb_decode_varint32
many_bytes b s t (lo, hi) e = ground (arith, and_80 b, and_7f b)

-- On one whole varint of at most five bytes whose number fits a uint32, `pb_decode_varint32`
-- takes exactly these bytes and stores the number.
pub pb_decode_varint32-value :
    (bs rest : List ℕ) (k : ℕ) (e : Option ErrMsg)
    → IsVarint bs
    → length bs ≤ 5
    → varint_value bs < 2 ^ 32
    → pb_decode_varint32 (buffer (bs ++ rest) (length bs + k) e)
      ≡ ok (varint_value bs) (buffer rest k e)
pb_decode_varint32-value [] rest k e h hn fits = absurd h
pb_decode_varint32-value (b ∷ []) rest k e h hn fits =
    one_byte b _ _ h (pb_readbyte-append b _ 0 k e) ∙ ground arith
pb_decode_varint32-value (b ∷ c ∷ bs) rest k e (lo, hi, h) hn fits =
    many_bytes b _ _ (lo, hi) (pb_readbyte-append b _ _ k e)
    ∙ varint32_loop-value (c ∷ bs) rest _ 1 (b % 128) k e h (omega arith) (omega arith)
        (omega arith) (omega arith)
    ∙ ap (λ w. ok w (buffer rest k e)) (omega arith)

skip_inner32 :
    (rounds j result b : ℕ) (s t : IStream)
    → j ≤ 4
    → IsInner b
    → pb_readbyte s ≡ ok b t
    → varint32_loop (suc rounds) (7 * j) result s
      ≡ varint32_loop rounds (7 * suc j) (or_group32 result b (7 * j)) t
unfolding varint32_loop
skip_inner32 rounds j result b s t hj (lo, hi) e = ground (arith, and_80 b)

refuse_top :
    (rounds result b : ℕ) (s t : IStream)
    → 16 ≤ b
    → b < 128
    → pb_readbyte s ≡ ok b t
    → varint32_loop (suc rounds) 28 result s ≡ return_error varint_overflow t
unfolding varint32_loop
refuse_top rounds result b s t lo hi e = ground (arith, and_80 b, and_70 b)

-- Five bytes of a varint whose number does not fit 32 bits are refused by `pb_decode_varint32`,
-- with "varint overflow" where no message was set before.
pb_decode_varint32-overflow :
    (a b c d top : ℕ) (rest : List ℕ) (k : ℕ) (e : Option ErrMsg)
    → All IsInner (a ∷ b ∷ c ∷ d ∷ [])
    → 16 ≤ top
    → top < 128
    → pb_decode_varint32 (buffer (a ∷ b ∷ c ∷ d ∷ top ∷ rest) (5 + k) e)
      ≡ fail (buffer rest k (first_error e varint_overflow))
pb_decode_varint32-overflow a b c d top rest k e (ha, (hb, (hc, (hd, _)))) lo hi =
    many_bytes a _ _ ha (pb_readbyte-append a _ 4 k e)
    ∙ ap (λ n. varint32_loop n 7 (a % 128) (buffer (b ∷ c ∷ d ∷ top ∷ rest) (4 + k) e)) rounds
    ∙ skip_inner32 _ 1 _ b _ _ (omega arith) hb (pb_readbyte-append b _ 3 k e)
    ∙ skip_inner32 _ 2 _ c _ _ (omega arith) hc (pb_readbyte-append c _ 2 k e)
    ∙ skip_inner32 _ 3 _ d _ _ (omega arith) hd (pb_readbyte-append d _ 1 k e)
    ∙ refuse_top _ _ top _ _ lo hi (pb_readbyte-append top _ 0 k e)
    ∙ ap (λ n. fail (buffer rest n (first_error e varint_overflow))) (zero-add k)
  where
    rounds : suc (4 + k) ≡ suc (suc (suc (suc (suc k))))
    rounds = omega arith

-- `n` bytes that hold no bits, in front of others.
abbrev pub padding : ℕ → List ℕ → List ℕ
padding zero bs = bs
padding (suc n) bs = 0x80 ∷ padding n bs

or_empty : (bitpos : ℕ) → or_group32 0 0x80 bitpos ≡ 0
or_empty bitpos = ap (λ (w : ℕ). bit_or 0 (u32 w)) (zero-mul (2 ^ bitpos))

skip_empty :
    (rounds bitpos : ℕ) (s t : IStream)
    → pb_readbyte s ≡ ok 0x80 t
    → varint32_loop (suc rounds) bitpos 0 s ≡ varint32_loop rounds (u8 (bitpos + 7)) 0 t
unfolding varint32_loop
skip_empty rounds bitpos s t e = ground (arith, or_empty bitpos)

skip_padding :
    (n rounds bitpos k : ℕ) (xs : List ℕ) (e : Option ErrMsg)
    → bitpos < 256
    → varint32_loop (n + rounds) bitpos 0 (buffer (padding n xs) (n + k) e)
      ≡ varint32_loop rounds (u8 (bitpos + 7 * n)) 0 (buffer xs k e)
skip_padding zero rounds bitpos k xs e h = ground arith
skip_padding (suc n) rounds bitpos k xs e h =
    ap (λ r. varint32_loop r bitpos 0 (buffer (padding (suc n) xs) (suc n + k) e)) more
    ∙ skip_empty _ bitpos _ _ (pb_readbyte-append 0x80 _ n k e)
    ∙ skip_padding n rounds (u8 (bitpos + 7)) k xs e (omega arith)
    ∙ ap (λ b. varint32_loop rounds b 0 (buffer xs k e)) (omega arith)
  where
    more : suc n + rounds ≡ suc (n + rounds)
    more = omega arith

last_at_three :
    (rounds x : ℕ) (s t : IStream)
    → x < 128
    → pb_readbyte s ≡ ok x t
    → varint32_loop (suc rounds) 3 0 s ≡ ok (8 * x) t
unfolding varint32_loop
last_at_three rounds x s t h e = ground (arith, and_80 x, and_7f x, bit_or_shifted 32 3 0 x)

-- A varint of 37 bytes 0x80 and one last byte x is accepted by `pb_decode_varint32` with the
-- value 8 * x: the 8-bit `bitpos` is not bounded, and has wrapped to 3.
pub pb_decode_varint32-wraps :
    (x : ℕ) (rest : List ℕ) (e : Option ErrMsg)
    → x < 128
    → pb_decode_varint32 (buffer (padding 37 (x ∷ rest)) 38 e) ≡ ok (8 * x) (buffer rest 0 e)
pb_decode_varint32-wraps x rest e h =
    many_bytes 0x80 _ _ (omega arith) (pb_readbyte-buffer 0x80 _ 37 e)
    ∙ skip_padding 36 2 7 1 (x ∷ rest) e (omega arith)
    ∙ last_at_three 1 x _ _ h (pb_readbyte-buffer x rest 0 e)
