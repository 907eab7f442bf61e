-- ===== src/Base64/Parse.antt =====
-- One character and one group of four in `f_b64_pton`.
use daily_diary.Base.{ℕ, suc, ◌+◌, ◌*◌, ◌/◌, ◌%◌, ◌^◌, ◌≤◌, ◌<◌, ◌≡◌, refl, ap, ◌∙◌, arith}
use daily_diary.Base.{
  List, [], ◌∷◌, ◌++◌, length, length-append, length-set, get_or, set, Bool, true, false, ◌&&◌, not,
}
use daily_diary.Base.{
  check_below, check_below_sound, bit_or, bit_and_mask, bit_or_fields, bit_or_comm,
}
use daily_diary.Base.{IsByte, u8, u32, leb, ◌==◌, Option, none, some, ok}
use daily_diary.Base64.{
  alphabet, pad64, letter, isspace, strchr, Decoder, digit, assign, or_assign, or_then_assign,
  pton_loop,
}

pub set-append :
    (done xs : List ℕ) (k v : ℕ) → set (done ++ xs) (length done + k) v ≡ done ++ set xs k v
set-append [] xs k v = let e : 0 + k ≡ k = omega arith in ap (λ (i : ℕ). set xs i v) e
set-append (x ∷ done) xs k v =
    let e : suc (length done) + k ≡ suc (length done + k) = omega arith in
    ap (λ (i : ℕ). set (x ∷ (done ++ xs)) i v) e ∙ ap (λ t. x ∷ t) (set-append done xs k v)

pub get_or-append :
    (done xs : List ℕ) (k d : ℕ) → get_or (done ++ xs) (length done + k) d ≡ get_or xs k d
get_or-append [] xs k d = let e : 0 + k ≡ k = omega arith in ap (λ (i : ℕ). get_or xs i d) e
get_or-append (x ∷ done) xs k d =
    let e : suc (length done) + k ≡ suc (length done + k) = omega arith in
    ap (λ (i : ℕ). get_or (x ∷ (done ++ xs)) i d) e ∙ get_or-append done xs k d

abbrev found_at : Option ℕ → ℕ → Bool
found_at none p = false
found_at (some q) p = q == p

-- A letter of the alphabet is read as its index.
letter_table :
    check_below 64 (λ p.
      not (letter p == 0)
      && (not (leb 128 (letter p))
          && (not (isspace (letter p))
              && (not (letter p == pad64) && found_at (strchr alphabet (letter p)) p))))
    ≡ true
unfolding check_below letter strchr
letter_table = refl

pub pton_letter :
    (p : ℕ) (src : List ℕ) (targsize : ℕ) (d d' : Decoder)
    → p < 64
    → digit targsize p d ≡ ok tt d'
    → pton_loop (letter p ∷ src) targsize d ≡ pton_loop src targsize d'
unfolding pton_loop
pton_letter p src targsize d d' h e = ground (arith, check_below_sound 64 _ letter_table p h)

abbrev pub at : ℕ → ℕ → List ℕ → Decoder
at state tarindex target = record { state = state; tarindex = tarindex; target = some target }

-- The stores, at index `k` of the part `xs` of the target.
module _ (done : List ℕ) (k : ℕ) where
  assign-append :
      (xs : List ℕ) (v : ℕ)
      → length done + k < length (done ++ xs)
      → assign (length done + k) v (done ++ xs) ≡ some (done ++ set xs k (u8 v))
  unfolding assign
  assign-append xs v h = ground (arith, set-append done xs k (u8 v))

  or_assign-append :
      (xs : List ℕ) (v : ℕ)
      → length done + k < length (done ++ xs)
      → or_assign (length done + k) v (done ++ xs)
        ≡ some (done ++ set xs k (u8 (bit_or (get_or xs k 0) v)))
  unfolding or_assign
  or_assign-append xs v h =
      rw (get_or-append done xs k 0, set-append done xs k (u8 (bit_or (get_or xs k 0) v)))
        (ground arith)

or_then_assign-append :
    (done xs : List ℕ) (k v w : ℕ)
    → length done + suc k < length (done ++ xs)
    → or_then_assign (length done + k) v (length done + suc k) w (done ++ xs)
      ≡ some (done ++ set (set xs k (u8 (bit_or (get_or xs k 0) v))) (suc k) (u8 w))
unfolding or_then_assign
or_then_assign-append done xs k v w h =
    rw (or_then_assign, or_assign-append done k xs v (omega arith))
      (assign-append done (suc k) (set xs k (u8 (bit_or (get_or xs k 0) v))) w
        (omega (arith, before, length-append done xs)))
  where
    before : length (done ++ set xs k (u8 (bit_or (get_or xs k 0) v))) ≡ length done + length xs
    before = length-append done _ ∙ ap (λ (n : ℕ). length done + n) (length-set xs k _)

-- The four cases of the switch.
module _ (done xs : List ℕ) (targsize k p : ℕ) (inside : targsize ≤ length done + length xs)
    (word : targsize < 2 ^ 32) where
  pub digit0 :
      length done + k < targsize
      → digit targsize p (at 0 (length done + k) (done ++ xs))
        ≡ ok tt (at 1 (length done + k) (done ++ set xs k (u8 (p * 4))))
  unfolding digit
  digit0 room =
      ground (arith, assign-append done k xs (p * 4) (omega (arith, length-append done xs)))

  pub digit1 :
      length done + suc k < targsize
      → digit targsize p (at 1 (length done + k) (done ++ xs))
        ≡ ok tt (
            at 2 (length done + suc k) (
              done
              ++ set (set xs k (u8 (bit_or (get_or xs k 0) (p / 16)))) (suc k) (u8 (p % 16 * 16))))
  unfolding digit
  digit1 room =
      let next : u32 (length done + k + 1) ≡ length done + suc k = omega arith in
      rw
        (
          next,
          bit_and_mask 4 p,
          or_then_assign-append done xs k (p / 16) (p % 16 * 16)
              (omega (arith, length-append done xs)),
        )
        (ground arith)

  pub digit2 :
      length done + suc k < targsize
      → digit targsize p (at 2 (length done + k) (done ++ xs))
        ≡ ok tt (
            at 3 (length done + suc k) (
              done
              ++ set (set xs k (u8 (bit_or (get_or xs k 0) (p / 4)))) (suc k) (u8 (p % 4 * 64))))
  unfolding digit
  digit2 room =
      let next : u32 (length done + k + 1) ≡ length done + suc k = omega arith in
      rw
        (
          next,
          bit_and_mask 2 p,
          or_then_assign-append done xs k (p / 4) (p % 4 * 64)
              (omega (arith, length-append done xs)),
        )
        (ground arith)

  pub digit3 :
      length done + k < targsize
      → digit targsize p (at 3 (length done + k) (done ++ xs))
        ≡ ok tt (at 0 (length done + suc k) (done ++ set xs k (u8 (bit_or (get_or xs k 0) p))))
  unfolding digit
  digit3 room =
      let next : u32 (length done + k + 1) ≡ length done + suc k = omega arith in
      ground (arith, next, or_assign-append done k xs p (omega (arith, length-append done xs)))

-- The bytes that come together from two digits.
join_bits : (k high low : ℕ) → low < 2 ^ k → bit_or (high * 2 ^ k) low ≡ high * 2 ^ k + low
join_bits k high low h = bit_or_comm (high * 2 ^ k) low ∙ bit_or_fields k low high h ∙ omega arith

pub first_byte :
    (a b : ℕ) → IsByte a → IsByte b → u8 (bit_or (u8 (a / 4 * 4)) ((a % 4 * 16 + b / 16) / 16)) ≡ a
first_byte a b ha hb =
    let high : u8 (a / 4 * 4) ≡ a / 4 * 2 ^ 2 = omega arith in
    let low : (a % 4 * 16 + b / 16) / 16 ≡ a % 4 = omega arith in
    rw (high, low, join_bits 2 (a / 4) (a % 4) (omega arith)) (omega arith)

pub second_byte :
    (a b c : ℕ)
    → IsByte a
    → IsByte b
    → IsByte c
    → u8 (bit_or (u8 ((a % 4 * 16 + b / 16) % 16 * 16)) ((b % 16 * 4 + c / 64) / 4)) ≡ b
second_byte a b c ha hb hc =
    let high : u8 ((a % 4 * 16 + b / 16) % 16 * 16) ≡ b / 16 * 2 ^ 4 = omega arith in
    let low : (b % 16 * 4 + c / 64) / 4 ≡ b % 16 = omega arith in
    rw (high, low, join_bits 4 (b / 16) (b % 16) (omega arith)) (omega arith)

pub third_byte :
    (b c : ℕ) → IsByte b → IsByte c → u8 (bit_or (u8 ((b % 16 * 4 + c / 64) % 4 * 64)) (c % 64)) ≡ c
third_byte b c hb hc =
    let high : u8 ((b % 16 * 4 + c / 64) % 4 * 64) ≡ c / 64 * 2 ^ 6 = omega arith in
    rw (high, join_bits 6 (c / 64) (c % 64) (omega arith)) (omega arith)
