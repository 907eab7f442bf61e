-- ===== src/Base64/Bounds.antt =====
-- `f_b64_pton` on any ASCII string: it accesses nothing outside of the target array.
use native.Mathlib.Decide.{dec_le}
use daily_diary.Base.{
  ℕ, zero, suc, ◌+◌, ◌*◌, ◌/◌, ◌^◌, ◌≤◌, ◌<◌, ◌≡◌, refl, ap, ◌∙◌, arith, ◌⊎◌, inl, inr,
}
use daily_diary.Base.{
  List, [], ◌∷◌, length, length-set, get_or, set, u8, u32, bit_or, bit_and, Option, some,
}
use daily_diary.Base.{Bool, true, false, Bool-cases, Option-cases, leb, ◌==◌, Res, ok, fail, fault}
use daily_diary.Base64.{
  Decoder, digit, digit_case, assign, or_assign, or_then_assign, alphabet, strchr, isspace, pad64,
}
use daily_diary.Base64.{
  pton_loop, after_pad, second_pad, pad_end, only_spaces, skip_spaces, check_slop, f_b64_pton,
}
use daily_diary.Base64.Parse.{at}

-- An array of `n` bytes, each store a success.
record Stored (n : ℕ) (o : Option (List ℕ)) : Type 0 where
  array : List ℕ
  made : o ≡ some array
  kept : length array ≡ n

assign-Stored : (i x : ℕ) (t : List ℕ) → i < length t → Stored (length t) (assign i x t)
unfolding assign
assign-Stored i x t h = record {
  array = set t i (u8 x);
  made = ground arith;
  kept = length-set t i (u8 x);
}

or_assign-Stored : (i x : ℕ) (t : List ℕ) → i < length t → Stored (length t) (or_assign i x t)
unfolding or_assign
or_assign-Stored i x t h = record {
  array = set t i (u8 (bit_or (get_or t i 0) x));
  made = ground arith;
  kept = length-set t i (u8 (bit_or (get_or t i 0) x));
}

or_then_assign-Stored :
    (i x j y : ℕ) (t : List ℕ)
    → i < length t
    → j < length t
    → Stored (length t) (or_then_assign i x j y t)
unfolding or_then_assign
or_then_assign-Stored i x j y t hi hj =
    let first = or_assign-Stored i x t hi in
    let second = assign-Stored j y first.array (rw first.kept hj) in
    record {
      array = second.array;
      made = rw (or_then_assign, first.made) second.made;
      kept = second.kept ∙ first.kept;
    }

-- The state and the index before a character, inside of `targsize` bytes.
abbrev IsPlace : ℕ → ℕ → ℕ → Type 0
IsPlace targsize state i =
    ((state ≡ 0) × (i ≤ targsize)) ⊎ ((0 < state) × (state ≤ 3) × (i < targsize))

-- The decoder has such a place in an array of `n` bytes.
record IsInside (targsize n : ℕ) (d : Decoder) : Type 0 where
  array : List ℕ
  is_array : d.target ≡ some array
  sized : length array ≡ n
  place : IsPlace targsize d.state d.tarindex

-- A switch case that refuses, or goes on to such a place.
abbrev StaysIn : ℕ → ℕ → Res Decoder (Unit {0}) → Type 0
StaysIn targsize n (ok _ d) = IsInside targsize n d
StaysIn targsize n (fail d) = Unit {0}
StaysIn targsize n fault = ⊥

case-StaysIn :
    (targsize last : ℕ) (stores : List ℕ → Option (List ℕ)) (state' tarindex' : ℕ) (d : Decoder)
    (t : List ℕ)
    → (last < targsize → Stored (length t) (stores t))
    → (last < targsize → IsPlace targsize state' tarindex')
    → StaysIn targsize (length t) (digit_case targsize last stores state' tarindex' d (some t))
unfolding digit_case
case-StaysIn targsize last stores state' tarindex' d t h p = elim (dec_le targsize last) [
  | yes short ↦ let e : leb targsize last ≡ true = ground arith in rw (e, StaysIn) tt
  | no room ↦
      let e : leb targsize last ≡ false = ground arith in
      let s = h (omega arith) in
      rw (e, s.made, StaysIn)
        (record { array = s.array; is_array = refl; sized = s.kept; place = p (omega arith) })
]

digit-StaysIn :
    (targsize p state i : ℕ) (t : List ℕ)
    → IsPlace targsize state i
    → targsize ≤ length t
    → targsize < 2 ^ 32
    → StaysIn targsize (length t) (digit targsize p (at state i t))
unfolding digit
digit-StaysIn targsize p zero i t place h word =
    case-StaysIn targsize i (assign i (p * 2 ^ 2)) 1 i (at 0 i t) t
      (λ l. assign-Stored i _ t (omega arith)) (λ l. inr (omega arith, omega arith, l))
digit-StaysIn targsize p (suc zero) i t (inl (e, _)) h word = absurd (omega arith)
digit-StaysIn targsize p (suc zero) i t (inr (_, _, inside)) h word =
    case-StaysIn targsize (u32 (i + 1))
      (or_then_assign i (p / 2 ^ 4) (u32 (i + 1)) (bit_and p 0x0f * 2 ^ 4)) 2 (u32 (i + 1))
      (at 1 i t) t
      (λ l.
        or_then_assign-Stored i (p / 2 ^ 4) (u32 (i + 1)) (bit_and p 0x0f * 2 ^ 4) t (omega arith)
          (omega arith))
      (λ l. inr (omega arith, omega arith, l))
digit-StaysIn targsize p (suc (suc zero)) i t (inl (e, _)) h word = absurd (omega arith)
digit-StaysIn targsize p (suc (suc zero)) i t (inr (_, _, inside)) h word =
    case-StaysIn targsize (u32 (i + 1))
      (or_then_assign i (p / 2 ^ 2) (u32 (i + 1)) (bit_and p 0x03 * 2 ^ 6)) 3 (u32 (i + 1))
      (at 2 i t) t
      (λ l.
        or_then_assign-Stored i (p / 2 ^ 2) (u32 (i + 1)) (bit_and p 0x03 * 2 ^ 6) t (omega arith)
          (omega arith))
      (λ l. inr (omega arith, omega arith, l))
digit-StaysIn targsize p (suc (suc (suc zero))) i t (inl (e, _)) h word = absurd (omega arith)
digit-StaysIn targsize p (suc (suc (suc zero))) i t (inr (_, _, inside)) h word =
    case-StaysIn targsize i (or_assign i p) 0 (u32 (i + 1)) (at 3 i t) t
      (λ l. or_assign-Stored i p t (omega arith)) (λ l. inl (refl, omega arith))
digit-StaysIn targsize p (suc (suc (suc (suc state)))) i t (inl (e, _)) h word =
    absurd (omega arith)
digit-StaysIn targsize p (suc (suc (suc (suc state)))) i t (inr (_, small, _)) h word =
    absurd (omega arith)

-- ASCII characters up to a NUL.
abbrev pub IsString : List ℕ → Type 0
IsString [] = ⊥
IsString (ch ∷ src) = (ch ≡ 0) ⊎ ((0 < ch) × (ch < 128) × IsString src)

only_spaces-some : (src : List ℕ) → IsString src → (b : Bool) × (only_spaces src ≡ some b)
unfolding only_spaces
only_spaces-some [] h = absurd h
only_spaces-some (ch ∷ src) (inl e) = (true, ground arith)
only_spaces-some (ch ∷ src) (inr (pos, small, h)) =
    let (b, e) = only_spaces-some src h in
    elim (Bool-cases (isspace ch)) [
      | inl space ↦ (b, ground arith)
      | inr other ↦ (false, ground arith)
    ]

skip_spaces-some :
    (src : List ℕ)
    → IsString src
    → (c : ℕ) × (rest : List ℕ) × (skip_spaces src ≡ some (c ∷ rest)) × IsString (c ∷ rest)
unfolding skip_spaces
skip_spaces-some [] h = absurd h
skip_spaces-some (ch ∷ src) (inl e) = (ch, src, ground arith, inl e)
skip_spaces-some (ch ∷ src) (inr (pos, small, h)) =
    let (c, rest, e, hc) = skip_spaces-some src h in
    elim (Bool-cases (isspace ch)) [
      | inl space ↦ (c, rest, ground arith, hc)
      | inr other ↦ (ch, src, ground arith, inr (pos, small, h))
    ]

-- A return of at most `targsize`, or of -1.
abbrev pub ReturnsWithin : ℕ → Res Decoder ℕ → Type 0
ReturnsWithin targsize (ok n d) = n ≤ targsize
ReturnsWithin targsize (fail d) = Unit {0}
ReturnsWithin targsize fault = ⊥

module _ (targsize state i : ℕ) (t : List ℕ) (inside : i < targsize) (h : targsize ≤ length t) where
  check_slop-within : ReturnsWithin targsize (check_slop (at state i t) (some t))
  unfolding check_slop
  check_slop-within =
      let e : leb (length t) i ≡ false = ground arith in
      elim (Bool-cases (get_or t i 0 == 0)) [
        | inl clean ↦ rw (e, clean, ReturnsWithin) (omega arith)
        | inr dirty ↦ rw (e, dirty, ReturnsWithin) tt
      ]

  pad_end-within :
      (src : List ℕ) → IsString src → ReturnsWithin targsize (pad_end src (at state i t))
  unfolding pad_end
  pad_end-within src hs = split (only_spaces-some src hs)
    where
      split :
          (b : Bool) × (only_spaces src ≡ some b)
          → ReturnsWithin targsize (pad_end src (at state i t))
      split (true, e) = rw (pad_end, e, ReturnsWithin) check_slop-within
      split (false, e) = rw (pad_end, e, ReturnsWithin) tt

  second_pad-within :
      (src : List ℕ)
      → IsString src
      → ReturnsWithin targsize (second_pad (skip_spaces src) (at state i t))
  unfolding second_pad
  second_pad-within src hs =
      let (c, rest, e, hc) = skip_spaces-some src hs in rw e (split c rest hc)
    where
      split :
          (c : ℕ) (rest : List ℕ)
          → IsString (c ∷ rest)
          → ReturnsWithin targsize (second_pad (some (c ∷ rest)) (at state i t))
      split c rest hc = elim (Bool-cases (c == pad64)) [
        | inr other ↦ rw (other, ReturnsWithin) tt
        | inl pad ↦ rw (pad, ReturnsWithin) (pad_end-within rest (behind pad hc))
      ]
        where
          behind : (c == pad64) ≡ true → IsString (c ∷ rest) → IsString rest
          behind pad (inl z) = absurd (ground arith)
          behind pad (inr (pos, small, hr)) = hr

after_pad-within :
    (targsize state i : ℕ) (t src : List ℕ)
    → targsize ≤ length t
    → IsPlace targsize state i
    → IsString src
    → ReturnsWithin targsize (after_pad src (at state i t))
unfolding after_pad
after_pad-within targsize state i t [] h place hs = absurd hs
after_pad-within targsize zero i t (ch ∷ src) h place hs = tt
after_pad-within targsize (suc zero) i t (ch ∷ src) h place hs = tt
after_pad-within targsize (suc (suc zero)) i t (ch ∷ src) h (inl (e, _)) hs = absurd (omega arith)
after_pad-within targsize (suc (suc zero)) i t (ch ∷ src) h (inr (_, _, inside)) hs =
    second_pad-within targsize 2 i t inside h (ch ∷ src) hs
after_pad-within targsize (suc (suc (suc state))) i t (ch ∷ src) h (inl (e, _)) hs =
    absurd (omega arith)
after_pad-within targsize (suc (suc (suc zero))) i t (ch ∷ src) h (inr (_, _, inside)) hs =
    pad_end-within targsize 3 i t inside h (ch ∷ src) hs
after_pad-within targsize (suc (suc (suc (suc state)))) i t (ch ∷ src) h (inr (_, small, _)) hs =
    absurd (omega arith)

place_within : (targsize state i : ℕ) → IsPlace targsize state i → i ≤ targsize
place_within targsize state i (inl (_, h)) = h
place_within targsize state i (inr (_, _, h)) = omega arith

-- The rest of the string, behind a switch case.
after_digit :
    (targsize n : ℕ) (src : List ℕ) (r : Res Decoder (Unit {0}))
    → StaysIn targsize n r
    → ((state i : ℕ) (t : List ℕ)
        → length t ≡ n
        → IsPlace targsize state i
        → ReturnsWithin targsize (pton_loop src targsize (at state i t)))
    → ReturnsWithin targsize
        (elim r [ ok _ d' ↦ pton_loop src targsize d' | fail d' ↦ fail d' | fault ↦ fault ])
after_digit targsize n src (ok _ d) stays next =
    let same : d ≡ at d.state d.tarindex stays.array =
      ap (λ o. record { state = d.state; tarindex = d.tarindex; target = o }) stays.is_array in
    let loop = ap (λ d'. pton_loop src targsize d') same in
    rw loop (next d.state d.tarindex stays.array stays.sized stays.place)
after_digit targsize n src (fail d) stays next = tt
after_digit targsize n src fault stays next = stays

module _ (targsize : ℕ) (word : targsize < 2 ^ 32) where
  pton_loop-within :
      (src : List ℕ) (state i : ℕ) (t : List ℕ)
      → targsize ≤ length t
      → IsPlace targsize state i
      → IsString src
      → ReturnsWithin targsize (pton_loop src targsize (at state i t))
  unfolding pton_loop
  pton_loop-within [] state i t h place hs = absurd hs
  pton_loop-within (ch ∷ src) state i t h place (inl e) = elim (Bool-cases (state == 0)) [
    | inl start ↦
        let z : (ch == 0) ≡ true = ground arith in
        rw (z, start, ReturnsWithin) (place_within targsize state i place)
    | inr middle ↦ let z : (ch == 0) ≡ true = ground arith in rw (z, middle, ReturnsWithin) tt
  ]
  pton_loop-within (ch ∷ src) state i t h place (inr (pos, small, hs)) =
      let z : (ch == 0) ≡ false = ground arith in
      let ascii : leb 128 ch ≡ false = ground arith in
      elim (Bool-cases (isspace ch)) [
        | inl space ↦
            rw (z, ascii, space, ReturnsWithin) (pton_loop-within src state i t h place hs)
        | inr other ↦ elim (Bool-cases (ch == pad64)) [
          | inl pad ↦
              rw (z, ascii, other, pad, ReturnsWithin)
                (after_pad-within targsize state i t src h place hs)
          | inr letter_or_bad ↦ elim (Option-cases (strchr alphabet ch)) [
            | inl bad ↦ rw (z, ascii, other, letter_or_bad, bad, ReturnsWithin) tt
            | inr (p, found) ↦
                rw (z, ascii, other, letter_or_bad, found)
                  (after_digit targsize (length t) src (digit targsize p (at state i t))
                    (digit-StaysIn targsize p state i t place h word)
                    (λ state' i' t' sized place'.
                      pton_loop-within src state' i' t' (omega arith) place' hs))
          ]
        ]
      ]

-- On any string of ASCII characters that ends with a NUL, `f_b64_pton` ends, accesses nothing
-- outside of the string and of a target of at least `targsize` bytes, and returns -1 or at most
-- `targsize`.
pub f_b64_pton-within :
    (src target : List ℕ) (targsize : ℕ)
    → IsString src
    → targsize ≤ length target
    → targsize < 2 ^ 32
    → ReturnsWithin targsize (f_b64_pton src (some target) targsize)
unfolding f_b64_pton
f_b64_pton-within src target targsize hs h word =
    pton_loop-within targsize word src 0 0 target h (inl (refl, omega arith)) hs
