-- ===== src/Pb/Decoder/Required/Marks.antt =====
-- Each required field has a bit of its own in `fields_seen`, and the tests look at all of them.
use daily_diary.Base.{ℕ, zero, suc, ◌-◌, ◌*◌, ◌/◌, ◌%◌, ◌^◌, ◌<◌, ◌≡◌, ◌≢◌, arith, refl}
use daily_diary.Base.{ap, ◌∙◌, sym, true, ◌==◌, List, [], ◌∷◌, get_or, set}
use daily_diary.Base.{
  bit_and, u32, bit_and_mask, check_below, agree_below, length, length-set, Bool-cases, inl, inr,
}
use daily_diary.Base.Digits.{digit_at, digit_at-bit_or, digit_at-power, digit_at-mask}
use daily_diary.Pb.Decoder.Required.{allbits, mark_seen, whole_words, all_seen}

-- The mark of the required field `i`.
abbrev pub mark_of : ℕ → List ℕ → ℕ
mark_of i seen = digit_at (i % 32) (get_or seen (i / 32) 0)

get_or-set_other : (xs : List ℕ) (i j v : ℕ) → i ≢ j → get_or (set xs j v) i 0 ≡ get_or xs i 0
get_or-set_other [] i j v h = refl
get_or-set_other (x ∷ xs) zero zero v h = absurd (h refl)
get_or-set_other (x ∷ xs) zero (suc j) v h = refl
get_or-set_other (x ∷ xs) (suc i) zero v h = refl
get_or-set_other (x ∷ xs) (suc i) (suc j) v h = get_or-set_other xs i j v (λ e. h (ap suc e))

get_or-set_same : (xs : List ℕ) (i v : ℕ) → i < length xs → get_or (set xs i v) i 0 ≡ v
get_or-set_same [] i v h = absurd (omega arith)
get_or-set_same (x ∷ xs) zero v h = refl
get_or-set_same (x ∷ xs) (suc i) v h = get_or-set_same xs i v (omega arith)

bit_of_field : (j : ℕ) → u32 (1 * 2 ^ bit_and j 31) ≡ 2 ^ (j % 32)
unfolding check_below
bit_of_field j =
    ap (λ r. u32 (1 * 2 ^ r)) (bit_and_mask 5 j)
    ∙ agree_below 32 (λ r. u32 (1 * 2 ^ r)) (λ r. 2 ^ r) refl (j % 32) (omega arith)

mark_seen-same_word :
    (i j : ℕ) (seen : List ℕ)
    → i ≢ j
    → i / 32 ≡ j / 32
    → i / 32 < length seen
    → mark_of i seen ≡ 0
    → mark_of i (mark_seen j seen) ≡ 0
unfolding mark_seen
mark_seen-same_word i j seen h same inside e =
    let other : i % 32 ≢ j % 32 = λ r. h (omega arith) in
    let none_old : digit_at (i % 32) (get_or seen (j / 32) 0) ≡ 0 =
      ap (λ w. digit_at (i % 32) (get_or seen w 0)) (sym same) ∙ e in
    let inside' : j / 32 < length seen = omega arith in
    ap (λ w. digit_at (i % 32) (get_or (mark_seen j seen) w 0)) same
    ∙ ap (λ w. digit_at (i % 32) w) (get_or-set_same seen (j / 32) _ inside')
    ∙ digit_at-bit_or (i % 32) (get_or seen (j / 32) 0) _
    ∙ omega (
      arith,
      none_old,
      ap (λ w. digit_at (i % 32) w) (bit_of_field j) ∙ digit_at-power (i % 32) (j % 32) other,
    )

-- Marking another required field leaves a field that has no mark without one.
pub mark_seen-other :
    (i j : ℕ) (seen : List ℕ)
    → i ≢ j
    → i < 64
    → length seen ≡ 2
    → mark_of i seen ≡ 0
    → mark_of i (mark_seen j seen) ≡ 0
unfolding mark_seen
mark_seen-other i j seen h small two e = elim (Bool-cases (i / 32 == j / 32)) [
  | inl same ↦ mark_seen-same_word i j seen h (ground arith) (omega arith) e
  | inr apart ↦
      ap (λ w. digit_at (i % 32) w)
        (get_or-set_other seen (i / 32) (j / 32) _ (λ r. absurd (ground arith)))
      ∙ e
]

pub length-mark_seen : (j : ℕ) (seen : List ℕ) → length (mark_seen j seen) ≡ length seen
unfolding mark_seen
length-mark_seen j seen = length-set seen (j / 2 ^ 5) _

whole_words-get_or :
    (n i : ℕ) (seen : List ℕ) → whole_words n seen ≡ true → i < n → get_or seen i 0 ≡ allbits
unfolding whole_words
whole_words-get_or zero i seen h less = absurd (omega arith)
whole_words-get_or (suc n) i [] h less = absurd (ground arith)
whole_words-get_or (suc n) zero (w ∷ seen) h less = ground arith
whole_words-get_or (suc n) (suc i) (w ∷ seen) h less =
    whole_words-get_or n i seen (ground arith) (omega arith)

last_word : (r : ℕ) → r < 32 → allbits / 2 ^ (32 - r) ≡ 2 ^ r - 1
unfolding check_below
last_word r h = agree_below 32 (λ r. allbits / 2 ^ (32 - r)) (λ r. 2 ^ r - 1) refl r h

-- Where no test fails, every required field has its mark.
pub all_seen-mark_of :
    (count i : ℕ) (seen : List ℕ) → all_seen count seen ≡ true → i < count → mark_of i seen ≡ 1
unfolding all_seen
all_seen-mark_of count i seen h less = elim (Bool-cases (i / 32 == count / 32)) [
  | inr apart ↦
      ap (λ w. digit_at (i % 32) w)
        (whole_words-get_or (count / 32) (i / 32) seen (ground arith) (ground arith))
      ∙ digit_at-mask (i % 32) 32 (omega arith)
  | inl same ↦
      let r : bit_and count 31 ≡ count % 32 = bit_and_mask 5 count in
      let e : i / 32 ≡ count / 32 = ground arith in
      let w : get_or seen (count / 32) 0 ≡ allbits / 2 ^ (32 - bit_and count 31) = ground arith in
      ap (λ k. digit_at (i % 32) (get_or seen k 0)) e
      ∙ ap (λ w. digit_at (i % 32) w)
          (w ∙ ap (λ k. allbits / 2 ^ (32 - k)) r ∙ last_word (count % 32) (omega arith))
      ∙ digit_at-mask (i % 32) (count % 32) (omega arith)
]
