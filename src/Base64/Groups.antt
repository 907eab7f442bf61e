-- ===== src/Base64/Groups.antt =====
-- Groups of Base64 characters, and pads, in `f_b64_pton`.
use mathlib.Core.List.{append_assoc}
use daily_diary.Base.{ℕ, ◌+◌, ◌*◌, ◌/◌, ◌%◌, ◌^◌, ◌≤◌, ◌<◌, ◌≡◌, sym, ap, ◌∙◌, arith}
use daily_diary.Base.{List, [], ◌∷◌, ◌++◌, length, length-append, IsByte, u8}
use daily_diary.Base.{some, Res, ok, get_or}
use daily_diary.Base64.{
  letter, pad64, Decoder, pton_loop, after_pad, second_pad, skip_spaces, pad_end, only_spaces,
  check_slop,
}
use daily_diary.Base64.Print.{text}
use daily_diary.Base64.Parse.{
  at, pton_letter, digit0, digit1, digit2, digit3, first_byte, second_byte,
}
use daily_diary.Base64.Parse.{third_byte, get_or-append}

module _ (done rest : List ℕ) (x y : ℕ) (targsize : ℕ) (word : targsize < 2 ^ 32)
    (inside : targsize ≤ length done + (2 + length rest)) where
  -- Two digits give one byte and the start of the next.
  two_digits :
      (a b : ℕ) (src : List ℕ)
      → IsByte a
      → IsByte b
      → length done + 1 < targsize
      → pton_loop
          (letter (a / 4) ∷ letter (a % 4 * 16 + b / 16) ∷ src)
          targsize
          (at 0 (length done + 0) (done ++ (x ∷ y ∷ rest)))
        ≡ pton_loop src targsize
            (at 2 (length done + 1) (done ++ (a ∷ u8 ((a % 4 * 16 + b / 16) % 16 * 16) ∷ rest)))
  two_digits a b src ha hb room =
      pton_letter (a / 4) _ targsize _ _ (omega arith)
        (digit0 done (x ∷ y ∷ rest) targsize 0 (a / 4) (omega arith) word (omega arith))
      ∙ pton_letter (a % 4 * 16 + b / 16) _ targsize _ _ (omega arith) (
          digit1 done (u8 (a / 4 * 4) ∷ y ∷ rest) targsize 0 (a % 4 * 16 + b / 16) (omega arith)
            word (omega arith))
      ∙ ap
          (λ v.
            pton_loop src targsize
              (at 2 (length done + 1) (done ++ (v ∷ u8 ((a % 4 * 16 + b / 16) % 16 * 16) ∷ rest))))
          (first_byte a b ha hb)

-- The pads, where no bits slopped over.
module _ (i targsize : ℕ) (t after : List ℕ) (inside : i < length t)
    (clean : get_or t i 0 ≡ 0) where
  two_pads : pton_loop (pad64 ∷ pad64 ∷ 0 ∷ after) targsize (at 2 i t) ≡ ok i (at 2 i t)
  unfolding pton_loop after_pad second_pad skip_spaces pad_end only_spaces check_slop
  two_pads = ground arith

  one_pad : pton_loop (pad64 ∷ 0 ∷ after) targsize (at 3 i t) ≡ ok i (at 3 i t)
  unfolding pton_loop after_pad second_pad skip_spaces pad_end only_spaces check_slop
  one_pad = ground arith

pub no_pad :
    (i targsize : ℕ) (t after : List ℕ)
    → pton_loop (0 ∷ after) targsize (at 0 i t) ≡ ok i (at 0 i t)
unfolding pton_loop
no_pad i targsize t after = ground arith

-- A successful call that stored `bytes` from the start of the target array on.
abbrev pub Parses : Res Decoder ℕ → ℕ → List ℕ → Type 0
Parses r n bytes =
    (d : Decoder) × (left : List ℕ) × (r ≡ ok n d) × (d.target ≡ some (bytes ++ left))

module _ (done rest : List ℕ) (x y : ℕ) (targsize : ℕ) (word : targsize < 2 ^ 32)
    (inside : targsize ≤ length done + (2 + length rest)) where
  pub one_left :
      (a : ℕ) (after : List ℕ)
      → IsByte a
      → length done + 1 < targsize
      → Parses
          (pton_loop
            (text (a ∷ []) ++ (0 ∷ after))
            targsize
            (at 0 (length done + 0) (done ++ (x ∷ y ∷ rest))))
          (length done + 1)
          (done ++ (a ∷ []))
  unfolding text
  one_left a after ha room =
      let zero_low : a % 4 * 16 ≡ a % 4 * 16 + 0 / 16 = omega arith in
      let slop : u8 ((a % 4 * 16 + 0 / 16) % 16 * 16) ≡ 0 = omega arith in
      (
        _,
        0 ∷ rest,
        ap
              (λ v.
                pton_loop (letter (a / 4) ∷ letter v ∷ pad64 ∷ pad64 ∷ 0 ∷ after) targsize
                  (at 0 (length done + 0) (done ++ (x ∷ y ∷ rest))))
              zero_low
            ∙ two_digits done rest x y targsize word inside a 0 (pad64 ∷ pad64 ∷ 0 ∷ after) ha
                (omega arith) room
            ∙ ap
                (λ v.
                  pton_loop (pad64 ∷ pad64 ∷ 0 ∷ after) targsize
                    (at 2 (length done + 1) (done ++ (a ∷ v ∷ rest))))
                slop
            ∙ two_pads (length done + 1) targsize (done ++ (a ∷ 0 ∷ rest)) after
                (omega (arith, length-append done (a ∷ 0 ∷ rest)))
                (get_or-append done (a ∷ 0 ∷ rest) 1 0),
        ap (λ v. some v) (sym (append_assoc done (a ∷ []) (0 ∷ rest))),
      )

module _ (done rest : List ℕ) (x y z : ℕ) (targsize : ℕ) (word : targsize < 2 ^ 32)
    (inside : targsize ≤ length done + (3 + length rest)) where
  three_digits :
      (a b c : ℕ) (src : List ℕ)
      → IsByte a
      → IsByte b
      → IsByte c
      → length done + 2 < targsize
      → pton_loop
          (letter (a / 4) ∷ letter (a % 4 * 16 + b / 16) ∷ letter (b % 16 * 4 + c / 64) ∷ src)
          targsize
          (at 0 (length done + 0) (done ++ (x ∷ y ∷ z ∷ rest)))
        ≡ pton_loop src targsize
            (at 3 (length done + 2) (done ++ (a ∷ b ∷ u8 ((b % 16 * 4 + c / 64) % 4 * 64) ∷ rest)))
  three_digits a b c src ha hb hc room =
      two_digits done (z ∷ rest) x y targsize word (omega arith) a b _ ha hb (omega arith)
      ∙ pton_letter (b % 16 * 4 + c / 64) _ targsize _ _ (omega arith) (
          digit2 done (a ∷ u8 ((a % 4 * 16 + b / 16) % 16 * 16) ∷ z ∷ rest) targsize 1
            (b % 16 * 4 + c / 64) (omega arith) word (omega arith))
      ∙ ap
          (λ v.
            pton_loop src targsize (
              at 3 (length done + 2)
                (done ++ (a ∷ v ∷ u8 ((b % 16 * 4 + c / 64) % 4 * 64) ∷ rest))))
          (second_byte a b c ha hb hc)

  pub two_left :
      (a b : ℕ) (after : List ℕ)
      → IsByte a
      → IsByte b
      → length done + 2 < targsize
      → Parses
          (pton_loop
            (text (a ∷ b ∷ []) ++ (0 ∷ after))
            targsize
            (at 0 (length done + 0) (done ++ (x ∷ y ∷ z ∷ rest))))
          (length done + 2)
          (done ++ (a ∷ b ∷ []))
  unfolding text
  two_left a b after ha hb room =
      let zero_low : b % 16 * 4 ≡ b % 16 * 4 + 0 / 64 = omega arith in
      let slop : u8 ((b % 16 * 4 + 0 / 64) % 4 * 64) ≡ 0 = omega arith in
      (
        _,
        0 ∷ rest,
        ap
              (λ v.
                pton_loop
                  (letter (a / 4) ∷ letter (a % 4 * 16 + b / 16) ∷ letter v ∷ pad64 ∷ 0 ∷ after)
                  targsize (at 0 (length done + 0) (done ++ (x ∷ y ∷ z ∷ rest))))
              zero_low
            ∙ three_digits a b 0 (pad64 ∷ 0 ∷ after) ha hb (omega arith) room
            ∙ ap
                (λ v.
                  pton_loop (pad64 ∷ 0 ∷ after) targsize
                    (at 3 (length done + 2) (done ++ (a ∷ b ∷ v ∷ rest))))
                slop
            ∙ one_pad (length done + 2) targsize (done ++ (a ∷ b ∷ 0 ∷ rest)) after
                (omega (arith, length-append done (a ∷ b ∷ 0 ∷ rest)))
                (get_or-append done (a ∷ b ∷ 0 ∷ rest) 2 0),
        ap (λ v. some v) (sym (append_assoc done (a ∷ b ∷ []) (0 ∷ rest))),
      )

  four_digits :
      (a b c : ℕ) (src : List ℕ)
      → IsByte a
      → IsByte b
      → IsByte c
      → length done + 2 < targsize
      → pton_loop
          (letter (a / 4)
            ∷ letter (a % 4 * 16 + b / 16)
            ∷ letter (b % 16 * 4 + c / 64)
            ∷ letter (c % 64)
            ∷ src)
          targsize
          (at 0 (length done + 0) (done ++ (x ∷ y ∷ z ∷ rest)))
        ≡ pton_loop src targsize
            (at 0 (length (done ++ (a ∷ b ∷ c ∷ [])) + 0) ((done ++ (a ∷ b ∷ c ∷ [])) ++ rest))
  four_digits a b c src ha hb hc room =
      let counted : length done + 3 ≡ length (done ++ (a ∷ b ∷ c ∷ [])) + 0 =
        omega (arith, length-append done (a ∷ b ∷ c ∷ [])) in
      three_digits a b c _ ha hb hc room
      ∙ pton_letter (c % 64) _ targsize _ _ (omega arith) (
          digit3 done (a ∷ b ∷ u8 ((b % 16 * 4 + c / 64) % 4 * 64) ∷ rest) targsize 2 (c % 64)
            (omega arith) word (omega arith))
      ∙ ap (λ v. pton_loop src targsize (at 0 (length done + 3) (done ++ (a ∷ b ∷ v ∷ rest))))
          (third_byte b c hb hc)
      ∙ ap (λ i. pton_loop src targsize (at 0 i (done ++ (a ∷ b ∷ c ∷ rest)))) counted
      ∙ ap (λ t. pton_loop src targsize (at 0 (length (done ++ (a ∷ b ∷ c ∷ [])) + 0) t))
          (sym (append_assoc done (a ∷ b ∷ c ∷ []) rest))

  pub text_quad :
      (a b c : ℕ) (src after : List ℕ)
      → IsByte a
      → IsByte b
      → IsByte c
      → length done + 2 < targsize
      → pton_loop
          (text (a ∷ b ∷ c ∷ src) ++ after)
          targsize
          (at 0 (length done + 0) (done ++ (x ∷ y ∷ z ∷ rest)))
        ≡ pton_loop
            (text src ++ after)
            targsize
            (at 0 (length (done ++ (a ∷ b ∷ c ∷ [])) + 0) ((done ++ (a ∷ b ∷ c ∷ [])) ++ rest))
  unfolding text
  text_quad a b c src after ha hb hc room = four_digits a b c (text src ++ after) ha hb hc room
