-- ===== src/Base64/Print.antt =====
-- What `f_b64_ntop` writes.
use mathlib.Core.List.{append_assoc, append-nil}
use daily_diary.Base.{ℕ, zero, suc, ◌+◌, ◌-◌, ◌*◌, ◌/◌, ◌%◌, ◌^◌, ◌≤◌, ◌<◌, ◌≡◌, refl, sym, ap, ◌∙◌}
use daily_diary.Base.{arith, List, [], ◌∷◌, ◌++◌, length, drop, length-append, take-length_append}
use daily_diary.Base.{length-drop, All, IsByte, u32, bit_and_mask, some, Res, ok, fail}
use daily_diary.Base64.{letter, pad64, output1, output2, full_quad, last_quad}
use daily_diary.Base64.{store_all, input_left, put_quad, put_end, ntop_tail, ntop_loop, f_b64_ntop}

-- Base64, by RFC 1521: three bytes are four digits of six bits.
unfoldable pub text : List ℕ → List ℕ
text [] = []
text (a ∷ []) = letter (a / 4) ∷ letter (a % 4 * 16) ∷ pad64 ∷ pad64 ∷ []
text (a ∷ b ∷ []) = letter (a / 4) ∷ letter (a % 4 * 16 + b / 16) ∷ letter (b % 16 * 4) ∷ pad64 ∷ []
text (a ∷ b ∷ c ∷ src) =
    letter (a / 4)
    ∷ letter (a % 4 * 16 + b / 16)
    ∷ letter (b % 16 * 4 + c / 64)
    ∷ letter (c % 64)
    ∷ text src

-- The length is a multiple of four, the next one that six bits a digit fill.
pub length-text : (src : List ℕ) → length (text src) ≡ 4 * ((length src + 2) / 3)
unfolding text
length-text [] = omega arith
length-text (a ∷ []) = omega arith
length-text (a ∷ b ∷ []) = omega arith
length-text (a ∷ b ∷ c ∷ src) = omega (arith, length-text src)

second_digit : (a b : ℕ) → IsByte a → IsByte b → output1 a b ≡ a % 4 * 16 + b / 16
second_digit a b ha hb = omega (arith, bit_and_mask 2 a)

third_digit : (b c : ℕ) → IsByte b → IsByte c → output2 b c ≡ b % 16 * 4 + c / 64
third_digit b c hb hc = omega (arith, bit_and_mask 4 b)

drop-append : (xs ys : List ℕ) (n : ℕ) → drop (length xs + n) (xs ++ ys) ≡ drop n ys
drop-append [] ys n = let e : 0 + n ≡ n = omega arith in ap (λ (k : ℕ). drop k ys) e
drop-append (x ∷ xs) ys n =
    let e : suc (length xs) + n ≡ suc (length xs + n) = omega arith in
    ap (λ (k : ℕ). drop k (x ∷ (xs ++ ys))) e ∙ drop-append xs ys n

store_all-append :
    (bs done rest : List ℕ)
    → length bs ≤ length rest
    → store_all (length done) bs (done ++ rest) ≡ some ((done ++ bs) ++ drop (length bs) rest)
unfolding store_all
store_all-append bs done rest h =
    rw (take-length_append done rest, drop-append done rest (length bs))
      (ground (arith, length-append done rest, append_assoc done bs (drop (length bs) rest)))

-- Four characters with room for them, and without.
pub put_quad-room :
    (quad done rest : List ℕ) (targsize : ℕ)
    → length quad ≡ 4
    → length done + 4 ≤ targsize
    → targsize ≤ length (done ++ rest)
    → targsize < 2 ^ 63
    → put_quad quad targsize (length done) (done ++ rest)
      ≡ ok (length (done ++ quad)) ((done ++ quad) ++ drop 4 rest)
unfolding put_quad
put_quad-room quad done rest targsize four room h word =
    rw (store_all-append quad done rest (omega (arith, length-append done rest)))
      (ground (arith, length-append done quad, four))

pub put_quad-short :
    (quad target : List ℕ) (targsize datalength : ℕ)
    → targsize < datalength + 4
    → datalength < 2 ^ 63
    → put_quad quad targsize datalength target ≡ fail target
unfolding put_quad
put_quad-short quad target targsize datalength h word = ground arith

put_end-room :
    (done rest : List ℕ) (targsize : ℕ)
    → length done < targsize
    → targsize ≤ length (done ++ rest)
    → put_end targsize (length done) (done ++ rest)
      ≡ ok (u32 (length done)) ((done ++ (0 ∷ [])) ++ drop 1 rest)
unfolding put_end
put_end-room done rest targsize room h =
    rw (store_all-append (0 ∷ []) done rest (omega (arith, length-append done rest))) (ground arith)

-- What is left in the end, on each of the three cases.
abbrev printed : List ℕ → List ℕ → List ℕ → Res (List ℕ) ℕ
printed done bs rest =
    ok (u32 (length (done ++ bs))) (((done ++ bs) ++ (0 ∷ [])) ++ drop (suc (length bs)) rest)

drop-nil : (n : ℕ) → drop {A = ℕ} n [] ≡ []
drop-nil zero = refl
drop-nil (suc n) = refl

drop-drop : (m n : ℕ) (xs : List ℕ) → drop n (drop m xs) ≡ drop (m + n) xs
drop-drop zero n xs = let e : n ≡ 0 + n = omega arith in ap (λ (k : ℕ). drop k xs) e
drop-drop (suc m) n [] = drop-nil n ∙ sym (drop-nil (suc m + n))
drop-drop (suc m) n (x ∷ xs) =
    let e : suc (m + n) ≡ suc m + n = omega arith in
    drop-drop m n xs ∙ ap (λ (k : ℕ). drop k (x ∷ xs)) e

printed-step :
    (done quad bs rest : List ℕ)
    → length quad ≡ 4
    → printed (done ++ quad) bs (drop 4 rest) ≡ printed done (quad ++ bs) rest
printed-step done quad bs rest four =
    rw (append_assoc done quad bs, drop-drop 4 (suc (length bs)) rest, sym counted) refl
  where
    counted : suc (length (quad ++ bs)) ≡ 4 + suc (length bs)
    counted = omega (arith, length-append quad bs)

-- The end behind a last quad.
tail_quad :
    (quad done rest : List ℕ) (targsize : ℕ)
    → length quad ≡ 4
    → length done + 4 < targsize
    → targsize ≤ length (done ++ rest)
    → targsize < 2 ^ 63
    → put_end targsize (length (done ++ quad)) ((done ++ quad) ++ drop 4 rest)
      ≡ printed done quad rest
tail_quad quad done rest targsize four room h word =
    put_end-room (done ++ quad) (drop 4 rest) targsize (omega (arith, length-append done quad)) (
      omega (
        arith,
        length-append (done ++ quad) (drop 4 rest),
        length-append done quad,
        length-drop 4 rest,
        length-append done rest,
      ))
    ∙ rw (drop-drop 4 1 rest, four) refl

-- The three ends, with room for them.
module _ (done rest : List ℕ) (targsize : ℕ) (h : targsize ≤ length (done ++ rest))
    (word : targsize < 2 ^ 63) where
  tail-nil :
      length done < targsize
      → ntop_tail [] 0 targsize (length done) (done ++ rest) ≡ printed done [] rest
  unfolding ntop_tail
  tail-nil room = put_end-room done rest targsize room h ∙ rw (append-nil done) refl

  tail-one :
      (a : ℕ)
      → IsByte a
      → length done + 4 < targsize
      → ntop_tail (a ∷ []) 1 targsize (length done) (done ++ rest)
        ≡ printed done (text (a ∷ [])) rest
  unfolding ntop_tail text input_left
  tail-one a ha room =
      rw (put_quad-room (last_quad 1 (a, 0)) done rest targsize refl (omega arith) h word)
        (tail_quad (last_quad 1 (a, 0)) done rest targsize refl room h word)
      ∙ ap (λ p. printed done (letter (a / 4) ∷ letter p ∷ pad64 ∷ pad64 ∷ []) rest) digits
    where
      digits : output1 a 0 ≡ a % 4 * 16
      digits = omega (arith, bit_and_mask 2 a)

  tail-two :
      (a b : ℕ)
      → IsByte a
      → IsByte b
      → length done + 4 < targsize
      → ntop_tail (a ∷ b ∷ []) 2 targsize (length done) (done ++ rest)
        ≡ printed done (text (a ∷ b ∷ [])) rest
  unfolding ntop_tail text input_left
  tail-two a b ha hb room =
      rw (put_quad-room (last_quad 2 (a, b)) done rest targsize refl (omega arith) h word)
        (tail_quad (last_quad 2 (a, b)) done rest targsize refl room h word)
      ∙ ap (λ p. printed done (letter (a / 4) ∷ letter p ∷ letter (output2 b 0) ∷ pad64 ∷ []) rest)
          (second_digit a b ha hb)
      ∙ ap
          (λ p.
            printed done (letter (a / 4) ∷ letter (a % 4 * 16 + b / 16) ∷ letter p ∷ pad64 ∷ [])
              rest)
          third
    where
      third : output2 b 0 ≡ b % 16 * 4
      third = omega (arith, bit_and_mask 4 b)

full_quad-text :
    (a b c : ℕ) (src : List ℕ)
    → IsByte a
    → IsByte b
    → IsByte c
    → full_quad a b c ++ text src ≡ text (a ∷ b ∷ c ∷ src)
unfolding text
full_quad-text a b c src ha hb hc =
    rw (second_digit a b ha hb, third_digit b c hb hc, bit_and_mask 6 c) refl

pub loop_round :
    (a b c : ℕ) (src done rest : List ℕ) (targsize : ℕ)
    → length done + 4 ≤ targsize
    → targsize ≤ length (done ++ rest)
    → targsize < 2 ^ 63
    → ntop_loop (a ∷ b ∷ c ∷ src) (length (a ∷ b ∷ c ∷ src)) targsize (length done) (done ++ rest)
      ≡ ntop_loop src
          (length src)
          targsize
          (length (done ++ full_quad a b c))
          ((done ++ full_quad a b c) ++ drop 4 rest)
unfolding ntop_loop
loop_round a b c src done rest targsize room h word =
    let e : suc (suc (suc (length src))) - 3 ≡ length src = omega arith in
    ground (arith, e, put_quad-room (full_quad a b c) done rest targsize refl room h word)

ntop_loop-text :
    (src done rest : List ℕ) (targsize : ℕ)
    → All IsByte src
    → length done + length (text src) < targsize
    → targsize ≤ length (done ++ rest)
    → targsize < 2 ^ 63
    → ntop_loop src (length src) targsize (length done) (done ++ rest)
      ≡ printed done (text src) rest
ntop_loop-text [] done rest targsize bytes room h word =
    unfold ntop_loop text in tail-nil done rest targsize h word (omega (arith, length-text []))
ntop_loop-text (a ∷ []) done rest targsize (ha, _) room h word =
    unfold ntop_loop in
    tail-one done rest targsize h word a ha (omega (arith, length-text (a ∷ [])))
ntop_loop-text (a ∷ b ∷ []) done rest targsize (ha, (hb, _)) room h word =
    unfold ntop_loop in
    tail-two done rest targsize h word a b ha hb (omega (arith, length-text (a ∷ b ∷ [])))
ntop_loop-text (a ∷ b ∷ c ∷ src) done rest targsize (ha, (hb, (hc, bytes))) room h word =
    let quad = full_quad a b c in
    let longer = length-append done quad in
    let more = length-text (a ∷ b ∷ c ∷ src) in
    let fewer = length-text src in
    loop_round a b c src done rest targsize (omega arith) h word
    ∙ ntop_loop-text src (done ++ quad) (drop 4 rest) targsize bytes (omega arith)
        (omega (
          arith,
          length-append (done ++ quad) (drop 4 rest),
          length-drop 4 rest,
          length-append done rest,
        ))
        word
    ∙ printed-step done quad (text src) rest refl
    ∙ ap (λ t. printed done t rest) (full_quad-text a b c src ha hb hc)

-- With room for the text and its terminator, `f_b64_ntop` returns the length of the Base64 text
-- of RFC 1521 as an int, and writes just the text and a NUL to the start of the target.
pub f_b64_ntop-text :
    (src target : List ℕ) (targsize : ℕ)
    → All IsByte src
    → length (text src) < targsize
    → targsize ≤ length target
    → targsize < 2 ^ 63
    → f_b64_ntop src (length src) targsize target
      ≡ ok
          (u32 (length (text src)))
          ((text src ++ (0 ∷ [])) ++ drop (suc (length (text src))) target)
unfolding f_b64_ntop
f_b64_ntop-text src target targsize bytes room h word =
    ntop_loop-text src [] target targsize bytes (omega arith) h word
