-- ===== src/Base64/RoundTrip.antt =====
-- What `f_b64_ntop` writes, `f_b64_pton` reads back.
use mathlib.Core.List.{append_assoc, append-nil}
use daily_diary.Base.{ℕ, suc, ◌+◌, ◌^◌, ◌≤◌, ◌<◌, ◌≡◌, sym, ap, ◌∙◌, arith, List, [], ◌∷◌, ◌++◌}
use daily_diary.Base.{length, length-append, drop, All, IsByte, some, ok}
use daily_diary.Base64.{f_b64_ntop, f_b64_pton, pton_loop}
use daily_diary.Base64.Print.{text, f_b64_ntop-text}
use daily_diary.Base64.Parse.{at}
use daily_diary.Base64.Groups.{Parses, no_pad, one_left, two_left, text_quad}

pton_loop-text :
    (src done rest after : List ℕ) (targsize : ℕ)
    → targsize < 2 ^ 32
    → All IsByte src
    → length done + length src < targsize
    → targsize ≤ length done + length rest
    → Parses
        (pton_loop (text src ++ (0 ∷ after)) targsize (at 0 (length done + 0) (done ++ rest)))
        (length done + length src)
        (done ++ src)
pton_loop-text [] done rest after targsize word bytes room inside = (
  at 0 (length done + 0) (done ++ rest),
  rest,
  unfold text in no_pad (length done + 0) targsize (done ++ rest) after,
  ap (λ t. some (t ++ rest)) (sym (append-nil done)),
)
pton_loop-text (a ∷ []) done [] after targsize word bytes room inside = absurd (omega arith)
pton_loop-text (a ∷ []) done (x ∷ []) after targsize word bytes room inside = absurd (omega arith)
pton_loop-text (a ∷ []) done (x ∷ y ∷ rest) after targsize word (ha, _) room inside =
    one_left done rest x y targsize word (omega arith) a after ha (omega arith)
pton_loop-text (a ∷ b ∷ []) done [] after targsize word bytes room inside = absurd (omega arith)
pton_loop-text (a ∷ b ∷ []) done (x ∷ []) after targsize word bytes room inside =
    absurd (omega arith)
pton_loop-text (a ∷ b ∷ []) done (x ∷ y ∷ []) after targsize word bytes room inside =
    absurd (omega arith)
pton_loop-text (a ∷ b ∷ []) done (x ∷ y ∷ z ∷ rest) after targsize word (ha, (hb, _)) room inside =
    two_left done rest x y z targsize word (omega arith) a b after ha hb (omega arith)
pton_loop-text (a ∷ b ∷ c ∷ src) done [] after targsize word bytes room inside =
    absurd (omega arith)
pton_loop-text (a ∷ b ∷ c ∷ src) done (x ∷ []) after targsize word bytes room inside =
    absurd (omega arith)
pton_loop-text (a ∷ b ∷ c ∷ src) done (x ∷ y ∷ []) after targsize word bytes room inside =
    absurd (omega arith)
pton_loop-text (a ∷ b ∷ c ∷ src) done (x ∷ y ∷ z ∷ rest) after targsize word (ha, (hb, (hc, bytes)))
      room inside =
    let longer = length-append done (a ∷ b ∷ c ∷ []) in
    let (d, left, parsed, stored) =
      pton_loop-text src (done ++ (a ∷ b ∷ c ∷ [])) rest after targsize word bytes (omega arith)
        (omega arith) in
    (
      d,
      left,
      text_quad done rest x y z targsize word (omega arith) a b c src (0 ∷ after) ha hb hc
            (omega arith)
          ∙ parsed
          ∙ ap (λ n. ok n d) counted,
      stored ∙ ap (λ t. some (t ++ left)) (append_assoc done (a ∷ b ∷ c ∷ []) src),
    )
  where
    counted :
        length (done ++ (a ∷ b ∷ c ∷ [])) + length src ≡ length done + length (a ∷ b ∷ c ∷ src)
    counted = omega (arith, length-append done (a ∷ b ∷ c ∷ []))

-- On the NUL-terminated Base64 text of some bytes, whatever stands behind it, `f_b64_pton`
-- returns the number of the bytes and stores them at the start of a target with room for one
-- more byte.
pub f_b64_pton-text :
    (src target after : List ℕ) (targsize : ℕ)
    → All IsByte src
    → length src < targsize
    → targsize ≤ length target
    → targsize < 2 ^ 32
    → Parses (f_b64_pton (text src ++ (0 ∷ after)) (some target) targsize) (length src) src
unfolding f_b64_pton
f_b64_pton-text src target after targsize bytes room inside word =
    let (d, left, parsed, stored) =
      pton_loop-text src [] target after targsize word bytes (omega arith) (omega arith) in
    let e : 0 + length src ≡ length src = omega arith in
    (d, left, parsed ∙ ap (λ n. ok n d) e, stored)

-- Bytes that `f_b64_ntop` writes as Base64 to an array with room for the text and its terminator
-- are read back by `f_b64_pton` from that array, into any array that is longer than the bytes:
-- it returns their number, and they stand at the start of the target.
pub f_b64_pton-ntop :
    (src chars target : List ℕ)
    → All IsByte src
    → length (text src) < length chars
    → length chars < 2 ^ 63
    → length src < length target
    → length target < 2 ^ 32
    → (n : ℕ) × (t : List ℕ) × (f_b64_ntop src (length src) (length chars) chars ≡ ok n t)
      × Parses (f_b64_pton t (some target) (length target)) (length src) src
f_b64_pton-ntop src chars target bytes enough word room word32 =
    let (d, left, parsed, stored) =
      f_b64_pton-text src target (drop (suc (length (text src))) chars) (length target) bytes room
        (omega arith) word32 in
    (
      _,
      _,
      f_b64_ntop-text src chars (length chars) bytes enough (omega arith) word,
      (
        d,
        left,
        ap (λ t. f_b64_pton t (some target) (length target))
              (append_assoc (text src) (0 ∷ []) (drop (suc (length (text src))) chars))
            ∙ parsed,
        stored,
      ),
    )
