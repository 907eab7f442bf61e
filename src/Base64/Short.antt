-- ===== src/Base64/Short.antt =====
-- `f_b64_ntop` on a target array that is too small.
use daily_diary.Base.{ℕ, ◌+◌, ◌^◌, ◌≤◌, ◌<◌, ◌≡◌, refl, ◌∙◌, arith}
use daily_diary.Base.{
  List, [], ◌∷◌, ◌++◌, length, drop, length-append, length-drop, Res, ok, fail, fault,
}
use daily_diary.Base64.{
  full_quad, last_quad, put_quad, put_end, input_left, ntop_tail, ntop_loop, f_b64_ntop,
}
use daily_diary.Base64.Print.{text, length-text, put_quad-room, put_quad-short, loop_round}
use native.Mathlib.Decide.{dec_le}

-- A return of -1.
abbrev pub Refuses : Res (List ℕ) ℕ → Type 0
Refuses r = (left : List ℕ) × (r ≡ fail left)

put_end-short :
    (targsize datalength : ℕ) (target : List ℕ)
    → targsize ≤ datalength
    → put_end targsize datalength target ≡ fail target
unfolding put_end
put_end-short targsize datalength target h = ground arith

module _ (done rest : List ℕ) (targsize : ℕ) (h : targsize ≤ length (done ++ rest))
    (word : targsize < 2 ^ 63) (within : length done ≤ targsize) where
  -- A quad that does not fit, or leaves no room for the terminator.
  tail_quad-short :
      (quad : List ℕ)
      → length quad ≡ 4
      → targsize ≤ length done + 4
      → Refuses (elim (put_quad quad targsize (length done) (done ++ rest)) [
        | ok datalength' target' ↦ put_end targsize datalength' target'
        | fail target' ↦ fail target'
        | fault ↦ fault
      ])
  tail_quad-short quad four short = elim (dec_le (length done + 4) targsize) [
    | yes fits ↦
        let counted = length-append done quad in
        (
          (done ++ quad) ++ drop 4 rest,
          rw (put_quad-room quad done rest targsize four fits h word)
              (put_end-short targsize _ _ (omega arith)),
        )
    | no over ↦ (
      done ++ rest,
      rw (put_quad-short quad (done ++ rest) targsize (length done) (omega arith) (omega arith))
          refl,
    )
  ]

  tail_one-short :
      (a : ℕ)
      → targsize ≤ length done + 4
      → Refuses (ntop_tail (a ∷ []) 1 targsize (length done) (done ++ rest))
  unfolding ntop_tail input_left
  tail_one-short a short = tail_quad-short (last_quad 1 (a, 0)) refl short

  tail_two-short :
      (a b : ℕ)
      → targsize ≤ length done + 4
      → Refuses (ntop_tail (a ∷ b ∷ []) 2 targsize (length done) (done ++ rest))
  unfolding ntop_tail input_left
  tail_two-short a b short = tail_quad-short (last_quad 2 (a, b)) refl short

  loop_round-short :
      (a b c : ℕ) (src : List ℕ)
      → targsize < length done + 4
      → ntop_loop (a ∷ b ∷ c ∷ src) (length (a ∷ b ∷ c ∷ src)) targsize (length done) (done ++ rest)
        ≡ fail (done ++ rest)
  unfolding ntop_loop
  loop_round-short a b c src short = ground (
    arith,
    put_quad-short (full_quad a b c) (done ++ rest) targsize (length done) short (omega arith),
  )

ntop_loop-short :
    (src done rest : List ℕ) (targsize : ℕ)
    → targsize ≤ length done + length (text src)
    → targsize ≤ length (done ++ rest)
    → targsize < 2 ^ 63
    → length done ≤ targsize
    → Refuses (ntop_loop src (length src) targsize (length done) (done ++ rest))
ntop_loop-short [] done rest targsize short h word within =
    unfold ntop_loop ntop_tail in (_, put_end-short targsize _ _ (omega (arith, length-text [])))
ntop_loop-short (a ∷ []) done rest targsize short h word within =
    unfold ntop_loop in
    tail_one-short done rest targsize h word within a (omega (arith, length-text (a ∷ [])))
ntop_loop-short (a ∷ b ∷ []) done rest targsize short h word within =
    unfold ntop_loop in
    tail_two-short done rest targsize h word within a b (omega (arith, length-text (a ∷ b ∷ [])))
ntop_loop-short (a ∷ b ∷ c ∷ src) done rest targsize short h word within =
    elim (dec_le (length done + 4) targsize) [
      | no over ↦ (_, loop_round-short done rest targsize h word within a b c src (omega arith))
      | yes fits ↦
          let quad = full_quad a b c in
          let longer = length-append done quad in
          let more = length-text (a ∷ b ∷ c ∷ src) in
          let fewer = length-text src in
          let (left, e) =
            ntop_loop-short src (done ++ quad) (drop 4 rest) targsize (omega arith)
              (omega (
                arith,
                length-append (done ++ quad) (drop 4 rest),
                length-drop 4 rest,
                length-append done rest,
              ))
              word (omega arith) in
          (left, loop_round a b c src done rest targsize fits h word ∙ e)
    ]

-- Without room for the text and its terminator, `f_b64_ntop` returns -1 and accesses nothing
-- outside of the target.
pub f_b64_ntop-short :
    (src target : List ℕ) (targsize : ℕ)
    → targsize ≤ length (text src)
    → targsize ≤ length target
    → targsize < 2 ^ 63
    → Refuses (f_b64_ntop src (length src) targsize target)
unfolding f_b64_ntop
f_b64_ntop-short src target targsize short h word =
    ntop_loop-short src [] target targsize (omega arith) h word (omega arith)
