-- ===== src/Pb/IStream/Buffer.antt =====
-- Reads from a memory buffer.
use daily_diary.Base.{ℕ, suc, ◌+◌, ◌≡◌, refl, ap, ◌∙◌, arith, List, ◌∷◌, ◌++◌}
use daily_diary.Base.{length, take-length_append, drop-length_append, length-append}
use daily_diary.Base.{Option}
use daily_diary.Pb.{ErrMsg, end_of_stream, ok, fail, first_error}
use daily_diary.Pb.IStream.{IStream, buf_read, pb_read, pb_readbyte, pb_read_null}

-- A stream over the array `xs`, of which `n` bytes may still be read.
abbrev pub buffer : List ℕ → ℕ → Option ErrMsg → IStream
buffer xs n e = record { callback = buf_read; state = xs; bytes_left = n; errmsg = e }

pub pb_readbyte-buffer :
    (b : ℕ) (bs : List ℕ) (n : ℕ) (e : Option ErrMsg)
    → pb_readbyte (buffer (b ∷ bs) (suc n) e) ≡ ok b (buffer bs n e)
unfolding pb_readbyte
pb_readbyte-buffer b bs n e = ground arith

pub pb_readbyte-append :
    (b : ℕ) (bs : List ℕ) (m k : ℕ) (e : Option ErrMsg)
    → pb_readbyte (buffer (b ∷ bs) (suc m + k) e) ≡ ok b (buffer bs (m + k) e)
pb_readbyte-append b bs m k e =
    let one_more : suc m + k ≡ suc (m + k) = omega arith in
    ap (λ n. pb_readbyte (buffer (b ∷ bs) n e)) one_more ∙ pb_readbyte-buffer b bs (m + k) e

pub pb_readbyte-end :
    (xs : List ℕ) (e : Option ErrMsg)
    → pb_readbyte (buffer xs 0 e) ≡ fail (buffer xs 0 (first_error e end_of_stream))
unfolding pb_readbyte
pb_readbyte-end xs e = refl

pub pb_read-buffer :
    (bs rest : List ℕ) (k : ℕ) (e : Option ErrMsg)
    → pb_read (length bs) (buffer (bs ++ rest) (length bs + k) e) ≡ ok bs (buffer rest k e)
unfolding pb_read
pb_read-buffer bs rest k e =
    ground (arith, length-append bs rest, take-length_append bs rest, drop-length_append bs rest)

pub pb_read_null-buffer :
    (bs rest : List ℕ) (k : ℕ) (e : Option ErrMsg)
    → pb_read_null (length bs) (buffer (bs ++ rest) (length bs + k) e) ≡ ok tt (buffer rest k e)
unfolding pb_read_null
pb_read_null-buffer bs rest k e = rw (pb_read-buffer bs rest k e)
