-- ===== src/Pb/IStream/Length.antt =====
-- A read that succeeds gives as many bytes as were asked for, from every kind of stream.
use daily_diary.Base.{ℕ, ◌-◌, ◌≡◌, refl, ap, ◌∙◌, arith, List, length, length-take}
use daily_diary.Pb.{Res, ok, fail, fault, io_error}
use daily_diary.Pb.IStream.{
  IStream, Reader, Answer, buf_read, custom, call_reader, pb_read, return_error,
}

advance-length :
    (count : ℕ) (s : IStream) (bs : List ℕ) (t : IStream)
    → call_reader buf_read count s ≡ ok bs t
    → length bs ≡ count
unfolding call_reader
advance-length count s bs t h = ground (arith, length-take count s.state)

custom-length :
    (f : List ℕ → ℕ → Answer) (count : ℕ) (s : IStream) (bs : List ℕ) (t : IStream)
    → call_reader (custom f) count s ≡ ok bs t
    → length bs ≡ count
unfolding call_reader
custom-length f count s bs t h = ground arith

call_reader-length :
    (c : Reader) (count : ℕ) (s : IStream) (bs : List ℕ) (t : IStream)
    → call_reader c count s ≡ ok bs t
    → length bs ≡ count
call_reader-length buf_read count s bs t h = advance-length count s bs t h
call_reader-length (custom f) count s bs t h = custom-length f count s bs t h

-- What `pb_read` makes of the answer of the callback.
finish : ℕ → Res IStream (List ℕ) → Res IStream (List ℕ)
finish count (ok bs t) = ok bs (record t { bytes_left = t.bytes_left - count })
finish count (fail t) = return_error io_error t
finish count fault = fault

finish-length :
    (count : ℕ) (r : Res IStream (List ℕ))
    → ((bs : List ℕ) (t : IStream) → r ≡ ok bs t → length bs ≡ count)
    → (bs : List ℕ) (t : IStream) → finish count r ≡ ok bs t
    → length bs ≡ count
unfolding finish
finish-length count (ok bs t) each bs' t' h =
    let e : bs' ≡ bs = ground arith in ap length e ∙ each bs t refl
finish-length count (fail t) each bs' t' h = absurd (ground arith)
finish-length count fault each bs' t' h = absurd (ground arith)

pb_read-finish :
    (count : ℕ) (s : IStream) (bs : List ℕ) (t : IStream)
    → pb_read count s ≡ ok bs t
    → finish count (call_reader s.callback count s) ≡ ok bs t
unfolding pb_read finish
pb_read-finish count s bs t h = ground arith

pub pb_read-length :
    (count : ℕ) (s : IStream) (bs : List ℕ) (t : IStream)
    → pb_read count s ≡ ok bs t
    → length bs ≡ count
pb_read-length count s bs t h =
    finish-length count _ (call_reader-length s.callback count s) bs t
      (pb_read-finish count s bs t h)
