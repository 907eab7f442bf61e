-- ===== src/Pb/Message/Refines/Submessage.antt =====
-- A message inside a message: the two passes write it once.
use mathlib.Core.List.{append-nil}
use daily_diary.Base.{ℕ, ◌+◌, ◌^◌, ◌≤◌, ◌<◌, ◌≡◌, refl, sym, ap, ◌∙◌, arith, List, [], length}
use daily_diary.Base.{length-append, u64, none, some}
use daily_diary.Pb.{Field, ok, fail, stream_full, ◌>>◌, first_error}
use daily_diary.Pb.OStream.{OStream, null_buf, sizing, pb_write, null, add_written}
use daily_diary.Pb.OStream.Emits.{Emits, IsBuffer, appended, >>-Emits}
use daily_diary.Pb.Encode.{pb_encode_varint}
use daily_diary.Pb.Encode.Varint.{encoding}
use daily_diary.Pb.Encode.Scalars.{pb_encode_varint-Emits}
use daily_diary.Pb.Message.{Action, MessageEncoder}
use daily_diary.Pb.Message.Submessage.{
  bounded, finish_submessage, write_submessage, sized_submessage, pb_encode_submessage,
}
use daily_diary.Pb.Message.Format.{Bytes, delimited, delimited_bytes}
use daily_diary.Pb.Message.Describes.{Describes, some-Describes, none-Describes}

pub null_buf-sized :
    (n : ℕ) (s : OStream) → s.callback ≡ null → pb_write (null_buf n) s ≡ ok tt (add_written n s)
unfolding pb_write
null_buf-sized n s h = ground arith

bounded-IsBuffer :
    (bs : List ℕ) (s : OStream)
    → length bs < 2 ^ 63
    → IsBuffer s
    → s.bytes_written + length bs ≤ s.max_size
    → IsBuffer (bounded (length bs) s)
bounded-IsBuffer bs s short b h = record {
  writes = b.writes;
  fits = let f = b.fits in omega arith;
  within = omega arith;
  word = short;
  clean = refl;
}

module _ (e : Action) (bs : List ℕ) (emits : Emits e bs) where
  write_sized :
      (s : OStream)
      → s.callback ≡ null
      → write_submessage e (length bs) s ≡ ok tt (add_written (length bs) s)
  unfolding write_submessage
  write_sized s h = ground (arith, null_buf-sized (length bs) s h)

  passes :
      (s : OStream)
      → IsBuffer s
      → s.bytes_written + length bs ≤ s.max_size
      → write_submessage e (length bs) s
        ≡ finish_submessage (length bs) s (e (bounded (length bs) s))
  unfolding write_submessage
  passes s b h = ground arith

  finishes :
      (s : OStream)
      → IsBuffer s
      → s.bytes_written + length bs ≤ s.max_size
      → finish_submessage (length bs) s (ok tt (appended bs (bounded (length bs) s)))
        ≡ ok tt (appended bs s)
  unfolding finish_submessage
  finishes s b h = ground arith

  write_full :
      (s : OStream)
      → IsBuffer s
      → s.bytes_written + length bs ≤ s.max_size
      → write_submessage e (length bs) s ≡ ok tt (appended bs s)
  write_full s b h =
      passes s b h
      ∙ ap (finish_submessage (length bs) s)
          (emits.full (bounded (length bs) s) (bounded-IsBuffer bs s emits.short b h) (omega arith))
      ∙ finishes s b h

  write_refused :
      (s : OStream)
      → IsBuffer s
      → s.max_size < s.bytes_written + length bs
      → write_submessage e (length bs) s
        ≡ fail (record s { errmsg = first_error s.errmsg stream_full })
  unfolding write_submessage
  write_refused s b h = let short = emits.short in ground arith

  write_submessage-Emits : Emits (write_submessage e (length bs)) bs
  write_submessage-Emits = record {
    short = emits.short;
    sized = λ s h u. write_sized s h;
    full = write_full;
    refused = λ s b h. record {
      after = record s { errmsg = first_error s.errmsg stream_full };
      done = [];
      returns = write_refused s b h;
      message = ap (λ e. first_error e stream_full) b.clean;
      wrote = sym (append-nil s.out);
      stays = let w = b.within in omega arith;
    };
  }

  sized_pass :
      sized_submessage e (e sizing)
      ≡ (pb_encode_varint (length bs) >> write_submessage e (length bs))
  unfolding sized_submessage sizing
  sized_pass =
      ap (sized_submessage e) (emits.sized sizing refl (omega arith))
      ∙ ap (λ n. pb_encode_varint n >> write_submessage e n) word
    where
      word : u64 (0 + length bs) ≡ length bs
      word = let short = emits.short in omega arith

  pub sized_submessage-Emits :
      length (delimited bs) < 2 ^ 63 → Emits (sized_submessage e (e sizing)) (delimited bs)
  sized_submessage-Emits short = rw sized_pass (
      >>-Emits
        (pb_encode_varint-Emits (length bs)
          (omega (arith, length-append (encoding (length bs)) bs)))
        write_submessage-Emits short)

pub pb_encode_submessage-Describes :
    (pb_encode : MessageEncoder) (fields : List Field) (src : ℕ) (x : Bytes)
    → Describes x (pb_encode fields src)
    → Describes (delimited_bytes x) (pb_encode_submessage pb_encode fields src)
unfolding pb_encode_submessage
pb_encode_submessage-Describes pb_encode fields src none d = none-Describes
pb_encode_submessage-Describes pb_encode fields src (some bs) d =
    some-Describes (delimited bs) (λ short.
      sized_submessage-Emits (pb_encode fields src) bs
        (d bs refl (omega (arith, length-append (encoding (length bs)) bs))) short)
