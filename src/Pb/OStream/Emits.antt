-- ===== src/Pb/OStream/Emits.antt =====
-- What writing does: counted on a sizing stream, appended on a buffer with room for it, refused
-- with "stream full" on a buffer without. Encoders are composed from this.
use mathlib.Core.List.{append_assoc, append-nil}
use native.Mathlib.Nat.{mod-add-mod}
use native.Mathlib.Decide.{dec_le}
use daily_diary.Base.{ℕ, ◌+◌, ◌-◌, ◌^◌, ◌≤◌, ◌<◌, ◌≡◌, refl, sym, ap, ◌∙◌, arith}
use daily_diary.Base.{List, [], ◌++◌, length, length-append, u64, IsU64, none, some}
use daily_diary.Pb.{stream_full, first_error, Res, ok, fail, ◌>>◌, >>=-ok, >>=-fail}
use daily_diary.Pb.OStream.{OStream, null, buf_write, bytes, pb_write, add_written}
use daily_diary.Pb.OStream.{pb_ostream_from_buffer}

-- A stream without an error, over a buffer that is large enough for what `max_size` allows.
pub record IsBuffer (s : OStream) : Type 0 where
  pub writes : s.callback ≡ buf_write
  pub fits : s.max_size ≤ s.bytes_written + s.room
  pub within : s.bytes_written ≤ s.max_size
  pub word : s.max_size < 2 ^ 63
  pub clean : s.errmsg ≡ none

-- The stream after `bs` was written to its buffer.
abbrev pub appended : List ℕ → OStream → OStream
appended bs s = record s {
  out = s.out ++ bs;
  room = s.room - length bs;
  bytes_written = s.bytes_written + length bs;
}

-- A refused write leaves "stream full", and has written only some bytes `done` that fit.
pub record IsRefused (s : OStream) (r : Res OStream (Unit {0})) : Type 0 where
  pub after : OStream
  pub done : List ℕ
  pub returns : r ≡ fail after
  pub message : after.errmsg ≡ some stream_full
  pub wrote : after.out ≡ s.out ++ done
  pub stays : s.bytes_written + length done ≤ s.max_size

-- `e` writes the bytes `bs`, to whatever kind of stream.
pub record Emits (e : OStream → Res OStream (Unit {0})) (bs : List ℕ) : Type 0 where
  pub short : length bs < 2 ^ 63
  pub sized :
      (s : OStream)
      → s.callback ≡ null
      → IsU64 s.bytes_written
      → e s ≡ ok tt (add_written (length bs) s)
  pub full :
      (s : OStream)
      → IsBuffer s
      → s.bytes_written + length bs ≤ s.max_size
      → e s ≡ ok tt (appended bs s)
  pub refused :
      (s : OStream) → IsBuffer s → s.max_size < s.bytes_written + length bs → IsRefused s (e s)

pub pb_ostream_from_buffer-IsBuffer : (n : ℕ) → n < 2 ^ 63 → IsBuffer (pb_ostream_from_buffer n)
unfolding pb_ostream_from_buffer
pb_ostream_from_buffer-IsBuffer n h = record {
  writes = refl;
  fits = omega arith;
  within = omega arith;
  word = h;
  clean = refl;
}

pub appended-IsBuffer :
    (bs : List ℕ) (s : OStream)
    → IsBuffer s
    → s.bytes_written + length bs ≤ s.max_size
    → IsBuffer (appended bs s)
appended-IsBuffer bs s b h = record {
  writes = b.writes;
  fits = let f = b.fits in omega arith;
  within = h;
  word = b.word;
  clean = b.clean;
}

write_sized :
    (bs : List ℕ) (s : OStream)
    → s.callback ≡ null
    → pb_write (bytes bs) s ≡ ok tt (add_written (length bs) s)
unfolding pb_write
write_sized bs s h = ground arith

write_full :
    (bs : List ℕ) (s : OStream)
    → length bs < 2 ^ 63
    → IsBuffer s
    → s.bytes_written + length bs ≤ s.max_size
    → pb_write (bytes bs) s ≡ ok tt (appended bs s)
unfolding pb_write
write_full bs s hn b h = ground arith

write_refused :
    (bs : List ℕ) (s : OStream)
    → length bs < 2 ^ 63
    → IsBuffer s
    → s.max_size < s.bytes_written + length bs
    → pb_write (bytes bs) s ≡ fail (record s { errmsg = first_error s.errmsg stream_full })
unfolding pb_write
write_refused bs s hn b h = ground arith

pub pb_write-Emits : (bs : List ℕ) → length bs < 2 ^ 63 → Emits (pb_write (bytes bs)) bs
pb_write-Emits bs hn = record {
  short = hn;
  sized = λ s h u. write_sized bs s h;
  full = λ s b h. write_full bs s hn b h;
  refused = λ s b h. record {
    after = record s { errmsg = first_error s.errmsg stream_full };
    done = [];
    returns = write_refused bs s hn b h;
    message = ap (λ e. first_error e stream_full) b.clean;
    wrote = sym (append-nil s.out);
    stays = let w = b.within in omega arith;
  };
}

-- One write after the other.
module _ {f g : OStream → Res OStream (Unit {0})} {xs ys : List ℕ} (first : Emits f xs)
    (second : Emits g ys) where
  >>-sized :
      (s : OStream)
      → s.callback ≡ null
      → IsU64 s.bytes_written
      → (f >> g) s ≡ ok tt (add_written (length (xs ++ ys)) s)
  >>-sized s h u =
      >>=-ok f _ s (first.sized s h u)
      ∙ second.sized (add_written (length xs) s) h (omega arith)
      ∙ ap (λ n. ok tt (record s { bytes_written = n })) summed
    where
      summed :
          u64 (u64 (s.bytes_written + length xs) + length ys)
          ≡ u64 (s.bytes_written + length (xs ++ ys))
      summed = mod-add-mod _ _ _ ∙ ap (λ (n : ℕ). u64 n) (omega (arith, length-append xs ys))

  >>-full :
      (s : OStream)
      → IsBuffer s
      → s.bytes_written + length (xs ++ ys) ≤ s.max_size
      → (f >> g) s ≡ ok tt (appended (xs ++ ys) s)
  >>-full s b h =
      >>=-ok f _ s (first.full s b (omega (arith, length-append xs ys)))
      ∙ second.full (appended xs s) (appended-IsBuffer xs s b (omega (arith, length-append xs ys)))
          (omega (arith, length-append xs ys))
      ∙ ground (arith, append_assoc s.out xs ys, length-append xs ys)

  >>-IsRefused :
      (s : OStream)
      → IsBuffer s
      → s.max_size < s.bytes_written + length (xs ++ ys)
      → IsRefused s ((f >> g) s)
  >>-IsRefused s b h = elim (dec_le (s.bytes_written + length xs) s.max_size) [
    | yes room ↦ later room (
        second.refused (appended xs s) (appended-IsBuffer xs s b room)
          (omega (arith, length-append xs ys)))
    | no full ↦ now (first.refused s b (omega arith))
  ]
    where
      later :
          s.bytes_written + length xs ≤ s.max_size
          → IsRefused (appended xs s) (g (appended xs s))
          → IsRefused s ((f >> g) s)
      later room r = record {
        after = r.after;
        done = xs ++ r.done;
        returns = >>=-ok f _ s (first.full s b room) ∙ r.returns;
        message = r.message;
        wrote = r.wrote ∙ append_assoc s.out xs r.done;
        stays = let w = r.stays in omega (arith, length-append xs r.done);
      }

      now : IsRefused s (f s) → IsRefused s ((f >> g) s)
      now r = record {
        after = r.after;
        done = r.done;
        returns = >>=-fail f _ s r.returns;
        message = r.message;
        wrote = r.wrote;
        stays = r.stays;
      }

  pub >>-Emits : length (xs ++ ys) < 2 ^ 63 → Emits (f >> g) (xs ++ ys)
  >>-Emits hn = record { short = hn; sized = >>-sized; full = >>-full; refused = >>-IsRefused }

pub ok-Emits : Emits (ok tt) []
ok-Emits = record {
  short = omega arith;
  sized = λ s h u. ground arith;
  full = λ s b h. ground (arith, append-nil s.out);
  refused = λ s b h. absurd (let w = b.within in omega arith);
}
