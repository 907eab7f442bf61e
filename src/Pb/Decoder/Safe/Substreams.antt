-- ===== src/Pb/Decoder/Safe/Substreams.antt =====
-- A substream and its parent stay inside of the array of the stream they are made from.
use native.Mathlib.Decide.{dec_le}
use daily_diary.Base.{ℕ, ◌+◌, ◌-◌, ◌≤◌, ◌<◌, ◌≡◌, refl, arith, Bool-cases, inl, inr}
use daily_diary.Base.{length, ltb, drop, length-drop, ◌∙◌}
use daily_diary.Pb.{Res, ok, fail, fault}
use daily_diary.Pb.IStream.{IStream, pb_read, pb_read_null, forget}
use daily_diary.Pb.Decode.{pb_make_string_substream, pb_close_string_substream}
use daily_diary.Pb.Decode.{split_stream, rejoin}
use daily_diary.Pb.Decode.Bounds.{IsInBounds, Follows, Follows-IsInBounds, Stays, read_some}
use daily_diary.Pb.Decode.Loops.{pb_decode_varint32-Stays, buffer_skip}
use daily_diary.Pb.Static.{close_failed}
use daily_diary.Pb.Decoder.Safe.{Within, Follows-Within, Within-trans, Within-IsInBounds, Ends}
use daily_diary.Pb.Decoder.Safe.{Ends-error}

-- `sub` and its parent `t`, made from `s`: the field lies in front of what is left to the parent.
pub record Frames (s sub t : IStream) : Type 0 where
  pub inner : IsInBounds sub
  pub outer : Within s t
  pub place : length sub.state + s.bytes_left ≡ length s.state + (t.bytes_left + sub.bytes_left)
  pub both : t.bytes_left + sub.bytes_left ≤ s.bytes_left

abbrev pub Makes : IStream → Res IStream IStream → Type 0
Makes s (ok sub t) = Frames s sub t
Makes s (fail t) = Within s t
Makes s fault = ⊥

split-Makes :
    (s u : IStream) (size : ℕ) → IsInBounds s → Follows s u → Makes s (split_stream size u)
split-Makes s u size h p = elim (Bool-cases (ltb u.bytes_left size)) [
  | inl c ↦ rw c (Within-trans (Follows-Within p) (Ends-error u _ (Follows-IsInBounds h p)))
  | inr c ↦
      let fits = (Follows-IsInBounds h p).fits in
      let less : size ≤ u.bytes_left = ground arith in
      let same_end = p.same_end in
      let shrinks = p.shrinks in
      rw c (record {
        inner = record { is_buffer = p.is_buffer; fits = omega arith };
        outer = record { is_buffer = p.is_buffer; shrinks = omega arith; room = omega arith };
        place = omega arith;
        both = omega arith;
      })
]

made :
    (s : IStream) (r : Res IStream ℕ)
    → IsInBounds s
    → Stays s r
    → Makes s (elim r [ ok a t ↦ split_stream a t | fail t ↦ fail t | fault ↦ fault ])
made s (ok size u) h p = split-Makes s u size h p
made s (fail u) h p = Follows-Within p
made s fault h p = p

pub make-Makes : (s : IStream) → IsInBounds s → Makes s (pb_make_string_substream s)
unfolding pb_make_string_substream
make-Makes s h = made s _ h (pb_decode_varint32-Stays s h)

-- Where what is left of the substream can be skipped.
skip_left :
    (sub : IStream)
    → IsInBounds sub
    → pb_read_null sub.bytes_left sub ≡ forget (pb_read sub.bytes_left sub)
skip_left sub h = buffer_skip sub.bytes_left sub h

closes_empty :
    (sub t : IStream) → sub.bytes_left ≡ 0 → pb_close_string_substream sub t ≡ ok tt (rejoin sub t)
unfolding pb_close_string_substream
closes_empty sub t e = ground arith

closes_left :
    (sub t : IStream)
    → IsInBounds sub
    → 0 < sub.bytes_left
    → pb_close_string_substream sub t
      ≡ ok tt (
          rejoin
            (record sub {
              state = drop sub.bytes_left sub.state;
              bytes_left = sub.bytes_left - sub.bytes_left;
            })
            t)
unfolding pb_close_string_substream forget
closes_left sub t h pos =
    ground (arith, skip_left sub h, read_some sub.bytes_left sub h (omega arith))

-- A parent behind its substream.
abbrev Closed : IStream → IStream → Res IStream (Unit {0}) → Type 0
Closed sub t (ok u x) =
    (x.callback ≡ t.callback)
    × (x.bytes_left ≡ t.bytes_left)
    × (length x.state ≡ length sub.state - sub.bytes_left)
Closed sub t (fail x) = ⊥
Closed sub t fault = ⊥

close-Closed : (sub t : IStream) → IsInBounds sub → Closed sub t (pb_close_string_substream sub t)
close-Closed sub t h = elim (dec_le 1 sub.bytes_left) [
  | yes pos ↦ rw (closes_left sub t h pos) (refl, refl, length-drop sub.bytes_left sub.state)
  | no empty ↦ rw (closes_empty sub t (omega arith)) (refl, refl, omega arith)
]

module _ (s sub t sub' : IStream) (frames : Frames s sub t) where
  Closed-Ends : (r : Res IStream (Unit {0})) → Follows sub sub' → Closed sub' t r → Ends s r
  Closed-Ends (ok u x) p (callback, left, state) =
      let place = frames.place in
      let both = frames.both in
      let fits = (Follows-IsInBounds frames.inner p).fits in
      let same_end = p.same_end in
      record {
        is_buffer = callback ∙ frames.outer.is_buffer;
        shrinks = omega arith;
        same_end = omega arith;
      }
  Closed-Ends (fail x) p c = absurd c
  Closed-Ends fault p c = absurd c

  -- The parent of a substream that was read, behind it.
  pub close-Ends : Follows sub sub' → Ends s (pb_close_string_substream sub' t)
  close-Ends p =
      Closed-Ends (pb_close_string_substream sub' t) p
        (close-Closed sub' t (Follows-IsInBounds frames.inner p))

  failed-Ends :
      (r : Res IStream (Unit {0})) → Within sub sub' → Closed sub' t r → Ends s (close_failed r)
  unfolding close_failed
  failed-Ends (ok u x) p (callback, left, state) =
      let place = frames.place in
      let both = frames.both in
      let fits = (Within-IsInBounds frames.inner p).fits in
      let room = p.room in
      record {
        is_buffer = callback ∙ frames.outer.is_buffer;
        shrinks = omega arith;
        room = omega arith;
      }
  failed-Ends (fail x) p c = absurd c
  failed-Ends fault p c = absurd c

  -- The same behind a call that failed.
  pub close_failed-Ends : Within sub sub' → Ends s (close_failed (pb_close_string_substream sub' t))
  close_failed-Ends p =
      failed-Ends (pb_close_string_substream sub' t) p
        (close-Closed sub' t (Within-IsInBounds frames.inner p))
