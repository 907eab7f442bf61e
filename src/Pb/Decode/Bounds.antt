-- ===== src/Pb/Decode/Bounds.antt =====
-- Memory safety of the reading functions: over a memory buffer no call reads outside of it, none
-- runs for ever, and a failed call leaves a stream that is as good.
use native.Mathlib.Decide.{dec_le}
use daily_diary.Base.{ℕ, ◌+◌, ◌-◌, ◌≤◌, ◌<◌, ◌≡◌, refl, ap, arith}
use daily_diary.Base.{List, [], ◌∷◌, length, take, drop, length-drop}
use daily_diary.Base.{Option}
use daily_diary.Pb.{ErrMsg, end_of_stream, first_error, Res, ok, fail, fault}
use daily_diary.Pb.IStream.{IStream, buf_read, pb_read, pb_readbyte}

-- The bytes that may still be read lie in the array.
pub record IsInBounds (s : IStream) : Type 0 where
  pub is_buffer : s.callback ≡ buf_read
  pub fits : s.bytes_left ≤ length s.state

-- `t` is `s` moved on: what may be read ends at the same place in the array.
pub record Follows (s t : IStream) : Type 0 where
  pub is_buffer : t.callback ≡ buf_read
  pub shrinks : t.bytes_left ≤ s.bytes_left
  pub same_end : length t.state + s.bytes_left ≡ length s.state + t.bytes_left

-- A call on `s` that returned true or false, with the stream moved on inside the array.
abbrev pub Stays : {A : Type 0} → IStream → Res IStream A → Type 0
Stays s (ok a t) = Follows s t
Stays s (fail t) = Follows s t
Stays s fault = ⊥

pub Follows-refl : (s : IStream) → IsInBounds s → Follows s s
Follows-refl s h = record { is_buffer = h.is_buffer; shrinks = omega arith; same_end = refl }

-- Setting a message moves nothing.
pub Follows-error :
    (s : IStream) (e : Option ErrMsg) → IsInBounds s → Follows s (record s { errmsg = e })
Follows-error s e h = record { is_buffer = h.is_buffer; shrinks = omega arith; same_end = refl }

pub Follows-trans : {s t u : IStream} → Follows s t → Follows t u → Follows s u
Follows-trans p q = record {
  is_buffer = q.is_buffer;
  shrinks = omega arith;
  same_end = omega arith;
}

pub Follows-IsInBounds : {s t : IStream} → IsInBounds s → Follows s t → IsInBounds t
Follows-IsInBounds h p = record { is_buffer = p.is_buffer; fits = omega arith }

pub Stays-trans :
    {A : Type 0} {s t : IStream} (r : Res IStream A) → Follows s t → Stays t r → Stays s r
Stays-trans (ok a u) p q = Follows-trans p q
Stays-trans (fail u) p q = Follows-trans p q
Stays-trans fault p q = q

-- Steps in a row.
pub Stays-bind :
    {A B : Type 0} (s : IStream) (r : Res IStream A) (f : A → IStream → Res IStream B)
    → IsInBounds s
    → Stays s r
    → ((a : A) (t : IStream) → IsInBounds t → Stays t (f a t))
    → Stays s (elim r [ ok a t ↦ f a t | fail t ↦ fail t | fault ↦ fault ])
Stays-bind s (ok a t) f h p next = Stays-trans (f a t) p (next a t (Follows-IsInBounds h p))
Stays-bind s (fail t) f h p next = p
Stays-bind s fault f h p next = p

pub read_some :
    (count : ℕ) (s : IStream)
    → IsInBounds s
    → count ≤ s.bytes_left
    → pb_read count s
      ≡ ok
          (take count s.state)
          (record s { state = drop count s.state; bytes_left = s.bytes_left - count })
unfolding pb_read
read_some count s h enough = ground arith

pub read_none :
    (count : ℕ) (s : IStream)
    → s.bytes_left < count
    → pb_read count s ≡ fail (record s { errmsg = first_error s.errmsg end_of_stream })
unfolding pb_read
read_none count s short = ground arith

pub moved :
    (count : ℕ) (s : IStream)
    → IsInBounds s
    → count ≤ s.bytes_left
    → Follows s (record s { state = drop count s.state; bytes_left = s.bytes_left - count })
moved count s h enough = record {
  is_buffer = h.is_buffer;
  shrinks = omega arith;
  same_end = omega (arith, length-drop count s.state);
}

pub pb_read-Stays : (count : ℕ) (s : IStream) → IsInBounds s → Stays s (pb_read count s)
pb_read-Stays count s h = elim (dec_le count s.bytes_left) [
  | yes enough ↦ rw (read_some count s h enough) (moved count s h enough)
  | no short ↦ rw (read_none count s (omega arith)) (Follows-error s _ h)
]

-- A byte is read, by `pb_readbyte` and by `pb_read` alike, or the stream is at its end.
pub data ReadByte (s : IStream) : Type 0 where
  one :
      (b : ℕ) (t : IStream)
      → pb_readbyte s ≡ ok b t
      → pb_read 1 s ≡ ok (b ∷ []) t
      → Follows s t
      → t.bytes_left < s.bytes_left
      → ReadByte s
  at_end : (t : IStream) → pb_readbyte s ≡ fail t → pb_read 1 s ≡ fail t → Follows s t → ReadByte s

byte_read :
    (s : IStream) (b : ℕ) (bs : List ℕ)
    → IsInBounds s
    → s.state ≡ b ∷ bs
    → 0 < s.bytes_left
    → pb_readbyte s ≡ ok b (record s { state = bs; bytes_left = s.bytes_left - 1 })
unfolding pb_readbyte
byte_read s b bs h e pos = ground arith

one_read :
    (s : IStream) (b : ℕ) (bs : List ℕ)
    → IsInBounds s
    → s.state ≡ b ∷ bs
    → 0 < s.bytes_left
    → pb_read 1 s ≡ ok (b ∷ []) (record s { state = bs; bytes_left = s.bytes_left - 1 })
unfolding pb_read
one_read s b bs h e pos = ground arith

byte_missing :
    (s : IStream)
    → s.bytes_left ≡ 0
    → pb_readbyte s ≡ fail (record s { errmsg = first_error s.errmsg end_of_stream })
unfolding pb_readbyte
byte_missing s h = ground arith

pub readbyte_cases : (s : IStream) → IsInBounds s → ReadByte s
readbyte_cases s h = split s.state refl
  where
    nothing : s.bytes_left ≡ 0 → ReadByte s
    nothing z = at_end _ (byte_missing s z) (read_none 1 s (omega arith)) (Follows-error s _ h)

    split : (xs : List ℕ) → s.state ≡ xs → ReadByte s
    split [] e = nothing (omega (arith, ap (λ xs. length xs) e))
    split (b ∷ bs) e = elim (dec_le 1 s.bytes_left) [
      | yes more ↦
          one b _ (byte_read s b bs h e more) (one_read s b bs h e more)
            (record {
              is_buffer = h.is_buffer;
              shrinks = omega arith;
              same_end = omega (arith, ap (λ xs. length xs) e);
            })
            (omega arith)
      | no none_left ↦ nothing (omega arith)
    ]

pub pb_readbyte-Stays : (s : IStream) → IsInBounds s → Stays s (pb_readbyte s)
pb_readbyte-Stays s h = elim (readbyte_cases s h) [
  | one b t e _ p less ↦ rw e p
  | at_end t e _ p ↦ rw e p
]
