-- ===== src/Pb/Decoder/Safe.antt =====
-- Calls that return, and move the stream on inside of its array.
pub mod Scalars
pub mod Blobs
pub mod Substreams
pub mod Static
pub mod Callbacks
pub mod Pointers
pub mod Results
pub mod Fields
pub mod Tags
pub mod Rounds
pub mod Depth
pub mod Returns
pub mod Decoders
pub mod Messages
use daily_diary.Base.{
  ℕ, ◌<◌, ◌≡◌, refl, ◌∙◌, arith, Bool, true, false, if◌then◌else◌, Option, none, some,
}
use daily_diary.Pb.{Res, ok, fail, fault}
use daily_diary.Base.{◌+◌, ◌≤◌, length}
use daily_diary.Pb.IStream.{IStream, buf_read}
use daily_diary.Pb.Decode.Bounds.{IsInBounds, Follows, Follows-IsInBounds, Follows-trans}
use daily_diary.Pb.Decode.Bounds.{Follows-error, Stays}
use daily_diary.Pb.{ErrMsg}
use daily_diary.Pb.Scalar.{Memory, with_value}
use daily_diary.Pb.Blobs.{Outcome, and_then}
use daily_diary.Pb.Static.{after_change}
use daily_diary.Pb.Decoder.{Result, and_with}

-- `t` may be read up to the end of `s` in the array, or less far.
pub record Within (s t : IStream) : Type 0 where
  pub is_buffer : t.callback ≡ buf_read
  pub shrinks : t.bytes_left ≤ s.bytes_left
  pub room : length s.state + t.bytes_left ≤ length t.state + s.bytes_left

pub Follows-Within : {s t : IStream} → Follows s t → Within s t
Follows-Within p = record { is_buffer = p.is_buffer; shrinks = p.shrinks; room = omega arith }

pub Within-trans : {s t u : IStream} → Within s t → Within t u → Within s u
Within-trans p q = record { is_buffer = q.is_buffer; shrinks = omega arith; room = omega arith }

pub Within-IsInBounds : {s t : IStream} → IsInBounds s → Within s t → IsInBounds t
Within-IsInBounds h p = record { is_buffer = p.is_buffer; fits = omega arith }

-- A call on `s` that returned true, with the stream moved on inside of the array, or false, with a
-- stream that ends no later.
abbrev pub Ends : {A : Type 0} → IStream → Res IStream A → Type 0
Ends s (ok a t) = Follows s t
Ends s (fail t) = Within s t
Ends s fault = ⊥

abbrev pub Safe : {A : Type 0} → IStream → Result A → Type 0
Safe s r = Ends s r.0

pub Stays-Ends : {A : Type 0} (s : IStream) (r : Res IStream A) → Stays s r → Ends s r
Stays-Ends s (ok a t) p = p
Stays-Ends s (fail t) p = Follows-Within p
Stays-Ends s fault p = p

pub Ends-trans :
    {A : Type 0} (s t : IStream) (r : Res IStream A) → Follows s t → Ends t r → Ends s r
Ends-trans s t (ok a u) p q = Follows-trans p q
Ends-trans s t (fail u) p q = Within-trans (Follows-Within p) q
Ends-trans s t fault p q = q

pub Ends-error :
    (s : IStream) (e : Option ErrMsg) → IsInBounds s → Within s (record s { errmsg = e })
Ends-error s e h = Follows-Within (Follows-error s e h)

-- A call that read a byte, if it returned true.
abbrev pub Fewer : {A : Type 0} → IStream → Res IStream A → Type 0
Fewer s (ok a t) = t.bytes_left < s.bytes_left
Fewer s (fail t) = Unit {0}
Fewer s fault = Unit {0}

abbrev pub Returns : Option Memory → Type 0
Returns none = ⊥
Returns (some mem) = Unit {0}

-- On a stream with a byte less.
pub Ends-Fewer :
    {A : Type 0} (s t : IStream) (r : Res IStream A)
    → t.bytes_left < s.bytes_left
    → Ends t r
    → Fewer s r
Ends-Fewer s t (ok a u) less p = let shrinks = p.shrinks in omega arith
Ends-Fewer s t (fail u) less p = tt
Ends-Fewer s t fault less p = tt

pub and_with-Safe :
    {A B : Type 0} (s : IStream) (r : Result A) (k : A → Memory → IStream → Result B)
    → IsInBounds s
    → Safe s r
    → ((a : A) (mem : Memory) (t : IStream) → IsInBounds t → Follows s t → Safe t (k a mem t))
    → Safe s (and_with r k)
unfolding and_with
and_with-Safe s (ok a t, mem) k h p each =
    Ends-trans s t (k a mem t).0 p (each a mem t (Follows-IsInBounds h p) p)
and_with-Safe s (fail t, mem) k h p each = p
and_with-Safe s (fault, mem) k h p each = p

pub and_then-Safe :
    (s : IStream) (r : Outcome) (k : Memory → IStream → Outcome)
    → IsInBounds s
    → Safe s r
    → ((mem : Memory) (t : IStream) → IsInBounds t → Safe t (k mem t))
    → Safe s (and_then r k)
unfolding and_then
and_then-Safe s (ok a t, mem) k h p each =
    Ends-trans s t (k mem t).0 p (each mem t (Follows-IsInBounds h p))
and_then-Safe s (fail t, mem) k h p each = p
and_then-Safe s (fault, mem) k h p each = p

pub with_value-Safe :
    (s : IStream) (r : Res IStream ℕ) (mem : Memory) (k : ℕ → IStream → Outcome)
    → IsInBounds s
    → Stays s r
    → ((value : ℕ) (t : IStream) → IsInBounds t → Safe t (k value t))
    → Safe s (with_value r mem k)
unfolding with_value
with_value-Safe s (ok value t) mem k h p each =
    Ends-trans s t (k value t).0 p (each value t (Follows-IsInBounds h p))
with_value-Safe s (fail t) mem k h p each = Follows-Within p
with_value-Safe s fault mem k h p each = p

pub with_value-Fewer :
    (s : IStream) (r : Res IStream ℕ) (mem : Memory) (k : ℕ → IStream → Outcome)
    → IsInBounds s
    → Stays s r
    → Fewer s r
    → ((value : ℕ) (t : IStream) → IsInBounds t → Safe t (k value t))
    → Fewer s (with_value r mem k).0
unfolding with_value
with_value-Fewer s (ok value t) mem k h p less each =
    Ends-Fewer s t (k value t).0 less (each value t (Follows-IsInBounds h p))
with_value-Fewer s (fail t) mem k h p less each = tt
with_value-Fewer s fault mem k h p less each = tt

pub after_change-Safe :
    (s : IStream) (r : Option Memory) (mem : Memory) (k : Memory → Outcome)
    → Returns r
    → ((mem' : Memory) → Safe s (k mem'))
    → Safe s (after_change r mem k)
unfolding after_change
after_change-Safe s none mem k h each = absurd h
after_change-Safe s (some mem') mem k h each = each mem'

-- Either way on.
pub if-Safe :
    {A : Type 0} (c : Bool) (s : IStream) (x y : Result A)
    → (c ≡ true → Safe s x)
    → (c ≡ false → Safe s y)
    → Safe s (if c then x else y)
if-Safe true s x y p q = p refl
if-Safe false s x y p q = q refl

-- A call that reads a byte at least, before what follows.
pub and_then-Eats :
    (s : IStream) (r : Outcome) (k : Memory → IStream → Outcome)
    → IsInBounds s
    → Safe s r
    → Fewer s r.0
    → ((mem : Memory) (t : IStream) → IsInBounds t → t.bytes_left < s.bytes_left → Safe t (k mem t))
    → Safe s (and_then r k)
unfolding and_then
and_then-Eats s (ok a t, mem) k h p less each =
    Ends-trans s t (k mem t).0 p (each mem t (Follows-IsInBounds h p) less)
and_then-Eats s (fail t, mem) k h p less each = p
and_then-Eats s (fault, mem) k h p less each = p

pub and_with-Eats :
    {A B : Type 0} (s : IStream) (r : Result A) (k : A → Memory → IStream → Result B)
    → IsInBounds s
    → Safe s r
    → Fewer s r.0
    → ((a : A) (mem : Memory) (t : IStream)
        → IsInBounds t
        → t.bytes_left < s.bytes_left
        → Safe t (k a mem t))
    → Safe s (and_with r k)
unfolding and_with
and_with-Eats s (ok a t, mem) k h p less each =
    Ends-trans s t (k a mem t).0 p (each a mem t (Follows-IsInBounds h p) less)
and_with-Eats s (fail t, mem) k h p less each = p
and_with-Eats s (fault, mem) k h p less each = p

pub after_change-Fewer :
    (s : IStream) (r : Option Memory) (mem : Memory) (k : Memory → Outcome)
    → ((mem' : Memory) → Fewer s (k mem').0)
    → Fewer s (after_change r mem k).0
unfolding after_change
after_change-Fewer s none mem k each = tt
after_change-Fewer s (some mem') mem k each = each mem'

-- The decoder of a field's type, on the addresses it is given.
abbrev pub IsSafeItem : (ℕ → Memory → IStream → Outcome) → Type 0
IsSafeItem item = (a : ℕ) (mem : Memory) (s : IStream) → IsInBounds s → Safe s (item a mem s)

abbrev pub IsEating : (ℕ → Memory → IStream → Outcome) → Type 0
IsEating item = (a : ℕ) (mem : Memory) (s : IStream) → IsInBounds s → Fewer s (item a mem s).0
