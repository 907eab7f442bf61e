-- ===== src/Pb/Decoder/Safe/Results.antt =====
-- Calls that store a value, on streams that stay inside of the array.
use daily_diary.Base.{Bool, true, false}
use daily_diary.Base.{if◌then◌else◌}
use daily_diary.Pb.{ok, fail, fault}
use daily_diary.Pb.IStream.{IStream}
use daily_diary.Pb.Decode.Bounds.{IsInBounds, Follows, Follows-IsInBounds, Follows-trans}
use daily_diary.Pb.Decoder.Safe.{Within-trans, Follows-Within}
use daily_diary.Pb.Scalar.{Memory}
use daily_diary.Pb.Decoder.{Result, and_with}
use daily_diary.Pb.Decoder.Safe.{Safe, Ends, Ends-trans}

-- A stored value has a property too.
abbrev pub SafeWith : {A : Type 0} → (A → Type 0) → IStream → Result A → Type 0
SafeWith P s (ok a t, mem) = Follows s t × P a
SafeWith P s (fail t, mem) = Ends {A = Unit {0}} s (fail t)
SafeWith P s (fault, mem) = ⊥

pub and_with-SafeWith :
    {A B : Type 0} (P : A → Type 0) (s : IStream) (r : Result A)
    (k : A → Memory → IStream → Result B)
    → IsInBounds s
    → SafeWith P s r
    → ((a : A) (mem : Memory) (t : IStream) → IsInBounds t → P a → Safe t (k a mem t))
    → Safe s (and_with r k)
unfolding and_with
and_with-SafeWith P s (ok a t, mem) k h (p, q) each =
    Ends-trans s t (k a mem t).0 p (each a mem t (Follows-IsInBounds h p) q)
and_with-SafeWith P s (fail t, mem) k h p each = p
and_with-SafeWith P s (fault, mem) k h p each = p

pub SafeWith-trans :
    {A : Type 0} (P : A → Type 0) (s t : IStream) (r : Result A)
    → Follows s t
    → SafeWith P t r
    → SafeWith P s r
SafeWith-trans P s t (ok a u, mem) p (q, x) = (Follows-trans p q, x)
SafeWith-trans P s t (fail u, mem) p q = Within-trans (Follows-Within p) q
SafeWith-trans P s t (fault, mem) p q = q

pub and_with-SafeBoth :
    {A B : Type 0} (P : A → Type 0) (Q : B → Type 0) (s : IStream) (r : Result A)
    (k : A → Memory → IStream → Result B)
    → IsInBounds s
    → SafeWith P s r
    → ((a : A) (mem : Memory) (t : IStream) → IsInBounds t → P a → SafeWith Q t (k a mem t))
    → SafeWith Q s (and_with r k)
unfolding and_with
and_with-SafeBoth P Q s (ok a t, mem) k h (p, q) each =
    SafeWith-trans Q s t (k a mem t) p (each a mem t (Follows-IsInBounds h p) q)
and_with-SafeBoth P Q s (fail t, mem) k h p each = p
and_with-SafeBoth P Q s (fault, mem) k h p each = p

pub if-SafeWith :
    {A : Type 0} (P : A → Type 0) (c : Bool) (s : IStream) (x y : Result A)
    → SafeWith P s x
    → SafeWith P s y
    → SafeWith P s (if c then x else y)
if-SafeWith P true s x y p q = p
if-SafeWith P false s x y p q = q
