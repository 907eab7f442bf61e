-- ===== src/Pb/Message/Describes.antt =====
-- When bytes describe an encoder, and how descriptions are put together.
use daily_diary.Base.{ℕ, ◌^◌, ◌<◌, ◌≡◌, refl, sym, arith, List, [], ◌++◌, length}
use daily_diary.Base.{length-append, Bool, true, false, if◌then◌else◌, none, some}
use daily_diary.Pb.{◌>>◌, ok}
use daily_diary.Pb.OStream.Emits.{Emits, >>-Emits, ok-Emits}
use daily_diary.Pb.Message.{Action}
use daily_diary.Pb.Message.Format.{Bytes, ◌+++◌}

-- `e` emits the bytes, where there are any and less than 2^63.
abbrev pub Describes : Bytes → Action → Type 0
Describes x e = (bs : List ℕ) → x ≡ some bs → length bs < 2 ^ 63 → Emits e bs

pub none-Describes : {e : Action} → Describes none e
none-Describes bs h short = absurd (ground arith)

pub some-Describes :
    {e : Action} (xs : List ℕ) → (length xs < 2 ^ 63 → Emits e xs) → Describes (some xs) e
some-Describes xs emits bs h short =
    let same : bs ≡ xs = ground arith in
    let short_xs : length xs < 2 ^ 63 = rw (sym same) short in rw same (emits short_xs)

pub ok-Describes : Describes (some []) (ok tt)
ok-Describes = some-Describes [] (λ short. ok-Emits)

pub >>-Describes :
    (x y : Bytes) {f g : Action} → Describes x f → Describes y g → Describes (x +++ y) (f >> g)
>>-Describes none y df dg = none-Describes
>>-Describes (some xs) none df dg = none-Describes
>>-Describes (some xs) (some ys) df dg = some-Describes (xs ++ ys) (λ short.
    >>-Emits (df xs refl (omega (arith, length-append xs ys)))
      (dg ys refl (omega (arith, length-append xs ys))) short)

pub if-Describes :
    (c : Bool) {x y : Bytes} {f g : Action}
    → (c ≡ true → Describes x f)
    → (c ≡ false → Describes y g)
    → Describes (if c then x else y) (if c then f else g)
if-Describes true df dg = df refl
if-Describes false df dg = dg refl

-- The same with the test in the function.
pub if_in-Describes :
    (c : Bool) {x y : Bytes} {f g : Action}
    → (c ≡ true → Describes x f)
    → (c ≡ false → Describes y g)
    → Describes (if c then x else y) (λ s. if c then f s else g s)
if_in-Describes true df dg = df refl
if_in-Describes false df dg = dg refl

pub guard-Describes :
    (c : Bool) {x : Bytes} {f : Action}
    → (c ≡ true → Describes x f)
    → Describes (if c then x else none) f
guard-Describes true df = df refl
guard-Describes false df = none-Describes
