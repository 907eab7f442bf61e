-- ===== src/Base/Digits.antt =====
-- The binary digits of a number, of `|` and of masks.
use Prim.Native.Nat.{ℕ, zero, suc, ◌-◌, ◌/◌, ◌%◌, ◌^◌, ◌<◌, max, bit_or}
use mathlib.Core.Path.{◌≡◌, refl, ap, ◌∙◌}
use mathlib.Core.Logic.{◌≢◌}
use native.Mathlib.Nat.{pow-suc, one-le-pow}
use native.Mathlib.Omega.{arith}
use daily_diary.Base.Bits.{or_lowest}

-- The digit of a place.
abbrev pub digit_at : ℕ → ℕ → ℕ
digit_at zero w = w % 2
digit_at (suc k) w = digit_at k (w / 2)

or_half : (x y : ℕ) → bit_or x y / 2 ≡ bit_or (x / 2) (y / 2)
or_half x y = omega (arith, or_lowest x y)

pub digit_at-bit_or : (k x y : ℕ) → digit_at k (bit_or x y) ≡ max (digit_at k x) (digit_at k y)
digit_at-bit_or zero x y = omega (arith, or_lowest x y)
digit_at-bit_or (suc k) x y =
    ap (λ t. digit_at k t) (or_half x y) ∙ digit_at-bit_or k (x / 2) (y / 2)

digit_at-nothing : (k : ℕ) → digit_at k 0 ≡ 0
digit_at-nothing zero = refl
digit_at-nothing (suc k) = digit_at-nothing k

-- A power of two has no digit but one.
pub digit_at-power : (k j : ℕ) → k ≢ j → digit_at k (2 ^ j) ≡ 0
digit_at-power zero zero h = absurd (h refl)
digit_at-power zero (suc j) h = omega (arith, pow-suc 2 j)
digit_at-power (suc k) zero h = digit_at-nothing k
digit_at-power (suc k) (suc j) h =
    let half : 2 ^ suc j / 2 ≡ 2 ^ j = omega (arith, pow-suc 2 j) in
    ap (λ t. digit_at k t) half ∙ digit_at-power k j (λ e. h (ap suc e))

-- The first `n` digits of a mask are set.
pub digit_at-mask : (k n : ℕ) → k < n → digit_at k (2 ^ n - 1) ≡ 1
digit_at-mask k zero h = absurd (omega arith)
digit_at-mask zero (suc n) h = omega (arith, pow-suc 2 n, one-le-pow n 2 (omega arith))
digit_at-mask (suc k) (suc n) h =
    let half : (2 ^ suc n - 1) / 2 ≡ 2 ^ n - 1 =
      omega (arith, pow-suc 2 n, one-le-pow n 2 (omega arith)) in
    ap (λ t. digit_at k t) half ∙ digit_at-mask k n (omega arith)
