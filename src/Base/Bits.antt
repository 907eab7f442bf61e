-- ===== src/Base/Bits.antt =====
-- Masks, `|` of disjoint fields and casts to the fixed widths, as arithmetic.
use Prim.Native.Nat.{ℕ, zero, suc, ◌+◌, ◌-◌, ◌*◌, ◌/◌, ◌%◌, ◌^◌, ◌≤◌, ◌<◌, min, max}
use Prim.Native.Nat.{bit_and, bit_or, bitwise, digits, bit_and-bitwise, bit_or-bitwise}
use mathlib.Core.Path.{◌≡◌, refl, sym, ap, ◌∙◌}
use mathlib.Core.Bool.{Bool, true, ◌&&◌}
use native.Mathlib.Nat.{pow-suc, one-le-pow, le_refl, mod-lt, mod-eq_of_lt, div-add-mod}
use native.Mathlib.Nat.{mul-add-mod_self_left, add-zero, add-suc, zero-add}
use native.Mathlib.Omega.{arith}
use daily_diary.Base.Tests.{◌==◌}

abbrev pub u8 : ℕ → ℕ
u8 n = n % 2 ^ 8

abbrev pub u32 : ℕ → ℕ
u32 n = n % 2 ^ 32

abbrev pub u64 : ℕ → ℕ
u64 n = n % 2 ^ 64

abbrev pub IsByte : ℕ → Type 0
IsByte b = b < 256

abbrev pub IsU32 : ℕ → Type 0
IsU32 v = v < 2 ^ 32

abbrev pub IsU64 : ℕ → Type 0
IsU64 v = v < 2 ^ 64

-- A claim about every value below a bound, by evaluation.
unfoldable pub check_below : ℕ → (ℕ → Bool) → Bool
check_below zero p = true
check_below (suc n) p = p n && check_below n p

pub check_below_sound :
    (n : ℕ) (p : ℕ → Bool) → check_below n p ≡ true → (x : ℕ) → x < n → p x ≡ true
unfolding check_below
check_below_sound zero p h x lt = absurd (omega arith)
check_below_sound (suc n) p h x lt = ground (arith, check_below_sound n p (ground arith) x)

pub agree_below :
    (n : ℕ) (f g : ℕ → ℕ) → check_below n (λ x. f x == g x) ≡ true → (x : ℕ) → x < n → f x ≡ g x
agree_below n f g h x lt = ground (arith, check_below_sound n (λ y. f y == g y) h x lt)

pub and_7f : (b : ℕ) → b < 256 → bit_and b 0x7f ≡ b % 128
unfolding check_below
and_7f = agree_below 256 _ _ refl

pub and_80 : (b : ℕ) → b < 256 → bit_and b 0x80 ≡ b / 128 * 128
unfolding check_below
and_80 = agree_below 256 _ _ refl

pub and_70 : (b : ℕ) → b < 256 → bit_and b 0x70 ≡ b / 16 % 8 * 16
unfolding check_below
and_70 = agree_below 256 _ _ refl

pub or_80 : (b : ℕ) → b < 128 → bit_or b 0x80 ≡ b + 128
unfolding check_below
or_80 = agree_below 128 _ _ refl

-- The native operations go through the binary digits on fuel; any fuel from the first number on
-- will do.
module _ (base : ℕ → ℕ) (op : ℕ → ℕ → ℕ) where
  digits-enough : (x y j k : ℕ) → x ≤ j → x ≤ k → digits base op j x y ≡ digits base op k x y
  digits-enough zero y zero zero hj hk = refl
  digits-enough zero y zero (suc k) hj hk = refl
  digits-enough zero y (suc j) zero hj hk = refl
  digits-enough zero y (suc j) (suc k) hj hk = refl
  digits-enough (suc x) y zero k hj hk = absurd (omega arith)
  digits-enough (suc x) y (suc j) zero hj hk = absurd (omega arith)
  digits-enough (suc x) y (suc j) (suc k) hj hk =
      omega (arith, digits-enough (suc x / 2) (y / 2) j k (omega arith) (omega arith))

  lowest_digit :
      (x y : ℕ)
      → bitwise base op (suc x) y ≡ bitwise base op (suc x / 2) (y / 2) * 2 + op (suc x % 2) (y % 2)
  lowest_digit x y =
      omega (arith, digits-enough (suc x / 2) (y / 2) x (suc x / 2) (omega arith) (le_refl _))

and_lowest : (x y : ℕ) → bit_and x y ≡ bit_and (x / 2) (y / 2) * 2 + min (x % 2) (y % 2)
and_lowest zero y = simp bit_and-bitwise (omega arith)
and_lowest (suc x) y = simp bit_and-bitwise (lowest_digit (λ n. 0) min x y)

pub or_lowest : (x y : ℕ) → bit_or x y ≡ bit_or (x / 2) (y / 2) * 2 + max (x % 2) (y % 2)
or_lowest zero y = simp bit_or-bitwise (omega arith)
or_lowest (suc x) y = simp bit_or-bitwise (lowest_digit (λ n. n) max x y)

zero-bit_or : (b : ℕ) → bit_or 0 b ≡ b
zero-bit_or b = simp bit_or-bitwise refl

and_nothing : (bound x : ℕ) → x ≤ bound → bit_and x 0 ≡ 0
and_nothing bound zero h = refl
and_nothing zero (suc x) h = absurd (omega arith)
and_nothing (suc bound) (suc x) h =
    omega (arith, and_nothing bound (suc x / 2) (omega arith), and_lowest (suc x) 0)

half_mod : (p a : ℕ) → 0 < p → a / 2 % p * 2 + a % 2 ≡ a % (p * 2)
half_mod p a h =
    let r = a / 2 % p * 2 + a % 2 in
    let small : r < p * 2 = omega (arith, mod-lt (a / 2) h) in
    let split : a ≡ p * 2 * (a / 2 / p) + r = omega (arith, div-add-mod (a / 2) p) in
    sym (
      ap (λ t. t % (p * 2)) split
      ∙ mul-add-mod_self_left (p * 2) (a / 2 / p) r
      ∙ mod-eq_of_lt small)

-- A mask of `k` ones keeps the remainder by `2 ^ k`.
pub bit_and_mask : (k a : ℕ) → bit_and a (2 ^ k - 1) ≡ a % 2 ^ k
bit_and_mask zero a = omega (arith, and_nothing a a (le_refl a))
bit_and_mask (suc k) a = ground (
  arith,
  and_lowest a (2 ^ suc k - 1),
  pow-suc 2 k,
  one-le-pow k 2,
  bit_and_mask k (a / 2),
  half_mod (2 ^ k) a,
)

-- `r | (q << k)` is a sum where `r` is below `2 ^ k`.
pub bit_or_fields : (k r q : ℕ) → r < 2 ^ k → bit_or r (q * 2 ^ k) ≡ r + q * 2 ^ k
bit_or_fields zero r q h = ground (arith, zero-bit_or (q * 1))
bit_or_fields (suc k) r q h = ground (
  arith,
  or_lowest r (q * 2 ^ suc k),
  doubled,
  bit_or_fields k (r / 2) q (omega (arith, pow-suc 2 k)),
)
  where
    doubled : q * 2 ^ suc k ≡ 2 * (q * 2 ^ k)
    doubled = omega (arith, ap (λ (t : ℕ). q * t) (pow-suc 2 k))

pub pow-add : (a b : ℕ) → 2 ^ (a + b) ≡ 2 ^ a * 2 ^ b
pow-add a zero = rw add-zero (omega arith)
pow-add a (suc b) =
    rw add-suc
      (omega (arith, pow-suc 2 (a + b), pow-add a b, ap (λ (t : ℕ). 2 ^ a * t) (pow-suc 2 b)))

-- A number of two digits, the upper one to the base `c`.
mod_scaled : (r g p c : ℕ) → r < p → 0 < c → (r + g * p) % (c * p) ≡ r + g % c * p
mod_scaled r g p c hr hc =
    ap (λ t. t % (c * p)) split
    ∙ mul-add-mod_self_left (c * p) (g / c) (r + g % c * p)
    ∙ mod-eq_of_lt small
  where
    split : r + g * p ≡ c * p * (g / c) + (r + g % c * p)
    split = omega (arith, ap (λ (t : ℕ). t * p) (div-add-mod g c))

    below : g % c < c → g % c * p + p ≤ c * p
    below h = grind arith

    small : r + g % c * p < c * p
    small = omega (arith, below (mod-lt g hc))

-- `r | (g << b)` in a word of `w` bits, where `r` fills `b` bits at most.
pub bit_or_shifted :
    (w b r g : ℕ) → b ≤ w → r < 2 ^ b → bit_or r (g * 2 ^ b % 2 ^ w) ≡ (r + g * 2 ^ b) % 2 ^ w
bit_or_shifted w b r g hb hr =
    ap (λ t. bit_or r t) high ∙ bit_or_fields b r (g % c) hr ∙ sym (reduced r hr)
  where
    c : ℕ
    c = 2 ^ (w - b)

    word : 2 ^ w ≡ c * 2 ^ b
    word = let e : w ≡ w - b + b = omega arith in ap (λ (t : ℕ). 2 ^ t) e ∙ pow-add (w - b) b

    reduced : (x : ℕ) → x < 2 ^ b → (x + g * 2 ^ b) % 2 ^ w ≡ x + g % c * 2 ^ b
    reduced x h = rw word (mod_scaled x g (2 ^ b) c h (one-le-pow (w - b) 2 (omega arith)))

    high : g * 2 ^ b % 2 ^ w ≡ g % c * 2 ^ b
    high = simp zero-add at (reduced 0 (one-le-pow b 2 (omega arith)))

bit_or_comm_below : (n a b : ℕ) → a ≤ n → b ≤ n → bit_or a b ≡ bit_or b a
bit_or_comm_below zero zero zero p q = refl
bit_or_comm_below zero zero (suc b) p q = absurd (omega arith)
bit_or_comm_below zero (suc a) b p q = absurd (omega arith)
bit_or_comm_below (suc n) a b p q = omega (
  arith,
  or_lowest a b,
  or_lowest b a,
  bit_or_comm_below n (a / 2) (b / 2) (omega arith) (omega arith),
)

pub bit_or_comm : (a b : ℕ) → bit_or a b ≡ bit_or b a
bit_or_comm a b = bit_or_comm_below (a + b) a b (omega arith) (omega arith)
