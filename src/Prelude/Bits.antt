-- ===== src/Prelude/Bits.antt =====
-- The native bit operations: one equation for the lowest digit, and from it the laws that the
-- masks, shifts and flags of the wire format need.
use Prim.Native.Nat.{ℕ, zero, suc, ◌+◌, ◌-◌, ◌*◌, ◌/◌, ◌%◌, ◌^◌, ◌≤◌, ◌<◌, max, min}
use Prim.Native.Nat.{bit_and, bit_or, bit_xor, digits, bitwise, differ}
use Prim.Native.Nat.{bit_and-bitwise, bit_or-bitwise, bit_xor-bitwise}
use mathlib.Core.Path.{◌≡◌, refl, ap}
use mathlib.Core.Bool.{Bool, true, ◌&&◌}
use pysubunit.Prelude.Tests.{◌==◌}
use native.Mathlib.Nat.{pow-suc, one-le-pow}
use native.Mathlib.Omega.{arith}

module _ (f : ℕ → ℕ → ℕ) (z : ℕ → ℕ) where
  -- Rounds beyond the number itself change nothing.
  spare_rounds : (r s a b : ℕ) → a ≤ r → a ≤ s → digits z f r a b ≡ digits z f s a b
  spare_rounds (suc r) (suc s) (suc a) b h k =
      ap (λ t. t * 2 + f (suc a % 2) (b % 2))
        (spare_rounds r s (suc a / 2) (b / 2) (omega arith) (omega arith))
  spare_rounds zero zero a b h k = refl
  spare_rounds zero (suc s) zero b h k = refl
  spare_rounds zero (suc s) (suc a) b h k = absurd (omega arith)
  spare_rounds (suc r) zero zero b h k = refl
  spare_rounds (suc r) zero (suc a) b h k = absurd (omega arith)
  spare_rounds (suc r) (suc s) zero b h k = refl

  lowest_digit :
      (a b : ℕ)
      → bitwise z f (suc a) b ≡ bitwise z f (suc a / 2) (b / 2) * 2 + f (suc a % 2) (b % 2)
  lowest_digit a b =
      ap (λ t. t * 2 + f (suc a % 2) (b % 2))
        (spare_rounds a (suc a / 2) (suc a / 2) (b / 2) (omega arith) (omega arith))

or_lowest : (a b : ℕ) → bit_or a b ≡ bit_or (a / 2) (b / 2) * 2 + max (a % 2) (b % 2)
or_lowest zero b = simp bit_or-bitwise (omega arith)
or_lowest (suc a) b = simp bit_or-bitwise (lowest_digit max (λ y. y) a b)

and_lowest : (a b : ℕ) → bit_and a b ≡ bit_and (a / 2) (b / 2) * 2 + min (a % 2) (b % 2)
and_lowest zero b = simp bit_and-bitwise (omega arith)
and_lowest (suc a) b = simp bit_and-bitwise (lowest_digit min (λ y. 0) a b)

xor_lowest : (a b : ℕ) → bit_xor a b ≡ bit_xor (a / 2) (b / 2) * 2 + differ (a % 2) (b % 2)
xor_lowest zero b = simp bit_xor-bitwise (omega arith)
xor_lowest (suc a) b = simp bit_xor-bitwise (lowest_digit differ (λ y. y) a b)

-- Fuel in place of strong induction: `n` bounds both numbers.
or_zero : (n a : ℕ) → a ≤ n → bit_or a 0 ≡ a
or_zero n zero h = simp bit_or-bitwise
or_zero zero (suc a) h = absurd (omega arith)
or_zero (suc n) (suc a) h = omega (arith, or_lowest (suc a) 0, or_zero n (suc a / 2) (omega arith))

and_zero : (n a : ℕ) → a ≤ n → bit_and a 0 ≡ 0
and_zero n zero h = simp bit_and-bitwise
and_zero zero (suc a) h = absurd (omega arith)
and_zero (suc n) (suc a) h =
    omega (arith, and_lowest (suc a) 0, and_zero n (suc a / 2) (omega arith))

double_field : (k c : ℕ) → c * 2 ^ suc k ≡ c * 2 ^ k * 2
double_field k c = omega (arith, ap (λ (t : ℕ). c * t) (pow-suc 2 k))

-- A field above bit `k` joined by `|` with one below it, on either side.
pub bit_or_high : (k c a : ℕ) → a < 2 ^ k → bit_or (c * 2 ^ k) a ≡ c * 2 ^ k + a
bit_or_high zero c a h = ground (arith, or_zero c c)
bit_or_high (suc k) c a h = ground (
  arith,
  double_field k c,
  pow-suc 2 k,
  or_lowest (c * 2 ^ suc k) a,
  bit_or_high k c (a / 2) (omega (arith, pow-suc 2 k)),
)

pub bit_or_low : (k c a : ℕ) → a < 2 ^ k → bit_or a (c * 2 ^ k) ≡ a + c * 2 ^ k
bit_or_low zero c zero h = simp bit_or-bitwise (omega arith)
bit_or_low zero c (suc a) h = absurd (omega arith)
bit_or_low (suc k) c a h = ground (
  arith,
  double_field k c,
  pow-suc 2 k,
  or_lowest a (c * 2 ^ suc k),
  bit_or_low k c (a / 2) (omega (arith, pow-suc 2 k)),
)

-- `&` with k ones is the remainder by 2 ^ k.
mask_field : (k c a : ℕ) → a < 2 ^ k → bit_and (c * 2 ^ k + a) (2 ^ k - 1) ≡ a
mask_field zero c a h = ground (arith, and_zero (c * 1 + a) (c * 1 + a))
mask_field (suc k) c a h = ground (
  arith,
  double_field k c,
  pow-suc 2 k,
  one-le-pow k 2,
  and_lowest (c * 2 ^ suc k + a) (2 ^ suc k - 1),
  mask_field k c (a / 2) (omega (arith, pow-suc 2 k)),
)

pub bit_and_mask : (k a : ℕ) → bit_and a (2 ^ k - 1) ≡ a % 2 ^ k
bit_and_mask k a = ground (arith, one-le-pow k 2, mask_field k (a / 2 ^ k) (a % 2 ^ k))

differ_twice : (x y : ℕ) → x < 2 → y < 2 → differ (differ x y) y ≡ x
differ_twice zero zero h k = refl
differ_twice zero (suc zero) h k = refl
differ_twice (suc zero) zero h k = refl
differ_twice (suc zero) (suc zero) h k = refl
differ_twice zero (suc (suc y)) h k = absurd (omega arith)
differ_twice (suc zero) (suc (suc y)) h k = absurd (omega arith)
differ_twice (suc (suc x)) y h k = absurd (omega arith)

differ_lt : (x y : ℕ) → x < 2 → y < 2 → differ x y < 2
differ_lt zero y h k = omega arith
differ_lt (suc zero) zero h k = omega arith
differ_lt (suc zero) (suc zero) h k = omega arith
differ_lt (suc zero) (suc (suc y)) h k = absurd (omega arith)
differ_lt (suc (suc x)) y h k = absurd (omega arith)

xor_twice_fuel : (n a b : ℕ) → a ≤ n → b ≤ n → bit_xor (bit_xor a b) b ≡ a
xor_twice_fuel zero zero zero h k = refl
xor_twice_fuel zero (suc a) b h k = absurd (omega arith)
xor_twice_fuel zero zero (suc b) h k = absurd (omega arith)
xor_twice_fuel (suc n) a b h k = ground (
  arith,
  xor_lowest a b,
  xor_lowest (bit_xor a b) b,
  differ_lt (a % 2) (b % 2),
  differ_twice (a % 2) (b % 2),
  halves,
  lows,
  xor_twice_fuel n (a / 2) (b / 2) (omega arith) (omega arith),
)
  where
    halves : bit_xor a b / 2 ≡ bit_xor (a / 2) (b / 2)
    halves = omega (arith, xor_lowest a b, differ_lt (a % 2) (b % 2) (omega arith) (omega arith))

    lows : bit_xor a b % 2 ≡ differ (a % 2) (b % 2)
    lows = omega (arith, xor_lowest a b, differ_lt (a % 2) (b % 2) (omega arith) (omega arith))

-- Exclusive or with the same number twice gives the first number back.
pub bit_xor_twice : (a b : ℕ) → bit_xor (bit_xor a b) b ≡ a
bit_xor_twice a b = xor_twice_fuel (a + b) a b (omega arith) (omega arith)

-- Over a small range, two functions agree if they do at every value.
module _ (f g : ℕ → ℕ) where
  agree : ℕ → Bool
  agree zero = true
  agree (suc n) = f n == g n && agree n

  agree_sound : (n : ℕ) → agree n ≡ true → (i : ℕ) → i < n → f i ≡ g i
  unfolding agree
  agree_sound zero e i h = absurd (omega arith)
  agree_sound (suc n) e i h = ground (arith, agree_sound n (ground arith) i)

-- The two top bits of a byte.
pub top_two_bits : (b : ℕ) → b < 256 → bit_and b 0xc0 ≡ b / 64 * 64
unfolding agree
top_two_bits = agree_sound (λ b. bit_and b 0xc0) (λ b. b / 64 * 64) 256 refl

-- A mask below 2 ^ k does not see what stands above.
pub bit_and_field : (k c a m : ℕ) → a < 2 ^ k → m < 2 ^ k → bit_and (c * 2 ^ k + a) m ≡ bit_and a m
bit_and_field zero c zero zero h j = ground (arith, and_zero (c * 1 + 0) (c * 1 + 0))
bit_and_field zero c (suc a) m h j = absurd (omega arith)
bit_and_field zero c zero (suc m) h j = absurd (omega arith)
bit_and_field (suc k) c a m h j = ground (
  arith,
  double_field k c,
  pow-suc 2 k,
  and_lowest (c * 2 ^ suc k + a) m,
  and_lowest a m,
  bit_and_field k c (a / 2) (m / 2) (omega (arith, pow-suc 2 k)) (omega (arith, pow-suc 2 k)),
)
