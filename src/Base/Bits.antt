-- ===== src/Base/Bits.antt =====
-- `bit_and` and `bit_or` in plain arithmetic: masks of ones and disjoint fields at every width, from
-- the digit recursion, and single bytes by a table.
use Prim.Native.Nat.{ℕ, zero, suc, ◌+◌, ◌-◌, ◌*◌, ◌/◌, ◌%◌, ◌^◌, ◌≤◌, ◌<◌, min, max}
use Prim.Native.Nat.{bit_and, bit_or, digits, bit_and-bitwise, bit_or-bitwise}
use mathlib.Core.Path.{◌≡◌, refl, ap}
use mathlib.Core.Bool.{Bool, true, ◌&&◌}
use native.Mathlib.Omega.{arith}
use native.Mathlib.Nat.{pow-suc, one-le-pow}
use qzt.Base.Tests.{◌==◌}

-- The digit recursion does not depend on the fuel, once that bounds the first number.
digits_fuel :
    (base : ℕ → ℕ) (op : ℕ → ℕ → ℕ) (n m a b : ℕ)
    → a ≤ n
    → a ≤ m
    → digits base op n a b ≡ digits base op m a b
digits_fuel base op zero zero a b p q = refl
digits_fuel base op zero (suc m) zero b p q = refl
digits_fuel base op zero (suc m) (suc a) b p q = absurd (omega arith)
digits_fuel base op (suc n) zero zero b p q = refl
digits_fuel base op (suc n) zero (suc a) b p q = absurd (omega arith)
digits_fuel base op (suc n) (suc m) zero b p q = refl
digits_fuel base op (suc n) (suc m) (suc a) b p q =
    omega (arith, digits_fuel base op n m (suc a / 2) (b / 2) (omega arith) (omega arith))

zero-bit_or : (b : ℕ) → bit_or 0 b ≡ b
zero-bit_or b = bit_or-bitwise 0 b

zero-bit_and : (b : ℕ) → bit_and 0 b ≡ 0
zero-bit_and b = bit_and-bitwise 0 b

or_step : (a b : ℕ) → bit_or a b ≡ bit_or (a / 2) (b / 2) * 2 + max (a % 2) (b % 2)
or_step zero b = omega (arith, zero-bit_or b, zero-bit_or (b / 2))
or_step (suc a) b = omega (
  arith,
  bit_or-bitwise (suc a) b,
  bit_or-bitwise (suc a / 2) (b / 2),
  digits_fuel (λ y. y) max a (suc a / 2) (suc a / 2) (b / 2) (omega arith) (omega arith),
)

and_step : (a b : ℕ) → bit_and a b ≡ bit_and (a / 2) (b / 2) * 2 + min (a % 2) (b % 2)
and_step zero b = omega (arith, zero-bit_and b, zero-bit_and (b / 2))
and_step (suc a) b = omega (
  arith,
  bit_and-bitwise (suc a) b,
  bit_and-bitwise (suc a / 2) (b / 2),
  digits_fuel (λ y. zero) min a (suc a / 2) (suc a / 2) (b / 2) (omega arith) (omega arith),
)

double_field : (b s : ℕ) → b * 2 ^ suc s ≡ 2 * (b * 2 ^ s)
double_field b s = omega (arith, ap (λ (t : ℕ). b * t) (pow-suc 2 s))

-- A field above the bits of `a` is added.
pub bit_or_field : (s a b : ℕ) → a < 2 ^ s → bit_or a (b * 2 ^ s) ≡ a + b * 2 ^ s
bit_or_field zero zero b h = omega (arith, zero-bit_or (b * 2 ^ 0))
bit_or_field zero (suc a) b h = absurd (omega arith)
bit_or_field (suc s) a b h =
    ground
      (arith, or_step a (b * 2 ^ suc s), double_field b s, bit_or_field s (a / 2) b, pow-suc 2 s)

bit_and-zero_fuel : (n a : ℕ) → a ≤ n → bit_and a 0 ≡ 0
bit_and-zero_fuel n zero h = zero-bit_and 0
bit_and-zero_fuel zero (suc a) h = absurd (omega arith)
bit_and-zero_fuel (suc n) (suc a) h =
    omega (arith, and_step (suc a) 0, bit_and-zero_fuel n (suc a / 2) (omega arith))

-- A mask of `k` ones keeps a number of `k` bits.
pub bit_and_mask : (k a : ℕ) → a < 2 ^ k → bit_and a (2 ^ k - 1) ≡ a
bit_and_mask zero zero h = zero-bit_and (2 ^ 0 - 1)
bit_and_mask zero (suc a) h = absurd (omega arith)
bit_and_mask (suc k) a h =
    ground (arith, and_step a (2 ^ suc k - 1), pow-suc 2 k, one-le-pow k 2, bit_and_mask k (a / 2))

-- The lowest bit, and the other bits of a 32-bit word.
pub bit_and-one : (a : ℕ) → bit_and a 1 ≡ a % 2
bit_and-one a = omega (arith, and_step a 1, bit_and-zero_fuel (a / 2) (a / 2) (omega arith))

pub bit_and_high : (a : ℕ) → a < 2 ^ 32 → bit_and a 0xffff_fffe ≡ a / 2 * 2
bit_and_high a h = omega (arith, and_step a 0xffff_fffe, bit_and_mask 31 (a / 2) (omega arith))

agree_below : (ℕ → ℕ) → (ℕ → ℕ) → ℕ → Bool
agree_below f g zero = true
agree_below f g (suc n) = f n == g n && agree_below f g n

agree_below→eq : (f g : ℕ → ℕ) (n : ℕ) → agree_below f g n ≡ true → (i : ℕ) → i < n → f i ≡ g i
unfolding agree_below
agree_below→eq f g zero e i h = absurd (omega arith)
agree_below→eq f g (suc n) e i h = ground (arith, agree_below→eq f g n (ground arith) i)

pub low_seven : (b : ℕ) → b < 256 → bit_and b 0x7f ≡ b % 128
unfolding agree_below
low_seven = agree_below→eq _ _ 256 refl

pub top_bit : (b : ℕ) → b < 256 → bit_and b 0x80 ≡ b / 128 * 128
unfolding agree_below
top_bit = agree_below→eq _ _ 256 refl

pub set_top_bit : (b : ℕ) → b < 128 → bit_or b 0x80 ≡ b + 128
unfolding agree_below
set_top_bit = agree_below→eq _ _ 128 refl

-- The top two bits, which tell a UTF-8 continuation byte.
pub top_two_bits : (b : ℕ) → b < 256 → bit_and b 0b1100_0000 ≡ b / 64 * 64
unfolding agree_below
top_two_bits = agree_below→eq _ _ 256 refl

-- The low five bits, and the top three joined with them again.
pub low_five : (b : ℕ) → b < 256 → bit_and b 0x1f ≡ b % 32
unfolding agree_below
low_five = agree_below→eq _ _ 256 refl

pub join_top_three : (b : ℕ) → b < 256 → bit_or (b / 32 * 2 ^ 5 % 256) (b % 32) ≡ b
unfolding agree_below
join_top_three = agree_below→eq _ _ 256 refl
