-- ===== src/Prelude/Bits.antt =====
-- `|` of a multiple of a power of two and a number below that power is their sum.
use Prim.Native.Nat.{
  ℕ, zero, suc, ◌+◌, ◌*◌, ◌/◌, ◌%◌, ◌≤◌, ◌<◌, max, bit_or, digits, bit_or-bitwise,
}
use mathlib.Core.Path.{◌≡◌, refl}
use native.Mathlib.Omega.{arith}

abbrev or_digits : ℕ → ℕ → ℕ → ℕ
or_digits n a b = digits (λ b. b) max n a b

-- More rounds than the first number has digits make no difference.
or_digits_enough : (n m a b : ℕ) → a ≤ n → a ≤ m → or_digits n a b ≡ or_digits m a b
or_digits_enough zero zero a b p q = refl
or_digits_enough zero (suc m) zero b p q = refl
or_digits_enough zero (suc m) (suc a) b p q = absurd (omega arith)
or_digits_enough (suc n) zero zero b p q = refl
or_digits_enough (suc n) zero (suc a) b p q = absurd (omega arith)
or_digits_enough (suc n) (suc m) zero b p q = refl
or_digits_enough (suc n) (suc m) (suc a) b p q =
    omega (arith, or_digits_enough n m (suc a / 2) (b / 2) (omega arith) (omega arith))

zero-bit_or : (b : ℕ) → bit_or 0 b ≡ b
zero-bit_or b = bit_or-bitwise 0 b

bit_or_step : (a b : ℕ) → bit_or a b ≡ bit_or (a / 2) (b / 2) * 2 + max (a % 2) (b % 2)
bit_or_step zero b = omega (arith, zero-bit_or b, zero-bit_or (b / 2))
bit_or_step (suc a) b = omega (
  arith,
  bit_or-bitwise (suc a) b,
  bit_or-bitwise (suc a / 2) (b / 2),
  or_digits_enough a (suc a / 2) (suc a / 2) (b / 2) (omega arith) (omega arith),
)

bit_or-zero : (n a : ℕ) → a ≤ n → bit_or a 0 ≡ a
bit_or-zero n zero h = refl
bit_or-zero zero (suc a) h = absurd (omega arith)
bit_or-zero (suc n) (suc a) h =
    omega (arith, bit_or_step (suc a) 0, bit_or-zero n (suc a / 2) (omega arith))

-- The lowest `k` digits of `a` are zeros, and `b` has no digits but those.
abbrev LowClear : ℕ → ℕ → Type 0
LowClear zero a = Unit
LowClear (suc k) a = (a % 2 ≡ 0) × LowClear k (a / 2)

abbrev OnlyLow : ℕ → ℕ → Type 0
OnlyLow zero b = b ≡ 0
OnlyLow (suc k) b = OnlyLow k (b / 2)

bit_or-disjoint : (k a b : ℕ) → LowClear k a → OnlyLow k b → bit_or a b ≡ a + b
bit_or-disjoint zero a b clear low = rw low (omega (arith, bit_or-zero a a (omega arith)))
bit_or-disjoint (suc k) a b clear low =
    omega (arith, bit_or_step a b, bit_or-disjoint k (a / 2) (b / 2) clear.1 low)

pub bit_or-add_below : (a b : ℕ) → a % 4096 ≡ 0 → b < 4096 → bit_or a b ≡ a + b
bit_or-add_below a b e h = bit_or-disjoint 12 a b (omega arith) (omega arith)

pub bit_or-add_nibble : (a b : ℕ) → a % 16 ≡ 0 → b < 16 → bit_or a b ≡ a + b
bit_or-add_nibble a b e h = bit_or-disjoint 4 a b (omega arith) (omega arith)
