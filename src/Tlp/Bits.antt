-- ===== src/Tlp/Bits.antt =====
-- The law of `bit_or` that the header fields need: at operands that share no bit it is the sum.
-- The native operation stands for a recursion on binary digits with fuel.
use Prim.Native.Nat.{max, bit_or, digits, bit_or-bitwise}
use native.Mathlib.Nat.{pow-suc}
use nettlp_dpdk.Prelude.{ℕ, zero, suc, ◌+◌, ◌*◌, ◌/◌, ◌%◌, ◌^◌, ◌≤◌, ◌<◌, ◌≡◌, refl, arith, ap}

abbrev or_digits : ℕ → ℕ → ℕ → ℕ
or_digits n a b = digits (λ y. y) max n a b

-- Fuel beyond the first operand changes nothing.
or_digits_fuel : (n m a b : ℕ) → a ≤ n → a ≤ m → or_digits n a b ≡ or_digits m a b
or_digits_fuel zero zero a b p q = refl
or_digits_fuel zero (suc m) zero b p q = refl
or_digits_fuel zero (suc m) (suc a) b p q = absurd (omega arith)
or_digits_fuel (suc n) zero zero b p q = refl
or_digits_fuel (suc n) zero (suc a) b p q = absurd (omega arith)
or_digits_fuel (suc n) (suc m) zero b p q = refl
or_digits_fuel (suc n) (suc m) (suc a) b p q =
    omega (arith, or_digits_fuel n m (suc a / 2) (b / 2) (omega arith) (omega arith))

zero-bit_or : (b : ℕ) → bit_or 0 b ≡ b
zero-bit_or b = bit_or-bitwise 0 b

bit_or_step : (a b : ℕ) → bit_or a b ≡ bit_or (a / 2) (b / 2) * 2 + max (a % 2) (b % 2)
bit_or_step zero b = omega (arith, zero-bit_or b, zero-bit_or (b / 2))
bit_or_step (suc a) b = omega (
  arith,
  bit_or-bitwise (suc a) b,
  bit_or-bitwise (suc a / 2) (b / 2),
  or_digits_fuel a (suc a / 2) (suc a / 2) (b / 2) (omega arith) (omega arith),
)

bit_or-zero_fuel : (n a : ℕ) → a ≤ n → bit_or a 0 ≡ a
bit_or-zero_fuel n zero h = refl
bit_or-zero_fuel zero (suc a) h = absurd (omega arith)
bit_or-zero_fuel (suc n) (suc a) h =
    omega (arith, bit_or_step (suc a) 0, bit_or-zero_fuel n (suc a / 2) (omega arith))

-- The halves of an operand whose low `k + 1` bits are clear.
shifted : (k a : ℕ) → a * 2 ^ suc k ≡ 2 * (a * 2 ^ k)
shifted k a = rw pow-suc (omega arith)

half : (b : ℕ) → 2 * b / 2 ≡ b
half b = omega arith

half-lt : (k v : ℕ) → v < 2 ^ suc k → v / 2 < 2 ^ k
half-lt k v h = omega (arith, pow-suc 2 k)

pub bit_or-add : (k a v : ℕ) → v < 2 ^ k → bit_or (a * 2 ^ k) v ≡ a * 2 ^ k + v
bit_or-add zero a zero h = omega (arith, bit_or-zero_fuel (a * 1) (a * 1) (omega arith))
bit_or-add zero a (suc v) h = absurd (omega arith)
bit_or-add (suc k) a v h = rw (shifted k a) (
    omega (
      arith,
      bit_or_step (2 * (a * 2 ^ k)) v,
      ap (λ t. bit_or t (v / 2)) (half (a * 2 ^ k)),
      bit_or-add k a (v / 2) (half-lt k v h),
    ))
