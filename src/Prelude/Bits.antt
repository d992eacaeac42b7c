-- ===== src/Prelude/Bits.antt =====
-- The bit operations of Rust's unsigned integers, on native numbers.
use Prim.Native.Nat.{
  ℕ, zero, suc, ◌+◌, ◌*◌, ◌/◌, ◌%◌, ◌≤◌, ◌<◌, min, max, bit_and, bit_or, digits, bit_and-bitwise,
  bit_or-bitwise,
}
use mathlib.Core.Path.{◌≡◌, refl, ap}
use native.Mathlib.Omega.{arith}

-- The bits of both operations, with the fuel that the native operations stand for.
abbrev and_bits : ℕ → ℕ → ℕ → ℕ
and_bits fuel a b = digits (λ rest. zero) min fuel a b

abbrev or_bits : ℕ → ℕ → ℕ → ℕ
or_bits fuel a b = digits (λ rest. rest) max fuel a b

and_bits-enough : (a b n m : ℕ) → a ≤ m → a ≤ n → and_bits n a b ≡ and_bits m a b
and_bits-enough (suc x) y (suc k) (suc l) h i =
    omega (arith, and_bits-enough (suc x / 2) (y / 2) k l (omega arith) (omega arith))
and_bits-enough (suc x) y (suc k) zero h i = absurd (omega arith)
and_bits-enough (suc x) y zero l h i = absurd (omega arith)
and_bits-enough zero y zero zero h i = refl
and_bits-enough zero y zero (suc l) h i = refl
and_bits-enough zero y (suc k) zero h i = refl
and_bits-enough zero y (suc k) (suc l) h i = refl

or_bits-enough : (a b n m : ℕ) → a ≤ m → a ≤ n → or_bits n a b ≡ or_bits m a b
or_bits-enough (suc x) y (suc k) (suc l) h i =
    omega (arith, or_bits-enough (suc x / 2) (y / 2) k l (omega arith) (omega arith))
or_bits-enough (suc x) y (suc k) zero h i = absurd (omega arith)
or_bits-enough (suc x) y zero l h i = absurd (omega arith)
or_bits-enough zero y zero zero h i = refl
or_bits-enough zero y zero (suc l) h i = refl
or_bits-enough zero y (suc k) zero h i = refl
or_bits-enough zero y (suc k) (suc l) h i = refl

pub bit_and_step : (a b : ℕ) → bit_and a b ≡ bit_and (a / 2) (b / 2) * 2 + min (a % 2) (b % 2)
bit_and_step zero b = omega (arith, bit_and-bitwise 0 b, bit_and-bitwise 0 (b / 2))
bit_and_step (suc x) y =
    let half = and_bits-enough (suc x / 2) (y / 2) x (suc x / 2) (omega arith) (omega arith) in
    omega (arith, half, bit_and-bitwise (suc x / 2) (y / 2), bit_and-bitwise (suc x) y)

pub zero-bit_or : (b : ℕ) → bit_or 0 b ≡ b
zero-bit_or b = bit_or-bitwise 0 b

pub bit_or_step : (a b : ℕ) → bit_or a b ≡ bit_or (a / 2) (b / 2) * 2 + max (a % 2) (b % 2)
bit_or_step zero b = omega (arith, zero-bit_or b, zero-bit_or (b / 2))
bit_or_step (suc x) y =
    let half = or_bits-enough (suc x / 2) (y / 2) x (suc x / 2) (omega arith) (omega arith) in
    omega (arith, half, bit_or-bitwise (suc x / 2) (y / 2), bit_or-bitwise (suc x) y)

all_kept : (a limit : ℕ) → a ≤ limit → bit_or a 0 ≡ a
all_kept zero limit small = zero-bit_or 0
all_kept (suc a) (suc limit) small =
    omega (arith, all_kept (suc a / 2) limit (omega arith), bit_or_step (suc a) 0)
all_kept (suc a) zero small = absurd (omega arith)

pub bit_or-zero : (a : ℕ) → bit_or a 0 ≡ a
bit_or-zero x = all_kept x x (omega arith)

none_set : (a limit : ℕ) → a ≤ limit → bit_and a 0 ≡ 0
none_set zero limit small = bit_and-bitwise 0 0
none_set (suc a) (suc limit) small =
    omega (arith, none_set (suc a / 2) limit (omega arith), bit_and_step (suc a) 0)
none_set (suc a) zero small = absurd (omega arith)

bit_and-zero : (a : ℕ) → bit_and a 0 ≡ 0
bit_and-zero x = none_set x x (omega arith)

-- `a << k`, for a result that fits.
unfoldable pub shl : ℕ → ℕ → ℕ
shl a zero = a
shl a (suc k) = shl a k * 2

-- A number shifted by `k` bits and a number of `k` bits share no bit.
pub bit_or-shl : (k a b : ℕ) → b < shl 1 k → bit_or (shl a k) b ≡ shl a k + b
unfolding shl
bit_or-shl zero a b h = let e : b ≡ 0 = omega arith in rw e (omega (arith, bit_or-zero a))
bit_or-shl (suc k) a b h =
    omega (arith, bit_or_step (shl a k * 2) b, halved, bit_or-shl k a (b / 2) (omega arith))
  where
    halved : bit_or (shl a k * 2 / 2) (b / 2) ≡ bit_or (shl a k) (b / 2)
    halved = let e : shl a k * 2 / 2 ≡ shl a k = omega arith in rw e refl

-- The masks of six, eight and sixteen ones.
bit_and-odd : (a m : ℕ) → bit_and a (m * 2 + 1) ≡ bit_and (a / 2) m * 2 + a % 2
bit_and-odd a m =
    let e : (m * 2 + 1) / 2 ≡ m = omega arith in
    omega (arith, bit_and_step a (m * 2 + 1), ap (bit_and (a / 2)) e)

pub bit_and-63 : (a : ℕ) → bit_and a 63 ≡ a % 64
bit_and-63 a = omega (
  arith,
  bit_and-odd a 31,
  bit_and-odd (a / 2) 15,
  bit_and-odd (a / 2 / 2) 7,
  bit_and-odd (a / 2 / 2 / 2) 3,
  bit_and-odd (a / 2 / 2 / 2 / 2) 1,
  bit_and-odd (a / 2 / 2 / 2 / 2 / 2) 0,
  bit_and-zero (a / 2 / 2 / 2 / 2 / 2 / 2),
)

pub bit_and-255 : (a : ℕ) → bit_and a 255 ≡ a % 256
bit_and-255 a = omega (arith, bit_and-odd a 127, bit_and-odd (a / 2) 63, bit_and-63 (a / 2 / 2))

pub bit_and-65535 : (a : ℕ) → bit_and a 65535 ≡ a % 65536
bit_and-65535 a = omega (
  arith,
  bit_and-odd a 32767,
  bit_and-odd (a / 2) 16383,
  bit_and-odd (a / 2 / 2) 8191,
  bit_and-odd (a / 2 / 2 / 2) 4095,
  bit_and-odd (a / 2 / 2 / 2 / 2) 2047,
  bit_and-odd (a / 2 / 2 / 2 / 2 / 2) 1023,
  bit_and-odd (a / 2 / 2 / 2 / 2 / 2 / 2) 511,
  bit_and-odd (a / 2 / 2 / 2 / 2 / 2 / 2 / 2) 255,
  bit_and-255 (a / 2 / 2 / 2 / 2 / 2 / 2 / 2 / 2),
)
