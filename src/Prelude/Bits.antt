-- ===== src/Prelude/Bits.antt =====
-- `x & (2 ^ k - 1)` keeps the low k bits of x: the masks of the hash map and of the ring buffer.
use Prim.Native.Nat.{
  ℕ, zero, suc, ◌+◌, ◌-◌, ◌*◌, ◌/◌, ◌%◌, ◌^◌, ◌≤◌, ◌<◌, min, bit_and, digits, bit_and-bitwise,
}
use mathlib.Core.Path.{◌≡◌, refl, ap, ◌∙◌}
use native.Mathlib.Omega.{arith}
use native.Mathlib.Nat.{pow-suc, one-le-pow, mod-lt, div-add-mod', mul_comm}

-- The digit recursion that `bit_and` stands for; the fuel bounds the first operand.
abbrev common_bits : ℕ → ℕ → ℕ → ℕ
common_bits fuel a b = digits (λ _. zero) min fuel a b

common_bits_enough : (m n a b : ℕ) → a ≤ m → a ≤ n → common_bits m a b ≡ common_bits n a b
common_bits_enough zero zero a b p q = refl
common_bits_enough (suc m) zero zero b p q = refl
common_bits_enough (suc m) zero (suc a) b p q = absurd (omega arith)
common_bits_enough zero (suc n) zero b p q = refl
common_bits_enough zero (suc n) (suc a) b p q = absurd (omega arith)
common_bits_enough (suc m) (suc n) zero b p q = refl
common_bits_enough (suc m) (suc n) (suc a) b p q =
    omega (arith, common_bits_enough m n (suc a / 2) (b / 2) (omega arith) (omega arith))

bit_and_halves : (a b : ℕ) → bit_and a b ≡ min (a % 2) (b % 2) + 2 * bit_and (a / 2) (b / 2)
bit_and_halves zero b = omega (arith, bit_and-bitwise 0 b, bit_and-bitwise 0 (b / 2))
bit_and_halves (suc a) b = omega (
  arith,
  bit_and-bitwise (suc a) b,
  bit_and-bitwise (suc a / 2) (b / 2),
  common_bits_enough (suc a / 2) a (suc a / 2) (b / 2) (omega arith) (omega arith),
)

bit_and-no_bits : (fuel a : ℕ) → a ≤ fuel → bit_and a 0 ≡ 0
bit_and-no_bits zero zero h = bit_and-bitwise 0 0
bit_and-no_bits zero (suc a) h = absurd (omega arith)
bit_and-no_bits (suc fuel) zero h = bit_and-bitwise 0 0
bit_and-no_bits (suc fuel) (suc a) h =
    omega (arith, bit_and_halves (suc a) 0, bit_and-no_bits fuel (suc a / 2) (omega arith))

-- A number split at bit k loses what stands above it.
bit_and_low : (k high low : ℕ) → low < 2 ^ k → bit_and (high * 2 ^ k + low) (2 ^ k - 1) ≡ low
bit_and_low zero high low h =
    omega (arith, bit_and-no_bits (high * 2 ^ 0 + low) (high * 2 ^ 0 + low) (omega arith))
bit_and_low (suc k) high low h =
    let double : 2 ^ suc k ≡ 2 * 2 ^ k = pow-suc 2 k ∙ mul_comm (2 ^ k) 2 in
    let shift : high * 2 ^ suc k ≡ 2 * (high * 2 ^ k) =
      omega (arith, ap (λ (t : ℕ). high * t) double) in
    let half : (high * 2 ^ suc k + low) / 2 ≡ high * 2 ^ k + low / 2 = omega arith in
    let ones : (2 ^ suc k - 1) / 2 ≡ 2 ^ k - 1 = omega arith in
    let rest : bit_and ((high * 2 ^ suc k + low) / 2) ((2 ^ suc k - 1) / 2) ≡ low / 2 =
      rw (half, ones) (bit_and_low k high (low / 2) (omega arith)) in
    omega (arith, bit_and_halves (high * 2 ^ suc k + low) (2 ^ suc k - 1))

-- The mask as the code computes it, capacity - 1 for a capacity that is a power of two.
pub bit_and_mask : (k a : ℕ) → bit_and a (2 ^ k - 1) ≡ a % 2 ^ k
bit_and_mask k a =
    let low : bit_and (a / 2 ^ k * 2 ^ k + a % 2 ^ k) (2 ^ k - 1) ≡ a % 2 ^ k =
      bit_and_low k (a / 2 ^ k) (a % 2 ^ k) (mod-lt a (one-le-pow k 2 (omega arith))) in
    rw (div-add-mod' a (2 ^ k)) at low
