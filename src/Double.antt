-- ===== src/Double.antt =====
-- What src/common/latency_tracker.hpp and src/common/time.hpp do with a `double`: conversions from
-- and to unsigned integers, literals, products and quotients. The type and its operations are the
-- processor's, by IEEE 754.
use mockex.Prelude.{ℕ, ◌-◌, ◌*◌, ◌^◌, ◌≤◌, ◌<◌, ◌≡◌}

pub record Double (D : Type 0) : Type 0 where
  -- `static_cast<double>` of an unsigned integer, and a whole literal
  pub of_nat : ℕ → D
  -- A literal with one digit behind the point, by its tenths: 99.9 is `tenths 999`
  pub tenths : ℕ → D
  pub mul : D → D → D
  pub div : D → D → D
  -- `static_cast<uint64_t>`, which drops the part behind the point
  pub to_u64 : D → ℕ

-- The greatest double below 2 ^ 64, the last that a uint64_t can be cast from.
abbrev pub greatest_u64 : ℕ
greatest_u64 = 2 ^ 64 - 2048

-- What IEEE 754 promises of them: each result is the exact one, rounded, and rounding keeps the
-- order and does not change a number that is a double. `le` is `<=`, which does not hold of a NaN.
pub record IsRounded {D : Type 0} (d : Double D) : Type 1 where
  pub le : D → D → Type 0
  pub IsFinite : D → Type 0
  pub finite_between : (x y : D) → le (d.of_nat 0) x → le x y → IsFinite y → IsFinite x
  pub of_nat-IsFinite : (n : ℕ) → n < 2 ^ 64 → IsFinite (d.of_nat n)
  pub of_nat_mono : (m n : ℕ) → m ≤ n → n < 2 ^ 64 → le (d.of_nat m) (d.of_nat n)
  pub le_trans : (x y z : D) → le x y → le y z → le x z
  pub tenths_mono : (m n : ℕ) → m ≤ n → n < 2 ^ 32 → le (d.tenths m) (d.tenths n)
  pub tenths_whole : (n : ℕ) → n < 2 ^ 32 → d.tenths (10 * n) ≡ d.of_nat n
  pub mul_mono :
      (x y c : D)
      → IsFinite x
      → IsFinite y
      → IsFinite c
      → le (d.of_nat 0) c
      → le x y
      → le (d.mul x c) (d.mul y c)
  pub zero_mul : (c : D) → IsFinite c → le (d.of_nat 0) c → d.mul (d.of_nat 0) c ≡ d.of_nat 0
  pub one_mul : (c : D) → IsFinite c → d.mul (d.of_nat 1) c ≡ c
  pub div_mono : (x y c : D) → IsFinite c → le (d.of_nat 1) c → le x y → le (d.div x c) (d.div y c)
  pub zero_div : (c : D) → IsFinite c → le (d.of_nat 1) c → d.div (d.of_nat 0) c ≡ d.of_nat 0
  pub div_self : (c : D) → IsFinite c → le (d.of_nat 1) c → d.div c c ≡ d.of_nat 1
  pub to_u64_mono :
      (x y : D)
      → le (d.of_nat 0) x
      → le x y
      → le y (d.of_nat greatest_u64)
      → d.to_u64 x ≤ d.to_u64 y
  pub to_u64-of_nat : (n : ℕ) → n ≤ 2 ^ 53 → d.to_u64 (d.of_nat n) ≡ n
