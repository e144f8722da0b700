-- ===== src/LatencyTracker/Casts.antt =====
-- The two casts of doubles in `print_summary` of src/common/latency_tracker.hpp, by what IEEE 754
-- promises.
use mockex.Prelude.{ℕ, ◌^◌, ◌≤◌, ◌<◌, ◌≡◌, ap, ◌∙◌, subst, arith}
use mockex.Double.{Double, IsRounded, greatest_u64}
use mockex.LatencyTracker.{nanoseconds, ns, index}

module _ {D : Type 0} {d : Double D} (rounded : IsRounded d) where
  open rounded use {le, IsFinite, le_trans, of_nat-IsFinite, of_nat_mono}

  -- `p / 100.0`, of tenths
  abbrev share : ℕ → D
  share p = d.div (d.tenths p) (d.of_nat 100)

  hundred-IsFinite : IsFinite (d.of_nat 100)
  hundred-IsFinite = of_nat-IsFinite 100 (omega arith)

  one_hundred : le (d.of_nat 1) (d.of_nat 100)
  one_hundred = of_nat_mono 1 100 (omega arith) (omega arith)

  share_mono : (p q : ℕ) → p ≤ q → q ≤ 1000 → le (share p) (share q)
  share_mono p q h k =
      rounded.div_mono (d.tenths p) (d.tenths q) (d.of_nat 100) hundred-IsFinite one_hundred
        (rounded.tenths_mono p q h (omega arith))

  share_zero : share 0 ≡ d.of_nat 0
  share_zero =
      ap (λ x. d.div x (d.of_nat 100)) (rounded.tenths_whole 0 (omega arith))
      ∙ rounded.zero_div (d.of_nat 100) hundred-IsFinite one_hundred

  share_one : share 1000 ≡ d.of_nat 1
  share_one =
      ap (λ x. d.div x (d.of_nat 100)) (rounded.tenths_whole 100 (omega arith))
      ∙ rounded.div_self (d.of_nat 100) hundred-IsFinite one_hundred

  share_least : (p : ℕ) → p ≤ 1000 → le (d.of_nat 0) (share p)
  share_least p h = subst (λ x. le x (share p)) share_zero (share_mono 0 p (omega arith) h)

  share_greatest : (p : ℕ) → p ≤ 1000 → le (share p) (d.of_nat 1)
  share_greatest p h = subst (λ x. le (share p) x) share_one (share_mono p 1000 h (omega arith))

  share-IsFinite : (p : ℕ) → p ≤ 1000 → IsFinite (share p)
  share-IsFinite p h =
      rounded.finite_between (share p) (d.of_nat 1) (share_least p h) (share_greatest p h)
        (of_nat-IsFinite 1 (omega arith))

  module _ (n : ℕ) (exact : n ≤ 2 ^ 53) where
    n-IsFinite : IsFinite (d.of_nat n)
    n-IsFinite = of_nat-IsFinite n (omega arith)

    n_least : le (d.of_nat 0) (d.of_nat n)
    n_least = of_nat_mono 0 n (omega arith) (omega arith)

    times_mono :
        (x y : D)
        → IsFinite x
        → IsFinite y
        → le x y
        → le (d.mul x (d.of_nat n)) (d.mul y (d.of_nat n))
    times_mono x y fx fy h = rounded.mul_mono x y (d.of_nat n) fx fy n-IsFinite n_least h

    part_least : (p : ℕ) → p ≤ 1000 → le (d.of_nat 0) (d.mul (share p) (d.of_nat n))
    part_least p h =
        subst (λ x. le x (d.mul (share p) (d.of_nat n)))
          (rounded.zero_mul (d.of_nat n) n-IsFinite n_least)
          (times_mono (d.of_nat 0) (share p) (of_nat-IsFinite 0 (omega arith)) (share-IsFinite p h)
            (share_least p h))

    part_greatest : (p : ℕ) → p ≤ 1000 → le (d.mul (share p) (d.of_nat n)) (d.of_nat n)
    part_greatest p h =
        subst (λ x. le (d.mul (share p) (d.of_nat n)) x) (rounded.one_mul (d.of_nat n) n-IsFinite)
          (times_mono (share p) (d.of_nat 1) (share-IsFinite p h) (of_nat-IsFinite 1 (omega arith))
            (share_greatest p h))

    n_castable : le (d.of_nat n) (d.of_nat greatest_u64)
    n_castable = of_nat_mono n greatest_u64 (omega arith) (omega arith)

  -- The index of a percentile is at most the last one.
  pub index-le : (p n : ℕ) → p ≤ 1000 → n ≤ 2 ^ 53 → index d p n ≤ n
  index-le p n h exact = omega (
    arith,
    rounded.to_u64_mono (d.mul (share p) (d.of_nat n)) (d.of_nat n) (part_least n exact p h)
        (part_greatest n exact p h) (n_castable n exact),
    rounded.to_u64-of_nat n exact,
  )

  -- It does not fall as the percentile grows.
  pub index_mono : (p q n : ℕ) → p ≤ q → q ≤ 1000 → n ≤ 2 ^ 53 → index d p n ≤ index d q n
  index_mono p q n h k exact =
      rounded.to_u64_mono (d.mul (share p) (d.of_nat n)) (d.mul (share q) (d.of_nat n))
        (part_least n exact p (omega arith))
        (times_mono n exact (share p) (share q) (share-IsFinite p (omega arith))
          (share-IsFinite q k) (share_mono p q h k))
        (le_trans _ (d.of_nat n) _ (part_greatest n exact q k) (n_castable n exact))

  -- The nanoseconds of a number of cycles, by the frequency.
  module _ (freq : ℕ) (ticking : 0 < freq) (clocked : freq < 2 ^ 64) where
    freq-IsFinite : IsFinite (d.of_nat freq)
    freq-IsFinite = of_nat-IsFinite freq clocked

    one_freq : le (d.of_nat 1) (d.of_nat freq)
    one_freq = of_nat_mono 1 freq (omega arith) clocked

    billion-IsFinite : IsFinite (d.of_nat (10 ^ 9))
    billion-IsFinite = of_nat-IsFinite (10 ^ 9) (omega arith)

    billion_least : le (d.of_nat 0) (d.of_nat (10 ^ 9))
    billion_least = of_nat_mono 0 (10 ^ 9) (omega arith) (omega arith)

    nanoseconds_mono :
        (a b : ℕ) → a ≤ b → b < 2 ^ 64 → le (nanoseconds d freq a) (nanoseconds d freq b)
    nanoseconds_mono a b h k = rounded.div_mono _ _ (d.of_nat freq) freq-IsFinite one_freq (
        rounded.mul_mono (d.of_nat a) (d.of_nat b) (d.of_nat (10 ^ 9))
          (of_nat-IsFinite a (omega arith)) (of_nat-IsFinite b k) billion-IsFinite billion_least
          (of_nat_mono a b h k))

    no_time : nanoseconds d freq 0 ≡ d.of_nat 0
    no_time =
        ap (λ x. d.div x (d.of_nat freq))
          (rounded.zero_mul (d.of_nat (10 ^ 9)) billion-IsFinite billion_least)
        ∙ rounded.zero_div (d.of_nat freq) freq-IsFinite one_freq

    nanoseconds_least : (c : ℕ) → c < 2 ^ 64 → le (d.of_nat 0) (nanoseconds d freq c)
    nanoseconds_least c k =
        subst (λ x. le x (nanoseconds d freq c)) no_time (nanoseconds_mono 0 c (omega arith) k)

  pub ns_mono :
      (freq a b top : ℕ)
      → 0 < freq
      → freq < 2 ^ 64
      → top < 2 ^ 64
      → le (nanoseconds d freq top) (d.of_nat greatest_u64)
      → a ≤ b
      → b ≤ top
      → ns d freq a ≤ ns d freq b
  ns_mono freq a b top ticking clocked counted castable h k =
      rounded.to_u64_mono (nanoseconds d freq a) (nanoseconds d freq b)
        (nanoseconds_least freq ticking clocked a (omega arith))
        (nanoseconds_mono freq ticking clocked a b h (omega arith))
        (le_trans _ _ _ (nanoseconds_mono freq ticking clocked b top k counted) castable)
