-- ===== src/Prelude/Wrap.antt =====
-- Two's complement sums: wrapping may be put off to the end of a calculation.
use Prim.Native.Nat.{ℕ, ◌+◌, ◌%◌, ◌^◌, ◌<◌}
use mathlib.Core.Path.{◌≡◌, ap}
use native.Mathlib.Omega.{arith}
use mockex.Prelude.Int.{ℤ, pos, negsuc, pos_part, neg_part}
use mockex.Prelude.Int.{residue, to_signed, wrap32, wrap64, to_int32, to_int64}

module _ (z : ℤ) where
  residue32_parts : (residue (2 ^ 32) z + neg_part z) % 2 ^ 32 ≡ pos_part z % 2 ^ 32
  residue32_parts = go z
    where
      go : (z : ℤ) → (residue (2 ^ 32) z + neg_part z) % 2 ^ 32 ≡ pos_part z % 2 ^ 32
      go (pos n) = omega arith
      go (negsuc n) = omega arith

  residue64_parts : (residue (2 ^ 64) z + neg_part z) % 2 ^ 64 ≡ pos_part z % 2 ^ 64
  residue64_parts = go z
    where
      go : (z : ℤ) → (residue (2 ^ 64) z + neg_part z) % 2 ^ 64 ≡ pos_part z % 2 ^ 64
      go (pos n) = omega arith
      go (negsuc n) = omega arith

residue32-wrap :
    (z : ℤ) → (residue (2 ^ 32) (wrap32 z) ≡ residue (2 ^ 32) z) × (residue (2 ^ 32) z < 2 ^ 32)
unfolding wrap32
residue32-wrap (pos n) = (ground arith, omega arith)
residue32-wrap (negsuc n) = (ground arith, omega arith)

residue64-wrap :
    (z : ℤ) → (residue (2 ^ 64) (wrap64 z) ≡ residue (2 ^ 64) z) × (residue (2 ^ 64) z < 2 ^ 64)
unfolding wrap64
residue64-wrap (pos n) = (ground arith, omega arith)
residue64-wrap (negsuc n) = (ground arith, omega arith)

residue32-to_int32 : (n : ℕ) → n < 2 ^ 32 → residue (2 ^ 32) (to_int32 n) ≡ n
unfolding to_int32
residue32-to_int32 n h = ground arith

residue64-to_int64 : (n : ℕ) → n < 2 ^ 64 → residue (2 ^ 64) (to_int64 n) ≡ n
unfolding to_int64
residue64-to_int64 n h = ground arith

-- Numbers that agree up to multiples of 2 ^ 32 wrap to one int32_t.
pub wrap32_congr :
    (a b : ℤ)
    → (pos_part a + neg_part b) % 2 ^ 32 ≡ (pos_part b + neg_part a) % 2 ^ 32
    → wrap32 a ≡ wrap32 b
unfolding wrap32
wrap32_congr a b h =
    ap (to_signed (2 ^ 32))
      (omega (arith, residue32_parts a, residue32_parts b, residue32-wrap a, residue32-wrap b))

pub wrap64_congr :
    (a b : ℤ)
    → (pos_part a + neg_part b) % 2 ^ 64 ≡ (pos_part b + neg_part a) % 2 ^ 64
    → wrap64 a ≡ wrap64 b
unfolding wrap64
wrap64_congr a b h =
    ap (to_signed (2 ^ 64))
      (omega (arith, residue64_parts a, residue64_parts b, residue64-wrap a, residue64-wrap b))

-- What wrapping and the casts keep, in the two parts of an integer.
pub wrap32_parts :
    (z : ℤ)
    → (pos_part (wrap32 z) + neg_part z) % 2 ^ 32 ≡ (pos_part z + neg_part (wrap32 z)) % 2 ^ 32
wrap32_parts z = omega (arith, residue32_parts z, residue32_parts (wrap32 z), residue32-wrap z)

pub wrap64_parts :
    (z : ℤ)
    → (pos_part (wrap64 z) + neg_part z) % 2 ^ 64 ≡ (pos_part z + neg_part (wrap64 z)) % 2 ^ 64
wrap64_parts z = omega (arith, residue64_parts z, residue64_parts (wrap64 z), residue64-wrap z)

pub to_int32_parts :
    (n : ℕ) → n < 2 ^ 32 → pos_part (to_int32 n) % 2 ^ 32 ≡ (n + neg_part (to_int32 n)) % 2 ^ 32
to_int32_parts n h = omega (arith, residue32_parts (to_int32 n), residue32-to_int32 n h)

pub to_int64_parts :
    (n : ℕ) → n < 2 ^ 64 → pos_part (to_int64 n) % 2 ^ 64 ≡ (n + neg_part (to_int64 n)) % 2 ^ 64
to_int64_parts n h = omega (arith, residue64_parts (to_int64 n), residue64-to_int64 n h)
