-- ===== src/Tests/Latency.antt =====
-- The latency table of src/common/latency_tracker.hpp, with doubles in thousandths.
use native.Mathlib.Nat.{
  le-div_iff_mul-le, div-mul-le_self, zero-div, mul-div_cancel_left, mul-le-mul_right,
}
use mockex.Prelude.{ℕ, suc, ◌*◌, ◌/◌, ◌≤◌, ◌≡◌, refl, arith, List, [], ◌∷◌, length, All}
use mockex.Prelude.{leb, leb→le, if◌then◌else◌, Bool-cases, inl, inr}
use mockex.Double.{Double, IsRounded}
use mockex.LatencyTracker
use mockex.LatencyTracker.{print_summary, set_tsc_freq}
use mockex.LatencyTracker.Samples.{record_spans}
use mockex.LatencyTracker.Summary.{Promises, IsOrdered, IsAscending, print_summary-IsOrdered}
use mockex.Tests.Readers.{spans}

-- Insertion sort.
insert : ℕ → List ℕ → List ℕ
insert x [] = x ∷ []
insert x (y ∷ ys) = let rest = insert x ys in if leb x y then x ∷ y ∷ ys else y ∷ rest

sort : List ℕ → List ℕ
sort [] = []
sort (x ∷ xs) = insert x (sort xs)

length-insert : (x : ℕ) (xs : List ℕ) → length (insert x xs) ≡ suc (length xs)
unfolding insert
length-insert x [] = refl
length-insert x (y ∷ ys) = ground (arith, length-insert x ys)

length-sort : (xs : List ℕ) → length (sort xs) ≡ length xs
unfolding sort
length-sort [] = refl
length-sort (x ∷ xs) = omega (arith, length-insert x (sort xs), length-sort xs)

All-le : (x y : ℕ) (ys : List ℕ) → x ≤ y → All (λ z. y ≤ z) ys → All (λ z. x ≤ z) ys
All-le x y [] h a = tt
All-le x y (z ∷ zs) h a = (omega (arith, a.0), All-le x y zs h a.1)

insert-All : (x y : ℕ) (ys : List ℕ) → y ≤ x → All (λ z. y ≤ z) ys → All (λ z. y ≤ z) (insert x ys)
unfolding insert
insert-All x y [] h a = (h, tt)
insert-All x y (z ∷ zs) h a = elim (Bool-cases (leb x z)) [
  | inl le ↦ rw (le, insert) (h, a)
  | inr gt ↦ rw (gt, insert) (a.0, insert-All x y zs h a.1)
]

insert-IsAscending : (x : ℕ) (xs : List ℕ) → IsAscending xs → IsAscending (insert x xs)
unfolding insert
insert-IsAscending x [] s = (tt, tt)
insert-IsAscending x (y ∷ ys) s = elim (Bool-cases (leb x y)) [
  | inl le ↦ rw (le, insert) ((leb→le x y le, All-le x y ys (leb→le x y le) s.0), s)
  | inr gt ↦ rw (gt, insert) (insert-All x y ys (ground arith) s.0, insert-IsAscending x ys s.1)
]

sort-IsAscending : (xs : List ℕ) → IsAscending (sort xs)
unfolding sort
sort-IsAscending [] = tt
sort-IsAscending (x ∷ xs) = insert-IsAscending x (sort xs) (sort-IsAscending xs)

insert-All_of : (P : ℕ → Type 0) (x : ℕ) (ys : List ℕ) → P x → All P ys → All P (insert x ys)
unfolding insert
insert-All_of P x [] h a = (h, tt)
insert-All_of P x (y ∷ ys) h a = elim (Bool-cases (leb x y)) [
  | inl le ↦ rw (le, insert) (h, a)
  | inr gt ↦ rw (gt, insert) (a.0, insert-All_of P x ys h a.1)
]

All-sort : (P : ℕ → Type 0) (xs : List ℕ) → All P xs → All P (sort xs)
unfolding sort
All-sort P [] a = tt
All-sort P (x ∷ xs) a = insert-All_of P x (sort xs) a.0 (All-sort P xs a.1)

promised : Promises sort
promised = record {
  sort-IsAscending = sort-IsAscending;
  length-sort = length-sort;
  All-sort = All-sort;
}

-- Thousandths, rounded down.
abbrev thousandths : Double ℕ
thousandths = record {
  of_nat = λ n. n * 1000;
  tenths = λ n. n * 100;
  mul = λ x y. x * y / 1000;
  div = λ x y. x * 1000 / y;
  to_u64 = λ x. x / 1000;
}

abbrev rounded_down : IsRounded thousandths
rounded_down = record {
  le = λ x y. x ≤ y;
  IsFinite = λ _. Unit;
  finite_between = λ x y h k f. tt;
  of_nat-IsFinite = λ n h. tt;
  of_nat_mono = λ m n h k. omega arith;
  le_trans = λ x y z h k. omega arith;
  tenths_mono = λ m n h k. omega arith;
  tenths_whole = λ n h. omega arith;
  mul_mono = λ x y c fx fy fc some h. omega (arith, mul-le-mul_right c h);
  zero_mul = λ c f h. omega arith;
  one_mul = λ c f. omega arith;
  div_mono = λ x y c f h k.
      (le-div_iff_mul-le {k = c} (omega (arith, h))).1
        (omega (arith, div-mul-le_self (x * 1000) c, k));
  zero_div = λ c f h. zero-div c;
  div_self = λ c f h. mul-div_cancel_left 1000 (omega (arith, h));
  to_u64_mono = λ x y h k l. omega arith;
  to_u64-of_nat = λ n h. omega arith;
}

-- A clock of a thousand cycles in a second, and readings of at most 15 cycles.
print_summary-IsOrdered_example :
    All IsOrdered
      (print_summary thousandths sort
        (set_tsc_freq (record_spans LatencyTracker.create spans) 1000)).1
print_summary-IsOrdered_example =
    print_summary-IsOrdered thousandths rounded_down promised 1000 15 (omega arith) (omega arith)
      (omega arith) (omega arith) spans
      (omega arith, (omega arith, (omega arith, (omega arith, tt))))
