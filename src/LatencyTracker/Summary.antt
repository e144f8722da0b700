-- ===== src/LatencyTracker/Summary.antt =====
-- The table that `print_summary` of src/common/latency_tracker.hpp prints, given what its library
-- calls promise.
use mockex.Prelude.{ℕ, zero, suc, ◌-◌, ◌<◌, ◌≤◌, ◌≡◌, ap, arith, List, [], ◌∷◌, All, length}
use mockex.Prelude.{get_or, ◌==◌, ◌&&◌, true, false}
use native.Mathlib.Decide.{dec_lt}
use mockex.Prelude.{length-take}
use mockex.LatencyTracker.{set_tsc_freq, create, cap_samples}
use mockex.LatencyTracker.Samples.{Span, record_spans, durations, Keeps, record_spans-create}
use mockex.LatencyTracker.{Label, Buf, LatencyTracker, Row, row, rows, labels, print_summary}
use mockex.LatencyTracker.{nanoseconds, ns, index, index_of}
use mockex.LatencyTracker.Casts.{index-le, index_mono, ns_mono}
use mockex.Double.{Double, IsRounded, greatest_u64}
use mockex.Prelude.{refl, take, ltb, ◌^◌, Bool-cases, inl, inr}

-- Each element is at most all that follow.
abbrev pub IsAscending : List ℕ → Type 0
IsAscending [] = Unit
IsAscending (x ∷ xs) = All (λ y. x ≤ y) xs × IsAscending xs

-- What `std::sort` promises: it orders the samples, and keeps them and their number.
pub record Promises (sort : List ℕ → List ℕ) : Type 1 where
  pub sort-IsAscending : (xs : List ℕ) → IsAscending (sort xs)
  pub length-sort : (xs : List ℕ) → length (sort xs) ≡ length xs
  pub All-sort : (P : ℕ → Type 0) (xs : List ℕ) → All P xs → All P (sort xs)

All-get_or : (x : ℕ) (xs : List ℕ) (i : ℕ) → All (λ y. x ≤ y) xs → i < length xs → x ≤ get_or xs i 0
All-get_or x [] i a h = absurd (omega arith)
All-get_or x (y ∷ xs) zero a h = a.0
All-get_or x (y ∷ xs) (suc i) a h = All-get_or x xs i a.1 (omega arith)

-- In an ascending list a later element is no smaller.
get_or_mono :
    (xs : List ℕ) (i j : ℕ) → IsAscending xs → i ≤ j → j < length xs → get_or xs i 0 ≤ get_or xs j 0
get_or_mono [] i j s h k = absurd (omega arith)
get_or_mono (x ∷ xs) zero zero s h k = omega arith
get_or_mono (x ∷ xs) zero (suc j) s h k = All-get_or x xs j s.0 (omega arith)
get_or_mono (x ∷ xs) (suc i) zero s h k = absurd (omega arith)
get_or_mono (x ∷ xs) (suc i) (suc j) s h k = get_or_mono xs i j s.1 (omega arith) (omega arith)

-- The times of a line, from the least to the greatest.
pub record IsOrdered (r : Row) : Type 0 where
  pub least_p50 : r.least ≤ r.p50
  pub p50_p90 : r.p50 ≤ r.p90
  pub p90_p99 : r.p90 ≤ r.p99
  pub p99_p999 : r.p99 ≤ r.p999
  pub p999_greatest : r.p999 ≤ r.greatest

-- A buffer with no samples has counted none.
total_of_no_samples : (b : Buf) (ds : List ℕ) → Keeps b ds → length b.samples ≡ 0 → b.total ≡ 0
total_of_no_samples b ds k h =
    omega (arith, h, ap length k.first, length-take cap_samples ds, k.counted)

All-at : (P : ℕ → Type 0) (xs : List ℕ) (i : ℕ) → All P xs → i < length xs → P (get_or xs i 0)
All-at P [] i a h = absurd (omega arith)
All-at P (x ∷ xs) zero a h = a.0
All-at P (x ∷ xs) (suc i) a h = All-at P xs i a.1 (omega arith)

All-take : (P : ℕ → Type 0) (n : ℕ) (xs : List ℕ) → All P xs → All P (take n xs)
All-take P zero xs a = tt
All-take P (suc n) [] a = tt
All-take P (suc n) (x ∷ xs) a = (a.0, All-take P n xs a.1)

-- No span takes longer than some cycles.
abbrev pub AreShort : ℕ → List Span → Type 0
AreShort top ss = All (λ s. s.end_tsc - s.start_tsc ≤ top) ss

durations-AreShort :
    (top : ℕ) (l : Label) (ss : List Span) → AreShort top ss → All (λ c. c ≤ top) (durations l ss)
unfolding durations
durations-AreShort top l [] a = tt
durations-AreShort top l (s ∷ ss) a =
    elim (Bool-cases ((index_of l == index_of s.label) && ltb s.start_tsc s.end_tsc)) [
      | inl taken ↦ rw taken (a.0, durations-AreShort top l ss a.1)
      | inr left ↦ rw left (durations-AreShort top l ss a.1)
    ]

-- A buffer that is not too full, of samples that are not too long.
record IsUsable (top : ℕ) (b : Buf) : Type 0 where
  few : length b.samples ≤ cap_samples
  low : All (λ c. c ≤ top) b.samples
  none_counted : length b.samples ≡ 0 → b.total ≡ 0

Keeps-IsUsable :
    (top : ℕ) (b : Buf) (ds : List ℕ) → Keeps b ds → All (λ c. c ≤ top) ds → IsUsable top b
Keeps-IsUsable top b ds k a = record {
  few = omega (arith, ap length k.first, length-take cap_samples ds);
  low = rw k.first (All-take (λ c. c ≤ top) cap_samples ds a);
  none_counted = λ h. total_of_no_samples b ds k h;
}

module _ {D : Type 0} (d : Double D) {sort : List ℕ → List ℕ} (rounded : IsRounded d)
    (promises : Promises sort) (freq top : ℕ) (ticking : 0 < freq) (clocked : freq < 2 ^ 64)
    (counted : top < 2 ^ 64)
    (castable : rounded.le (nanoseconds d freq top) (d.of_nat greatest_u64)) where
  open promises use {sort-IsAscending, length-sort, All-sort}

  row-IsOrdered :
      (label : Label) (b : Buf)
      → 0 < length b.samples
      → IsUsable top b
      → IsOrdered (row d sort freq label b)
  unfolding row
  row-IsOrdered label b some_there u = record {
    least_p50 = at 0 (index d 500 last) (omega arith) (le 500 (omega arith));
    p50_p90 = up 500 900 (omega arith) (omega arith);
    p90_p99 = up 900 990 (omega arith) (omega arith);
    p99_p999 = up 990 999 (omega arith) (omega arith);
    p999_greatest =
        at (index d 999 last) last (index-le rounded 999 last (omega arith) small) (omega arith);
  }
    where
      sorted : List ℕ
      sorted = sort b.samples

      last : ℕ
      last = length sorted - 1

      small : last ≤ 2 ^ 53
      small = omega (arith, length-sort b.samples, u.few)

      le : (p : ℕ) → p ≤ 1000 → index d p last < length sorted
      le p h = omega (arith, index-le rounded p last h small, length-sort b.samples)

      at :
          (i j : ℕ)
          → i ≤ j
          → j < length sorted
          → ns d freq (get_or sorted i 0) ≤ ns d freq (get_or sorted j 0)
      at i j h k =
          ns_mono rounded freq (get_or sorted i 0) (get_or sorted j 0) top ticking clocked counted
            castable (get_or_mono sorted i j (sort-IsAscending b.samples) h k)
            (All-at (λ c. c ≤ top) sorted j (All-sort (λ c. c ≤ top) b.samples u.low) k)

      up :
          (p q : ℕ)
          → p ≤ q
          → q ≤ 1000
          → ns d freq (get_or sorted (index d p last) 0)
            ≤ ns d freq (get_or sorted (index d q last) 0)
      up p q h k =
          at (index d p last) (index d q last) (index_mono rounded p q last h k small) (le q k)

  rows-IsOrdered :
      (t : LatencyTracker) (ls : List Label)
      → t.tsc_freq ≡ freq
      → ((l : Label) → IsUsable top (t.bufs l))
      → All IsOrdered (rows d sort t ls)
  unfolding rows
  rows-IsOrdered t [] same h = tt
  rows-IsOrdered t (l ∷ ls) same h =
      let b = t.bufs l in
      let rest = rows-IsOrdered t ls same h in
      elim (dec_lt 0 (length b.samples)) [
        | yes some_there ↦
            let shown : ((length b.samples == 0) && (b.total == 0)) ≡ false = ground arith in
            rw (shown, same) (row-IsOrdered l b some_there (h l), rest)
        | no none_there ↦
            let skipped : ((length b.samples == 0) && (b.total == 0)) ≡ true =
              ground (arith, (h l).none_counted (omega arith)) in
            rw skipped rest
      ]

  -- Given what `std::sort` and the arithmetic of IEEE 754 promise, a frequency that is not 0 and a
  -- number of cycles that no reading exceeds and whose nanoseconds a uint64_t can be cast from, in the
  -- table that is printed after any such readings every line has its least time, its percentiles and
  -- its greatest time in order. The frequency and the number are below 2 ^ 64.
  pub print_summary-IsOrdered :
      (ss : List Span)
      → AreShort top ss
      → All IsOrdered (print_summary d sort (set_tsc_freq (record_spans create ss) freq)).1
  unfolding print_summary
  print_summary-IsOrdered ss short =
      rows-IsOrdered (set_tsc_freq (record_spans create ss) freq) labels refl λ l.
        Keeps-IsUsable top _ (durations l ss) (record_spans-create l ss)
          (durations-AreShort top l ss short)
