-- ===== src/FlatHashMap/Totals.antt =====
-- The entries of the table of src/common/flat_hash_map.hpp weighed and summed over its slots, whether
-- or not a probe still finds them.
use native.Mathlib.Decide.{ℕ_discrete}
use mockex.Prelude.{ℕ, zero, suc, ◌+◌, ◌≤◌, ◌<◌, ◌≡◌, ◌≢◌, refl, ap, sym, ◌∙◌, arith}
use mockex.Prelude.{◌==◌, if◌then◌else◌, ==_of_eq, ==_of_ne}
use mockex.FlatHashMap.{FlatHashMap, store, clear_slot, move_back}
use mockex.FlatHashMap.Place.{filled, update_self, update_other}

unfoldable pub sum : (ℕ → ℕ) → ℕ → ℕ
sum f zero = 0
sum f (suc n) = f n + sum f n

pub sum-eq : (f g : ℕ → ℕ) (n : ℕ) → ((i : ℕ) → i < n → f i ≡ g i) → sum f n ≡ sum g n
unfolding sum
sum-eq f g zero h = refl
sum-eq f g (suc n) h = omega (arith, h n (omega arith), sum-eq f g n (λ i lt. h i (omega arith)))

-- A change at one index.
pub sum-change :
    (f g : ℕ → ℕ) (n e : ℕ) → e < n → ((i : ℕ) → i ≢ e → f i ≡ g i) → sum f n + g e ≡ sum g n + f e
unfolding sum
sum-change f g zero e lt h = absurd (omega arith)
sum-change f g (suc n) e lt h = elim (ℕ_discrete e n) [
  | yes last ↦
      let below : sum f n ≡ sum g n = sum-eq f g n (λ i l. h i (omega arith)) in
      omega (arith, below, ap f last, ap g last)
  | no before ↦
      let same : f n ≡ g n = h n (λ e'. before (sym e')) in
      omega (arith, same, sum-change f g n e (omega arith) h)
]

pub le-sum : (f : ℕ → ℕ) (n e : ℕ) → e < n → f e ≤ sum f n
unfolding sum
le-sum f zero e lt = absurd (omega arith)
le-sum f (suc n) e lt = elim (ℕ_discrete e n) [
  | yes last ↦ omega (arith, ap f last)
  | no before ↦ omega (arith, le-sum f n e (omega arith))
]

pub sum_mono : (f : ℕ → ℕ) (n k : ℕ) → sum f n ≤ sum f (k + n)
unfolding sum
sum_mono f n zero = let e : 0 + n ≡ n = omega arith in rw e (omega arith)
sum_mono f n (suc k) =
    let e : suc k + n ≡ suc (k + n) = omega arith in rw e (omega (arith, sum_mono f n k))

pub sum-zero : (f : ℕ → ℕ) (n : ℕ) → ((i : ℕ) → f i ≡ 0) → sum f n ≡ 0
unfolding sum
sum-zero f zero h = refl
sum-zero f (suc n) h = omega (arith, h n, sum-zero f n h)

module _ {ℓ} {V : Type ℓ} (w : ℕ → V → ℕ) where
  -- The weight of a slot.
  unfoldable pub cell : FlatHashMap V → ℕ → ℕ
  cell m i = if m.keys i == 0 then 0 else w (m.keys i) (m.vals i)

  -- The weight of all entries.
  abbrev pub total : FlatHashMap V → ℕ
  total m = sum (cell m) m.capacity

  pub cell_full : (m : FlatHashMap V) (i : ℕ) → m.keys i ≢ 0 → cell m i ≡ w (m.keys i) (m.vals i)
  unfolding cell
  cell_full m i nz = rw (cell, ==_of_ne nz)

  pub cell_empty : (m : FlatHashMap V) (i : ℕ) → m.keys i ≡ 0 → cell m i ≡ 0
  unfolding cell
  cell_empty m i z = rw (cell, ==_of_eq z)

  cell-filled :
      (m : FlatHashMap V) (e key : ℕ) (v : V) → key ≢ 0 → cell (filled m e key v) e ≡ w key v
  unfolding cell
  cell-filled m e key v nz =
      rw (cell, update_self m.keys e key, update_self m.vals e v, ==_of_ne nz)

  cell-filled_other :
      (m : FlatHashMap V) (e key i : ℕ) (v : V) → i ≢ e → cell (filled m e key v) i ≡ cell m i
  unfolding cell
  cell-filled_other m e key i v ne =
      rw (cell, update_other m.keys key ne, update_other m.vals v ne) refl

  pub total-filled :
      (m : FlatHashMap V) (e key : ℕ) (v : V)
      → e < m.capacity
      → m.keys e ≡ 0
      → key ≢ 0
      → total (filled m e key v) ≡ total m + w key v
  total-filled m e key v lt z nz = omega (
    arith,
    sum-change (cell (filled m e key v)) (cell m) m.capacity e lt
        (λ i ne. cell-filled_other m e key i v ne),
    cell-filled m e key v nz,
    cell_empty m e z,
  )

  -- A write through a pointer changes the weight of its entry.
  pub total-store :
      (m : FlatHashMap V) (i : ℕ) (v : V)
      → i < m.capacity
      → m.keys i ≢ 0
      → total (store m i v) + w (m.keys i) (m.vals i) ≡ total m + w (m.keys i) v
  unfolding store cell
  total-store m i v lt nz =
      let new : cell (store m i v) i ≡ w (m.keys i) v =
        cell_full (store m i v) i nz ∙ ap (w (m.keys i)) (update_self m.vals i v) in
      omega (
        arith,
        sum-change (cell (store m i v)) (cell m) m.capacity i lt (λ j ne.
            ap (λ x. if m.keys j == 0 then 0 else w (m.keys j) x) (update_other m.vals v ne)),
        new,
        cell_full m i nz,
      )

  -- The slot where the shift stands is given up, and no other entry is lost.
  pub total-clear_slot :
      (m : FlatHashMap V) (i : ℕ) → i < m.capacity → total (clear_slot m i) + cell m i ≡ total m
  unfolding cell
  total-clear_slot m i lt = omega (
    arith,
    sum-change (cell (clear_slot m i)) (cell m) m.capacity i lt
        (λ j ne. ap (λ k. if k == 0 then 0 else w k (m.vals j)) (update_other m.keys 0 ne)),
    cell_empty (clear_slot m i) i (update_self m.keys i 0),
  )

  pub total-move_back :
      (m : FlatHashMap V) (i next : ℕ)
      → i < m.capacity
      → next ≢ i
      → (total (move_back m i next) + cell m i ≡ total m + cell m next)
        × (cell (move_back m i next) next ≡ cell m next)
  unfolding cell
  total-move_back m i next lt apart =
      let moved = move_back m i next in
      let other : (j : ℕ) → j ≢ i → cell moved j ≡ cell m j = λ j ne.
        rw (cell, update_other m.keys (m.keys next) ne, update_other m.vals (m.vals next) ne)
          refl in
      let here : cell moved i ≡ cell m next =
        rw (cell, update_self m.keys i (m.keys next), update_self m.vals i (m.vals next)) refl in
      (
        omega (arith, sum-change (cell moved) (cell m) m.capacity i lt other, here),
        other next apart,
      )
