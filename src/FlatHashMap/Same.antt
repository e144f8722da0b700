-- ===== src/FlatHashMap/Same.antt =====
-- Two tables of src/common/flat_hash_map.hpp with the same entries, whatever their capacities, and the
-- operations that keep them so.
use native.Mathlib.Decide.{ℕ_discrete}
use mockex.Prelude.{ℕ, ◌+◌, ◌^◌, ◌≤◌, ◌<◌, ◌≡◌, ◌≢◌, refl, ap, sym, ◌∙◌, arith}
use mockex.Prelude.{none, some, ◌==◌, if◌then◌else◌, ==_of_eq, ==_of_ne}
use mockex.FlatHashMap.{FlatHashMap, find, insert, erase, store, clear_slot}
use mockex.FlatHashMap.Totals.{sum-eq, sum-zero, le-sum, cell, total, cell_full, cell_empty}
use mockex.FlatHashMap.Totals.{total-store, total-clear_slot}
use mockex.FlatHashMap.Sound.{Sound, times, slot_of_find_sound, store-Sound}
use mockex.FlatHashMap.Refill.{insert-Added}
use mockex.FlatHashMap.Shift.{erase-Erased}

module _ {ℓ} {V : Type ℓ} where
  -- Whatever the entries are given as weights, the sums are the same.
  pub record Same (m m' : FlatHashMap V) : Type ℓ where
    pub left : Sound m
    pub right : Sound m'
    pub left_wide : 4 ≤ m.capacity
    pub right_wide : 4 ≤ m'.capacity
    pub size : m.size ≡ m'.size
    pub small : m.size < 2 ^ 64
    pub weighs : (w : ℕ → V → ℕ) → total w m ≡ total w m'

  -- The search for a key ends alike in both.
  pub data Reached (m m' : FlatHashMap V) (key : ℕ) : Type 0 where
    neither : find m key ≡ none → find m' key ≡ none → Reached m m' key
    both : (i j : ℕ) → find m key ≡ some i → find m' key ≡ some j → Reached m m' key

  -- The weight of one key is that of its entry.
  abbrev only : ℕ → (V → ℕ) → ℕ → V → ℕ
  only key f k v = if k == key then f v else 0

  no_more :
      (m : FlatHashMap V) (key : ℕ) (f : V → ℕ)
      → key ≢ 0
      → times key m ≡ 0
      → total (only key f) m ≡ 0
  unfolding cell
  no_more m key f nz gone =
      sum-eq (cell (only key f) m) (λ _. 0) m.capacity
        (λ i lt. elim (ℕ_discrete (m.keys i) key) [
          | yes at ↦
              let w : ℕ → V → ℕ = λ k _. if k == key then 1 else 0 in
              let one : w (m.keys i) (m.vals i) ≡ 1 = rw (==_of_eq at) refl in
              absurd (
                omega (
                  arith,
                  le-sum (cell w m) m.capacity i lt,
                  cell_full w m i (λ z. nz (sym at ∙ z)),
                  one,
                  gone,
                ))
          | no ne ↦ elim (ℕ_discrete (m.keys i) 0) [
            | yes z ↦ cell_empty (only key f) m i z
            | no full ↦ cell_full (only key f) m i full ∙ rw (==_of_ne ne) refl
          ]
        ])
      ∙ sum-zero (λ _. 0) m.capacity (λ _. refl)

  total_at :
      {m : FlatHashMap V} (sound : Sound m) (key i : ℕ) (f : V → ℕ)
      → find m key ≡ some i
      → total (only key f) m ≡ f (m.vals i)
  total_at {m} sound key i f at =
      let (lt, there, nz, _) = slot_of_find_sound sound key i at in
      let full : m.keys i ≢ 0 = λ z. nz (sym there ∙ z) in
      let rest = clear_slot m i in
      let w : ℕ → V → ℕ = λ k _. if k == key then 1 else 0 in
      let one : w (m.keys i) (m.vals i) ≡ 1 = rw (==_of_eq there) refl in
      let here : only key f (m.keys i) (m.vals i) ≡ f (m.vals i) = rw (==_of_eq there) refl in
      let gone : times key rest ≡ 0 =
        omega (arith, total-clear_slot w m i lt, cell_full w m i full, one, sound.once key) in
      omega (
        arith,
        total-clear_slot (only key f) m i lt,
        cell_full (only key f) m i full,
        here,
        no_more rest key f nz gone,
      )

  -- An entry that is found in both has one value.
  pub Same-vals :
      {m m' : FlatHashMap V} (s : Same m m') (key i j : ℕ) (f : V → ℕ)
      → find m key ≡ some i
      → find m' key ≡ some j
      → f (m.vals i) ≡ f (m'.vals j)
  Same-vals s key i j f at at' =
      sym (total_at s.left key i f at) ∙ s.weighs (only key f) ∙ total_at s.right key j f at'

  pub insert-Same :
      {m m' : FlatHashMap V} (s : Same m m') (key : ℕ) (v : V)
      → key ≢ 0
      → times key m ≡ 0
      → m.size + 1 < 2 ^ 64
      → Same (insert m key v).0 (insert m' key v).0
  insert-Same s key v nz gone few =
      let a = insert-Added s.left key v nz gone s.left_wide in
      let a' = insert-Added s.right key v nz (sym (s.weighs _) ∙ gone) s.right_wide in
      record {
        left = a.ok;
        right = a'.ok;
        left_wide = omega (arith, a.wide, s.left_wide);
        right_wide = omega (arith, a'.wide, s.right_wide);
        size = omega (arith, a.size, a'.size, s.size);
        small = omega (arith, a.size, few);
        weighs = λ w. omega (arith, a.weighs w, a'.weighs w, s.weighs w);
      }

  pub erase-Same :
      {m m' : FlatHashMap V} (s : Same m m') (key i j : ℕ)
      → find m key ≡ some i
      → find m' key ≡ some j
      → m.vals i ≡ m'.vals j
      → Same (erase m key).0 (erase m' key).0
  erase-Same {m} {m'} s key i j at at' same =
      let e = erase-Erased s.left key i s.small at in
      let e' = erase-Erased s.right key j (omega (arith, s.size, s.small)) at' in
      record {
        left = e.ok;
        right = e'.ok;
        left_wide = omega (arith, e.capacity, s.left_wide);
        right_wide = omega (arith, e'.capacity, s.right_wide);
        size = omega (arith, e.size, e'.size, s.size);
        small = omega (arith, e.size, s.small);
        weighs = λ w. omega (arith, e.weighs w, e'.weighs w, s.weighs w, ap (w key) same);
      }

  pub store-Same :
      {m m' : FlatHashMap V} (s : Same m m') (key i j : ℕ) (v v' : V)
      → find m key ≡ some i
      → find m' key ≡ some j
      → m.vals i ≡ m'.vals j
      → v ≡ v'
      → Same (store m i v) (store m' j v')
  store-Same {m} {m'} s key i j v v' at at' same new =
      let (lt, there, nz, _) = slot_of_find_sound s.left key i at in
      let (lt', there', _, _) = slot_of_find_sound s.right key j at' in
      record {
        left = store-Sound s.left key i v;
        right = store-Sound s.right key j v';
        left_wide = unfold store in s.left_wide;
        right_wide = unfold store in s.right_wide;
        size = unfold store in s.size;
        small = unfold store in s.small;
        weighs = λ w. omega (
          arith,
          total-store w m i v lt (λ z. nz (sym there ∙ z)),
          total-store w m' j v' lt' (λ z. nz (sym there' ∙ z)),
          s.weighs w,
          ap (λ (k : ℕ). w k (m.vals i)) there,
          ap (λ (k : ℕ). w k (m'.vals j)) there',
          ap (w key) same,
          ap (λ (k : ℕ). w k v) there,
          ap (λ (k : ℕ). w k v') there',
          ap (w key) new,
        );
      }

  -- An entry that is found in both is taken out and put in again in the one, and written over in the
  -- other.
  pub replace-Same :
      {m m' : FlatHashMap V} (s : Same m m') (key i j : ℕ) (v v' : V)
      → find m key ≡ some i
      → find m' key ≡ some j
      → m.vals i ≡ m'.vals j
      → v ≡ v'
      → Same (insert (erase m key).0 key v).0 (store m' j v')
  replace-Same {m} {m'} s key i j v v' at at' same new =
      let (lt, there, nz, _) = slot_of_find_sound s.right key j at' in
      let e = erase-Erased s.left key i s.small at in
      let count : ℕ → V → ℕ = λ k _. if k == key then 1 else 0 in
      let one : count key (m.vals i) ≡ 1 = rw (==_of_eq {a = key} refl) refl in
      let gone : times key (erase m key).0 ≡ 0 =
        omega (arith, e.weighs count, one, s.left.once key) in
      let stored : m.size ≡ (store m' j v').size = unfold store in s.size in
      let a = insert-Added e.ok key v nz gone (omega (arith, e.capacity, s.left_wide)) in
      record {
        left = a.ok;
        right = store-Sound s.right key j v';
        left_wide = omega (arith, a.wide, e.capacity, s.left_wide);
        right_wide = unfold store in s.right_wide;
        size = omega (arith, a.size, e.size, stored);
        small = omega (arith, a.size, e.size, s.small);
        weighs = λ w. omega (
          arith,
          a.weighs w,
          e.weighs w,
          total-store w m' j v' lt (λ z. nz (sym there ∙ z)),
          s.weighs w,
          ap (λ (k : ℕ). w k (m'.vals j)) there,
          ap (λ (k : ℕ). w k v') there,
          ap (w key) same,
          ap (w key) new,
        );
      }
