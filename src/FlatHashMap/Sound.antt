-- ===== src/FlatHashMap/Sound.antt =====
-- What every operation of the table of src/common/flat_hash_map.hpp keeps, also after an `erase` that
-- leaves a stored key out of reach of its probe: each key has one slot at most, and `size_` is right.
use native.Mathlib.Decide.{ℕ_discrete}
use native.Mathlib.Nat.{one-le-pow}
use mockex.Prelude.{ℕ, zero, suc, ◌+◌, ◌-◌, ◌^◌, ◌≤◌, ◌<◌, ◌≡◌, ◌≢◌, refl, ap, sym, ◌∙◌}
use mockex.Prelude.{arith, inl, inr, ◌==◌, if◌then◌else◌, ==_of_eq, ==_of_ne, some}
use mockex.FlatHashMap.{FlatHashMap, hit, free, probe, locate, home, place, find, store}
use mockex.FlatHashMap.Probing.{home-lt, hit-lt, free-lt, key_of_hit, empty_of_free, probe-ends}
use mockex.FlatHashMap.Valid.{used, empty_slot, steps_between, used-update}
use mockex.FlatHashMap.Place.{Probe-cases}
use mockex.FlatHashMap.Totals.{cell, total, le-sum, cell_full, cell_empty, total-filled, sum-zero}

-- How many slots hold a key.
abbrev pub times {ℓ} : {V : Type ℓ} → ℕ → FlatHashMap V → ℕ
times k m = total (λ key _. if key == k then 1 else 0) m

pub record Sound {ℓ} {V : Type ℓ} (m : FlatHashMap V) : Type 0 where
  pub bits : ℕ
  pub power : m.capacity ≡ 2 ^ bits
  pub masked : m.mask ≡ 2 ^ bits - 1
  pub counted : m.size ≡ used m.keys (2 ^ bits)
  pub roomy : m.size < 2 ^ bits
  pub once : (k : ℕ) → times k m ≤ 1

module _ {ℓ} {V : Type ℓ} {m : FlatHashMap V} (sound : Sound m) (key : ℕ) where
  abbrev slots : ℕ
  slots = 2 ^ sound.bits

  pub times_at : (i : ℕ) → i < m.capacity → m.keys i ≡ key → key ≢ 0 → 1 ≤ times key m
  times_at i lt at nz =
      let w : ℕ → V → ℕ = λ k _. if k == key then 1 else 0 in
      let one : w (m.keys i) (m.vals i) ≡ 1 = rw (==_of_eq at) refl in
      omega (arith, le-sum (cell w m) m.capacity i lt, cell_full w m i (λ z. nz (sym at ∙ z)), one)

  -- The search for a key that no slot holds ends at a free slot.
  pub locate_absent :
      key ≢ 0
      → times key m ≡ 0
      → (e : ℕ) × (locate m key ≡ free e) × (e < m.capacity) × (m.keys e ≡ 0)
  locate_absent nz gone =
      let start = home (slots - 1) key in
      let same : locate m key ≡ probe m.keys (slots - 1) slots key start =
        rw (sound.power, sound.masked) refl in
      let (e, lt, z) = empty_slot m.keys slots (omega (arith, sound.counted, sound.roomy)) in
      let (d, few, at) = steps_between start e slots (home-lt sound.bits key) lt in
      let ends =
        probe-ends sound.bits m.keys slots key start d e (home-lt sound.bits key) z at few in
      elim (Probe-cases (probe m.keys (slots - 1) slots key start)) [
        | inl (i, h) ↦
            let inside = hit-lt sound.bits m.keys slots key start (home-lt sound.bits key) h in
            let there = (key_of_hit m.keys (slots - 1) slots key start h).0 in
            absurd (omega (arith, times_at i (rw sound.power inside) there nz))
        | inr (inl (i, h)) ↦ (
          i,
          same ∙ h,
          rw sound.power (free-lt sound.bits m.keys slots key start (home-lt sound.bits key) h),
          empty_of_free m.keys (slots - 1) slots key start h,
        )
        | inr (inr h) ↦ absurd (ends h)
      ]

  -- What `find` returns is a slot of the table that holds the key.
  pub slot_of_find_sound :
      (i : ℕ)
      → find m key ≡ some i
      → (i < m.capacity) × (m.keys i ≡ key) × (key ≢ 0) × (locate m key ≡ hit i)
  unfolding find
  slot_of_find_sound i h =
      let start = home (slots - 1) key in
      let at : locate m key ≡ hit i = ground arith in
      let nz : key ≢ 0 = ground arith in
      let there : probe m.keys (slots - 1) slots key start ≡ hit i =
        rw (sound.power, sound.masked) at at in
      (
        rw sound.power (hit-lt sound.bits m.keys slots key start (home-lt sound.bits key) there),
        (key_of_hit m.keys (slots - 1) slots key start there).0,
        nz,
        at,
      )

  -- A new key goes to a free slot.
  pub place-new :
      (v : V)
      → key ≢ 0
      → times key m ≡ 0
      → m.size + 1 < m.capacity
      → Sound (place m key v).0
        × ((place m key v).0.capacity ≡ m.capacity)
        × ((place m key v).0.size ≡ m.size + 1)
        × ((w : ℕ → V → ℕ) → total w (place m key v).0 ≡ total w m + w key v)
  unfolding place
  place-new v nz gone room =
      let (e, at, lt, z) = locate_absent nz gone in
      let weighs = λ (w : ℕ → V → ℕ). total-filled w m e key v lt z nz in
      rw (place, at)
        (
          record {
            bits = sound.bits;
            power = sound.power;
            masked = sound.masked;
            counted = omega (
              arith,
              sound.counted,
              used-update m.keys slots e key (omega (arith, sound.power)) z nz,
            );
            roomy = omega (arith, sound.power);
            once = λ k.
                let w : ℕ → V → ℕ = λ j _. if j == k then 1 else 0 in
                elim (ℕ_discrete key k) [
                  | yes same ↦
                      let one : w key v ≡ 1 = rw (==_of_eq same) refl in
                      omega (arith, weighs w, one, gone, ap (λ (j : ℕ). times j m) same)
                  | no other ↦
                      let none : w key v ≡ 0 = rw (==_of_ne other) refl in
                      omega (arith, weighs w, none, sound.once k)
                ];
          },
          refl,
          refl,
          weighs,
        )

  -- A write through a pointer.
  pub store-Sound : (i : ℕ) (v : V) → Sound (store m i v)
  unfolding store cell
  store-Sound i v = record {
    bits = sound.bits;
    power = sound.power;
    masked = sound.masked;
    counted = sound.counted;
    roomy = sound.roomy;
    once = sound.once;
  }

-- A key that no slot holds.
pub times_absent {ℓ} :
    {V : Type ℓ} (m : FlatHashMap V) (k : ℕ) → ((i : ℕ) → m.keys i ≢ k) → times k m ≡ 0
unfolding cell
times_absent m k gone =
    sum-zero (cell (λ key _. if key == k then 1 else 0) m) m.capacity
      (λ i. let other = gone i in ground (arith, other))

used_vacant : (keys : ℕ → ℕ) (n : ℕ) → ((i : ℕ) → keys i ≡ 0) → used keys n ≡ 0
unfolding used
used_vacant keys zero z = refl
used_vacant keys (suc n) z = rw (==_of_eq (z n)) (omega (arith, used_vacant keys n z))

-- A table of empty slots.
pub vacant-Sound {ℓ} :
    {V : Type ℓ} (m : FlatHashMap V) (bits : ℕ)
    → m.capacity ≡ 2 ^ bits
    → m.mask ≡ 2 ^ bits - 1
    → m.size ≡ 0
    → ((i : ℕ) → m.keys i ≡ 0)
    → Sound m
vacant-Sound m bits power masked none_in z = record {
  bits = bits;
  power = power;
  masked = masked;
  counted = none_in ∙ sym (used_vacant m.keys (2 ^ bits) z);
  roomy = omega (arith, none_in, one-le-pow bits 2 (omega arith));
  once = λ k. omega (
    arith,
    sum-zero (cell (λ key _. if key == k then 1 else 0) m) m.capacity (λ i. cell_empty _ m i (z i)),
  );
}
