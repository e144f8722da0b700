-- ===== src/FlatHashMap/Valid.antt =====
-- The invariant of the hash map of src/common/flat_hash_map.hpp, and what a lookup returns under it.
use native.Mathlib.Decide.{dec_lt}
use native.Mathlib.Nat.{mod-eq_of_lt}
use mockex.Prelude.{ℕ, zero, suc, ◌+◌, ◌-◌, ◌%◌, ◌^◌, ◌≤◌, ◌<◌, ◌≡◌, refl, ap, ◌≢◌, ◌∙◌}
use mockex.Prelude.{◌==◌, if◌then◌else◌, arith, inl, inr, Bool-cases, ==→eq, none, some}
use mockex.FlatHashMap.{FlatHashMap, hit, free, stuck, probe, home, update, locate, find}
use mockex.FlatHashMap.Probing.{key_of_hit, empty_of_free, home-lt, hit-lt, free-lt, probe-ends}

-- The number of slots below n that hold a key.
unfoldable pub used : (ℕ → ℕ) → ℕ → ℕ
used keys zero = 0
used keys (suc n) = (if keys n == 0 then 0 else 1) + used keys n

-- The capacity is a power of two with its mask, `size_` counts the keys, a slot stays empty, and
-- the probe of each stored key ends at its slot: no key is stored twice or out of reach.
pub record IsValid {ℓ} {V : Type ℓ} (m : FlatHashMap V) : Type 0 where
  pub bits : ℕ
  pub power : m.capacity ≡ 2 ^ bits
  pub masked : m.mask ≡ 2 ^ bits - 1
  pub counted : m.size ≡ used m.keys (2 ^ bits)
  pub roomy : m.size < 2 ^ bits
  pub reached :
      (i : ℕ)
      → i < 2 ^ bits
      → m.keys i ≢ 0
      → probe m.keys (2 ^ bits - 1) (2 ^ bits) (m.keys i) (home (2 ^ bits - 1) (m.keys i)) ≡ hit i

-- A table with fewer keys than slots has an empty slot.
pub empty_slot : (keys : ℕ → ℕ) (n : ℕ) → used keys n < n → (e : ℕ) × (e < n) × (keys e ≡ 0)
unfolding used
empty_slot keys zero h = absurd (omega arith)
empty_slot keys (suc n) h = elim (Bool-cases (keys n == 0)) [
  | inl z ↦ (n, omega arith, ==→eq (keys n) 0 z)
  | inr nz ↦ let (e, lt, at) = empty_slot keys n (ground arith) in (e, omega arith, at)
]

-- Filling an empty slot adds one where the slot is counted.
pub used-update_above :
    (keys : ℕ → ℕ) (n e key : ℕ) → n ≤ e → used (update keys e key) n ≡ used keys n
unfolding used
used-update_above keys zero e key le = refl
used-update_above keys (suc n) e key le = ground (arith, used-update_above keys n e key)

pub used-update :
    (keys : ℕ → ℕ) (n e key : ℕ)
    → e < n
    → keys e ≡ 0
    → key ≢ 0
    → used (update keys e key) n ≡ used keys n + 1
unfolding used
used-update keys zero e key lt z nz = absurd (omega arith)
used-update keys (suc n) e key lt z nz =
    ground
      (arith, used-update keys n e key, used-update_above keys n e key, ap keys {x = e} {y = n})

-- From any slot each other one is fewer steps away than there are slots.
pub steps_between :
    (start e cap : ℕ) → start < cap → e < cap → (d : ℕ) × (d < cap) × ((start + d) % cap ≡ e)
steps_between start e cap hs he = elim (dec_lt e start) [
  | no ahead ↦ (e - start, omega arith, ap (λ (t : ℕ). t % cap) (omega arith) ∙ mod-eq_of_lt he)
  | yes behind ↦ (e + cap - start, omega arith, grind arith)
]

module _ {ℓ} {V : Type ℓ} {m : FlatHashMap V} (valid : IsValid m) (key : ℕ) where
  abbrev slots : ℕ
  slots = 2 ^ valid.bits

  -- In a valid table the probing loop for any key ends within as many rounds as there are slots.
  pub locate-ne-stuck : locate m key ≢ stuck
  locate-ne-stuck =
      let start = home (slots - 1) key in
      let (e, lt, z) = empty_slot m.keys slots (omega (arith, valid.counted, valid.roomy)) in
      let (d, few, at) = steps_between start e slots (home-lt valid.bits key) lt in
      rw (valid.power, valid.masked)
        (probe-ends valid.bits m.keys slots key start d e (home-lt valid.bits key) z at few)

  -- `find` returns the one slot that holds the key.
  pub find-slot : (i : ℕ) → i < m.capacity → m.keys i ≡ key → key ≢ 0 → find m key ≡ some i
  unfolding find
  find-slot i lt at nz =
      let there : locate m key ≡ hit i =
        rw (valid.power, valid.masked, ← at)
          (valid.reached i (omega (arith, valid.power)) (rw at nz)) in
      ground (arith, there)

  -- A probe that hits is inside the table, at the key.
  pub slot_of_hit : (i : ℕ) → locate m key ≡ hit i → (i < m.capacity) × (m.keys i ≡ key)
  slot_of_hit i h =
      let there : probe m.keys (slots - 1) slots key (home (slots - 1) key) ≡ hit i =
        rw (valid.power, valid.masked) at h in
      (
        rw valid.power (hit-lt valid.bits m.keys slots key _ (home-lt valid.bits key) there),
        (key_of_hit m.keys (slots - 1) slots key _ there).0,
      )

  -- A probe that ends at a free slot is inside the table, at an empty slot.
  pub slot_of_free : (i : ℕ) → locate m key ≡ free i → (i < m.capacity) × (m.keys i ≡ 0)
  slot_of_free i h =
      let there : probe m.keys (slots - 1) slots key (home (slots - 1) key) ≡ free i =
        rw (valid.power, valid.masked) at h in
      (
        rw valid.power (free-lt valid.bits m.keys slots key _ (home-lt valid.bits key) there),
        empty_of_free m.keys (slots - 1) slots key _ there,
      )

  -- What `find` returns is a slot of the table that holds the key.
  pub slot_of_find : (i : ℕ) → find m key ≡ some i → (i < m.capacity) × (m.keys i ≡ key) × (key ≢ 0)
  unfolding find
  slot_of_find i h = ground (arith, slot_of_hit i)

  -- A key that `find` does not return is in no slot.
  pub absent_of_find : (i : ℕ) → find m key ≡ none → i < m.capacity → key ≢ 0 → m.keys i ≢ key
  absent_of_find i h lt nz at = cc (find-slot i lt at nz)
