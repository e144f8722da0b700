-- ===== src/FlatHashMap/Erase.antt =====
-- `erase` of src/common/flat_hash_map.hpp: the backward shift stops at an entry in its home slot,
-- though an entry behind that one may have been probed through the erased slot.
use mockex.Prelude.{ℕ, zero, suc, ◌+◌, ◌-◌, ◌%◌, ◌^◌, ◌<◌, ◌≡◌, refl, ◌≢◌}
use mockex.Prelude.{arith, none, some, ==_of_eq, ==_of_ne}
use mockex.FlatHashMap.{FlatHashMap, hit, free, probe, home, locate, find}
use mockex.FlatHashMap.{erase, backward_shift, next_slot, distance, clear_slot}
use mockex.FlatHashMap.Valid.{IsValid, slot_of_find}

probe_here_empty :
    (keys : ℕ → ℕ) (mask fuel key idx : ℕ)
    → 0 < fuel
    → keys idx ≡ 0
    → probe keys mask fuel key idx ≡ free idx
unfolding probe
probe_here_empty keys mask zero key idx h z = absurd (omega arith)
probe_here_empty keys mask (suc fuel) key idx h z = rw (==_of_eq z)

module _ {ℓ} {V : Type ℓ} where
  -- The shift does nothing but clear the slot where it starts, if the next entry is at home.
  shift_at_home :
      (m : FlatHashMap V) (fuel i : ℕ)
      → 0 < fuel
      → distance m (next_slot m.mask i) ≡ 0
      → m.keys (next_slot m.mask i) ≢ 0
      → backward_shift fuel m i ≡ clear_slot m i
  unfolding backward_shift
  shift_at_home m zero i h d nz = absurd (omega arith)
  shift_at_home m (suc fuel) i h d nz = rw (==_of_ne nz, ==_of_eq d)

  -- The loop of a key whose home slot is empty ends there.
  find-home_empty :
      (m : FlatHashMap V) (key : ℕ)
      → 0 < m.capacity
      → m.keys (home m.mask key) ≡ 0
      → find m key ≡ none
  unfolding find
  find-home_empty m key room z =
      ground (arith, probe_here_empty m.keys m.mask m.capacity key (home m.mask key) room z)

  locate_of_find :
      (m : FlatHashMap V) (key i : ℕ) → find m key ≡ some i → (key ≢ 0) × (locate m key ≡ hit i)
  unfolding find
  locate_of_find m key i h = ground arith

  abbrev one_fewer : FlatHashMap V → FlatHashMap V
  one_fewer m = record m { size = (m.size + 2 ^ 64 - 1) % 2 ^ 64 }

  -- A key that is found is where `erase` starts to shift.
  erase_of_find :
      (m : FlatHashMap V) (key i : ℕ)
      → find m key ≡ some i
      → (erase m key).0 ≡ backward_shift m.capacity (one_fewer m) i
  unfolding erase
  erase_of_find m key i h = let (nz, at) = locate_of_find m key i h in rw (erase, ==_of_ne nz, at)

  -- In a valid table, `erase` of a stored key loses each other stored key whose home is the erased
  -- slot, when the slot behind the erased one holds an entry that stands in its own home slot.
  pub find-erase_stranded :
      (m : FlatHashMap V) (key other i j : ℕ)
      → IsValid m
      → find m key ≡ some i
      → find m other ≡ some j
      → other ≢ key
      → home m.mask other ≡ i
      → m.keys (next_slot m.mask i) ≢ 0
      → distance m (next_slot m.mask i) ≡ 0
      → find (erase m key).0 other ≡ none
  unfolding distance
  find-erase_stranded m key other i j valid at_i at_j ne hashes full d =
      let (lt, _, _) = slot_of_find valid key i at_i in
      let room : 0 < m.capacity = omega arith in
      rw (erase_of_find m key i at_i, shift_at_home (one_fewer m) m.capacity i room d full)
        (find-home_empty (clear_slot (one_fewer m) i) other room
          (rw (hashes, ==_of_eq {a = i} refl)))
