-- ===== src/FlatHashMap/Insert.antt =====
-- `insert` of src/common/flat_hash_map.hpp, with the growth that it may start.
use mockex.Prelude.{ℕ, ◌+◌, ◌≤◌, ◌<◌, ◌≡◌, ap, ◌≢◌, ◌∙◌}
use mockex.Prelude.{◌==◌, if◌then◌else◌, arith, inl, inr, some, true}
use mockex.Prelude.{Bool, Bool-cases, ==_of_ne}
use mockex.FlatHashMap.{FlatHashMap}
use mockex.FlatHashMap.{lookup, place, insert_at_depth, insert}
use mockex.FlatHashMap.{is_loaded}
use mockex.FlatHashMap.Valid.{IsValid}
use mockex.FlatHashMap.Place.{place-IsValid, place-done, lookup-place}
use mockex.FlatHashMap.Grow.{grow_lem, capacity-place}

module _ {ℓ} {V : Type ℓ} where
  -- `insert` under a key other than the empty key, on a table of at least four slots.
  pub record Inserted (m : FlatHashMap V) (key : ℕ) (v : V) (r : FlatHashMap V × Bool)
      : Type ℓ where
    pub valid : IsValid r.0
    pub done : r.1 ≡ true
    pub wide : m.capacity ≤ r.0.capacity
    pub reads : (q : ℕ) → lookup r.0 q ≡ (if q == key then some v else lookup m q)

  place-Inserted :
      {m : FlatHashMap V}
      → IsValid m
      → (key : ℕ) (v : V) → key ≢ 0
      → m.size + 1 < m.capacity
      → Inserted m key v (place m key v)
  place-Inserted {m = m} valid key v nz room = record {
    valid = place-IsValid valid key v nz room;
    done = place-done valid key v nz room;
    wide = omega (arith, capacity-place m key v);
    reads = lookup-place valid key v nz room;
  }

  -- An insert under a nonzero key, into a valid table of at least four slots, succeeds and gives a
  -- valid table, no smaller than before, in which that key reads the new value and every other key
  -- reads what it read before, whether or not the table had to grow.
  pub insert-Inserted :
      {m : FlatHashMap V}
      → IsValid m
      → (key : ℕ) (v : V) → key ≢ 0
      → 4 ≤ m.capacity
      → Inserted m key v (insert m key v)
  unfolding insert
  insert-Inserted {m = m} valid key v nz wide = elim (Bool-cases (is_loaded m)) [
    | inl loaded ↦
        let (grown_valid, doubled_cap, same_size, same_reads) = grow_lem valid in
        let r = place-Inserted grown_valid key v nz (omega (arith, valid.roomy, valid.power)) in
        rw (insert, insert_at_depth, ==_of_ne nz, loaded)
          (record {
            valid = r.valid;
            done = r.done;
            wide = omega (arith, r.wide);
            reads = λ q. r.reads q ∙ ap (λ o. if q == key then some v else o) (same_reads q);
          })
    | inr light ↦
        rw (insert, insert_at_depth, ==_of_ne nz, light)
          (place-Inserted valid key v nz (ground arith))
  ]
