-- ===== src/FlatHashMap/Entries.antt =====
-- What holds of every entry of the hash map of src/common/flat_hash_map.hpp, whatever the probing
-- finds: no operation makes an entry up.
use native.Mathlib.Decide.{ℕ_discrete}
use mockex.Prelude.{ℕ, zero, suc, ◌+◌, ◌≡◌, ◌≢◌, refl, arith, ◌==◌}
use mockex.Prelude.{Bool, inl, inr, Bool-cases, subst, some, ==_of_eq, ==_of_ne}
use mockex.FlatHashMap.{FlatHashMap, home, update, locate, find, place, store}
use mockex.FlatHashMap.{reinsert, grow, doubled, insert_at_depth, insert, is_loaded, distance}
use mockex.FlatHashMap.{backward_shift, move_back, clear_slot, erase, next_slot}
use mockex.FlatHashMap.Probing.{key_of_hit}
use mockex.FlatHashMap.Place.{update_self, update_other, Probe-cases}

key_of_find {ℓ} :
    {V : Type ℓ} (m : FlatHashMap V) (key i : ℕ)
    → find m key ≡ some i
    → (m.keys i ≡ key) × (key ≢ 0)
unfolding find
key_of_find m key i at =
    ground (arith, key_of_hit m.keys m.mask m.capacity key (home m.mask key) {j = i})

module _ {ℓ} {V : Type ℓ} (P : ℕ → V → Type 0) where
  -- Every entry satisfies P.
  abbrev pub Holds : FlatHashMap V → Type 0
  Holds m = (i : ℕ) → m.keys i ≢ 0 → P (m.keys i) (m.vals i)

  written-Holds :
      (m : FlatHashMap V) (i key : ℕ) (v : V)
      → (key ≢ 0 → P key v)
      → Holds m
      → Holds (record m { keys = update m.keys i key; vals = update m.vals i v })
  written-Holds m i key v p h j = elim (ℕ_discrete j i) [
    | yes same ↦ rw (same, update_self m.keys i key, update_self m.vals i v) p
    | no other ↦ rw (update_other m.keys key other, update_other m.vals v other) (h j)
  ]

  place-Holds : (m : FlatHashMap V) (key : ℕ) (v : V) → P key v → Holds m → Holds (place m key v).0
  unfolding place store
  place-Holds m key v p h = elim (Probe-cases (locate m key)) [
    | inl (i, at) ↦
        let there = (key_of_hit m.keys m.mask m.capacity key _ at).0 in
        rw (at, place)
          (λ j. elim (ℕ_discrete j i) [
            | yes same ↦ rw (same, update_self m.vals i v, there) (λ _. p)
            | no other ↦ rw (update_other m.vals v other) (h j)
          ])
    | inr (inl (i, at)) ↦ rw (at, place) (written-Holds m i key v (λ _. p) h)
    | inr (inr at) ↦ rw (at, place) h
  ]

  reinsert-Holds :
      (ins : FlatHashMap V → ℕ → V → FlatHashMap V × Bool)
      → ((m : FlatHashMap V) (key : ℕ) (v : V) → P key v → Holds m → Holds (ins m key v).0)
      → (old : FlatHashMap V) (n i : ℕ) (m : FlatHashMap V) → Holds old
      → Holds m
      → Holds (reinsert ins old.keys old.vals n i m)
  unfolding reinsert
  reinsert-Holds ins keep old zero i m from h = h
  reinsert-Holds ins keep old (suc n) i m from h = elim (ℕ_discrete (old.keys i) 0) [
    | yes z ↦ rw (==_of_eq z, reinsert) (reinsert-Holds ins keep old n (i + 1) m from h)
    | no nz ↦
        rw (==_of_ne nz, reinsert)
          (reinsert-Holds ins keep old n (i + 1) _ from
            (keep m (old.keys i) (old.vals i) (from i nz) h))
  ]

  insert_at_depth-Holds :
      (depth : ℕ) (m : FlatHashMap V) (key : ℕ) (v : V)
      → P key v
      → Holds m
      → Holds (insert_at_depth depth m key v).0
  unfolding insert_at_depth grow
  insert_at_depth-Holds zero m key v p h = h
  insert_at_depth-Holds (suc depth) m key v p h =
      let grown : Holds (grow (insert_at_depth depth) m) =
        reinsert-Holds (insert_at_depth depth) (insert_at_depth-Holds depth) m m.capacity 0
          (doubled m) h (λ i nz. absurd (nz refl)) in
      elim (Bool-cases (key == 0)) [
        | inl z ↦ rw (insert_at_depth, z) h
        | inr nz ↦ elim (Bool-cases (is_loaded m)) [
          | inl loaded ↦ rw (insert_at_depth, nz, loaded) (place-Holds _ key v p grown)
          | inr light ↦ rw (insert_at_depth, nz, light) (place-Holds m key v p h)
        ]
      ]

  pub insert-Holds :
      (m : FlatHashMap V) (key : ℕ) (v : V) → P key v → Holds m → Holds (insert m key v).0
  unfolding insert
  insert-Holds m key v p h = insert_at_depth-Holds 2 m key v p h

  backward_shift-Holds :
      (fuel : ℕ) (m : FlatHashMap V) (idx : ℕ) → Holds m → Holds (backward_shift fuel m idx)
  unfolding backward_shift
  backward_shift-Holds zero m idx h = h
  backward_shift-Holds (suc fuel) m idx h =
      let next = next_slot m.mask idx in
      let cleared : Holds (clear_slot m idx) = λ j. elim (ℕ_discrete j idx) [
        | yes same ↦ rw (same, update_self m.keys idx 0) (λ nz. absurd (nz refl))
        | no other ↦ rw (update_other m.keys 0 other) (h j)
      ] in
      let rest =
        backward_shift-Holds fuel (move_back m idx next) next
          (written-Holds m idx (m.keys next) (m.vals next) (h next) h) in
      elim (Bool-cases (m.keys next == 0)) [
        | inl z ↦ rw (backward_shift, z) cleared
        | inr nz ↦ elim (Bool-cases (distance m next == 0)) [
          | inl home ↦ rw (backward_shift, nz, home) cleared
          | inr away ↦ rw (backward_shift, nz, away) rest
        ]
      ]

  pub erase-Holds : (m : FlatHashMap V) (key : ℕ) → Holds m → Holds (erase m key).0
  unfolding erase
  erase-Holds m key h = elim (Bool-cases (key == 0)) [
    | inl z ↦ rw (erase, z) h
    | inr nz ↦ elim (Probe-cases (locate m key)) [
      | inl (i, at) ↦ rw (erase, nz, at) (backward_shift-Holds m.capacity _ i h)
      | inr (inl (i, at)) ↦ rw (erase, nz, at) h
      | inr (inr at) ↦ rw (erase, nz, at) h
    ]
  ]

  -- What `find` points to is an entry for the key.
  pub find-Holds :
      (m : FlatHashMap V) (key i : ℕ) → Holds m → find m key ≡ some i → P key (m.vals i)
  find-Holds m key i h at =
      let (there, nz) = key_of_find m key i at in
      subst (λ k. P k (m.vals i)) there (h i (rw there nz))
