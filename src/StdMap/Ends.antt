-- ===== src/StdMap/Ends.antt =====
-- The smallest and the largest element of a sorted map.
use mockex.Prelude.{ℕ, ◌<◌, ◌≤◌, ◌≡◌, ◌≢◌, refl, ltb, if◌then◌else◌, none, some}
use mockex.Prelude.{[], ◌∷◌, All, arith, Option-cases, inl, inr}
use mockex.StdMap.{StdMap, IsSorted, lookup, assign, first, last}
use mockex.StdMap.Laws.{lookup_above}

module _ {V : Type 0} where
  -- Keys above a bound: so is the last.
  last_above : (k : ℕ) (m : StdMap V) {e : ℕ × V} → All (λ f. k < f.0) m → last m ≡ some e → k < e.0
  unfolding last
  last_above k [] a h = cc
  last_above k (f ∷ m) {e} a h = ground (arith, last_above k m {e = e})

  pub last-none : (m : StdMap V) (q : ℕ) {v : V} → last m ≡ none → lookup q m ≢ some v
  unfolding last lookup
  last-none [] q h at = cc
  last-none (f ∷ m) q h at = ground arith

  pub first-none : (m : StdMap V) (q : ℕ) {v : V} → first m ≡ none → lookup q m ≢ some v
  unfolding first lookup
  first-none [] q h at = cc
  first-none (f ∷ m) q h at = cc

  pub first-assign :
      (k : ℕ) (v : V) (m : StdMap V)
      → first (assign k v m)
        ≡ elim (first m) [ none ↦ some (k, v) | some e ↦ if ltb e.0 k then some e else some (k, v) ]
  unfolding first assign
  first-assign k v [] = refl
  first-assign k v ((j, w) ∷ m) = ground arith

  pub last-assign :
      (k : ℕ) (v : V) (m : StdMap V)
      → IsSorted m
      → last (assign k v m)
        ≡ elim (last m) [ none ↦ some (k, v) | some e ↦ if ltb k e.0 then some e else some (k, v) ]
  unfolding last assign
  last-assign k v [] s = refl
  last-assign k v ((j, w) ∷ m) s = elim (Option-cases (last m)) [
    | inl nil ↦ ground (arith, last-assign k v m)
    | inr (e, at) ↦ ground (arith, last-assign k v m, last_above j m {e = e} s.0 at)
  ]

  -- The first element is what its key reads, and no key is below it.
  pub lookup-first : (m : StdMap V) {j : ℕ} {w : V} → first m ≡ some (j, w) → lookup j m ≡ some w
  unfolding first lookup
  lookup-first [] h = cc
  lookup-first ((i, u) ∷ m) {j} {w} h = ground arith

  pub first_is_min :
      (m : StdMap V) (q : ℕ) {j : ℕ} {w v : V}
      → IsSorted m
      → first m ≡ some (j, w)
      → lookup q m ≡ some v
      → j ≤ q
  unfolding first lookup
  first_is_min [] q s h at = cc
  first_is_min ((i, u) ∷ m) q {v = v} s h at = ground (arith, lookup_above i q m {v = v})

  -- The last element is what its key reads, and no key is above it.
  pub lookup-last :
      (m : StdMap V) {j : ℕ} {w : V} → IsSorted m → last m ≡ some (j, w) → lookup j m ≡ some w
  unfolding last lookup
  lookup-last [] s h = cc
  lookup-last ((i, u) ∷ m) {j} {w} s h =
      ground (arith, lookup-last m {j = j} {w = w}, last_above i m {e = (j, w)})

  pub last_is_max :
      (m : StdMap V) (q : ℕ) {j : ℕ} {w v : V}
      → IsSorted m
      → last m ≡ some (j, w)
      → lookup q m ≡ some v
      → q ≤ j
  unfolding last lookup
  last_is_max [] q s h at = cc
  last_is_max ((i, u) ∷ m) q {j} {w} {v} s h at = ground (
    arith,
    last_is_max m q {j = j} {w = w} {v = v},
    last_above i m {e = (j, w)},
    last-none m q {v = v},
  )
