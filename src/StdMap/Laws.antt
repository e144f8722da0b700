-- ===== src/StdMap/Laws.antt =====
-- What a key reads in a sorted map after each change.
use mockex.Prelude.{ℕ, ◌<◌, ◌≡◌, refl, ◌==◌, if◌then◌else◌, none, some}
use native.Mathlib.Decide.{dec_lt, ℕ_discrete}
use mockex.Prelude.{==_of_eq, ==_of_ne, lt→ltb, ltb_of_le, subst}
use mockex.Prelude.{List, [], ◌∷◌, All, arith}
use mockex.StdMap.{StdMap, IsSorted, lookup, assign, erase}

-- A predicate that weakens along an implication.
pub All-map {ℓ κ μ} :
    {A : Type ℓ} (P : A → Type κ) (Q : A → Type μ) (xs : List A)
    → ((x : A) → P x → Q x)
    → All P xs
    → All Q xs
All-map P Q [] f h = tt
All-map P Q (x ∷ xs) f h = (f x h.0, All-map P Q xs f h.1)

module _ {V : Type 0} where
  -- A predicate of the keys survives a write and a removal.
  pub All-assign :
      (P : ℕ → Type 0) (k : ℕ) (v : V) (m : StdMap V)
      → P k
      → All (λ e. P e.0) m
      → All (λ e. P e.0) (assign k v m)
  unfolding assign
  All-assign P k v [] h a = (h, tt)
  All-assign P k v ((j, w) ∷ m) h a = ground (arith, All-assign P k v m h)

  pub All-erase :
      (P : ℕ → Type 0) (k : ℕ) (m : StdMap V) → All (λ e. P e.0) m → All (λ e. P e.0) (erase k m)
  unfolding erase
  All-erase P k [] a = tt
  All-erase P k ((j, w) ∷ m) a = ground (arith, All-erase P k m)

  pub assign-IsSorted : (k : ℕ) (v : V) (m : StdMap V) → IsSorted m → IsSorted (assign k v m)
  unfolding assign
  assign-IsSorted k v [] s = (tt, tt)
  assign-IsSorted k v ((j, w) ∷ m) s = elim (ℕ_discrete j k) [
    | yes same ↦ rw (==_of_eq same) (rw same at s)
    | no other ↦ elim (dec_lt k j) [
      | yes before ↦
          rw (==_of_ne other, lt→ltb k j before)
            ((before, All-map (λ e. j < e.0) (λ e. k < e.0) m (λ e h. omega arith) s.0), s)
      | no after ↦
          rw (==_of_ne other, ltb_of_le {a = k} {b = j} (omega arith))
            (All-assign (λ n. j < n) k v m (omega arith) s.0, assign-IsSorted k v m s.1)
    ]
  ]

  pub erase-IsSorted : (k : ℕ) (m : StdMap V) → IsSorted m → IsSorted (erase k m)
  unfolding erase
  erase-IsSorted k [] s = tt
  erase-IsSorted k ((j, w) ∷ m) s = ground (arith, erase-IsSorted k m, All-erase (λ n. j < n) k m)

  pub lookup-assign :
      (q k : ℕ) (v : V) (m : StdMap V)
      → lookup q (assign k v m) ≡ (if q == k then some v else lookup q m)
  unfolding lookup assign
  lookup-assign q k v [] = ground arith
  lookup-assign q k v ((j, w) ∷ m) = ground (arith, lookup-assign q k v m)

  -- What holds of every key holds of one that is present.
  pub All-lookup :
      (P : ℕ → Type 0) (q : ℕ) (m : StdMap V) {v : V}
      → All (λ e. P e.0) m
      → lookup q m ≡ some v
      → P q
  unfolding lookup
  All-lookup P q [] a h = cc
  All-lookup P q ((j, w) ∷ m) {v} a h = elim (ℕ_discrete j q) [
    | yes same ↦ subst P same a.0
    | no other ↦ All-lookup P q m a.1 (rw (lookup, ==_of_ne other) at h)
  ]

  -- A key below all others is absent.
  pub lookup_below : (q : ℕ) (m : StdMap V) → All (λ e. q < e.0) m → lookup q m ≡ none
  unfolding lookup
  lookup_below q [] a = refl
  lookup_below q ((j, w) ∷ m) a = ground (arith, lookup_below q m)

  -- A key that is present lies above every bound of the keys.
  pub lookup_above :
      (k q : ℕ) (m : StdMap V) {v : V} → All (λ e. k < e.0) m → lookup q m ≡ some v → k < q
  unfolding lookup
  lookup_above k q [] a h = cc
  lookup_above k q ((j, w) ∷ m) {v} a h = ground (arith, lookup_above k q m {v = v})

  pub lookup-erase :
      (q k : ℕ) (m : StdMap V)
      → IsSorted m
      → lookup q (erase k m) ≡ (if q == k then none else lookup q m)
  unfolding lookup erase
  lookup-erase q k [] s = ground arith
  lookup-erase q k ((j, w) ∷ m) s = ground (arith, lookup-erase q k m, lookup_below j m)
