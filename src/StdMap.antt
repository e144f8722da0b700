-- ===== src/StdMap.antt =====
-- `std::map<uint32_t, V>` as src/book/order_book.hpp and src/exchange/exchange_sim.hpp use it: the
-- elements in the order of their keys, smallest first.
pub mod Laws
pub mod Ends
use mockex.Prelude.{ℕ, ◌<◌, ◌==◌, ltb, if◌then◌else◌, Option, none, some, List, [], ◌∷◌, All}
use mockex.Prelude.{zero, suc, ◌+◌}

abbrev pub StdMap {ℓ} : Type ℓ → Type ℓ
StdMap V = List (ℕ × V)

-- Keys strictly ascend, as the container keeps them.
abbrev pub IsSorted {ℓ} : {V : Type ℓ} → StdMap V → Type 0
IsSorted [] = Unit
IsSorted (e ∷ m) = All (λ f. e.0 < f.0) m × IsSorted m

module _ {ℓ} {V : Type ℓ} where
  -- `find`: the element that the iterator is at
  unfoldable pub lookup : ℕ → StdMap V → Option V
  lookup k [] = none
  lookup k ((j, v) ∷ m) = if j == k then some v else lookup k m

  -- `m[k] = v`
  unfoldable pub assign : ℕ → V → StdMap V → StdMap V
  assign k v [] = (k, v) ∷ []
  assign k v ((j, w) ∷ m) =
      if j == k
      then (k, v) ∷ m
      else (if ltb k j then (k, v) ∷ (j, w) ∷ m else (j, w) ∷ assign k v m)

  -- `erase(k)`
  unfoldable pub erase : ℕ → StdMap V → StdMap V
  erase k [] = []
  erase k ((j, v) ∷ m) = if j == k then m else (j, v) ∷ erase k m

  -- `*begin()` and `*rbegin()`
  unfoldable pub first : StdMap V → Option (ℕ × V)
  first [] = none
  first (e ∷ m) = some e

  unfoldable pub last : StdMap V → Option (ℕ × V)
  last [] = none
  last (e ∷ m) = elim (last m) [ none ↦ some e | some f ↦ some f ]

  -- `size()`
  unfoldable pub size : StdMap V → ℕ
  size [] = 0
  size (e ∷ m) = suc (size m)
