-- ===== src/OrderBook/Levels.antt =====
-- The price levels of src/book/order_book.hpp under a write and a removal.
use mockex.Prelude.{ℕ, ◌-◌, ◌<◌, ◌≡◌, ◌==◌, leb, if◌then◌else◌}
use mockex.Prelude.{All, arith, Option-cases, inl, inr, Bool-cases, ap}
use mockex.Types.{add32}
use mockex.StdMap.{StdMap, IsSorted, lookup}
use mockex.StdMap.Laws.{All-assign, All-erase, assign-IsSorted, erase-IsSorted, lookup-assign}
use mockex.StdMap.Laws.{lookup-erase, All-lookup}
use mockex.OrderBook.{qty_at, add_to_side, remove_from_side}

-- A side: ascending prices, all below a bound.
pub record IsSide (bound : ℕ) (m : StdMap ℕ) : Type 0 where
  pub sorted : IsSorted m
  pub below : All (λ e. e.0 < bound) m

pub add_to_side-IsSide :
    (bound price qty : ℕ) (m : StdMap ℕ)
    → price < bound
    → IsSide bound m
    → IsSide bound (add_to_side m price qty)
unfolding add_to_side
add_to_side-IsSide bound price qty m h s = record {
  sorted = assign-IsSorted price _ m s.sorted;
  below = All-assign (λ p. p < bound) price _ m h s.below;
}

pub remove_from_side-IsSide :
    (bound price qty : ℕ) (m : StdMap ℕ)
    → IsSide bound m
    → IsSide bound (remove_from_side m price qty)
unfolding remove_from_side
remove_from_side-IsSide bound price qty m s = elim (Option-cases (lookup price m)) [
  | inl gone ↦ rw (gone, remove_from_side) s
  | inr (have, at) ↦ elim (Bool-cases (leb have qty)) [
    | inl all ↦
        rw (at, remove_from_side, all)
          (record {
            sorted = erase-IsSorted price m s.sorted;
            below = All-erase (λ p. p < bound) price m s.below;
          })
    | inr part ↦
        rw (at, remove_from_side, part)
          (record {
            sorted = assign-IsSorted price _ m s.sorted;
            below =
                All-assign (λ p. p < bound) price _ m
                  (All-lookup (λ p. p < bound) price m s.below at) s.below;
          })
  ]
]

-- What a price has after the two changes.
pub qty_at-add :
    (q price qty : ℕ) (m : StdMap ℕ)
    → qty_at q (add_to_side m price qty)
      ≡ (if q == price then add32 (qty_at price m) qty else qty_at q m)
unfolding add_to_side qty_at
qty_at-add q price qty m = ground (arith, lookup-assign q price (add32 (qty_at price m) qty) m)

pub qty_at-remove :
    (q price qty : ℕ) (m : StdMap ℕ)
    → IsSorted m
    → qty_at q (remove_from_side m price qty)
      ≡ (if q == price then qty_at price m - qty else qty_at q m)
unfolding remove_from_side qty_at
qty_at-remove q price qty m s = elim (Option-cases (lookup price m)) [
  | inl gone ↦ ground (arith, gone, ap (λ (k : ℕ). lookup k m) {x = q} {y = price})
  | inr (have, at) ↦ ground (
    arith,
    at,
    ap (λ (k : ℕ). lookup k m) {x = q} {y = price},
    lookup-assign q price (have - qty) m,
    lookup-erase q price m s,
  )
]
