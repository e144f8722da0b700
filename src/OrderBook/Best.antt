-- ===== src/OrderBook/Best.antt =====
-- The best prices that src/book/order_book.hpp reports are the best prices of its levels.
use mockex.Prelude.{ℕ, ◌≤◌, ◌<◌, ◌≡◌, ◌≢◌, refl, some, List, All, arith, Option-cases, inl, inr}
use mockex.Types.{invalid_price}
use mockex.StdMap.{StdMap, lookup, first, last}
use mockex.StdMap.Ends.{lookup-last, lookup-first, last_is_max, first_is_min, last-none, first-none}
use mockex.StdMap.Laws.{All-lookup}
use mockex.OrderBook.{OrderBook, create, price_or, qty_or}
use mockex.OrderBook.Levels.{IsSide}
use mockex.OrderBook.Cache.{IsValid}
use mockex.OrderBook.Events.{Event, IsInRange, run, run-IsValid, create-IsValid}

-- The cache against the levels, by lookups alone: the best price is the extreme price that has a
-- level, with that level's quantity.
pub record IsBest (b : OrderBook) : Type 0 where
  pub bid_max :
      (q v : ℕ) → lookup q b.bids ≡ some v → (q ≤ b.cached_bb) × (b.cached_bb ≢ invalid_price)
  pub bid_level : b.cached_bb ≢ invalid_price → lookup b.cached_bb b.bids ≡ some b.cached_bbq
  pub ask_min :
      (q v : ℕ) → lookup q b.asks ≡ some v → (b.cached_ba ≤ q) × (b.cached_ba ≢ invalid_price)
  pub ask_level : b.cached_ba ≢ invalid_price → lookup b.cached_ba b.asks ≡ some b.cached_baq

module _ (m : StdMap ℕ) (s : IsSide invalid_price m) (q v : ℕ) (at : lookup q m ≡ some v) where
  max_of_last :
      (q ≤ price_or invalid_price (last m)) × (price_or invalid_price (last m) ≢ invalid_price)
  max_of_last = elim (Option-cases (last m)) [
    | inl nil ↦ absurd (last-none m q nil at)
    | inr (e, h) ↦
        let top = lookup-last m s.sorted h in
        rw h (
          last_is_max m q s.sorted h at,
          λ same. omega (arith, All-lookup (λ n. n < invalid_price) e.0 m s.below top),
        )
  ]

  min_of_first :
      (price_or invalid_price (first m) ≤ q) × (price_or invalid_price (first m) ≢ invalid_price)
  min_of_first = elim (Option-cases (first m)) [
    | inl nil ↦ absurd (first-none m q nil at)
    | inr (e, h) ↦
        let top = lookup-first m h in
        rw h (
          first_is_min m q s.sorted h at,
          λ same. omega (arith, All-lookup (λ n. n < invalid_price) e.0 m s.below top),
        )
  ]

module _ (m : StdMap ℕ) where
  level_of_last :
      IsSide invalid_price m
      → price_or invalid_price (last m) ≢ invalid_price
      → lookup (price_or invalid_price (last m)) m ≡ some (qty_or (last m))
  level_of_last s = elim (Option-cases (last m)) [
    | inl nil ↦ rw nil (λ ne. absurd (ne refl))
    | inr (e, h) ↦ rw h (λ ne. lookup-last m s.sorted h)
  ]

  level_of_first :
      price_or invalid_price (first m) ≢ invalid_price
      → lookup (price_or invalid_price (first m)) m ≡ some (qty_or (first m))
  level_of_first = elim (Option-cases (first m)) [
    | inl nil ↦ rw nil (λ ne. absurd (ne refl))
    | inr (e, h) ↦ rw h (λ ne. lookup-first m h)
  ]

IsValid-IsBest : (b : OrderBook) → IsValid b → IsBest b
IsValid-IsBest b v = record {
  bid_max = λ q u at. rw v.bb (max_of_last b.bids v.sided.bids_ok q u at);
  bid_level = rw (v.bb, v.bbq) (level_of_last b.bids v.sided.bids_ok);
  ask_min = λ q u at. rw v.ba (min_of_first b.asks v.sided.asks_ok q u at);
  ask_level = rw (v.ba, v.baq) (level_of_first b.asks);
}

-- After every sequence of adds, modifies, cancels, trades and clears on a new book, with prices
-- below the invalid price and quantities below 2 ^ 32, the cached best bid and offer are the
-- extreme prices that have a level and the quantities of those levels, and a side with a level has
-- a best price other than the invalid price.
pub run-IsBest : (id : ℕ) (es : List Event) → All IsInRange es → IsBest (run (create id) es)
run-IsBest id es r = IsValid-IsBest _ (run-IsValid (create id) es r (create-IsValid id))
