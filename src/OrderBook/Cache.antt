-- ===== src/OrderBook/Cache.antt =====
-- The cached best prices of src/book/order_book.hpp: the incremental update of `add_order` and the
-- recomputation of the other methods both give the ends of the two sides.
use mockex.Prelude.{ℕ, ◌<◌, ◌^◌, ◌≡◌, refl}
use mockex.Prelude.{none, some, arith, Option-cases, inl, inr, ap}
use mockex.Types.{invalid_price, add32}
use mockex.StdMap.{StdMap, lookup, first, last}
use mockex.StdMap.Ends.{last-assign, first-assign, lookup-last, lookup-first, last_is_max}
use mockex.StdMap.Ends.{first_is_min, last-none, first-none}
use mockex.StdMap.Laws.{All-lookup}
use mockex.OrderBook.{OrderBook, qty_at, price_or, qty_or, invalidate_cache}
use mockex.OrderBook.{add_bid, add_ask}
use mockex.OrderBook.Levels.{IsSide, add_to_side-IsSide}

-- The sides, which the invalid price bounds, and the cache as `invalidate_cache` computes it.
pub record IsSided (b : OrderBook) : Type 0 where
  pub bids_ok : IsSide invalid_price b.bids
  pub asks_ok : IsSide invalid_price b.asks

pub record IsValid (b : OrderBook) : Type 0 where
  pub sided : IsSided b
  pub bb : b.cached_bb ≡ price_or invalid_price (last b.bids)
  pub bbq : b.cached_bbq ≡ qty_or (last b.bids)
  pub ba : b.cached_ba ≡ price_or invalid_price (first b.asks)
  pub baq : b.cached_baq ≡ qty_or (first b.asks)

pub invalidate_cache-IsValid : (b : OrderBook) → IsSided b → IsValid (invalidate_cache b)
unfolding invalidate_cache
invalidate_cache-IsValid b s = record {
  sided = record { bids_ok = s.bids_ok; asks_ok = s.asks_ok };
  bb = refl;
  bbq = refl;
  ba = refl;
  baq = refl;
}

-- What the ends of a side say about the price of a new order.
module _ (m : StdMap ℕ) (s : IsSide invalid_price m) (price : ℕ) where
  end_in_range :
      (e : ℕ × ℕ) → lookup e.0 m ≡ some e.1 → (e.0 < invalid_price) × (qty_at e.0 m ≡ e.1)
  unfolding qty_at
  end_in_range e at = (All-lookup (λ n. n < invalid_price) e.0 m s.below at, rw (qty_at, at))

  qty_above_last : (e : ℕ × ℕ) → last m ≡ some e → e.0 < price → qty_at price m ≡ 0
  unfolding qty_at
  qty_above_last e h above = elim (Option-cases (lookup price m)) [
    | inl gone ↦ rw (qty_at, gone)
    | inr (v, at) ↦ absurd (omega (arith, last_is_max m price s.sorted h at))
  ]

  qty_below_first : (e : ℕ × ℕ) → first m ≡ some e → price < e.0 → qty_at price m ≡ 0
  unfolding qty_at
  qty_below_first e h below = elim (Option-cases (lookup price m)) [
    | inl gone ↦ rw (qty_at, gone)
    | inr (v, at) ↦ absurd (omega (arith, first_is_min m price s.sorted h at))
  ]

  qty_no_last : last m ≡ none → qty_at price m ≡ 0
  unfolding qty_at
  qty_no_last h = elim (Option-cases (lookup price m)) [
    | inl gone ↦ rw (qty_at, gone)
    | inr (v, at) ↦ absurd (last-none m price h at)
  ]

  qty_no_first : first m ≡ none → qty_at price m ≡ 0
  unfolding qty_at
  qty_no_first h = elim (Option-cases (lookup price m)) [
    | inl gone ↦ rw (qty_at, gone)
    | inr (v, at) ↦ absurd (first-none m price h at)
  ]

module _ (b : OrderBook) (price qty : ℕ) (small : price < invalid_price) (fits : qty < 2 ^ 32) where
  add_bid-IsSided : IsSided b → IsSided (add_bid b price qty)
  unfolding add_bid
  add_bid-IsSided s =
      let grown = add_to_side-IsSide invalid_price price qty b.bids small s.bids_ok in ground arith

  pub add_bid-IsValid : IsValid b → IsValid (add_bid b price qty)
  unfolding add_bid
  add_bid-IsValid v = elim (Option-cases (last b.bids)) [
    | inl nil ↦ ground (
      arith,
      add_bid-IsSided v.sided,
      last-assign price (add32 (qty_at price b.bids) qty) b.bids v.sided.bids_ok.sorted,
      qty_no_last b.bids v.sided.bids_ok price nil,
    )
    | inr (e, h) ↦ ground (
      arith,
      add_bid-IsSided v.sided,
      last-assign price (add32 (qty_at price b.bids) qty) b.bids v.sided.bids_ok.sorted,
      qty_above_last b.bids v.sided.bids_ok price e h,
      end_in_range b.bids v.sided.bids_ok price e (lookup-last b.bids v.sided.bids_ok.sorted h),
      ap (λ (p : ℕ). qty_at p b.bids) {x = price} {y = e.0},
    )
  ]

  add_ask-IsSided : IsSided b → IsSided (add_ask b price qty)
  unfolding add_ask
  add_ask-IsSided s =
      let grown = add_to_side-IsSide invalid_price price qty b.asks small s.asks_ok in ground arith

  pub add_ask-IsValid : IsValid b → IsValid (add_ask b price qty)
  unfolding add_ask
  add_ask-IsValid v = elim (Option-cases (first b.asks)) [
    | inl nil ↦ ground (
      arith,
      add_ask-IsSided v.sided,
      first-assign price (add32 (qty_at price b.asks) qty) b.asks,
      qty_no_first b.asks v.sided.asks_ok price nil,
    )
    | inr (e, h) ↦ ground (
      arith,
      add_ask-IsSided v.sided,
      first-assign price (add32 (qty_at price b.asks) qty) b.asks,
      qty_below_first b.asks v.sided.asks_ok price e h,
      end_in_range b.asks v.sided.asks_ok price e (lookup-first b.asks h),
      ap (λ (p : ℕ). qty_at p b.asks) {x = price} {y = e.0},
    )
  ]
