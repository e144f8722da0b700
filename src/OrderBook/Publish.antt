-- ===== src/OrderBook/Publish.antt =====
-- When the methods of src/book/order_book.hpp return an update, and what is in it.
use mockex.Prelude.{◌≡◌, ◌≢◌, refl, Option, none, some, arith, Option-cases, inl, inr}
use mockex.Types.{BboUpdate}
use mockex.FlatHashMap
use mockex.OrderBook.{OrderBook, bbo, maybe_bbo_update, finish, add_order, modify_order}
use mockex.OrderBook.{cancel_order, apply_trade}
use mockex.OrderBook.Events.{Event, add, modify, cancel, trade, clear_all, apply}

-- The same best prices and quantities on both sides.
pub record SameBest (a b : OrderBook) : Type 0 where
  pub bb : b.cached_bb ≡ a.cached_bb
  pub bbq : b.cached_bbq ≡ a.cached_bbq
  pub ba : b.cached_ba ≡ a.cached_ba
  pub baq : b.cached_baq ≡ a.cached_baq

-- An update is returned exactly on a change of the best, and holds the new best.
pub record Publishes (old : OrderBook) (r : OrderBook × Option BboUpdate) : Type 0 where
  pub silent : r.1 ≡ none → SameBest old r.0
  pub loud : (u : BboUpdate) → r.1 ≡ some u → (u ≡ bbo r.0) × ¬ SameBest old r.0

finish-Publishes : (old b : OrderBook) → Publishes old (finish old b)
unfolding maybe_bbo_update
finish-Publishes old b = record {
  silent = λ h. ground arith;
  loud = λ u h. (ground arith, λ same. ground arith);
}

unchanged-Publishes : (b : OrderBook) → Publishes b (b, none)
unchanged-Publishes b = record {
  silent = λ h. record { bb = refl; bbq = refl; ba = refl; baq = refl };
  loud = λ u h. cc;
}

-- An add, a modify, a cancel or a trade returns no update exactly where the best bid and offer stay
-- as they were, in price and in quantity; an update that it returns holds the new best.
pub apply-Publishes : (b : OrderBook) (e : Event) → e ≢ clear_all → Publishes b (apply b e)
unfolding apply add_order modify_order cancel_order apply_trade
apply-Publishes b (add order_id price qty side) h =
    elim (Option-cases (FlatHashMap.find b.orders order_id)) [
      | inl gone ↦ rw (gone, add_order) (finish-Publishes b _)
      | inr (i, at) ↦ rw (at, add_order) (unchanged-Publishes b)
    ]
apply-Publishes b (modify order_id price qty) h =
    elim (Option-cases (FlatHashMap.find b.orders order_id)) [
      | inl gone ↦ rw (gone, modify_order) (unchanged-Publishes b)
      | inr (i, at) ↦ rw (at, modify_order) (finish-Publishes b _)
    ]
apply-Publishes b (cancel order_id) h = elim (Option-cases (FlatHashMap.find b.orders order_id)) [
  | inl gone ↦ rw (gone, cancel_order) (unchanged-Publishes b)
  | inr (i, at) ↦ rw (at, cancel_order) (finish-Publishes b _)
]
apply-Publishes b (trade order_id qty) h =
    elim (Option-cases (FlatHashMap.find b.orders order_id)) [
      | inl gone ↦ rw (gone, apply_trade) (unchanged-Publishes b)
      | inr (i, at) ↦ rw (at, apply_trade) (finish-Publishes b _)
    ]
apply-Publishes b clear_all h = absurd (h refl)
