-- ===== src/Tests/Books.antt =====
-- The order book of src/book/order_book.hpp, on a table of sixteen slots where a search runs.
use mockex.Prelude.{◌≡◌, refl, true, none, arith, List, [], ◌∷◌}
use mockex.Prelude.{if◌then◌else◌, ◌==◌, ◌-◌}
use mockex.FlatHashMap
use mockex.StdMap
use mockex.Types.{bid, ask}
use mockex.OrderBook.{
  OrderBook, no_order, create, add_order, modify_order, cancel_order, apply_trade,
}
use mockex.OrderBook.{qty_at, midprice, spread, maybe_bbo_update, add_bid, add_ask}
use mockex.OrderBook.{invalidate_cache, remove_level, add_level, add_to_side}
use mockex.OrderBook.Events.{Event, apply, run}
use mockex.OrderBook.Best.{IsBest, run-IsBest}
use mockex.OrderBook.Publish.{Publishes, apply-Publishes}
use mockex.OrderBook.RoundTrip.{side_of, apply_trade_levels, add_order_id_zero}

program : Unit {0}
unfolding FlatHashMap.create FlatHashMap.insert FlatHashMap.find FlatHashMap.erase FlatHashMap.home
    FlatHashMap.mix FlatHashMap.next_slot FlatHashMap.distance FlatHashMap.probe FlatHashMap.store
    StdMap.lookup StdMap.assign StdMap.erase StdMap.first StdMap.last StdMap.size add_order
    modify_order cancel_order apply_trade maybe_bbo_update add_bid add_ask invalidate_cache
    remove_level add_level midprice spread
program = tt

-- A new book over a small table of orders.
abbrev empty : OrderBook
empty = record (create 7) { orders = FlatHashMap.create no_order 10 }

abbrev quoted : OrderBook
quoted = (add_order (add_order empty 1 100 5 bid).0 2 103 8 ask).0

-- A second bid at the best price adds to it, and a trade takes from it.
bids_add_up :
    let b = (add_order quoted 3 100 7 bid).0 in
    (b.cached_bbq ≡ 12) × ((apply_trade b 1 2).0.cached_bbq ≡ 10)
unfolding program create
bids_add_up = (refl, refl)

two_sided : (midprice quoted ≡ 101) × (spread quoted ≡ 3)
unfolding program create
two_sided = (refl, refl)

-- A trade of more than the order has takes the rest from its neighbour at the price.
over_trade : (apply_trade (add_order quoted 3 100 7 bid).0 1 9).0.cached_bbq ≡ 3
unfolding program create
over_trade = refl

abbrev events : List Event
events =
    Event.add 1 100 5 bid
    ∷ Event.add 2 103 8 ask
    ∷ Event.modify 1 101 4
    ∷ Event.trade 2 3
    ∷ Event.cancel 1
    ∷ Event.clear_all
    ∷ []

run-IsBest_example : IsBest (run (create 7) events)
run-IsBest_example = run-IsBest 7 events (omega arith)

apply-Publishes_example : Publishes quoted (apply quoted (Event.modify 1 101 4))
apply-Publishes_example = apply-Publishes quoted (Event.modify 1 101 4) (λ e. cc e)

apply_trade_levels_example :
    (qty_at 100 (side_of true (apply_trade quoted 1 2).0)
      ≡ (if 100 == 100 then qty_at 100 quoted.bids - 2 else qty_at 100 quoted.bids))
    × ((apply_trade quoted 1 2).0.asks ≡ quoted.asks)
unfolding program create
apply_trade_levels_example = apply_trade_levels quoted 1 2 9 100 refl (tt, tt)

add_order_id_zero_example :
    let b' = (add_order empty 0 100 5 bid).0 in
    (b'.bids ≡ add_to_side empty.bids 100 5)
    × (cancel_order b' 0 ≡ (b', none))
    × (modify_order b' 0 101 4 ≡ (b', none))
    × (apply_trade b' 0 4 ≡ (b', none))
add_order_id_zero_example = add_order_id_zero empty 100 5 101 4 bid
