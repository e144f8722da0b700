-- ===== src/Tests/Levels.antt =====
-- The levels of src/book/order_book.hpp after a run with every event.
use mockex.Prelude.{◌+◌, ◌^◌, ◌<◌, ◌≡◌, Bool, true, false, arith, List, [], ◌∷◌}
use mockex.FlatHashMap
use mockex.FlatHashMap.Totals.{total}
use mockex.StdMap
use mockex.Types.{bid, ask}
use mockex.OrderBook.{OrderBook, create, add_order, modify_order, cancel_order, apply_trade}
use mockex.OrderBook.{qty_at, maybe_bbo_update, add_bid, add_ask, invalidate_cache, remove_level}
use mockex.OrderBook.{add_level}
use mockex.OrderBook.Events.{Event, apply, run}
use mockex.OrderBook.RoundTrip.{side_of}
use mockex.OrderBook.Ledger.{weight}
use mockex.OrderBook.Balance.{AreFair, run_levels}

program : Unit {0}
unfolding FlatHashMap.create FlatHashMap.insert FlatHashMap.find FlatHashMap.erase FlatHashMap.home
    FlatHashMap.mix FlatHashMap.next_slot FlatHashMap.distance FlatHashMap.probe FlatHashMap.store
    StdMap.lookup StdMap.assign StdMap.erase StdMap.first StdMap.last StdMap.size add_order
    modify_order cancel_order apply_trade maybe_bbo_update add_bid add_ask invalidate_cache
    remove_level add_level qty_at apply create
program = tt

abbrev events : List Event
events =
    Event.add 1 100 5 bid
    ∷ Event.add 2 103 8 ask
    ∷ Event.modify 1 101 4
    ∷ Event.trade 2 3
    ∷ Event.cancel 1
    ∷ []

abbrev quoted : OrderBook
quoted = (add_order (add_order (create 7) 1 100 5 bid).0 2 103 8 ask).0

events_fair : AreFair (create 7) events
unfolding program
events_fair = (
  (omega arith, λ i. ground arith, omega arith, omega arith),
  ((omega arith, λ i. ground arith, omega arith, omega arith), (both, (omega arith, (tt, tt)))),
)
  where
    both : (s : Bool) → qty_at 101 (side_of s quoted) + 4 < 2 ^ 32
    both true = omega arith
    both false = omega arith

run_levels_example :
    qty_at 103 (side_of true (run (create 7) events))
    ≡ total (weight true 103) (run (create 7) events).orders
run_levels_example = run_levels 7 events events_fair true 103
