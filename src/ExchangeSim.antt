-- ===== src/ExchangeSim.antt =====
-- src/exchange/exchange_sim.hpp: the matching engine. The reference `resting` into a side's map is
-- the element at the iterator; the copy of a resting order in `by_id_` is a value of its own.
pub mod Sides
pub mod Sweep
pub mod Loops
pub mod Uncrossed
pub mod Fills
pub mod Reports
use mockex.Prelude.{ℕ, zero, suc, ◌+◌, ◌-◌, ◌*◌, ◌/◌, min, Bool, true, false, ◌&&◌, ltb, leb, ◌==◌}
use mockex.Prelude.{if◌then◌else◌, Option, none, some, List, [], ◌∷◌, ◌++◌}
use mockex.Types.{Side, bid, is_bid, OutboundOrder, OrderAction, new, cancel, modify, push_back}
use mockex.Types.{ExecutionReport, ExecType, ack, fill, cancelled}
use mockex.FlatHashMap
use mockex.FlatHashMap.{FlatHashMap}
use mockex.StdMap
use mockex.StdMap.{StdMap}

pub record RestingOrder : Type 0 where
  pub client_order_id : ℕ
  pub instrument_id : ℕ
  pub side : Side
  pub price_ticks : ℕ
  pub remaining_qty : ℕ

pub record ExchangeSim : Type 0 where
  pub bids : StdMap RestingOrder
  pub asks : StdMap RestingOrder
  pub by_id : FlatHashMap RestingOrder

-- `RestingOrder{}`
abbrev pub no_resting : RestingOrder
no_resting = record {
  client_order_id = 0;
  instrument_id = 0;
  side = bid;
  price_ticks = 0;
  remaining_qty = 0;
}

-- The constructor; the table is asked for 10/7 of the expected orders.
unfoldable pub create : ℕ → ExchangeSim
create expected_orders = record {
  bids = [];
  asks = [];
  by_id = FlatHashMap.create no_resting (expected_orders * 10 / 7);
}

-- What a matching loop carries: the quantity left, the reports, the side it eats from, the ids.
pub record Match : Type 0 where
  pub remaining : ℕ
  pub reports : List ExecutionReport
  pub levels : StdMap RestingOrder
  pub ids : FlatHashMap RestingOrder

-- One fill against the resting order at a price.
unfoldable pub fill_one : ℕ → Match → ℕ → RestingOrder → Match
unfolding push_back
fill_one client_order_id m price resting =
    let fill_qty = min m.remaining resting.remaining_qty in
    let reports = push_back m.reports (record {
      client_order_id = client_order_id;
      exec = fill;
      filled_qty = fill_qty;
      remaining_qty = m.remaining - fill_qty;
      fill_price_ticks = price;
      ts_exchange_sim = 0;
    }) in
    let left = resting.remaining_qty - fill_qty in
    if left == 0
    then record {
      remaining = m.remaining - fill_qty;
      reports = reports;
      levels = StdMap.erase price m.levels;
      ids = (FlatHashMap.erase m.ids resting.client_order_id).0;
    }
    else record {
      remaining = m.remaining - fill_qty;
      reports = reports;
      levels = StdMap.assign price (record resting { remaining_qty = left }) m.levels;
      ids = m.ids;
    }

-- The loop over the asks of a buy, from `asks_.begin()`; `todo` is what the iterator has ahead.
-- Each round takes one element, so the elements bound the rounds.
unfoldable pub sweep_asks : OutboundOrder → StdMap RestingOrder → Match → Match
unfolding fill_one
sweep_asks ord [] m = m
sweep_asks ord ((price, resting) ∷ todo) m =
    let rest = sweep_asks ord todo (fill_one ord.client_order_id m price resting) in
    if leb price ord.price_ticks && ltb 0 m.remaining then rest else m

-- The elements from `rbegin()` on.
unfoldable pub backward : StdMap RestingOrder → StdMap RestingOrder
backward [] = []
backward (e ∷ m) = backward m ++ (e ∷ [])

-- `it = bids_.rbegin()` after an erase, and `++it` otherwise.
unfoldable pub next_bid : Match → RestingOrder → StdMap RestingOrder → Match → StdMap RestingOrder
unfolding backward
next_bid m resting todo after =
    if resting.remaining_qty - min m.remaining resting.remaining_qty == 0
    then backward after.levels
    else todo

-- The loop over the bids of a sell, from `bids_.rbegin()`. Each round but the last erases an
-- element, so one round more than there are elements is enough.
unfoldable pub sweep_bids : ℕ → OutboundOrder → StdMap RestingOrder → Match → Match
unfolding fill_one next_bid
sweep_bids zero ord todo m = m
sweep_bids (suc fuel) ord [] m = m
sweep_bids (suc fuel) ord ((price, resting) ∷ todo) m =
    let after = fill_one ord.client_order_id m price resting in
    let rest = sweep_bids fuel ord (next_bid m resting todo after) after in
    if leb ord.price_ticks price && ltb 0 m.remaining then rest else m

-- A report on an order without a fill.
abbrev pub report : ℕ → ExecType → ℕ → ExecutionReport
report client_order_id exec remaining = record {
  client_order_id = client_order_id;
  exec = exec;
  filled_qty = 0;
  remaining_qty = remaining;
  fill_price_ticks = 0;
  ts_exchange_sim = 0;
}

-- Where the loops start.
abbrev pub start : OutboundOrder → List ExecutionReport → StdMap RestingOrder → ExchangeSim → Match
start ord reports levels sim = record {
  remaining = ord.qty;
  reports = reports;
  levels = levels;
  ids = sim.by_id;
}

-- The loop of a new order, with the exchange that it leaves.
unfoldable pub match_order :
    ExchangeSim → OutboundOrder → List ExecutionReport → ExchangeSim × Match
unfolding sweep_asks sweep_bids backward
match_order sim ord reports =
    if is_bid ord.side
    then (let m = sweep_asks ord sim.asks (start ord reports sim.asks sim) in
        (record sim { asks = m.levels; by_id = m.ids }, m))
    else (let m =
          sweep_bids (StdMap.size sim.bids + 1) ord (backward sim.bids)
            (start ord reports sim.bids sim) in
        (record sim { bids = m.levels; by_id = m.ids }, m))

-- What is left of an order rests at its price, in place of what was there.
unfoldable pub rest_order : ExchangeSim → OutboundOrder → ℕ → ExchangeSim
rest_order sim ord remaining =
    let ro : RestingOrder = record {
      client_order_id = ord.client_order_id;
      instrument_id = ord.instrument_id;
      side = ord.side;
      price_ticks = ord.price_ticks;
      remaining_qty = remaining;
    } in
    let ids = (FlatHashMap.insert sim.by_id ord.client_order_id ro).0 in
    if is_bid ord.side
    then record sim { bids = StdMap.assign ord.price_ticks ro sim.bids; by_id = ids }
    else record sim { asks = StdMap.assign ord.price_ticks ro sim.asks; by_id = ids }

-- The cancel branch of `submit`.
unfoldable pub cancel_resting :
    ExchangeSim → OutboundOrder → List ExecutionReport → ExchangeSim × List ExecutionReport
cancel_resting sim ord reports = elim (FlatHashMap.find sim.by_id ord.client_order_id) [
  | none ↦ (sim, reports)
  | some i ↦
      let resting = sim.by_id.vals i in
      let ids = (FlatHashMap.erase sim.by_id ord.client_order_id).0 in
      let gone =
        if is_bid resting.side
        then record sim { bids = StdMap.erase resting.price_ticks sim.bids; by_id = ids }
        else record sim { asks = StdMap.erase resting.price_ticks sim.asks; by_id = ids } in
      (gone, push_back reports (report ord.client_order_id cancelled 0))
]

-- The new-order branch of `submit`.
unfoldable pub submit_new :
    ExchangeSim → OutboundOrder → List ExecutionReport → ExchangeSim × List ExecutionReport
unfolding match_order rest_order
submit_new sim ord reports =
    let (matched, m) = match_order sim ord reports in
    (if ltb 0 m.remaining then rest_order matched ord m.remaining else matched, m.reports)

unfoldable pub submit : ExchangeSim → OutboundOrder → ExchangeSim × List ExecutionReport
unfolding submit_new cancel_resting
submit sim ord =
    let reports = push_back [] (report ord.client_order_id ack ord.qty) in
    elim ord.action [
      | new ↦ submit_new sim ord reports
      | cancel ↦ cancel_resting sim ord reports
      | modify ↦ (sim, reports)
    ]

unfoldable pub clear : ExchangeSim → ExchangeSim
clear sim = record { bids = []; asks = []; by_id = FlatHashMap.clear sim.by_id }

-- `resting_count`
abbrev pub resting_count : ExchangeSim → ℕ
resting_count sim = sim.by_id.size
