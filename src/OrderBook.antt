-- ===== src/OrderBook.antt =====
-- src/book/order_book.hpp: the book of one instrument, its price levels by side, its orders by id,
-- and the cached best bid and offer. A method that changes the book returns it beside its result;
-- the best prices that `old_bb`, `old_bbq`, `old_ba` and `old_baq` keep are those of the argument.
pub mod Levels
pub mod Cache
pub mod Events
pub mod Best
pub mod Publish
pub mod RoundTrip
pub mod Ledger
pub mod Balance
use mockex.Prelude.{ℕ, ◌+◌, ◌-◌, ◌/◌, Bool, true, false, not, ◌&&◌, ◌||◌, ltb, leb, ◌==◌}
use mockex.Prelude.{if◌then◌else◌, Option, none, some, [], ◌∷◌}
use mockex.Types.{Side, bid, is_bid, OrderState, BboUpdate, invalid_price, add32, sub32}
use mockex.FlatHashMap
use mockex.FlatHashMap.{FlatHashMap}
use mockex.StdMap
use mockex.StdMap.{StdMap}

pub record OrderBook : Type 0 where
  pub instrument_id : ℕ
  pub bids : StdMap ℕ
  pub asks : StdMap ℕ
  pub orders : FlatHashMap OrderState
  pub cached_bb : ℕ
  pub cached_bbq : ℕ
  pub cached_ba : ℕ
  pub cached_baq : ℕ

-- `OrderState{}`
abbrev pub no_order : OrderState
no_order = record { price_ticks = 0; qty = 0; side = bid }

-- The constructor; `orders_(8 << 20)`.
unfoldable pub create : ℕ → OrderBook
create instrument_id = record {
  instrument_id = instrument_id;
  bids = [];
  asks = [];
  orders = FlatHashMap.create no_order 8388608;
  cached_bb = invalid_price;
  cached_bbq = 0;
  cached_ba = invalid_price;
  cached_baq = 0;
}

-- The value at a key, which `operator[]` makes 0 where it is missing.
unfoldable pub qty_at : ℕ → StdMap ℕ → ℕ
qty_at price side = elim (StdMap.lookup price side) [ none ↦ 0 | some q ↦ q ]

-- `side[price] += qty`
unfoldable pub add_to_side : StdMap ℕ → ℕ → ℕ → StdMap ℕ
unfolding qty_at
add_to_side side price qty = StdMap.assign price (add32 (qty_at price side) qty) side

unfoldable pub remove_from_side : StdMap ℕ → ℕ → ℕ → StdMap ℕ
remove_from_side side price qty = elim (StdMap.lookup price side) [
  | none ↦ side
  | some have ↦
      if leb have qty then StdMap.erase price side else StdMap.assign price (have - qty) side
]

abbrev pub price_or : ℕ → Option (ℕ × ℕ) → ℕ
price_or d none = d
price_or d (some e) = e.0

abbrev pub qty_or : Option (ℕ × ℕ) → ℕ
qty_or none = 0
qty_or (some e) = e.1

-- `invalidate_cache`
unfoldable pub invalidate_cache : OrderBook → OrderBook
invalidate_cache b = record b {
  cached_bb = price_or invalid_price (StdMap.last b.bids);
  cached_bbq = qty_or (StdMap.last b.bids);
  cached_ba = price_or invalid_price (StdMap.first b.asks);
  cached_baq = qty_or (StdMap.first b.asks);
}

-- The cached best bid and offer as an update, with `ts_local` 0.
abbrev pub bbo : OrderBook → BboUpdate
bbo b = record {
  instrument_id = b.instrument_id;
  best_bid_px = b.cached_bb;
  best_bid_qty = b.cached_bbq;
  best_ask_px = b.cached_ba;
  best_ask_qty = b.cached_baq;
  ts_local = 0;
}

-- `maybe_bbo_update`, given the old best prices and quantities
unfoldable pub maybe_bbo_update : OrderBook → ℕ → ℕ → ℕ → ℕ → Option BboUpdate
maybe_bbo_update b old_bb old_bbq old_ba old_baq =
    if (b.cached_bb == old_bb)
      && (b.cached_ba == old_ba)
      && (b.cached_bbq == old_bbq)
      && (b.cached_baq == old_baq)
    then none
    else some (bbo b)

-- The return of each method: the new book, and the update against the old best.
abbrev pub finish : OrderBook → OrderBook → OrderBook × Option BboUpdate
finish old b = (b, maybe_bbo_update b old.cached_bb old.cached_bbq old.cached_ba old.cached_baq)

-- The bid branch of `add_order`.
unfoldable pub add_bid : OrderBook → ℕ → ℕ → OrderBook
unfolding add_to_side
add_bid b price qty =
    let grown = record b { bids = add_to_side b.bids price qty } in
    if ltb b.cached_bb price || (b.cached_bb == invalid_price)
    then record grown { cached_bb = price; cached_bbq = qty }
    else (if price == b.cached_bb
        then record grown { cached_bbq = add32 b.cached_bbq qty }
        else grown)

-- The ask branch of `add_order`.
unfoldable pub add_ask : OrderBook → ℕ → ℕ → OrderBook
unfolding add_to_side
add_ask b price qty =
    let grown = record b { asks = add_to_side b.asks price qty } in
    if ltb price b.cached_ba || (b.cached_ba == invalid_price)
    then record grown { cached_ba = price; cached_baq = qty }
    else (if price == b.cached_ba
        then record grown { cached_baq = add32 b.cached_baq qty }
        else grown)

unfoldable pub add_order : OrderBook → ℕ → ℕ → ℕ → Side → OrderBook × Option BboUpdate
add_order b order_id price qty side = elim (FlatHashMap.find b.orders order_id) [
  | some _ ↦ (b, none)
  | none ↦
      let order : OrderState = record { price_ticks = price; qty = qty; side = side } in
      let stored = record b { orders = (FlatHashMap.insert b.orders order_id order).0 } in
      finish b (if is_bid side then add_bid stored price qty else add_ask stored price qty)
]

-- `remove_from_side` on the side of an order.
unfoldable pub remove_level : OrderBook → OrderState → ℕ → OrderBook
unfolding remove_from_side
remove_level b ord qty =
    if is_bid ord.side
    then record b { bids = remove_from_side b.bids ord.price_ticks qty }
    else record b { asks = remove_from_side b.asks ord.price_ticks qty }

-- `[new_price] += new_qty` on the side of an order.
unfoldable pub add_level : OrderBook → Side → ℕ → ℕ → OrderBook
unfolding add_to_side
add_level b side price qty =
    if is_bid side
    then record b { bids = add_to_side b.bids price qty }
    else record b { asks = add_to_side b.asks price qty }

unfoldable pub modify_order : OrderBook → ℕ → ℕ → ℕ → OrderBook × Option BboUpdate
modify_order b order_id new_price new_qty = elim (FlatHashMap.find b.orders order_id) [
  | none ↦ (b, none)
  | some i ↦
      let ord = b.orders.vals i in
      let removed = remove_level b ord ord.qty in
      let stored = record removed {
        orders =
            FlatHashMap.store b.orders i (record ord { price_ticks = new_price; qty = new_qty });
      } in
      finish b (invalidate_cache (add_level stored ord.side new_price new_qty))
]

unfoldable pub cancel_order : OrderBook → ℕ → OrderBook × Option BboUpdate
cancel_order b order_id = elim (FlatHashMap.find b.orders order_id) [
  | none ↦ (b, none)
  | some i ↦
      let ord = b.orders.vals i in
      let removed = remove_level b ord ord.qty in
      let erased = record removed { orders = (FlatHashMap.erase b.orders order_id).0 } in
      finish b (invalidate_cache erased)
]

unfoldable pub apply_trade : OrderBook → ℕ → ℕ → OrderBook × Option BboUpdate
apply_trade b order_id trade_qty = elim (FlatHashMap.find b.orders order_id) [
  | none ↦ (b, none)
  | some i ↦
      let ord = b.orders.vals i in
      let removed = remove_level b ord trade_qty in
      let left =
        if leb ord.qty trade_qty
        then (FlatHashMap.erase b.orders order_id).0
        else FlatHashMap.store b.orders i (record ord { qty = ord.qty - trade_qty }) in
      finish b (invalidate_cache (record removed { orders = left }))
]

unfoldable pub clear : OrderBook → OrderBook
clear b = record b {
  bids = [];
  asks = [];
  orders = FlatHashMap.clear b.orders;
  cached_bb = invalid_price;
  cached_bbq = 0;
  cached_ba = invalid_price;
  cached_baq = 0;
}

-- `!bids_.empty() && !asks_.empty()`
unfoldable pub is_two_sided : OrderBook → Bool
is_two_sided b = not (StdMap.size b.bids == 0) && not (StdMap.size b.asks == 0)

-- `midprice`, which an int64_t holds
unfoldable pub midprice : OrderBook → ℕ
unfolding is_two_sided
midprice b = if is_two_sided b then (b.cached_bb + b.cached_ba) / 2 else 0

-- `spread`, which wraps on a crossed book
unfoldable pub spread : OrderBook → ℕ
unfolding is_two_sided
spread b = if is_two_sided b then sub32 b.cached_ba b.cached_bb else 0

abbrev pub order_count : OrderBook → ℕ
order_count b = b.orders.size
