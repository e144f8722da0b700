-- ===== src/ItchParser/Meaning.antt =====
-- What a message of the layout does to the open orders and to the feed, stated on its fields: a
-- description of src/feed/itch_parser.cpp that has no bytes.
use mockex.Prelude.{
  ℕ, ◌-◌, ◌/◌, ◌^◌, Bool, true, false, ◌||◌, ◌==◌, ltb, if◌then◌else◌, List, [], ◌∷◌, none, some,
}
use mockex.Types.{Side, bid, ask, OrderState, add64, sub32}
use mockex.FlatHashMap
use mockex.ItchParser.{ItchParser, ItchParsed, skip, miss, advance, reduce}
use mockex.ItchParser.Wire.{Header, Message}

-- A price of ten thousandths, as an int32_t, in ticks of hundredths.
abbrev pub ticks : ℕ → ℕ
ticks raw = if ltb raw (2 ^ 31) then raw / 100 else sub32 0 ((2 ^ 32 - raw) / 100)

abbrev pub side_of : ℕ → Side
side_of c = if c == 66 then bid else ask

-- The messages of the filtered instrument, and those of none.
abbrev pub passes : ItchParser → ℕ → Bool
passes s locate = if s.filtering then (locate == s.filter_locate) || (locate == 0) else true

-- The quantity that leaves an order, reported as a trade.
abbrev pub trade_of : ItchParser → ℕ → ℕ → ℕ → ℕ → Side → ItchParser × ItchParsed
trade_of s timestamp id price qty side = (
  record s { stats = record s.stats { trades = add64 s.stats.trades 1 } },
  ItchParsed.trade (record {
    seq_no = s.seq_no;
    ts_exchange = timestamp;
    order_id = id;
    instrument_id = 0;
    price_ticks = price;
    qty = qty;
    side = side;
  }),
)

abbrev pub cancel_of : ItchParser → ℕ → ℕ → ℕ → ItchParser × ItchParsed
cancel_of s timestamp id qty = (
  record s { stats = record s.stats { cancels = add64 s.stats.cancels 1 } },
  ItchParsed.cancel (record {
    seq_no = s.seq_no;
    ts_exchange = timestamp;
    order_id = id;
    instrument_id = 0;
    canceled_qty = qty;
  }),
)

abbrev pub delete_of : ItchParser → ℕ → ℕ → ItchParser × ItchParsed
delete_of s timestamp id = elim (FlatHashMap.find s.orders id) [
  | none ↦ miss s
  | some i ↦
      cancel_of (advance s (FlatHashMap.erase s.orders id).0) timestamp id (s.orders.vals i).qty
]

-- An execution takes a quantity from an order of the table, at the order's price.
abbrev pub executed_of : ItchParser → ℕ → ℕ → ℕ → ItchParser × ItchParsed
executed_of s timestamp id qty = elim (FlatHashMap.find s.orders id) [
  | none ↦ miss s
  | some i ↦
      let state = s.orders.vals i in
      trade_of (advance s (reduce s.orders id i qty)) timestamp id state.price_ticks qty state.side
]

-- The same at a price of its own; of an order that is not in the table too, as a bid.
abbrev pub executed_price_of : ItchParser → ℕ → ℕ → ℕ → ℕ → ItchParser × ItchParsed
executed_price_of s timestamp id qty price = elim (FlatHashMap.find s.orders id) [
  | none ↦
      let missed = record s {
        stats = record s.stats { lookup_misses = add64 s.stats.lookup_misses 1 };
      } in
      trade_of (advance missed s.orders) timestamp id price qty bid
  | some i ↦
      trade_of (advance s (reduce s.orders id i qty)) timestamp id price qty (s.orders.vals i).side
]

-- A cancel takes a quantity from an order of the table.
abbrev pub cancelled_of : ItchParser → ℕ → ℕ → ℕ → ItchParser × ItchParsed
cancelled_of s timestamp id qty = elim (FlatHashMap.find s.orders id) [
  | none ↦ miss s
  | some i ↦ cancel_of (advance s (reduce s.orders id i qty)) timestamp id qty
]

-- A new order enters the table, of a quantity and a price that are not 0.
abbrev pub add_of : ItchParser → ℕ → ℕ → Side → ℕ → ℕ → ItchParser × ItchParsed
add_of s timestamp id side qty price =
    if (qty == 0) || (price == 0)
    then skip s
    else (let state : OrderState = record { price_ticks = price; qty = qty; side = side } in
        let s' = advance s (FlatHashMap.insert s.orders id state).0 in
        (
          record s' { stats = record s'.stats { adds = add64 s'.stats.adds 1 } },
          ItchParsed.add (record {
            seq_no = s'.seq_no;
            ts_exchange = timestamp;
            order_id = id;
            instrument_id = 0;
            price_ticks = price;
            qty = qty;
            side = side;
          }),
        ))

-- An order of the table leaves it for one of the same side under a new id.
abbrev pub replace_of : ItchParser → ℕ → ℕ → ℕ → ℕ → ℕ → ItchParser × ItchParsed
replace_of s timestamp id new_id qty price = elim (FlatHashMap.find s.orders id) [
  | none ↦ miss s
  | some i ↦
      let state : OrderState = record {
        price_ticks = price;
        qty = qty;
        side = (s.orders.vals i).side;
      } in
      let erased = (FlatHashMap.erase s.orders id).0 in
      let s' = advance s (FlatHashMap.insert erased new_id state).0 in
      (
        record s' { stats = record s'.stats { modifies = add64 s'.stats.modifies 1 } },
        ItchParsed.modify (record {
          seq_no = s'.seq_no;
          ts_exchange = timestamp;
          order_id = id;
          instrument_id = 0;
          new_price_ticks = price;
          new_qty = qty;
        }),
      )
]

-- A trade with no order of the table.
abbrev pub non_cross_of : ItchParser → ℕ → ℕ → Side → ℕ → ℕ → ItchParser × ItchParsed
non_cross_of s timestamp id side qty price =
    if (qty == 0) || (price == 0)
    then skip s
    else trade_of (advance s s.orders) timestamp id price qty side

abbrev pub meaning : ItchParser → Header → Message → ItchParser × ItchParsed
meaning s h (Message.add id side qty stock price) =
    add_of s h.timestamp id (side_of side) qty (ticks price)
meaning s h (Message.add_mpid id side qty stock price attribution) =
    add_of s h.timestamp id (side_of side) qty (ticks price)
meaning s h (Message.executed id qty match_no) = executed_of s h.timestamp id qty
meaning s h (Message.executed_price id qty match_no printable price) =
    executed_price_of s h.timestamp id qty (ticks price)
meaning s h (Message.cancel id qty) = cancelled_of s h.timestamp id qty
meaning s h (Message.delete id) = delete_of s h.timestamp id
meaning s h (Message.replace id new_id qty price) =
    replace_of s h.timestamp id new_id qty (ticks price)
meaning s h (Message.trade id side qty stock price match_no) =
    non_cross_of s h.timestamp id (side_of side) qty (ticks price)

abbrev has_some : List ℕ → Bool
has_some [] = false
has_some (_ ∷ _) = true

-- The parser asks for a byte behind a cancel.
abbrev pub is_long : Message → List ℕ → Bool
is_long (Message.cancel _ _) rest = has_some rest
is_long _ rest = true
