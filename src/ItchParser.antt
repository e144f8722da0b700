-- ===== src/ItchParser.antt =====
-- src/feed/itch_parser.hpp and src/feed/itch_parser.cpp: the messages of an ITCH feed, over a table
-- of the orders that are open. A buffer is the list of its bytes, and `len` the length of the list;
-- numbers are big endian. The message that `out` receives is part of the result.
pub mod Sequence
pub mod Wire
pub mod Meaning
pub mod Decode
pub mod Ignored
use mockex.Prelude.{ℕ, ◌+◌, ◌-◌, ◌*◌, ◌/◌, ◌%◌, ◌^◌, Bool, true, false, ◌&&◌, ◌||◌, not, ltb, leb}
use mockex.Prelude.{◌==◌, if◌then◌else◌, List, [], ◌∷◌, length, get_or, none, some}
use mockex.Types.{Side, bid, ask, AddOrderMsg, ModifyOrderMsg, CancelOrderMsg, TradeMsg, OrderState}
use mockex.Types.{add64, sub32}
use mockex.FlatHashMap
use mockex.FlatHashMap.{FlatHashMap}
use mockex.OrderBook.{no_order}

-- `ItchParseResult` with the message in `out`; `parse` gives neither `None` nor `Clear`.
pub data ItchParsed : Type 0 where
  add : AddOrderMsg → ItchParsed
  modify : ModifyOrderMsg → ItchParsed
  cancel : CancelOrderMsg → ItchParsed
  trade : TradeMsg → ItchParsed
  skipped : ItchParsed

pub record Stats : Type 0 where
  pub adds : ℕ
  pub cancels : ℕ
  pub trades : ℕ
  pub modifies : ℕ
  pub skipped : ℕ
  pub lookup_misses : ℕ

pub record ItchParser : Type 0 where
  pub orders : FlatHashMap OrderState
  pub seq_no : ℕ
  pub filter_locate : ℕ
  pub filtering : Bool
  pub stats : Stats

unfoldable pub create : ℕ → ℕ → ItchParser
create order_capacity filter_locate = record {
  orders = FlatHashMap.create no_order order_capacity;
  seq_no = 0;
  filter_locate = filter_locate;
  filtering = not (filter_locate == 0);
  stats = record {
    adds = 0;
    cancels = 0;
    trades = 0;
    modifies = 0;
    skipped = 0;
    lookup_misses = 0;
  };
}

abbrev pub byte : List ℕ → ℕ → ℕ
byte bytes i = get_or bytes i 0

-- The shifts and ors of bytes, which do not overlap.
abbrev pub read_be16 : List ℕ → ℕ → ℕ
read_be16 bytes p = byte bytes p * 2 ^ 8 + byte bytes (p + 1)

abbrev pub read_be32 : List ℕ → ℕ → ℕ
read_be32 bytes p = read_be16 bytes p * 2 ^ 16 + read_be16 bytes (p + 2)

abbrev pub read_be64 : List ℕ → ℕ → ℕ
read_be64 bytes p = read_be32 bytes p * 2 ^ 32 + read_be32 bytes (p + 4)

abbrev pub read_ts6 : List ℕ → ℕ → ℕ
read_ts6 bytes p = read_be16 bytes p * 2 ^ 32 + read_be32 bytes (p + 2)

-- `static_cast<uint32_t>(read_be32_signed(p) / 100)`: the quotient rounds towards zero, and a
-- negative one wraps.
unfoldable pub read_price : List ℕ → ℕ → ℕ
read_price bytes p =
    let raw = read_be32 bytes p in
    if ltb raw (2 ^ 31) then raw / 100 else sub32 0 ((2 ^ 32 - raw) / 100)

-- `(data[19] == 'B') ? Side::Bid : Side::Ask`
abbrev pub read_side : List ℕ → Side
read_side bytes = if byte bytes 19 == 66 then bid else ask

unfoldable pub check_locate : ItchParser → List ℕ → Bool
check_locate s bytes =
    if not s.filtering
    then true
    else (if ltb (length bytes) 3
        then false
        else (read_be16 bytes 1 == s.filter_locate) || (read_be16 bytes 1 == 0))

-- `len < size || !check_locate(data, len)`
abbrev pub is_refused : ItchParser → List ℕ → ℕ → Bool
is_refused s bytes size = ltb (length bytes) size || not (check_locate s bytes)

-- `stats_.skipped++; return ItchParseResult::Skipped;`
abbrev pub skip : ItchParser → ItchParser × ItchParsed
skip s = (record s { stats = record s.stats { skipped = add64 s.stats.skipped 1 } }, skipped)

-- The same where the order is not in the table.
abbrev pub miss : ItchParser → ItchParser × ItchParsed
miss s =
    skip (record s { stats = record s.stats { lookup_misses = add64 s.stats.lookup_misses 1 } })

-- `seq_no_++` with a new table.
abbrev pub advance : ItchParser → FlatHashMap OrderState → ItchParser
advance s orders = record s { orders = orders; seq_no = add64 s.seq_no 1 }

-- The order at slot `i`, under an id, less a quantity; at nothing it leaves the table.
unfoldable pub reduce : FlatHashMap OrderState → ℕ → ℕ → ℕ → FlatHashMap OrderState
reduce orders order_id i qty =
    let state = orders.vals i in
    if leb state.qty qty
    then (FlatHashMap.erase orders order_id).0
    else FlatHashMap.store orders i (record state { qty = state.qty - qty })

-- `case 'A'` and `case 'F'`, which differ in the length that they ask for.
unfoldable pub parse_add : ℕ → ItchParser → List ℕ → ItchParser × ItchParsed
parse_add size s bytes =
    let order_id = read_be64 bytes 11 in
    let side = read_side bytes in
    let qty = read_be32 bytes 20 in
    let price_ticks = read_price bytes 32 in
    if is_refused s bytes size || (qty == 0) || (price_ticks == 0)
    then skip s
    else (let state : OrderState = record { price_ticks = price_ticks; qty = qty; side = side } in
        let s' = advance s (FlatHashMap.insert s.orders order_id state).0 in
        (
          record s' { stats = record s'.stats { adds = add64 s'.stats.adds 1 } },
          add (record {
            seq_no = s'.seq_no;
            ts_exchange = read_ts6 bytes 5;
            order_id = order_id;
            instrument_id = 0;
            price_ticks = price_ticks;
            qty = qty;
            side = side;
          }),
        ))

-- The trade that an execution reports.
abbrev pub traded : ItchParser → List ℕ → ℕ → ℕ → ℕ → Side → ItchParser × ItchParsed
traded s bytes order_id price_ticks qty side = (
  record s { stats = record s.stats { trades = add64 s.stats.trades 1 } },
  trade (record {
    seq_no = s.seq_no;
    ts_exchange = read_ts6 bytes 5;
    order_id = order_id;
    instrument_id = 0;
    price_ticks = price_ticks;
    qty = qty;
    side = side;
  }),
)

-- `case 'E'`
unfoldable pub parse_executed : ItchParser → List ℕ → ItchParser × ItchParsed
unfolding reduce
parse_executed s bytes =
    let order_id = read_be64 bytes 11 in
    let exec_qty = read_be32 bytes 19 in
    if is_refused s bytes 31 then skip s else (elim (FlatHashMap.find s.orders order_id) [
      | none ↦ miss s
      | some i ↦
          let state = s.orders.vals i in
          traded (advance s (reduce s.orders order_id i exec_qty)) bytes order_id state.price_ticks
            exec_qty state.side
    ])

-- `case 'C'`
unfoldable pub parse_executed_price : ItchParser → List ℕ → ItchParser × ItchParsed
unfolding reduce
parse_executed_price s bytes =
    let order_id = read_be64 bytes 11 in
    let exec_qty = read_be32 bytes 19 in
    let price_ticks = read_price bytes 32 in
    if is_refused s bytes 36 then skip s else (elim (FlatHashMap.find s.orders order_id) [
      | none ↦
          let missed = record s {
            stats = record s.stats { lookup_misses = add64 s.stats.lookup_misses 1 };
          } in
          traded (advance missed s.orders) bytes order_id price_ticks exec_qty bid
      | some i ↦
          traded (advance s (reduce s.orders order_id i exec_qty)) bytes order_id price_ticks
            exec_qty (s.orders.vals i).side
    ])

-- The cancel that a reduction reports.
abbrev pub cancelled : ItchParser → List ℕ → ℕ → ℕ → ItchParser × ItchParsed
cancelled s bytes order_id qty = (
  record s { stats = record s.stats { cancels = add64 s.stats.cancels 1 } },
  cancel (record {
    seq_no = s.seq_no;
    ts_exchange = read_ts6 bytes 5;
    order_id = order_id;
    instrument_id = 0;
    canceled_qty = qty;
  }),
)

-- `case 'X'`
unfoldable pub parse_cancel : ItchParser → List ℕ → ItchParser × ItchParsed
unfolding reduce
parse_cancel s bytes =
    let order_id = read_be64 bytes 11 in
    let cancel_qty = read_be32 bytes 19 in
    if is_refused s bytes 24 then skip s else (elim (FlatHashMap.find s.orders order_id) [
      | none ↦ miss s
      | some i ↦
          cancelled (advance s (reduce s.orders order_id i cancel_qty)) bytes order_id cancel_qty
    ])

-- `case 'D'`
unfoldable pub parse_delete : ItchParser → List ℕ → ItchParser × ItchParsed
parse_delete s bytes =
    let order_id = read_be64 bytes 11 in
    if is_refused s bytes 19 then skip s else (elim (FlatHashMap.find s.orders order_id) [
      | none ↦ miss s
      | some i ↦
          cancelled (advance s (FlatHashMap.erase s.orders order_id).0) bytes order_id
            (s.orders.vals i).qty
    ])

-- `case 'U'`
unfoldable pub parse_replace : ItchParser → List ℕ → ItchParser × ItchParsed
parse_replace s bytes =
    let orig_order_id = read_be64 bytes 11 in
    let new_order_id = read_be64 bytes 19 in
    let new_qty = read_be32 bytes 27 in
    let new_price = read_price bytes 31 in
    if is_refused s bytes 35 then skip s else (elim (FlatHashMap.find s.orders orig_order_id) [
      | none ↦ miss s
      | some i ↦
          let state : OrderState = record {
            price_ticks = new_price;
            qty = new_qty;
            side = (s.orders.vals i).side;
          } in
          let erased = (FlatHashMap.erase s.orders orig_order_id).0 in
          let s' = advance s (FlatHashMap.insert erased new_order_id state).0 in
          (
            record s' { stats = record s'.stats { modifies = add64 s'.stats.modifies 1 } },
            modify (record {
              seq_no = s'.seq_no;
              ts_exchange = read_ts6 bytes 5;
              order_id = orig_order_id;
              instrument_id = 0;
              new_price_ticks = new_price;
              new_qty = new_qty;
            }),
          )
    ])

-- `case 'P'`
unfoldable pub parse_trade : ItchParser → List ℕ → ItchParser × ItchParsed
parse_trade s bytes =
    let qty = read_be32 bytes 20 in
    let price_ticks = read_price bytes 32 in
    if is_refused s bytes 44 || (qty == 0) || (price_ticks == 0)
    then skip s
    else traded (advance s s.orders) bytes (read_be64 bytes 11) price_ticks qty (read_side bytes)

-- The character of the message.
pub data ItchType : Type 0 where
  add_order add_order_mpid executed executed_price order_cancel order_delete : ItchType
  replace non_cross other : ItchType

abbrev pub to_type : ℕ → ItchType
to_type c =
    if c == 65
    then add_order
    else (if c == 70
        then add_order_mpid
        else (if c == 69
            then executed
            else (if c == 67
                then executed_price
                else (if c == 88
                    then order_cancel
                    else (if c == 68
                        then order_delete
                        else (if c == 85
                            then replace
                            else (if c == 80 then non_cross else other)))))))

unfoldable pub dispatch : ItchType → ItchParser → List ℕ → ItchParser × ItchParsed
unfolding parse_add parse_executed parse_executed_price parse_cancel parse_delete parse_replace
    parse_trade
dispatch add_order s bytes = parse_add 36 s bytes
dispatch add_order_mpid s bytes = parse_add 40 s bytes
dispatch executed s bytes = parse_executed s bytes
dispatch executed_price s bytes = parse_executed_price s bytes
dispatch order_cancel s bytes = parse_cancel s bytes
dispatch order_delete s bytes = parse_delete s bytes
dispatch replace s bytes = parse_replace s bytes
dispatch non_cross s bytes = parse_trade s bytes
dispatch other s bytes = skip s

unfoldable pub parse : ℕ → ItchParser → List ℕ → ItchParser × ItchParsed
unfolding dispatch
parse msg_type s bytes = dispatch (to_type msg_type) s bytes
