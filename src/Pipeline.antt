-- ===== src/Pipeline.antt =====
-- The replay of src/app/main_replay.cpp: each message goes to the book, a book update to the strategy,
-- an intent to the risk engine and the gateway, and a fill to the portfolio and back to the strategy.
-- `rdtsc` is a clock: the value of each reading in turn, as a parameter.
pub mod Options
pub mod Invariants
pub mod Turns
pub mod Agree
pub mod Book
pub mod Counts
pub mod Readings
pub mod Guard
pub mod Position
pub mod Clockless
pub mod ItchBook
pub mod Orders
pub mod Read
pub mod Synced
use mockex.Prelude.{ℕ, zero, suc, ◌+◌, ◌*◌, ◌-◌, ◌%◌, ◌^◌, Bool, true, false, leb, if◌then◌else◌}
use mockex.Prelude.{Option, none, some, List, [], ◌∷◌, ◌++◌}
use mockex.Pipeline.Options.{ReplayOptions}
use mockex.Types.{Side, BboUpdate, OrderIntent, RiskLimits, add64}
use mockex.Parser
use mockex.Parser.{ParsedMsg, parsed_add, parsed_modify, parsed_cancel, parsed_trade, parsed_clear}
use mockex.Parser.{parse_error}
use mockex.ItchParser
use mockex.ItchParser.{ItchParser, ItchParsed, skipped}
use mockex.ReplayReader
use mockex.ReplayReader.{ReplayReader, RawMsg, FileStatus}
use mockex.ItchReplayReader
use mockex.ItchReplayReader.{ItchReplayReader, ItchRawMsg}
use mockex.OrderBook
use mockex.OrderBook.{OrderBook, midprice}
use mockex.OrderBook.Events.{Event, add, modify, cancel, trade, clear_all, apply}
use mockex.MarketMaker
use mockex.MarketMaker.{MarketMaker, StrategyConfig, on_bbo, on_fill}
use mockex.RiskEngine.{RiskEngine, RiskResult, accept, validate}
use mockex.ExchangeSim
use mockex.OrderGateway
use mockex.OrderGateway.{OrderGateway, FillInfo, submit_intent}
use mockex.Portfolio
use mockex.Portfolio.{Portfolio, apply_fill, snapshot}
use mockex.LatencyTracker
use mockex.LatencyTracker.{LatencyTracker, Label, record_span, set_tsc_freq}

pub record FillLogEntry : Type 0 where
  pub seq_no : ℕ
  pub side : Side
  pub qty : ℕ
  pub price : ℕ

-- The variables of `main` that the loops use, and how often the clock was read.
pub record Session : Type 0 where
  pub lat : LatencyTracker
  pub book : OrderBook
  pub strategy : MarketMaker
  pub risk : RiskEngine
  pub gateway : OrderGateway
  pub portfolio : Portfolio
  pub fill_log : List FillLogEntry
  pub msgs_processed : ℕ
  pub last_seq : ℕ
  pub readings : ℕ

-- `RiskLimits risk_limits`; the product of two uint32_t wraps.
abbrev pub risk_limits : StrategyConfig → RiskLimits
risk_limits cfg = record {
  max_position = cfg.max_position;
  max_order_qty = cfg.lot_size * 5 % 2 ^ 32;
  max_notional = 2 ^ 64 - 1;
  price_collar_ticks = 100;
}

-- The objects as `main` makes them, after one reading for `t_start`.
unfoldable pub create : StrategyConfig → ℕ → Session
create cfg freq = record {
  lat = set_tsc_freq LatencyTracker.create freq;
  book = OrderBook.create 0;
  strategy = MarketMaker.create cfg;
  risk = record { limits = risk_limits cfg; stats = record { total_checks = 0; rejects = 0 } };
  gateway = OrderGateway.create (ExchangeSim.create 1048576) 1048576;
  portfolio = Portfolio.create 1;
  fill_log = [];
  msgs_processed = 0;
  last_seq = 0;
  readings = 1;
}

-- The body of the loop over the fills.
unfoldable pub on_one_fill : Session → FillInfo → Session
on_one_fill s f = record s {
  portfolio = apply_fill s.portfolio f.side f.fill_qty f.fill_price;
  strategy = on_fill s.strategy f.side f.fill_qty;
  fill_log =
      s.fill_log
      ++ ((record { seq_no = s.last_seq; side = f.side; qty = f.fill_qty; price = f.fill_price })
          ∷ []);
}

unfoldable pub on_fills : Session → List FillInfo → Session
unfolding on_one_fill
on_fills s [] = s
on_fills s (f ∷ fs) = on_fills (on_one_fill s f) fs

abbrev pub is_accept : RiskResult → Bool
is_accept accept = true
is_accept _ = false

module _ (clock : ℕ → ℕ) where
  -- `lat.record(label, since, rdtsc())`
  abbrev pub measure : Session → Label → ℕ → Session
  measure s label since = record s {
    lat = record_span s.lat label since (clock s.readings);
    readings = suc s.readings;
  }

  -- The body of the loop over the intents, given the reading before the loop.
  unfoldable pub on_intent : ℕ → Session → OrderIntent → Session
  unfolding on_fills
  on_intent t3 s intent =
      let ref_price = midprice s.book % 2 ^ 32 in
      let (risk, rr) = validate s.risk intent (snapshot s.portfolio ref_price) ref_price in
      let t4 = clock s.readings in
      let checked = measure (record s { risk = risk }) Label.risk t3 in
      if is_accept rr
      then (let (gateway, fills) = submit_intent s.gateway intent in
          on_fills (measure (record checked { gateway = gateway }) Label.gateway t4) fills)
      else checked

  unfoldable pub on_intents : ℕ → Session → List OrderIntent → Session
  unfolding on_intent
  on_intents t3 s [] = s
  on_intents t3 s (intent ∷ intents) = on_intents t3 (on_intent t3 s intent) intents

  -- What follows the change of the book, given the reading before it.
  unfoldable pub on_update : ℕ → Session → Option BboUpdate → Session
  unfolding on_intents
  on_update t1 s none = measure s Label.book_update t1
  on_update t1 s (some bbo) =
      let t2 = clock s.readings in
      let intents = on_bbo s.strategy (record bbo { ts_local = t2 }) in
      let booked = measure s Label.book_update t1 in
      let t3 = clock booked.readings in on_intents t3 (measure booked Label.strategy t2) intents

  -- A change of the book by a message with a sequence number, and what follows.
  abbrev pub on_event : ℕ → Session → ℕ → Event → Session
  on_event t1 s seq e =
      let (book, update) = apply s.book e in
      on_update t1 (record s { book = book; last_seq = seq }) update

  -- `msgs_processed++`, then `rdtsc` before and after the parser.
  abbrev pub ingress : Session → Session
  ingress s =
      measure (record s { msgs_processed = add64 s.msgs_processed 1; readings = suc s.readings })
        Label.md_ingress (clock s.readings)

  -- The branches on what the native parser gives.
  unfoldable pub on_parsed : ℕ → Session → ParsedMsg → Session
  unfolding on_update
  on_parsed t1 s (parsed_add m) = on_event t1 s m.seq_no (add m.order_id m.price_ticks m.qty m.side)
  on_parsed t1 s (parsed_modify m) =
      on_event t1 s m.seq_no (modify m.order_id m.new_price_ticks m.new_qty)
  on_parsed t1 s (parsed_cancel m) = on_event t1 s m.seq_no (cancel m.order_id)
  on_parsed t1 s (parsed_trade m) = on_event t1 s m.seq_no (trade m.order_id m.qty)
  on_parsed t1 s (parsed_clear m) = on_event t1 s m.seq_no clear_all
  on_parsed t1 s (parse_error e) = s

  -- `process_itch`, and the `continue` on a message that was skipped.
  unfoldable pub process_itch : ℕ → Session → ItchParsed → Session
  unfolding on_update
  process_itch t1 s (ItchParsed.add m) =
      on_event t1 s m.seq_no (add m.order_id m.price_ticks m.qty m.side)
  process_itch t1 s (ItchParsed.modify m) =
      on_event t1 s m.seq_no (modify m.order_id m.new_price_ticks m.new_qty)
  process_itch t1 s (ItchParsed.cancel m) = on_event t1 s m.seq_no (cancel m.order_id)
  process_itch t1 s (ItchParsed.trade m) = on_event t1 s m.seq_no (trade m.order_id m.qty)
  process_itch t1 s skipped = s

  -- One turn of each loop, on a message that was read.
  unfoldable pub on_raw : Session → RawMsg → Session
  unfolding on_parsed
  on_raw s raw = on_parsed (clock (suc s.readings)) (ingress s) (Parser.parse raw.type raw.payload)

  unfoldable pub on_itch_raw : Session × ItchParser → ItchRawMsg → Session × ItchParser
  unfolding process_itch
  on_itch_raw (s, parser) raw =
      let (parser', result) = ItchParser.parse raw.msg_type parser raw.payload in
      (process_itch (clock (suc s.readings)) (ingress s) result, parser')

  -- `while (auto raw = reader.next())` with its `break`.
  unfoldable pub replay : ℕ → ℕ → ReplayReader → Session → Session × ReplayReader
  unfolding on_raw
  replay zero max_msgs reader s = (s, reader)
  replay (suc fuel) max_msgs reader s =
      let (reader', raw) = ReplayReader.next reader in
      elim raw [
        | none ↦ (s, reader')
        | some m ↦
            let rest = replay fuel max_msgs reader' (on_raw s m) in
            if leb max_msgs s.msgs_processed then (s, reader') else rest
      ]

  unfoldable pub replay_itch :
      ℕ → ℕ → ItchReplayReader → Session × ItchParser → (Session × ItchParser) × ItchReplayReader
  unfolding on_itch_raw
  replay_itch zero max_msgs reader s = (s, reader)
  replay_itch (suc fuel) max_msgs reader s =
      let (reader', raw) = ItchReplayReader.next reader in
      elim raw [
        | none ↦ (s, reader')
        | some m ↦
            let rest = replay_itch fuel max_msgs reader' (on_itch_raw s m) in
            if leb max_msgs s.0.msgs_processed then (s, reader') else rest
      ]

-- What `main` does once the arguments are read, on a file that `open` finds in some state: nothing if
-- it does not open, and else the session at the end of the loop of the format. Each round takes bytes,
-- so a round for each byte and one are enough.
unfoldable pub run_main : (ℕ → ℕ) → ℕ → ReplayOptions → FileStatus → Option Session
unfolding create
run_main clock freq o file =
    let (itch_reader, itch_ok) = ItchReplayReader.open_file ItchReplayReader.create file in
    let (reader, ok) = ReplayReader.open_file ReplayReader.create file in
    let start = create o.strat_cfg freq in
    if o.use_itch
    then (let parser = ItchParser.create 1048576 o.locate_filter in
        if itch_ok
        then some
            (replay_itch clock (itch_reader.size + 1) o.max_msgs itch_reader (start, parser)).0.0
        else none)
    else (if ok then some (replay clock (reader.size + 1) o.max_msgs reader start).0 else none)
