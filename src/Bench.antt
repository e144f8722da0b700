-- ===== src/Bench.antt =====
-- src/app/main_bench.cpp: the loops of the replay with a count of fills in place of the log, over a
-- number of iterations. `rdtsc` is a clock: the value of each reading in turn, as a parameter; the
-- times in milliseconds and the throughputs, of type double, are functions of what they are made of.
-- `fills` is an int, which wraps here.
pub mod Replay
use Prim.Native.String.{String}
use text.Mathlib.Text.{◌==◌ as str_eq}
use mockex.Prelude.{ℕ, zero, suc, ◌+◌, ◌-◌, ◌%◌, ◌^◌, Bool, false, ◌==◌, if◌then◌else◌}
use mockex.Prelude.{Option, none, some, List, [], ◌∷◌, ◌++◌}
use mockex.Prelude.Int.{ℤ, pos, pos_part, ◌+ℤ◌, ltb_ℤ, wrap32, residue}
use mockex.Types.{BboUpdate, OrderIntent, add64}
use mockex.Parser
use mockex.Parser.{ParsedMsg, parsed_add, parsed_modify, parsed_cancel, parsed_trade, parsed_clear}
use mockex.Parser.{parse_error}
use mockex.ItchParser
use mockex.ItchParser.{ItchParser, ItchParsed, skipped}
use mockex.ReplayReader
use mockex.ReplayReader.{ReplayReader, RawMsg, FileStatus}
use mockex.ItchReplayReader
use mockex.ItchReplayReader.{ItchReplayReader, ItchRawMsg}
use mockex.OrderBook
use mockex.OrderBook.{OrderBook, midprice}
use mockex.OrderBook.Events.{Event, add, modify, cancel, trade, clear_all, apply}
use mockex.MarketMaker
use mockex.MarketMaker.{MarketMaker, StrategyConfig, on_bbo, on_fill}
use mockex.RiskEngine.{RiskEngine, validate}
use mockex.ExchangeSim
use mockex.OrderGateway
use mockex.OrderGateway.{OrderGateway, FillInfo, submit_intent}
use mockex.Portfolio
use mockex.Portfolio.{Portfolio, apply_fill, snapshot}
use mockex.LatencyTracker
use mockex.LatencyTracker.{LatencyTracker, Label, record_span, set_tsc_freq}
use mockex.Pipeline.{risk_limits, is_accept}

pub record BenchArgs : Type 0 where
  pub iterations : ℤ
  pub use_itch : Bool
  pub locate_filter : ℕ

-- The loop over the arguments from `argv[2]` on.
unfoldable pub parse_args : (String → ℤ) → BenchArgs → List String → BenchArgs
parse_args atoi o [] = o
parse_args atoi o (a ∷ []) = record o { iterations = atoi a }
parse_args atoi o (a ∷ v ∷ rest) =
    let format = parse_args atoi (record o { use_itch = str_eq v "itch" }) rest in
    let locate = parse_args atoi (record o { locate_filter = residue (2 ^ 16) (atoi v) }) rest in
    let other = parse_args atoi (record o { iterations = atoi a }) (v ∷ rest) in
    if str_eq a "--format" then format else (if str_eq a "--locate" then locate else other)

-- `if (iterations < 1) iterations = 1`
abbrev pub rounds : BenchArgs → ℕ
rounds o = if ltb_ℤ o.iterations (pos 1) then 1 else pos_part o.iterations

-- The variables of one iteration, and how often the clock was read.
pub record BenchRun : Type 0 where
  pub lat : LatencyTracker
  pub book : OrderBook
  pub strategy : MarketMaker
  pub risk : RiskEngine
  pub gateway : OrderGateway
  pub portfolio : Portfolio
  pub msgs : ℕ
  pub fills : ℤ
  pub readings : ℕ

-- `strat_cfg`, with the skew and the offset of the default configuration.
abbrev pub bench_cfg : (ℤ → ℤ) → StrategyConfig
bench_cfg skew_of = record {
  base_spread_ticks = 2;
  lot_size = 100;
  max_position = pos 1000;
  skew_of = skew_of;
  quote_offset_ticks = 1;
}

-- The objects of an iteration, after one reading for `t_start`.
unfoldable pub create : StrategyConfig → ℕ → ℕ → BenchRun
create cfg freq readings = record {
  lat = set_tsc_freq LatencyTracker.create freq;
  book = OrderBook.create 0;
  strategy = MarketMaker.create cfg;
  risk = record { limits = risk_limits cfg; stats = record { total_checks = 0; rejects = 0 } };
  gateway = OrderGateway.create (ExchangeSim.create 1048576) 1048576;
  portfolio = Portfolio.create 1;
  msgs = 0;
  fills = pos 0;
  readings = suc readings;
}

-- The loop over the fills.
unfoldable pub on_one_fill : BenchRun → FillInfo → BenchRun
on_one_fill s f = record s {
  portfolio = apply_fill s.portfolio f.side f.fill_qty f.fill_price;
  strategy = on_fill s.strategy f.side f.fill_qty;
  fills = wrap32 (s.fills +ℤ pos 1);
}

unfoldable pub on_fills : BenchRun → List FillInfo → BenchRun
unfolding on_one_fill
on_fills s [] = s
on_fills s (f ∷ fs) = on_fills (on_one_fill s f) fs

-- What an iteration adds to `results`.
pub record IterResult {ℓ} (D : Type ℓ) : Type ℓ where
  pub msgs : ℕ
  pub elapsed_ms : D
  pub throughput : D
  pub fills : ℤ

module _ (clock : ℕ → ℕ) where
  abbrev pub measure : BenchRun → Label → ℕ → BenchRun
  measure s label since = record s {
    lat = record_span s.lat label since (clock s.readings);
    readings = suc s.readings;
  }

  -- The body of the loop over the intents, given the reading before the loop.
  unfoldable pub on_intent : ℕ → BenchRun → OrderIntent → BenchRun
  unfolding on_fills
  on_intent t3 s intent =
      let ref_price = midprice s.book % 2 ^ 32 in
      let (risk, rr) = validate s.risk intent (snapshot s.portfolio ref_price) ref_price in
      let t4 = clock s.readings in
      let checked = measure (record s { risk = risk }) Label.risk t3 in
      if is_accept rr
      then (let (gateway, fill_list) = submit_intent s.gateway intent in
          on_fills (measure (record checked { gateway = gateway }) Label.gateway t4) fill_list)
      else checked

  unfoldable pub on_intents : ℕ → BenchRun → List OrderIntent → BenchRun
  unfolding on_intent
  on_intents t3 s [] = s
  on_intents t3 s (intent ∷ intents) = on_intents t3 (on_intent t3 s intent) intents

  -- What follows the change of the book, given the reading before it.
  unfoldable pub on_update : ℕ → BenchRun → Option BboUpdate → BenchRun
  unfolding on_intents
  on_update t1 s none = measure s Label.book_update t1
  on_update t1 s (some bbo) =
      let t2 = clock s.readings in
      let booked = measure s Label.book_update t1 in
      let intents = on_bbo booked.strategy bbo in
      let t3 = clock booked.readings in on_intents t3 (measure booked Label.strategy t2) intents

  abbrev pub on_event : ℕ → BenchRun → Event → BenchRun
  on_event t1 s e =
      let (book, update) = apply s.book e in on_update t1 (record s { book = book }) update

  -- `msgs++`, then `rdtsc` before and after the parser.
  abbrev pub ingress : BenchRun → BenchRun
  ingress s =
      measure (record s { msgs = add64 s.msgs 1; readings = suc s.readings }) Label.md_ingress
        (clock s.readings)

  -- The branches on what each parser gives.
  unfoldable pub on_parsed : ℕ → BenchRun → ParsedMsg → BenchRun
  unfolding on_update
  on_parsed t1 s (parsed_add m) = on_event t1 s (add m.order_id m.price_ticks m.qty m.side)
  on_parsed t1 s (parsed_modify m) = on_event t1 s (modify m.order_id m.new_price_ticks m.new_qty)
  on_parsed t1 s (parsed_cancel m) = on_event t1 s (cancel m.order_id)
  on_parsed t1 s (parsed_trade m) = on_event t1 s (trade m.order_id m.qty)
  on_parsed t1 s (parsed_clear m) = on_event t1 s clear_all
  on_parsed t1 s (parse_error e) = s

  unfoldable pub on_itch_parsed : ℕ → BenchRun → ItchParsed → BenchRun
  unfolding on_update
  on_itch_parsed t1 s (ItchParsed.add m) = on_event t1 s (add m.order_id m.price_ticks m.qty m.side)
  on_itch_parsed t1 s (ItchParsed.modify m) =
      on_event t1 s (modify m.order_id m.new_price_ticks m.new_qty)
  on_itch_parsed t1 s (ItchParsed.cancel m) = on_event t1 s (cancel m.order_id)
  on_itch_parsed t1 s (ItchParsed.trade m) = on_event t1 s (trade m.order_id m.qty)
  on_itch_parsed t1 s skipped = s

  -- One turn of each loop.
  unfoldable pub on_raw : BenchRun → RawMsg → BenchRun
  unfolding on_parsed
  on_raw s raw = on_parsed (clock (suc s.readings)) (ingress s) (Parser.parse raw.type raw.payload)

  unfoldable pub on_itch_raw : BenchRun × ItchParser → ItchRawMsg → BenchRun × ItchParser
  unfolding on_itch_parsed
  on_itch_raw (s, parser) raw =
      let (parser', result) = ItchParser.parse raw.msg_type parser raw.payload in
      (on_itch_parsed (clock (suc s.readings)) (ingress s) result, parser')

  -- `while (auto raw = reader.next())`
  unfoldable pub run : ℕ → ReplayReader → BenchRun → BenchRun × ReplayReader
  unfolding on_raw
  run zero reader s = (s, reader)
  run (suc fuel) reader s =
      let (reader', raw) = ReplayReader.next reader in
      elim raw [ none ↦ (s, reader') | some m ↦ run fuel reader' (on_raw s m) ]

  unfoldable pub run_itch :
      ℕ → ItchReplayReader → BenchRun × ItchParser → (BenchRun × ItchParser) × ItchReplayReader
  unfolding on_itch_raw
  run_itch zero reader s = (s, reader)
  run_itch (suc fuel) reader s =
      let (reader', raw) = ItchReplayReader.next reader in
      elim raw [ none ↦ (s, reader') | some m ↦ run_itch fuel reader' (on_itch_raw s m) ]

  -- The loops of one iteration on a file; what `open` returns is not looked at. From an open file, a
  -- round for each byte and one are enough.
  unfoldable pub run_iteration : StrategyConfig → ℕ → BenchArgs → FileStatus → ℕ → BenchRun
  unfolding run run_itch create
  run_iteration cfg freq o file readings =
      let itch_reader = (ItchReplayReader.open_file ItchReplayReader.create file).0 in
      let reader = (ReplayReader.open_file ReplayReader.create file).0 in
      let start = create cfg freq readings in
      if o.use_itch
      then (let parser = ItchParser.create 1048576 o.locate_filter in
          (run_itch (itch_reader.size + 1) itch_reader (start, parser)).0.0)
      else (run (reader.size + 1) reader start).0

  -- The iterations that are left: their results, and `best_lat`, which the last one sets.
  unfoldable pub iterate {ℓ} :
      {D : Type ℓ}
      → (ℕ → D)
      → (ℕ → ℕ → D)
      → (ℕ → BenchRun)
      → ℕ
      → ℕ
      → LatencyTracker
      → List (IterResult D) × LatencyTracker
  iterate elapsed_ms throughput iteration zero readings best_lat = ([], best_lat)
  iterate elapsed_ms throughput iteration (suc n) readings best_lat =
      let s = iteration readings in
      let cycles = (clock s.readings + 2 ^ 64 - clock readings) % 2 ^ 64 in
      let result : IterResult _ = record {
        msgs = s.msgs;
        elapsed_ms = elapsed_ms cycles;
        throughput = throughput s.msgs cycles;
        fills = s.fills;
      } in
      let (results, lat) =
        iterate elapsed_ms throughput iteration n (suc s.readings)
          (if n == 0 then s.lat else best_lat) in
      (result ∷ results, lat)
