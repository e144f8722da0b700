-- ===== src/Bench/Replay.antt =====
-- The loops of src/app/main_bench.cpp against those of src/app/main_replay.cpp.
use mockex.Prelude.{
  ℕ, zero, suc, ◌+◌, ◌-◌, ◌%◌, ◌^◌, ◌≤◌, ◌<◌, ◌≡◌, refl, ap, ◌∙◌, arith, length, length-append,
}
use mockex.Prelude.{
  none, some, List, [], ◌∷◌, Option, Option-cases, Bool-cases, inl, inr, leb, false,
}
use mockex.Prelude.Int.{pos, ◌+ℤ◌, wrap32, +ℤ_parts}
use mockex.Prelude.Wrap.{wrap32_congr, wrap32_parts}
use mockex.Types.{BboUpdate, OrderIntent}
use mockex.Parser.{ParsedMsg, parsed_add, parsed_modify, parsed_cancel, parsed_trade, parsed_clear}
use mockex.Parser.{parse_error, parse}
use mockex.ItchParser
use mockex.ItchParser.{ItchParser, ItchParsed, skipped}
use mockex.ReplayReader
use mockex.ReplayReader.{ReplayReader, RawMsg}
use mockex.ItchReplayReader
use mockex.ItchReplayReader.{ItchReplayReader, ItchRawMsg}
use mockex.OrderBook.{midprice}
use mockex.MarketMaker.Quotes.{on_bbo-ts}
use mockex.MarketMaker.{StrategyConfig, on_bbo}
use mockex.RiskEngine.{validate}
use mockex.OrderGateway.{FillInfo, submit_intent}
use mockex.Portfolio.{snapshot}
use mockex.LatencyTracker.{Label}
use mockex.Pipeline
use mockex.Pipeline.{Session, is_accept}
use mockex.Pipeline.Turns.{on_raw_count, on_itch_raw_count}
use mockex.Bench
use mockex.Bench.{BenchRun}

-- What the benchmark keeps of a session; of the log it keeps the number of fills.
abbrev pub view : Session → BenchRun
view s = record {
  lat = s.lat;
  book = s.book;
  strategy = s.strategy;
  risk = s.risk;
  gateway = s.gateway;
  portfolio = s.portfolio;
  msgs = s.msgs_processed;
  fills = wrap32 (pos (length s.fill_log));
  readings = s.readings;
}

wrap32-suc : (n m : ℕ) → m ≡ n + 1 → wrap32 (wrap32 (pos n) +ℤ pos 1) ≡ wrap32 (pos m)
wrap32-suc n m e = wrap32_congr _ _ (omega (arith, +ℤ_parts, wrap32_parts (pos n)))

view-on_one_fill :
    (s : Session) (f : FillInfo) → Bench.on_one_fill (view s) f ≡ view (Pipeline.on_one_fill s f)
unfolding Bench.on_one_fill Pipeline.on_one_fill
view-on_one_fill s f =
    ap (λ n. record (Bench.on_one_fill (view s) f) { fills = n })
      (wrap32-suc (length s.fill_log) _ (length-append s.fill_log _))

view-on_fills :
    (s : Session) (fs : List FillInfo) → Bench.on_fills (view s) fs ≡ view (Pipeline.on_fills s fs)
unfolding Bench.on_fills Pipeline.on_fills
view-on_fills s [] = refl
view-on_fills s (f ∷ fs) =
    ap (λ t. Bench.on_fills t fs) (view-on_one_fill s f)
    ∙ view-on_fills (Pipeline.on_one_fill s f) fs

module _ (clock : ℕ → ℕ) where
  view-on_intent :
      (t3 : ℕ) (s : Session) (intent : OrderIntent)
      → Bench.on_intent clock t3 (view s) intent ≡ view (Pipeline.on_intent clock t3 s intent)
  unfolding Bench.on_intent Pipeline.on_intent
  view-on_intent t3 s intent =
      let ref_price = midprice s.book % 2 ^ 32 in
      let checked = validate s.risk intent (snapshot s.portfolio ref_price) ref_price in
      let (gateway, fills) = submit_intent s.gateway intent in
      let t = Pipeline.measure clock (record s { risk = checked.0 }) Label.risk t3 in
      let sent =
        Pipeline.measure clock (record t { gateway = gateway }) Label.gateway (clock s.readings) in
      elim (Bool-cases (is_accept checked.1)) [
        | inr refused ↦ rw (refused, Bench.on_intent, Pipeline.on_intent) refl
        | inl ok ↦ rw (ok, Bench.on_intent, Pipeline.on_intent) (view-on_fills sent fills)
      ]

  view-on_intents :
      (t3 : ℕ) (s : Session) (intents : List OrderIntent)
      → Bench.on_intents clock t3 (view s) intents ≡ view (Pipeline.on_intents clock t3 s intents)
  unfolding Bench.on_intents Pipeline.on_intents
  view-on_intents t3 s [] = refl
  view-on_intents t3 s (i ∷ is) =
      ap (λ t. Bench.on_intents clock t3 t is) (view-on_intent t3 s i)
      ∙ view-on_intents t3 (Pipeline.on_intent clock t3 s i) is

  view-on_update :
      (t1 : ℕ) (s : Session) (u : Option BboUpdate)
      → Bench.on_update clock t1 (view s) u ≡ view (Pipeline.on_update clock t1 s u)
  unfolding Bench.on_update Pipeline.on_update
  view-on_update t1 s none = refl
  view-on_update t1 s (some bbo) =
      let t2 = clock s.readings in
      let quoted =
        Pipeline.measure clock (Pipeline.measure clock s Label.book_update t1) Label.strategy t2 in
      let t3 = clock (suc s.readings) in
      ap (Bench.on_intents clock t3 (view quoted)) (on_bbo-ts s.strategy bbo t2)
      ∙ view-on_intents t3 quoted (on_bbo s.strategy (record bbo { ts_local = t2 }))

  view-on_parsed :
      (t1 : ℕ) (s : Session) (m : ParsedMsg)
      → Bench.on_parsed clock t1 (view s) m ≡ view (Pipeline.on_parsed clock t1 s m)
  unfolding Bench.on_parsed Pipeline.on_parsed
  view-on_parsed t1 s (parsed_add m) = view-on_update t1 _ _
  view-on_parsed t1 s (parsed_modify m) = view-on_update t1 _ _
  view-on_parsed t1 s (parsed_cancel m) = view-on_update t1 _ _
  view-on_parsed t1 s (parsed_trade m) = view-on_update t1 _ _
  view-on_parsed t1 s (parsed_clear m) = view-on_update t1 _ _
  view-on_parsed t1 s (parse_error e) = refl

  view-on_itch :
      (t1 : ℕ) (s : Session) (m : ItchParsed)
      → Bench.on_itch_parsed clock t1 (view s) m ≡ view (Pipeline.process_itch clock t1 s m)
  unfolding Bench.on_itch_parsed Pipeline.process_itch
  view-on_itch t1 s (ItchParsed.add m) = view-on_update t1 _ _
  view-on_itch t1 s (ItchParsed.modify m) = view-on_update t1 _ _
  view-on_itch t1 s (ItchParsed.cancel m) = view-on_update t1 _ _
  view-on_itch t1 s (ItchParsed.trade m) = view-on_update t1 _ _
  view-on_itch t1 s skipped = refl

  view-on_raw :
      (s : Session) (raw : RawMsg)
      → Bench.on_raw clock (view s) raw ≡ view (Pipeline.on_raw clock s raw)
  unfolding Bench.on_raw Pipeline.on_raw
  view-on_raw s raw =
      view-on_parsed (clock (suc s.readings)) (Pipeline.ingress clock s)
        (parse raw.type raw.payload)

  -- The limit is out of reach while fewer messages are counted.
  unlimited : (n k : ℕ) → n + suc k ≤ 2 ^ 64 - 1 → leb (2 ^ 64 - 1) n ≡ false
  unlimited n k h = ground arith

  run-view :
      (fuel : ℕ) (r : ReplayReader) (s : Session)
      → s.msgs_processed + fuel ≤ 2 ^ 64 - 1
      → let (t, r') = Pipeline.replay clock fuel (2 ^ 64 - 1) r s in
        Bench.run clock fuel r (view s) ≡ (view t, r')
  unfolding Bench.run Pipeline.replay
  run-view zero r s h = refl
  run-view (suc fuel) r s h = elim (Option-cases (ReplayReader.next r).1) [
    | inl ended ↦ rw (ended, Bench.run, Pipeline.replay) refl
    | inr (m, e) ↦
        let counted = on_raw_count clock s m in
        let ih =
          run-view fuel (ReplayReader.next r).0 (Pipeline.on_raw clock s m)
            (omega (arith, counted)) in
        rw (e, unlimited s.msgs_processed fuel h, Bench.run, Pipeline.replay)
          (ap (Bench.run clock fuel (ReplayReader.next r).0) (view-on_raw s m) ∙ ih)
  ]

  view-on_itch_raw :
      (s : Session) (p : ItchParser) (raw : ItchRawMsg)
      → let (t, p') = Pipeline.on_itch_raw clock (s, p) raw in
        Bench.on_itch_raw clock (view s, p) raw ≡ (view t, p')
  unfolding Bench.on_itch_raw Pipeline.on_itch_raw
  view-on_itch_raw s p raw =
      let (p', result) = ItchParser.parse raw.msg_type p raw.payload in
      ap (λ t. (t, p')) (view-on_itch (clock (suc s.readings)) (Pipeline.ingress clock s) result)

  run_itch-view :
      (fuel : ℕ) (r : ItchReplayReader) (s : Session) (p : ItchParser)
      → s.msgs_processed + fuel ≤ 2 ^ 64 - 1
      → let ((t, p'), r') = Pipeline.replay_itch clock fuel (2 ^ 64 - 1) r (s, p) in
        Bench.run_itch clock fuel r (view s, p) ≡ ((view t, p'), r')
  unfolding Bench.run_itch Pipeline.replay_itch
  run_itch-view zero r s p h = refl
  run_itch-view (suc fuel) r s p h = elim (Option-cases (ItchReplayReader.next r).1) [
    | inl ended ↦ rw (ended, Bench.run_itch, Pipeline.replay_itch) refl
    | inr (m, e) ↦
        let counted = on_itch_raw_count clock s p m in
        let (t, p') = Pipeline.on_itch_raw clock (s, p) m in
        let ih = run_itch-view fuel (ItchReplayReader.next r).0 t p' (omega (arith, counted)) in
        rw (e, unlimited s.msgs_processed fuel h, Bench.run_itch, Pipeline.replay_itch)
          (ap (Bench.run_itch clock fuel (ItchReplayReader.next r).0) (view-on_itch_raw s p m) ∙ ih)
  ]

  create-view :
      (cfg : StrategyConfig) (freq : ℕ) → Bench.create cfg freq 0 ≡ view (Pipeline.create cfg freq)
  unfolding Bench.create Pipeline.create wrap32
  create-view cfg freq = refl

  -- For fewer than 2 ^ 64 rounds, the first iteration of the benchmark on any reader, in each format,
  -- is the replay with no limit on the messages: with the same configuration, clock and file it ends
  -- with the same book, strategy, risk engine, gateway, portfolio, latencies and message count, with
  -- the reader (and the ITCH parser) in the same state, and its `fills` is the length of the fill log,
  -- wrapped to an int.
  pub run-replay :
      (cfg : StrategyConfig) (freq fuel : ℕ) (r : ReplayReader) (ir : ItchReplayReader)
      (p : ItchParser)
      → fuel < 2 ^ 64
      → let (s, r') = Pipeline.replay clock fuel (2 ^ 64 - 1) r (Pipeline.create cfg freq) in
        let ((t, p'), ir') =
          Pipeline.replay_itch clock fuel (2 ^ 64 - 1) ir (Pipeline.create cfg freq, p) in
        (Bench.run clock fuel r (Bench.create cfg freq 0) ≡ (view s, r'))
        × (Bench.run_itch clock fuel ir (Bench.create cfg freq 0, p) ≡ ((view t, p'), ir'))
  run-replay cfg freq fuel r ir p h =
      let s = Pipeline.create cfg freq in
      let none_yet : s.msgs_processed + fuel ≤ 2 ^ 64 - 1 = unfold Pipeline.create in omega arith in
      rw (create-view cfg freq) (run-view fuel r s none_yet, run_itch-view fuel ir s p none_yet)
