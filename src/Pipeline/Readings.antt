-- ===== src/Pipeline/Readings.antt =====
-- How often src/app/main_replay.cpp reads the clock: eight times for a message, at most.
use mockex.Prelude.{
  ℕ, zero, suc, ◌+◌, ◌*◌, ◌%◌, ◌^◌, ◌≤◌, ◌≡◌, refl, arith, List, [], ◌∷◌, length, leb,
}
use mockex.Prelude.{Option, none, some, Option-cases, Bool-cases, inl, inr}
use mockex.Types.{OrderIntent, BboUpdate}
use mockex.MarketMaker.{MarketMaker, on_bbo}
use mockex.OrderBook.{midprice}
use mockex.OrderGateway.{FillInfo, submit_intent}
use mockex.Portfolio.{snapshot}
use mockex.RiskEngine.{validate}
use mockex.LatencyTracker.{Label}
use mockex.Parser.{ParsedMsg, parsed_add, parsed_modify, parsed_cancel, parsed_trade, parsed_clear}
use mockex.Parser.{parse_error, parse}
use mockex.ItchParser
use mockex.ItchParser.{ItchParser, ItchParsed, skipped}
use mockex.ReplayReader
use mockex.ReplayReader.{ReplayReader, RawMsg}
use mockex.ItchReplayReader
use mockex.ItchReplayReader.{ItchReplayReader, ItchRawMsg}
use mockex.Pipeline.{Session, measure, on_one_fill, on_fills, on_intent, on_intents, on_update}
use mockex.Pipeline.{on_parsed, process_itch, ingress, on_raw, on_itch_raw, replay, replay_itch}
use mockex.Pipeline.{is_accept}
use mockex.Pipeline.Invariants.{on_fills-kept}

on_one_fill_readings :
    (n : ℕ) (s : Session) (f : FillInfo) → s.readings ≡ n → (on_one_fill s f).readings ≡ n
unfolding on_one_fill
on_one_fill_readings n s f h = h

on_fills_readings : (s : Session) (fs : List FillInfo) → (on_fills s fs).readings ≡ s.readings
on_fills_readings s fs =
    on_fills-kept (λ t. t.readings ≡ s.readings) (on_one_fill_readings s.readings) s fs refl

length-on_bbo : (m : MarketMaker) (bbo : BboUpdate) → length (on_bbo m bbo) ≤ 2
unfolding on_bbo
length-on_bbo m bbo = ground arith

module _ (clock : ℕ → ℕ) where
  on_intent_readings :
      (t3 : ℕ) (s : Session) (i : OrderIntent) → (on_intent clock t3 s i).readings ≤ s.readings + 2
  unfolding on_intent
  on_intent_readings t3 s i =
      let ref_price = midprice s.book % 2 ^ 32 in
      let checked = validate s.risk i (snapshot s.portfolio ref_price) ref_price in
      let (gateway, fills) = submit_intent s.gateway i in
      let t = measure clock (record s { risk = checked.0 }) Label.risk t3 in
      let sent = measure clock (record t { gateway = gateway }) Label.gateway (clock s.readings) in
      elim (Bool-cases (is_accept checked.1)) [
        | inl ok ↦ rw (ok, on_intent) (omega (arith, on_fills_readings sent fills))
        | inr refused ↦ rw (refused, on_intent) (omega arith)
      ]

  on_intents_readings :
      (t3 : ℕ) (s : Session) (is : List OrderIntent)
      → (on_intents clock t3 s is).readings ≤ s.readings + 2 * length is
  unfolding on_intents
  on_intents_readings t3 s [] = omega arith
  on_intents_readings t3 s (i ∷ is) =
      omega (arith, on_intent_readings t3 s i, on_intents_readings t3 (on_intent clock t3 s i) is)

  on_update_readings :
      (t1 : ℕ) (s : Session) (u : Option BboUpdate)
      → (on_update clock t1 s u).readings ≤ s.readings + 6
  unfolding on_update
  on_update_readings t1 s none = omega arith
  on_update_readings t1 s (some bbo) =
      let t2 = clock s.readings in
      let quoted = measure clock (measure clock s Label.book_update t1) Label.strategy t2 in
      let intents = on_bbo s.strategy (record bbo { ts_local = t2 }) in
      omega (
        arith,
        on_intents_readings (clock (suc s.readings)) quoted intents,
        length-on_bbo s.strategy (record bbo { ts_local = t2 }),
      )

  on_parsed_readings :
      (t1 : ℕ) (s : Session) (m : ParsedMsg) → (on_parsed clock t1 s m).readings ≤ s.readings + 6
  unfolding on_parsed
  on_parsed_readings t1 s (parsed_add m) = on_update_readings t1 _ _
  on_parsed_readings t1 s (parsed_modify m) = on_update_readings t1 _ _
  on_parsed_readings t1 s (parsed_cancel m) = on_update_readings t1 _ _
  on_parsed_readings t1 s (parsed_trade m) = on_update_readings t1 _ _
  on_parsed_readings t1 s (parsed_clear m) = on_update_readings t1 _ _
  on_parsed_readings t1 s (parse_error e) = omega arith

  process_itch_readings :
      (t1 : ℕ) (s : Session) (m : ItchParsed)
      → (process_itch clock t1 s m).readings ≤ s.readings + 6
  unfolding process_itch
  process_itch_readings t1 s (ItchParsed.add m) = on_update_readings t1 _ _
  process_itch_readings t1 s (ItchParsed.modify m) = on_update_readings t1 _ _
  process_itch_readings t1 s (ItchParsed.cancel m) = on_update_readings t1 _ _
  process_itch_readings t1 s (ItchParsed.trade m) = on_update_readings t1 _ _
  process_itch_readings t1 s skipped = omega arith

  on_raw_readings : (s : Session) (raw : RawMsg) → (on_raw clock s raw).readings ≤ s.readings + 8
  unfolding on_raw
  on_raw_readings s raw = omega (
    arith,
    on_parsed_readings (clock (suc s.readings)) (ingress clock s) (parse raw.type raw.payload),
  )

  on_itch_raw_readings :
      (s : Session) (p : ItchParser) (raw : ItchRawMsg)
      → (on_itch_raw clock (s, p) raw).0.readings ≤ s.readings + 8
  unfolding on_itch_raw
  on_itch_raw_readings s p raw =
      let result = (ItchParser.parse raw.msg_type p raw.payload).1 in
      omega (arith, process_itch_readings (clock (suc s.readings)) (ingress clock s) result)

  pub replay_readings :
      (fuel max_msgs : ℕ) (r : ReplayReader) (s : Session)
      → (replay clock fuel max_msgs r s).0.readings ≤ s.readings + 8 * fuel
  unfolding replay
  replay_readings zero max_msgs r s = omega arith
  replay_readings (suc fuel) max_msgs r s = elim (Option-cases (ReplayReader.next r).1) [
    | inl over ↦ rw (over, replay) (omega arith)
    | inr (m, e) ↦ elim (Bool-cases (leb max_msgs s.msgs_processed)) [
      | inl full ↦ rw (e, full, replay) (omega arith)
      | inr more ↦
          let rest = replay_readings fuel max_msgs (ReplayReader.next r).0 (on_raw clock s m) in
          rw (e, more, replay) (omega (arith, rest, on_raw_readings s m))
    ]
  ]

  pub replay_itch_readings :
      (fuel max_msgs : ℕ) (r : ItchReplayReader) (s : Session) (p : ItchParser)
      → (replay_itch clock fuel max_msgs r (s, p)).0.0.readings ≤ s.readings + 8 * fuel
  unfolding replay_itch
  replay_itch_readings zero max_msgs r s p = omega arith
  replay_itch_readings (suc fuel) max_msgs r s p = elim (Option-cases (ItchReplayReader.next r).1) [
    | inl over ↦ rw (over, replay_itch) (omega arith)
    | inr (m, e) ↦ elim (Bool-cases (leb max_msgs s.msgs_processed)) [
      | inl full ↦ rw (e, full, replay_itch) (omega arith)
      | inr more ↦
          let (t, p') = on_itch_raw clock (s, p) m in
          let rest = replay_itch_readings fuel max_msgs (ItchReplayReader.next r).0 t p' in
          rw (e, more, replay_itch) (omega (arith, rest, on_itch_raw_readings s p m))
    ]
  ]
