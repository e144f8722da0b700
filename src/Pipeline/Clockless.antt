-- ===== src/Pipeline/Clockless.antt =====
-- What src/app/main_replay.cpp measures has no say in what it does.
use mockex.Prelude.{ℕ, zero, suc, true, false, ◌%◌, ◌^◌, ◌≡◌, refl, sym, ap, ◌∙◌, leb}
use mockex.Prelude.{Option, none, some, List, [], ◌∷◌, Option-cases, Bool-cases, inl, inr}
use mockex.Types.{BboUpdate, OrderIntent}
use mockex.Parser.{ParsedMsg, parsed_add, parsed_modify, parsed_cancel, parsed_trade, parsed_clear}
use mockex.Parser.{parse_error, parse}
use mockex.ItchParser
use mockex.ItchParser.{ItchParser, ItchParsed, skipped}
use mockex.ReplayReader
use mockex.ReplayReader.{ReplayReader, RawMsg}
use mockex.ItchReplayReader
use mockex.ItchReplayReader.{ItchReplayReader, ItchRawMsg}
use mockex.OrderBook.{midprice}
use mockex.MarketMaker.{StrategyConfig, on_bbo}
use mockex.MarketMaker.Quotes.{on_bbo-ts}
use mockex.RiskEngine.{validate}
use mockex.OrderGateway.{FillInfo, submit_intent}
use mockex.Portfolio.{snapshot}
use mockex.LatencyTracker
use mockex.LatencyTracker.{Label}
use mockex.Pipeline.{Session, measure, on_one_fill, on_fills, on_intent, on_intents, on_update}
use mockex.Pipeline.{on_parsed, process_itch, ingress, on_raw, on_itch_raw, replay, replay_itch}
use mockex.Pipeline.{is_accept, create, on_event}
use mockex.OrderBook.Events.{Event, apply}

-- A session without its measurements.
abbrev pub blind : Session → Session
blind s = record s { lat = LatencyTracker.create; readings = 0 }

abbrev stopped : ℕ → ℕ
stopped n = 0

blind-on_fills : (s : Session) (fs : List FillInfo) → blind (on_fills s fs) ≡ on_fills (blind s) fs
unfolding on_fills on_one_fill
blind-on_fills s [] = refl
blind-on_fills s (f ∷ fs) = blind-on_fills (on_one_fill s f) fs

module _ (clock : ℕ → ℕ) where
  blind-on_intent :
      (t : ℕ) (s : Session) (intent : OrderIntent)
      → blind (on_intent clock t s intent) ≡ blind (on_intent stopped 0 (blind s) intent)
  unfolding on_intent
  blind-on_intent t s intent =
      let ref_price = midprice s.book % 2 ^ 32 in
      let checked = validate s.risk intent (snapshot s.portfolio ref_price) ref_price in
      let (gateway, fills) = submit_intent s.gateway intent in
      elim (Bool-cases (is_accept checked.1)) [
        | inr refused ↦ rw (refused, on_intent) refl
        | inl ok ↦ rw (ok, on_intent) (blind-on_fills _ fills ∙ sym (blind-on_fills _ fills))
      ]

blind-on_intents :
    (clock : ℕ → ℕ) (t : ℕ) (s : Session) (intents : List OrderIntent)
    → blind (on_intents clock t s intents) ≡ blind (on_intents stopped 0 (blind s) intents)
unfolding on_intents
blind-on_intents clock t s [] = refl
blind-on_intents clock t s (i ∷ is) =
    blind-on_intents clock t (on_intent clock t s i) is
    ∙ ap (λ x. blind (on_intents stopped 0 x is)) (blind-on_intent clock t s i)
    ∙ sym (blind-on_intents stopped 0 (on_intent stopped 0 (blind s) i) is)

module _ (clock : ℕ → ℕ) where
  blind-on_update :
      (t : ℕ) (s : Session) (u : Option BboUpdate)
      → blind (on_update clock t s u) ≡ blind (on_update stopped 0 (blind s) u)
  unfolding on_update
  blind-on_update t s none = refl
  blind-on_update t s (some bbo) =
      let t2 = clock s.readings in
      let booked = measure clock s Label.book_update t in
      let quoted = measure clock booked Label.strategy t2 in
      let measured = measure stopped (blind s) Label.book_update 0 in
      let intents = on_bbo s.strategy (record bbo { ts_local = t2 }) in
      blind-on_intents clock (clock booked.readings) quoted intents
      ∙ ap (λ is. blind (on_intents stopped 0 (blind s) is))
          (sym (on_bbo-ts s.strategy bbo t2) ∙ on_bbo-ts s.strategy bbo 0)
      ∙ sym (
          blind-on_intents stopped 0 (measure stopped measured Label.strategy 0)
            (on_bbo s.strategy (record bbo { ts_local = 0 })))

  blind-on_event :
      (t : ℕ) (s : Session) (seq : ℕ) (e : Event)
      → blind (on_event clock t s seq e) ≡ blind (on_event stopped 0 (blind s) seq e)
  blind-on_event t s seq e =
      let (book, update) = apply s.book e in
      blind-on_update t (record s { book = book; last_seq = seq }) update

  blind-on_parsed :
      (t : ℕ) (s : Session) (m : ParsedMsg)
      → blind (on_parsed clock t s m) ≡ blind (on_parsed stopped 0 (blind s) m)
  unfolding on_parsed
  blind-on_parsed t s (parsed_add m) =
      blind-on_event t s m.seq_no (Event.add m.order_id m.price_ticks m.qty m.side)
  blind-on_parsed t s (parsed_modify m) =
      blind-on_event t s m.seq_no (Event.modify m.order_id m.new_price_ticks m.new_qty)
  blind-on_parsed t s (parsed_cancel m) = blind-on_event t s m.seq_no (Event.cancel m.order_id)
  blind-on_parsed t s (parsed_trade m) = blind-on_event t s m.seq_no (Event.trade m.order_id m.qty)
  blind-on_parsed t s (parsed_clear m) = blind-on_event t s m.seq_no (Event.clear_all)
  blind-on_parsed t s (parse_error e) = refl

  blind-process_itch :
      (t : ℕ) (s : Session) (m : ItchParsed)
      → blind (process_itch clock t s m) ≡ blind (process_itch stopped 0 (blind s) m)
  unfolding process_itch
  blind-process_itch t s (ItchParsed.add m) =
      blind-on_event t s m.seq_no (Event.add m.order_id m.price_ticks m.qty m.side)
  blind-process_itch t s (ItchParsed.modify m) =
      blind-on_event t s m.seq_no (Event.modify m.order_id m.new_price_ticks m.new_qty)
  blind-process_itch t s (ItchParsed.cancel m) =
      blind-on_event t s m.seq_no (Event.cancel m.order_id)
  blind-process_itch t s (ItchParsed.trade m) =
      blind-on_event t s m.seq_no (Event.trade m.order_id m.qty)
  blind-process_itch t s skipped = refl

module _ (clock clock' : ℕ → ℕ) where
  -- A turn of two sessions that differ in their measurements.
  blind-on_raw :
      (s s' : Session) (raw : RawMsg)
      → blind s ≡ blind s'
      → blind (on_raw clock s raw) ≡ blind (on_raw clock' s' raw)
  unfolding on_raw
  blind-on_raw s s' raw e =
      let m = parse raw.type raw.payload in
      blind-on_parsed clock (clock (suc s.readings)) (ingress clock s) m
      ∙ ap (λ x. blind (on_parsed stopped 0 (blind (ingress stopped x)) m)) e
      ∙ sym (blind-on_parsed clock' (clock' (suc s'.readings)) (ingress clock' s') m)

  blind-on_itch_raw :
      (s s' : Session) (p : ItchParser) (raw : ItchRawMsg)
      → blind s ≡ blind s'
      → blind (on_itch_raw clock (s, p) raw).0 ≡ blind (on_itch_raw clock' (s', p) raw).0
  unfolding on_itch_raw
  blind-on_itch_raw s s' p raw e =
      let m = (ItchParser.parse raw.msg_type p raw.payload).1 in
      blind-process_itch clock (clock (suc s.readings)) (ingress clock s) m
      ∙ ap (λ x. blind (process_itch stopped 0 (blind (ingress stopped x)) m)) e
      ∙ sym (blind-process_itch clock' (clock' (suc s'.readings)) (ingress clock' s') m)

  blind-replay :
      (fuel max_msgs : ℕ) (r : ReplayReader) (s s' : Session)
      → blind s ≡ blind s'
      → let (t, q) = replay clock fuel max_msgs r s in
        let (t', q') = replay clock' fuel max_msgs r s' in (blind t ≡ blind t') × (q ≡ q')
  unfolding replay
  blind-replay zero max_msgs r s s' e = (e, refl)
  blind-replay (suc fuel) max_msgs r s s' e =
      let count : s'.msgs_processed ≡ s.msgs_processed = ap (λ x. x.msgs_processed) (sym e) in
      elim (Option-cases (ReplayReader.next r).1) [
        | inl ended ↦ rw (ended, replay) (e, refl)
        | inr (m, at) ↦ elim (Bool-cases (leb max_msgs s.msgs_processed)) [
          | inl full ↦
              let full' : leb max_msgs s'.msgs_processed ≡ true = ap (leb max_msgs) count ∙ full in
              rw (at, full, full', replay) (e, refl)
          | inr more ↦
              let more' : leb max_msgs s'.msgs_processed ≡ false = ap (leb max_msgs) count ∙ more in
              rw (at, more, more', replay)
                (blind-replay fuel max_msgs (ReplayReader.next r).0 _ _ (blind-on_raw s s' m e))
        ]
      ]

  blind-replay_itch :
      (fuel max_msgs : ℕ) (r : ItchReplayReader) (s s' : Session) (p : ItchParser)
      → blind s ≡ blind s'
      → let ((t, p1), q) = replay_itch clock fuel max_msgs r (s, p) in
        let ((t', p2), q') = replay_itch clock' fuel max_msgs r (s', p) in
        (blind t ≡ blind t') × (p1 ≡ p2) × (q ≡ q')
  unfolding replay_itch on_itch_raw
  blind-replay_itch zero max_msgs r s s' p e = (e, refl, refl)
  blind-replay_itch (suc fuel) max_msgs r s s' p e =
      let count : s'.msgs_processed ≡ s.msgs_processed = ap (λ x. x.msgs_processed) (sym e) in
      elim (Option-cases (ItchReplayReader.next r).1) [
        | inl ended ↦ rw (ended, replay_itch) (e, refl, refl)
        | inr (m, at) ↦ elim (Bool-cases (leb max_msgs s.msgs_processed)) [
          | inl full ↦
              let full' : leb max_msgs s'.msgs_processed ≡ true = ap (leb max_msgs) count ∙ full in
              rw (at, full, full', replay_itch) (e, refl, refl)
          | inr more ↦
              let more' : leb max_msgs s'.msgs_processed ≡ false = ap (leb max_msgs) count ∙ more in
              rw (at, more, more', replay_itch)
                (blind-replay_itch fuel max_msgs (ItchReplayReader.next r).0
                  (on_itch_raw clock (s, p) m).0 (on_itch_raw clock' (s', p) m).0
                  (ItchParser.parse m.msg_type p m.payload).0 (blind-on_itch_raw s s' p m e))
        ]
      ]

-- The readings of the clock have no say in a replay of either format: with the same configuration, file
-- and limit, any two clocks and clock frequencies give the same book, strategy, risk engine, gateway,
-- portfolio, fill log and counters, and leave the reader (and the ITCH parser) in the same state.
pub clocks_agree :
    (clock clock' : ℕ → ℕ) (cfg : StrategyConfig) (freq freq' fuel max_msgs : ℕ) (r : ReplayReader)
    (ir : ItchReplayReader) (p : ItchParser)
    → let (t, q) = replay clock fuel max_msgs r (create cfg freq) in
      let (t', q') = replay clock' fuel max_msgs r (create cfg freq') in
      let ((u, p1), iq) = replay_itch clock fuel max_msgs ir (create cfg freq, p) in
      let ((u', p2), iq') = replay_itch clock' fuel max_msgs ir (create cfg freq', p) in
      (blind t ≡ blind t') × (q ≡ q') × (blind u ≡ blind u') × (p1 ≡ p2) × (iq ≡ iq')
unfolding create
clocks_agree clock clock' cfg freq freq' fuel max_msgs r ir p =
    let s = create cfg freq in
    let s' = create cfg freq' in
    let (native, reader) = blind-replay clock clock' fuel max_msgs r s s' refl in
    let (itch, parser, itch_reader) = blind-replay_itch clock clock' fuel max_msgs ir s s' p refl in
    (native, reader, itch, parser, itch_reader)
