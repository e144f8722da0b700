-- ===== src/Pipeline/Invariants.antt =====
-- What every step of src/app/main_replay.cpp keeps, the two loops keep.
use mockex.Prelude.{ℕ, zero, suc, leb}
use mockex.Prelude.{Option, none, some, List, [], ◌∷◌, All, inl, inr, Bool-cases}
use mockex.Prelude.{Option-cases, ◌%◌, ◌^◌}
use mockex.Types.{BboUpdate, OrderIntent}
use mockex.Parser.{ParsedMsg, parsed_add, parsed_modify, parsed_cancel, parsed_trade, parsed_clear}
use mockex.Parser.{parse_error, parse}
use mockex.ItchParser
use mockex.ItchParser.{ItchParser, ItchParsed, skipped}
use mockex.ReplayReader
use mockex.ReplayReader.{ReplayReader, RawMsg}
use mockex.ItchReplayReader
use mockex.ItchReplayReader.{ItchReplayReader, ItchRawMsg}
use mockex.OrderBook.{OrderBook, midprice}
use mockex.MarketMaker.{on_bbo}
use mockex.RiskEngine.{RiskEngine, validate}
use mockex.OrderGateway.{OrderGateway, FillInfo, submit_intent}
use mockex.Portfolio.{snapshot}
use mockex.LatencyTracker.{Label}
use mockex.Pipeline.{Session, measure, on_one_fill, on_fills, on_intent, on_intents, on_update}
use mockex.Pipeline.{on_parsed, process_itch, ingress, on_raw, on_itch_raw, replay, replay_itch}
use mockex.Pipeline.{is_accept}

-- No condition on what the strategy sends.
abbrev pub Anything : OrderIntent → Type 0
Anything i = Unit

All-Anything : (intents : List OrderIntent) → All Anything intents
All-Anything [] = tt
All-Anything (i ∷ intents) = (tt, All-Anything intents)

module _ (I : Session → Type 0) where
  pub on_fills-kept :
      ((s : Session) (f : FillInfo) → I s → I (on_one_fill s f))
      → (s : Session) (fs : List FillInfo) → I s
      → I (on_fills s fs)
  unfolding on_fills
  on_fills-kept filled s [] h = h
  on_fills-kept filled s (f ∷ fs) h = on_fills-kept filled (on_one_fill s f) fs (filled s f h)

module _ (clock : ℕ → ℕ) (I : Session → Type 0) where
  -- The parts of the answer to an intent.
  pub record KeptInside : Type 0 where
    pub measured : (s : Session) (label : Label) (since : ℕ) → I s → I (measure clock s label since)
    pub risked : (s : Session) (e : RiskEngine) → I s → I (record s { risk = e })
    pub gated : (s : Session) (g : OrderGateway) → I s → I (record s { gateway = g })
    pub filled : (s : Session) (f : FillInfo) → I s → I (on_one_fill s f)

  -- The parts of the answer to a change of the book, where Q holds of what the strategy sends.
  pub record KeptByUpdates (Q : OrderIntent → Type 0) : Type 0 where
    pub quoted : (s : Session) (bbo : BboUpdate) → I s → All Q (on_bbo s.strategy bbo)
    pub measured : (s : Session) (label : Label) (since : ℕ) → I s → I (measure clock s label since)
    pub intended :
        (t3 : ℕ) (s : Session) (intent : OrderIntent)
        → Q intent
        → I s
        → I (on_intent clock t3 s intent)

  -- The parts of what follows the parser.
  pub record KeptByEvents (Q : OrderIntent → Type 0) : Type 0 where
    pub updates : KeptByUpdates Q
    pub booked :
        (s : Session) (b : OrderBook) (n : ℕ) → I s → I (record s { book = b; last_seq = n })

  -- All parts of a turn.
  pub record Kept (Q : OrderIntent → Type 0) : Type 0 where
    pub events : KeptByEvents Q
    pub counted :
        (s : Session) (n : ℕ) → I s → I (record s { msgs_processed = n; readings = suc s.readings })

  module _ (kept : KeptInside) where
    on_intent-kept :
        (t3 : ℕ) (s : Session) (intent : OrderIntent) → I s → I (on_intent clock t3 s intent)
    unfolding on_intent
    on_intent-kept t3 s intent h =
        let ref_price = midprice s.book % 2 ^ 32 in
        let checked = validate s.risk intent (snapshot s.portfolio ref_price) ref_price in
        let sent = submit_intent s.gateway intent in
        let measured = kept.measured _ Label.risk t3 (kept.risked s checked.0 h) in
        elim (Bool-cases (is_accept checked.1)) [
          | inl ok ↦
              rw (ok, on_intent)
                (on_fills-kept I kept.filled _ sent.1
                  (kept.measured _ Label.gateway (clock s.readings) (kept.gated _ sent.0 measured)))
          | inr refused ↦ rw (refused, on_intent) measured
        ]

    pub KeptInside-KeptByUpdates : KeptByUpdates Anything
    KeptInside-KeptByUpdates = record {
      quoted = λ s bbo h. All-Anything (on_bbo s.strategy bbo);
      measured = kept.measured;
      intended = λ t3 s intent n. on_intent-kept t3 s intent;
    }

  module _ {Q : OrderIntent → Type 0} (kept : KeptByUpdates Q) where
    on_intents-kept :
        (t3 : ℕ) (s : Session) (intents : List OrderIntent)
        → All Q intents
        → I s
        → I (on_intents clock t3 s intents)
    unfolding on_intents
    on_intents-kept t3 s [] a h = h
    on_intents-kept t3 s (i ∷ is) a h =
        on_intents-kept t3 (on_intent clock t3 s i) is a.1 (kept.intended t3 s i a.0 h)

    pub on_update-kept :
        (t1 : ℕ) (s : Session) (u : Option BboUpdate) → I s → I (on_update clock t1 s u)
    unfolding on_update
    on_update-kept t1 s none h = kept.measured s Label.book_update t1 h
    on_update-kept t1 s (some bbo) h =
        on_intents-kept _ _ _ (kept.quoted s _ h)
          (kept.measured _ Label.strategy _ (kept.measured s Label.book_update t1 h))

  module _ {Q : OrderIntent → Type 0} (kept : KeptByEvents Q) where
    pub on_parsed-kept : (t1 : ℕ) (s : Session) (m : ParsedMsg) → I s → I (on_parsed clock t1 s m)
    unfolding on_parsed
    on_parsed-kept t1 s (parsed_add m) h = on_update-kept kept.updates t1 _ _ (kept.booked s _ _ h)
    on_parsed-kept t1 s (parsed_modify m) h =
        on_update-kept kept.updates t1 _ _ (kept.booked s _ _ h)
    on_parsed-kept t1 s (parsed_cancel m) h =
        on_update-kept kept.updates t1 _ _ (kept.booked s _ _ h)
    on_parsed-kept t1 s (parsed_trade m) h =
        on_update-kept kept.updates t1 _ _ (kept.booked s _ _ h)
    on_parsed-kept t1 s (parsed_clear m) h =
        on_update-kept kept.updates t1 _ _ (kept.booked s _ _ h)
    on_parsed-kept t1 s (parse_error e) h = h

    pub process_itch-kept :
        (t1 : ℕ) (s : Session) (m : ItchParsed) → I s → I (process_itch clock t1 s m)
    unfolding process_itch
    process_itch-kept t1 s (ItchParsed.add m) h =
        on_update-kept kept.updates t1 _ _ (kept.booked s _ _ h)
    process_itch-kept t1 s (ItchParsed.modify m) h =
        on_update-kept kept.updates t1 _ _ (kept.booked s _ _ h)
    process_itch-kept t1 s (ItchParsed.cancel m) h =
        on_update-kept kept.updates t1 _ _ (kept.booked s _ _ h)
    process_itch-kept t1 s (ItchParsed.trade m) h =
        on_update-kept kept.updates t1 _ _ (kept.booked s _ _ h)
    process_itch-kept t1 s skipped h = h

  module _ {Q : OrderIntent → Type 0} (kept : Kept Q) where
    ingress-kept : (s : Session) → I s → I (ingress clock s)
    ingress-kept s h = kept.events.updates.measured _ _ _ (kept.counted s _ h)

    pub on_raw-kept : (s : Session) (raw : RawMsg) → I s → I (on_raw clock s raw)
    unfolding on_raw
    on_raw-kept s raw h =
        on_parsed-kept kept.events _ _ (parse raw.type raw.payload) (ingress-kept s h)

    on_itch_raw-kept :
        (s : Session) (p : ItchParser) (raw : ItchRawMsg) → I s → I (on_itch_raw clock (s, p) raw).0
    unfolding on_itch_raw
    on_itch_raw-kept s p raw h =
        process_itch-kept kept.events _ _ (ItchParser.parse raw.msg_type p raw.payload).1
          (ingress-kept s h)

    pub replay-kept :
        (fuel max_msgs : ℕ) (r : ReplayReader) (s : Session)
        → I s
        → I (replay clock fuel max_msgs r s).0
    unfolding replay
    replay-kept zero max_msgs r s h = h
    replay-kept (suc fuel) max_msgs r s h = elim (Option-cases (ReplayReader.next r).1) [
      | inl ended ↦ rw (ended, replay) h
      | inr (m, e) ↦ elim (Bool-cases (leb max_msgs s.msgs_processed)) [
        | inl full ↦ rw (e, full, replay) h
        | inr more ↦
            rw (e, more, replay)
              (replay-kept fuel max_msgs (ReplayReader.next r).0 (on_raw clock s m)
                (on_raw-kept s m h))
      ]
    ]

    pub replay_itch-kept :
        (fuel max_msgs : ℕ) (r : ItchReplayReader) (s : Session) (p : ItchParser)
        → I s
        → I (replay_itch clock fuel max_msgs r (s, p)).0.0
    unfolding replay_itch
    replay_itch-kept zero max_msgs r s p h = h
    replay_itch-kept (suc fuel) max_msgs r s p h = elim (Option-cases (ItchReplayReader.next r).1) [
      | inl ended ↦ rw (ended, replay_itch) h
      | inr (m, e) ↦ elim (Bool-cases (leb max_msgs s.msgs_processed)) [
        | inl full ↦ rw (e, full, replay_itch) h
        | inr more ↦
            rw (e, more, replay_itch)
              (replay_itch-kept fuel max_msgs (ItchReplayReader.next r).0
                (on_itch_raw clock (s, p) m).0 (on_itch_raw clock (s, p) m).1
                (on_itch_raw-kept s p m h))
      ]
    ]
