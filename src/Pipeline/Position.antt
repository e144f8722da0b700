-- ===== src/Pipeline/Position.antt =====
-- The position in src/app/main_replay.cpp stays within the limit of the strategy: the risk engine
-- checks every order, and the gateway hands out fills of that order only.
use mockex.Prelude.{ℕ, ◌+◌, ◌%◌, ◌^◌, ◌≤◌, ◌<◌, ◌≡◌, refl, ap, arith, All}
use mockex.Prelude.{inl, inr, subst, Bool-cases}
use mockex.Prelude.Int.{pos_part, neg_part}
use mockex.Types.{is_bid, OrderIntent}
use mockex.MarketMaker
use mockex.MarketMaker.{StrategyConfig, on_fill, MarketMaker}
use mockex.MarketMaker.Quotes.{IsLot, on_bbo-IsLot}
use mockex.OrderBook.{midprice}
use mockex.OrderGateway
use mockex.OrderGateway.{OrderGateway, FillInfo, submit_intent}
use mockex.OrderGateway.Fills.{submit_intent_fills}
use mockex.OrderGateway.Ids.{submit_intent_new}
use mockex.Portfolio
use mockex.Portfolio.{snapshot, Portfolio}
use mockex.Portfolio.Bounds.{IsBounded, HasRoom}
use mockex.RiskEngine.{RiskEngine, validate, RiskResult, accept}
use mockex.RiskEngine.Accept.{validate_position}
use mockex.LatencyTracker.{Label}
use mockex.ReplayReader.{ReplayReader}
use mockex.ItchReplayReader.{ItchReplayReader}
use mockex.ItchParser.{ItchParser}
use mockex.Pipeline.{Session, create, on_intent, replay, replay_itch, measure}
use mockex.Pipeline.{is_accept}
use mockex.FlatHashMap
use mockex.Pipeline.Readings.{replay_readings, replay_itch_readings}
use mockex.Pipeline.Agree.{replay-IsAgreed}
use mockex.Pipeline.Invariants.{Kept, replay-kept, replay_itch-kept}
use mockex.Pipeline.Guard.{accept_of, room_of_within, IsSafe, IsGuarded, sent-IsGuarded}

-- The session at each step of a replay.
module _ (cfg : StrategyConfig) (nonneg : neg_part cfg.max_position ≡ 0)
    (room : pos_part cfg.max_position + cfg.lot_size < 2 ^ 31) where
  module _ (clock : ℕ → ℕ) (t3 : ℕ) (s : Session) (intent : OrderIntent) where
    abbrev ref_price : ℕ
    ref_price = midprice s.book % 2 ^ 32

    abbrev verdict_of : RiskEngine × RiskResult
    verdict_of = validate s.risk intent (snapshot s.portfolio ref_price) ref_price

    -- The session after the check, and after the gateway.
    abbrev checked : Session
    checked = measure clock (record s { risk = verdict_of.0 }) Label.risk t3

    abbrev sent : Session
    sent =
        measure clock (record checked { gateway = (submit_intent s.gateway intent).0 })
          Label.gateway (clock s.readings)

    checked-IsGuarded : IsGuarded cfg s → IsGuarded cfg checked
    unfolding validate
    checked-IsGuarded h = record {
      quotes = h.quotes;
      safe = λ lt.
          let safe = h.safe (omega (arith, lt)) in
          record {
            limited = safe.limited;
            bounded = safe.bounded;
            fresh = safe.fresh;
            few = omega (arith, safe.few);
          };
    }

    module _ (h : IsGuarded cfg s) (lot : IsLot cfg.lot_size intent) where
      sent-IsGuarded_before : IsGuarded cfg sent
      unfolding validate
      sent-IsGuarded_before = record {
        quotes = h.quotes;
        safe = λ lt.
            let safe = h.safe (omega (arith, lt)) in
            let (_, _, below) =
              submit_intent_fills s.gateway intent lot.0 (omega (arith, lt, safe.few)) safe.fresh in
            let next = (submit_intent_new s.gateway intent lot.0).0 in
            record {
              limited = safe.limited;
              bounded = safe.bounded;
              fresh = below;
              few = omega (arith, safe.few, next);
            };
      }

      has_room :
          IsSafe cfg s
          → verdict_of.1 ≡ accept
          → HasRoom (is_bid intent.side) (pos_part cfg.max_position) intent.qty s.portfolio.position
      unfolding snapshot
      has_room safe ok =
          let limit : s.risk.limits.max_position ≡ cfg.max_position =
            ap (λ l. l.max_position) safe.limited in
          let (long, short) =
            validate_position s.risk intent (snapshot s.portfolio ref_price) ref_price
              (rw limit nonneg) (rw limit (omega (arith, room)))
              (omega (arith, safe.bounded, room, lot.1)) (omega (arith, safe.bounded, room, lot.1))
              ok in
          room_of_within s.portfolio.position cfg.max_position intent.side intent.qty nonneg
            (rw limit at long) (rw limit at short)

      on_intent-IsGuarded : IsGuarded cfg (on_intent clock t3 s intent)
      unfolding on_intent
      on_intent-IsGuarded = elim (Bool-cases (is_accept verdict_of.1)) [
        | inr refused ↦ rw (refused, on_intent) (checked-IsGuarded h)
        | inl ok ↦
            rw (ok, on_intent)
              (sent-IsGuarded cfg nonneg room sent intent (submit_intent s.gateway intent).1
                sent-IsGuarded_before lot.1
                (λ lt.
                  let safe = h.safe (omega (arith, lt)) in
                  let (sided, enough, _) =
                    submit_intent_fills s.gateway intent lot.0 (omega (arith, lt, safe.few))
                      safe.fresh in
                  (sided, enough, has_room safe (accept_of verdict_of.1 ok))))
      ]

  -- Other changes, with or without a clock reading.
  later-IsGuarded :
      (s t : Session)
      → t.strategy ≡ s.strategy
      → t.risk ≡ s.risk
      → t.portfolio ≡ s.portfolio
      → t.gateway ≡ s.gateway
      → s.readings ≤ t.readings
      → IsGuarded cfg s
      → IsGuarded cfg t
  later-IsGuarded s t strategy risk portfolio gateway le h = record {
    quotes = rw strategy h.quotes;
    safe = λ lt.
        let safe = h.safe (omega (arith, lt)) in
        record {
          limited = rw risk safe.limited;
          bounded = rw portfolio safe.bounded;
          fresh = rw gateway safe.fresh;
          few = rw gateway (omega (arith, safe.few, le));
        };
  }

  IsGuarded-Kept : (clock : ℕ → ℕ) → Kept clock (IsGuarded cfg) (IsLot cfg.lot_size)
  IsGuarded-Kept clock = record {
    events = record {
      updates = record {
        quoted = λ s bbo h.
            subst (λ c. All (IsLot c.lot_size) (MarketMaker.on_bbo s.strategy bbo)) h.quotes
              (on_bbo-IsLot s.strategy bbo);
        measured = λ s label since. later-IsGuarded s _ refl refl refl refl (omega arith);
        intended = λ t3 s intent lot h. on_intent-IsGuarded clock t3 s intent h lot;
      };
      booked = λ s b n. later-IsGuarded s _ refl refl refl refl (omega arith);
    };
    counted = λ s n. later-IsGuarded s _ refl refl refl refl (omega arith);
  }

  create-IsGuarded : (freq : ℕ) → IsGuarded cfg (create cfg freq)
  unfolding create MarketMaker.create OrderGateway.create FlatHashMap.create Portfolio.create
  create-IsGuarded freq = record {
    quotes = refl;
    safe = λ lt. record {
      limited = refl;
      bounded = (omega arith, omega arith);
      fresh = λ i nz. absurd (nz refl);
      few = omega arith;
    };
  }

  create_readings : (freq : ℕ) → (create cfg freq).readings ≡ 1
  unfolding create
  create_readings freq = refl

  -- Both formats: from the objects that `main` makes, for a maximum position that is not negative and
  -- that a lot does not take out of 32 bits, and for fewer than 2 ^ 60 rounds, the position of the
  -- portfolio and the inventory of the strategy stay from minus the maximum position to the maximum
  -- position, after any file, however far the replay goes.
  pub replay-IsBounded :
      (clock : ℕ → ℕ) (freq fuel max_msgs : ℕ) (p : ItchParser) (reader : ReplayReader)
      (itch_reader : ItchReplayReader)
      → fuel < 2 ^ 60
      → let s = (replay clock fuel max_msgs reader (create cfg freq)).0 in
        let t = (replay_itch clock fuel max_msgs itch_reader (create cfg freq, p)).0.0 in
        let limit = pos_part cfg.max_position in
        IsBounded limit s.portfolio.position
        × IsBounded limit s.strategy.inventory
        × IsBounded limit t.portfolio.position
        × IsBounded limit t.strategy.inventory
  replay-IsBounded clock freq fuel max_msgs p reader itch_reader small =
      let start = create-IsGuarded freq in
      let kept = IsGuarded-Kept clock in
      let begun = create_readings freq in
      let few = replay_readings clock fuel max_msgs reader (create cfg freq) in
      let itch_few = replay_itch_readings clock fuel max_msgs itch_reader (create cfg freq) p in
      let (agreed, itch_agreed) =
        replay-IsAgreed clock cfg freq fuel max_msgs p reader itch_reader in
      let native = replay-kept clock (IsGuarded cfg) kept fuel max_msgs reader _ start in
      let itch = replay_itch-kept clock (IsGuarded cfg) kept fuel max_msgs itch_reader _ p start in
      let bounded = (native.safe (omega (arith, few, begun))).bounded in
      let itch_bounded = (itch.safe (omega (arith, itch_few, begun))).bounded in
      (bounded, rw agreed.inventory bounded, itch_bounded, rw itch_agreed.inventory itch_bounded)
