-- ===== src/Pipeline/Counts.antt =====
-- The counters of the risk engine and of the gateway in src/app/main_replay.cpp.
use mockex.Prelude.{ℕ, ◌+◌, ◌%◌, ◌^◌, ◌≡◌, ◌≢◌, refl, ◌∙◌, List, inl, inr, arith, true, false}
use mockex.Types.{OrderIntent}
use mockex.MarketMaker.{StrategyConfig}
use mockex.OrderGateway
use mockex.OrderGateway.{OrderGateway, FillInfo, submit_intent}
use mockex.OrderGateway.Ids.{submit_intent_new}
use mockex.OrderBook.{midprice}
use mockex.Portfolio.{snapshot}
use mockex.RiskEngine.{
  RiskResult, accept, reject_qty, reject_position, reject_notional, reject_price_collar, validate,
  RiskStats,
}
use mockex.RiskEngine.Accept.{validate_counts_mod}
use mockex.ReplayReader.{ReplayReader}
use mockex.ItchReplayReader.{ItchReplayReader}
use mockex.ItchParser.{ItchParser}
use mockex.Pipeline.{Session, on_one_fill, create, replay, replay_itch, on_intent}
use mockex.Pipeline.{is_accept, on_fills}
use mockex.Pipeline.Invariants.{Kept, on_fills-kept, replay-kept, replay_itch-kept}
use mockex.MarketMaker.Quotes.{IsNew, on_bbo-IsNew}

-- Every check ended in a rejection or in an order, and every order has its own number.
pub record IsTallied (risk : RiskStats) (g : OrderGateway) : Type 0 where
  pub checked : risk.total_checks ≡ (risk.rejects + g.stats.orders_sent) % 2 ^ 64
  pub numbered : g.next_order_id ≡ (g.stats.orders_sent + 1) % 2 ^ 64
  pub never_cancelled : g.stats.orders_cancelled ≡ 0

abbrev pub IsCounted : Session → Type 0
IsCounted s = IsTallied s.risk.stats s.gateway

on_one_fill-IsCounted : (s : Session) (f : FillInfo) → IsCounted s → IsCounted (on_one_fill s f)
unfolding on_one_fill
on_one_fill-IsCounted s f h = h

on_fills-IsCounted : (s : Session) (fs : List FillInfo) → IsCounted s → IsCounted (on_fills s fs)
on_fills-IsCounted s fs h = on_fills-kept IsCounted on_one_fill-IsCounted s fs h

is_accept_iff :
    (r : RiskResult) → (r ≡ accept → is_accept r ≡ true) × (r ≢ accept → is_accept r ≡ false)
is_accept_iff accept = (λ _. refl, λ ne. absurd (ne refl))
is_accept_iff reject_qty = (λ c. cc c, λ _. refl)
is_accept_iff reject_position = (λ c. cc c, λ _. refl)
is_accept_iff reject_notional = (λ c. cc c, λ _. refl)
is_accept_iff reject_price_collar = (λ c. cc c, λ _. refl)

module _ (clock : ℕ → ℕ) where
  on_intent-IsCounted :
      (t3 : ℕ) (s : Session) (intent : OrderIntent)
      → IsNew intent
      → IsCounted s
      → IsCounted (on_intent clock t3 s intent)
  unfolding on_intent
  on_intent-IsCounted t3 s intent is h =
      let ref_price = midprice s.book % 2 ^ 32 in
      let checked = validate s.risk intent (snapshot s.portfolio ref_price) ref_price in
      let (total, cases) =
        validate_counts_mod s.risk intent (snapshot s.portfolio ref_price) ref_price in
      let sent = submit_intent_new s.gateway intent is in
      elim cases [
        | inl (ok, same) ↦
            let tally : IsTallied checked.0.stats (submit_intent s.gateway intent).0 = record {
              checked = omega (arith, total, same, sent, h.checked);
              numbered = omega (arith, sent, h.numbered);
              never_cancelled = sent.2 ∙ h.never_cancelled;
            } in
            rw ((is_accept_iff checked.1).0 ok, on_intent)
              (on_fills-IsCounted _ (submit_intent s.gateway intent).1 tally)
        | inr (refused, one) ↦
            rw ((is_accept_iff checked.1).1 refused, on_intent)
              (record {
                checked = omega (arith, total, one, h.checked);
                numbered = h.numbered;
                never_cancelled = h.never_cancelled;
              })
      ]

  IsCounted-Kept : Kept clock IsCounted IsNew
  IsCounted-Kept = record {
    events = record {
      updates = record {
        quoted = λ s bbo h. on_bbo-IsNew s.strategy bbo;
        measured = λ s label since h. h;
        intended = on_intent-IsCounted;
      };
      booked = λ s b n h. h;
    };
    counted = λ s n h. h;
  }

  -- After a replay of any file in either format, however far it goes, the checks of the risk engine
  -- are its rejects and the orders that the gateway sent, modulo 2 ^ 64; the next order id is one
  -- more than the orders sent; and no order was cancelled.
  pub replay-IsCounted :
      (cfg : StrategyConfig) (freq fuel max_msgs : ℕ) (p : ItchParser) (reader : ReplayReader)
      (itch_reader : ItchReplayReader)
      → IsCounted (replay clock fuel max_msgs reader (create cfg freq)).0
        × IsCounted (replay_itch clock fuel max_msgs itch_reader (create cfg freq, p)).0.0
  replay-IsCounted cfg freq fuel max_msgs p reader itch_reader =
      let start : IsCounted (create cfg freq) =
        unfold create OrderGateway.create in
        (record { checked = refl; numbered = refl; never_cancelled = refl }) in
      (
        replay-kept clock IsCounted IsCounted-Kept fuel max_msgs reader _ start,
        replay_itch-kept clock IsCounted IsCounted-Kept fuel max_msgs itch_reader _ p start,
      )
