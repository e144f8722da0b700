-- ===== src/Pipeline/Agree.antt =====
-- The strategy, the portfolio and the fill log of src/app/main_replay.cpp keep the same account.
use mockex.Prelude.{ℕ, ◌≡◌, refl, ap, sym, ◌∙◌, List, [], ◌∷◌, ◌++◌, Bool-cases, inl, inr}
use mathlib.Core.List.{map, map-append}
use mockex.Types.{is_bid}
use mockex.MarketMaker
use mockex.MarketMaker.{on_fill, StrategyConfig}
use mockex.OrderGateway.{FillInfo}
use mockex.Portfolio.{Portfolio, apply_fill}
use mockex.Portfolio
use mockex.Portfolio.Ledger.{Fill, apply_fills}
use mockex.ReplayReader.{ReplayReader}
use mockex.ItchReplayReader.{ItchReplayReader}
use mockex.ItchParser.{ItchParser}
use mockex.Pipeline.{Session, FillLogEntry, on_one_fill, create, replay, replay_itch}
use mockex.Pipeline.Invariants.{Anything, KeptInside, Kept, KeptInside-KeptByUpdates}
use mockex.Pipeline.Invariants.{replay-kept, replay_itch-kept}

-- An entry of the log as a fill.
abbrev pub fill_of : FillLogEntry → Fill
fill_of e = record { side = e.side; qty = e.qty; price = e.price }

pub record IsAgreed (s : Session) : Type 0 where
  pub inventory : s.strategy.inventory ≡ s.portfolio.position
  pub logged : s.portfolio ≡ apply_fills (Portfolio.create 1) (map fill_of s.fill_log)

apply_fills-append :
    (p : Portfolio) (fs gs : List Fill)
    → apply_fills p (fs ++ gs) ≡ apply_fills (apply_fills p fs) gs
unfolding apply_fills
apply_fills-append p [] gs = refl
apply_fills-append p (f ∷ fs) gs = apply_fills-append (apply_fill p f.side f.qty f.price) fs gs

on_one_fill-IsAgreed : (s : Session) (f : FillInfo) → IsAgreed s → IsAgreed (on_one_fill s f)
unfolding on_one_fill on_fill apply_fill apply_fills
on_one_fill-IsAgreed s f h = record {
  inventory = elim (Bool-cases (is_bid f.side)) [
    | inl is ↦ rw (on_fill, apply_fill, is, h.inventory) refl
    | inr is ↦ rw (on_fill, apply_fill, is, h.inventory) refl
  ];
  logged =
      ap (λ p. apply_fill p f.side f.fill_qty f.fill_price) h.logged
      ∙ sym (
          ap (apply_fills (Portfolio.create 1)) (map-append fill_of s.fill_log _)
          ∙ apply_fills-append (Portfolio.create 1) (map fill_of s.fill_log) _);
}

create-IsAgreed : (cfg : StrategyConfig) (freq : ℕ) → IsAgreed (create cfg freq)
unfolding create apply_fills Portfolio.create MarketMaker.create
create-IsAgreed cfg freq = record { inventory = refl; logged = refl }

module _ (clock : ℕ → ℕ) where
  IsAgreed-KeptInside : KeptInside clock IsAgreed
  IsAgreed-KeptInside = record {
    measured = λ s label since h. record { inventory = h.inventory; logged = h.logged };
    risked = λ s e h. record { inventory = h.inventory; logged = h.logged };
    gated = λ s g h. record { inventory = h.inventory; logged = h.logged };
    filled = on_one_fill-IsAgreed;
  }

  IsAgreed-Kept : Kept clock IsAgreed Anything
  IsAgreed-Kept = record {
    events = record {
      updates = KeptInside-KeptByUpdates clock IsAgreed IsAgreed-KeptInside;
      booked = λ s b n h. record { inventory = h.inventory; logged = h.logged };
    };
    counted = λ s n h. record { inventory = h.inventory; logged = h.logged };
  }

  -- After a replay of any file in either format, however far it goes, the inventory of the strategy is
  -- the position of the portfolio, and the portfolio is a new one after exactly the fills of the log,
  -- in their order.
  pub replay-IsAgreed :
      (cfg : StrategyConfig) (freq fuel max_msgs : ℕ) (p : ItchParser) (reader : ReplayReader)
      (itch_reader : ItchReplayReader)
      → IsAgreed (replay clock fuel max_msgs reader (create cfg freq)).0
        × IsAgreed (replay_itch clock fuel max_msgs itch_reader (create cfg freq, p)).0.0
  replay-IsAgreed cfg freq fuel max_msgs p reader itch_reader =
      let start = create-IsAgreed cfg freq in
      let kept = IsAgreed-Kept in
      (
        replay-kept clock IsAgreed kept fuel max_msgs reader (create cfg freq) start,
        replay_itch-kept clock IsAgreed kept fuel max_msgs itch_reader (create cfg freq) p start,
      )
