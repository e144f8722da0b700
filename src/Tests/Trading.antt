-- ===== src/Tests/Trading.antt =====
-- The risk engine, the portfolio and the strategy of src/risk, src/portfolio and src/strategy.
use mockex.Prelude.{◌≡◌, suc, ◌+◌, ◌*◌, ◌/◌, refl, true, false, arith, List, [], ◌∷◌}
use mathlib.Core.Logic.{◌↔◌}
use mockex.Prelude.Int.{ℤ, pos, negsuc, ◌+ℤ◌, ◌-ℤ◌, ◌≤ℤ◌, wrap32, wrap64, to_int32, to_int64}
use mockex.Types.{bid, ask, new, OrderIntent, PortfolioState, RiskLimits, BboUpdate}
use mockex.RiskEngine.{RiskEngine, RiskStats, validate, accept, reject_qty}
use mockex.RiskEngine.Accept.{IsWithin, validate-accept_iff}
use mockex.Portfolio.{Portfolio, create, apply_fill, snapshot, unrealized_pnl, reset}
use mockex.Portfolio.Ledger.{Fill, apply_fills, position_after, cash_after, fills_ledger}
use mockex.MarketMaker.{MarketMaker, on_bbo, bid_px, ask_px, on_fill}
use mockex.MarketMaker.Quotes.{has_side, IsQuotable, on_bbo_sides, on_bbo_uncrossed}

abbrev limits : RiskLimits
limits = record {
  max_position = pos 1000;
  max_order_qty = 500;
  max_notional = 1000000;
  price_collar_ticks = 100;
}

abbrev order : OrderIntent
order = record {
  instrument_id = 0;
  side = bid;
  price_ticks = 950;
  qty = 100;
  action = new;
  orig_client_order_id = 0;
}

abbrev flat : PortfolioState
flat = record { position = pos 0; realized_pnl = pos 0; cash = pos 0; notional_exposure = 0 }

abbrev fresh : RiskStats
fresh = record { total_checks = 0; rejects = 0 }

abbrev engine : RiskEngine
engine = record { limits = limits; stats = fresh }

verdicts :
    ((validate engine order flat 1000).1 ≡ accept)
    × ((validate engine (record order { qty = 501 }) flat 1000).1 ≡ reject_qty)
unfolding validate ◌+ℤ◌ ◌-ℤ◌ wrap32 to_int32
verdicts = (refl, refl)

validate-accept_iff_example :
    ((validate engine order flat 1000).1 ≡ accept) ↔ IsWithin limits order flat 1000
validate-accept_iff_example = validate-accept_iff limits order flat (omega arith) fresh 1000

abbrev start : Portfolio
start = record { position = pos 0; cash = pos 0; realized_pnl = pos 0; tick_value_cents = 1 }

abbrev fills : List Fill
fills =
    record { side = bid; qty = 100; price = 1000 }
    ∷ record { side = ask; qty = 150; price = 1010 }
    ∷ []

short_after_fills :
    ((apply_fills start fills).position ≡ negsuc 49) × ((apply_fills start fills).cash ≡ pos 51500)
unfolding apply_fills apply_fill ◌+ℤ◌ ◌-ℤ◌ wrap32 wrap64 to_int32 to_int64
short_after_fills = (refl, refl)

exposure_of_short :
    ((snapshot (apply_fills start fills) 1000).notional_exposure ≡ 50000)
    × (unrealized_pnl (apply_fills start fills) 1000 ≡ negsuc 49999)
    × (reset (apply_fills start fills) ≡ create 1)
unfolding apply_fills apply_fill ◌+ℤ◌ ◌-ℤ◌ wrap32 wrap64 to_int32 to_int64 snapshot unrealized_pnl
    reset create
exposure_of_short = (refl, refl, refl)

fills_ledger_example :
    ((apply_fills start fills).position ≡ position_after (pos 0) fills)
    × ((apply_fills start fills).cash ≡ cash_after 1 (pos 0) fills)
fills_ledger_example = fills_ledger start fills (omega arith) (omega arith) (omega arith)

-- A skew of half the inventory, rounded toward zero as the cast rounds.
abbrev half_of : ℤ → ℤ
half_of (pos n) = pos (n / 2)
half_of (negsuc n) = pos 0 -ℤ pos (suc n / 2)

abbrev maker : MarketMaker
maker = record {
  cfg = record {
    base_spread_ticks = 2;
    lot_size = 100;
    max_position = pos 1000;
    skew_of = half_of;
    quote_offset_ticks = 1;
  };
  inventory = pos 0;
}

abbrev market : BboUpdate
market = record {
  instrument_id = 0;
  best_bid_px = 1000;
  best_bid_qty = 10;
  best_ask_px = 1004;
  best_ask_qty = 10;
  ts_local = 0;
}

-- 1002 is the centre, and 20 the skew of an inventory of 40.
quotes :
    (bid_px (on_fill maker bid 40) market ≡ pos 980)
    × (ask_px (on_fill maker bid 40) market ≡ pos 984)
unfolding bid_px ask_px on_fill ◌+ℤ◌ ◌-ℤ◌ wrap32 to_int32
quotes = (refl, refl)

on_bbo_sides_example :
    ((has_side true (on_bbo maker market) ≡ true)
      ↔ (IsQuotable maker market × (pos 0 +ℤ pos 1 ≤ℤ pos 1000)))
    × ((has_side false (on_bbo maker market) ≡ true)
        ↔ (IsQuotable maker market × (pos 1 ≤ℤ pos 0 +ℤ pos 1000)))
on_bbo_sides_example = on_bbo_sides maker market refl (omega arith)

abbrev buy : OrderIntent
buy = record order { price_ticks = 1000 }

abbrev sell : OrderIntent
sell = record order { side = ask; price_ticks = 1004 }

on_bbo_uncrossed_example :
    (buy.side ≡ bid)
    × (sell.side ≡ ask)
    × (buy.qty ≡ 100)
    × (sell.qty ≡ 100)
    × (sell.price_ticks ≡ buy.price_ticks + 2 * 2)
unfolding on_bbo bid_px ask_px ◌+ℤ◌ ◌-ℤ◌ wrap32
on_bbo_uncrossed_example = on_bbo_uncrossed maker market buy sell refl (omega arith)
