-- ===== src/MarketMaker.antt =====
-- src/strategy/market_maker.hpp. `risk_skew_factor` is a double: the model takes what the code reads
-- of it, `static_cast<int64_t>(static_cast<double>(inventory_) * cfg_.risk_skew_factor)`, as the
-- function `skew_of` of the inventory in the configuration. int64_t sums of two uint32_t and a skew
-- stay exact; the inventory wraps at 32 bits.
pub mod Quotes
use mockex.Prelude.{ℕ, ◌+◌, ◌/◌, ◌^◌, Bool, ◌||◌, ◌==◌, if◌then◌else◌, List, []}
use mockex.Prelude.Int.{ℤ, pos, ◌+ℤ◌, ◌-ℤ◌, ltb_ℤ, leb_ℤ, wrap32, to_int32, residue}
use mockex.Types.{Side, bid, ask, is_bid, BboUpdate, OrderIntent, new, invalid_price, push_back}

pub record StrategyConfig : Type 0 where
  pub base_spread_ticks : ℕ
  pub lot_size : ℕ
  pub max_position : ℤ
  pub skew_of : ℤ → ℤ
  pub quote_offset_ticks : ℕ

pub record MarketMaker : Type 0 where
  pub cfg : StrategyConfig
  pub inventory : ℤ

unfoldable pub create : StrategyConfig → MarketMaker
create cfg = record { cfg = cfg; inventory = pos 0 }

unfoldable pub on_fill : MarketMaker → Side → ℕ → MarketMaker
on_fill m side qty =
    if is_bid side
    then record m { inventory = wrap32 (m.inventory +ℤ to_int32 qty) }
    else record m { inventory = wrap32 (m.inventory -ℤ to_int32 qty) }

-- `(best_bid_px + best_ask_px) / 2` on int64_t, of two nonnegative numbers
unfoldable pub fair : BboUpdate → ℕ
fair bbo = (bbo.best_bid_px + bbo.best_ask_px) / 2

unfoldable pub bid_px : MarketMaker → BboUpdate → ℤ
unfolding fair
bid_px m bbo = pos (fair bbo) -ℤ pos m.cfg.base_spread_ticks -ℤ m.cfg.skew_of m.inventory

unfoldable pub ask_px : MarketMaker → BboUpdate → ℤ
unfolding fair
ask_px m bbo = pos (fair bbo) +ℤ pos m.cfg.base_spread_ticks -ℤ m.cfg.skew_of m.inventory

-- The order that a quote is; `static_cast<uint32_t>` keeps the low 32 bits of the price.
abbrev pub quote : MarketMaker → BboUpdate → Side → ℤ → OrderIntent
quote m bbo side px = record {
  instrument_id = bbo.instrument_id;
  side = side;
  price_ticks = residue (2 ^ 32) px;
  qty = m.cfg.lot_size;
  action = new;
  orig_client_order_id = 0;
}

unfoldable pub on_bbo : MarketMaker → BboUpdate → List OrderIntent
unfolding push_back
on_bbo m bbo =
    if (bbo.best_bid_px == invalid_price) || (bbo.best_ask_px == invalid_price)
    then []
    else (if leb_ℤ (bid_px m bbo) (pos 0) || leb_ℤ (ask_px m bbo) (pos 0)
        then []
        else (let bids =
              if ltb_ℤ m.inventory m.cfg.max_position
              then push_back [] (quote m bbo bid (bid_px m bbo))
              else [] in
            if ltb_ℤ (wrap32 (pos 0 -ℤ m.cfg.max_position)) m.inventory
            then push_back bids (quote m bbo ask (ask_px m bbo))
            else bids))
