-- ===== src/Portfolio.antt =====
-- src/portfolio/portfolio.hpp: the position, the cash and the exposure of the strategy. int32_t and
-- int64_t sums wrap; an int64_t product is the product of the bit patterns.
pub mod Ledger
pub mod Bounds
use mockex.Prelude.{ℕ, ◌*◌, ◌%◌, ◌^◌, if◌then◌else◌}
use mockex.Prelude.Int.{ℤ, pos, ◌+ℤ◌, ◌-ℤ◌, abs, wrap32, wrap64, to_int32, to_int64, residue}
use mockex.Types.{Side, is_bid, PortfolioState}

pub record Portfolio : Type 0 where
  pub position : ℤ
  pub cash : ℤ
  pub realized_pnl : ℤ
  pub tick_value_cents : ℕ

unfoldable pub create : ℕ → Portfolio
create tick_value_cents = record {
  position = pos 0;
  cash = pos 0;
  realized_pnl = pos 0;
  tick_value_cents = tick_value_cents;
}

-- `static_cast<int64_t>(qty) * price_ticks * tick_value_cents_`, as a pattern of 64 bits
unfoldable pub amount : ℕ → ℕ → ℕ → ℕ
amount qty price_ticks tick_value_cents = qty * price_ticks % 2 ^ 64 * tick_value_cents % 2 ^ 64

unfoldable pub apply_fill : Portfolio → Side → ℕ → ℕ → Portfolio
unfolding amount
apply_fill p side qty price_ticks =
    let cost = to_int64 (amount qty price_ticks p.tick_value_cents) in
    if is_bid side
    then record p { cash = wrap64 (p.cash -ℤ cost); position = wrap32 (p.position +ℤ to_int32 qty) }
    else record p { cash = wrap64 (p.cash +ℤ cost); position = wrap32 (p.position -ℤ to_int32 qty) }

unfoldable pub unrealized_pnl : Portfolio → ℕ → ℤ
unrealized_pnl p mid_price =
    to_int64 (residue (2 ^ 64) p.position * mid_price % 2 ^ 64 * p.tick_value_cents % 2 ^ 64)

unfoldable pub notional_exposure : Portfolio → ℕ → ℕ
notional_exposure p price = abs p.position * price % 2 ^ 64 * p.tick_value_cents % 2 ^ 64

unfoldable pub snapshot : Portfolio → ℕ → PortfolioState
unfolding notional_exposure
snapshot p price = record {
  position = p.position;
  realized_pnl = p.realized_pnl;
  cash = p.cash;
  notional_exposure = notional_exposure p price;
}

unfoldable pub reset : Portfolio → Portfolio
reset p = record p { position = pos 0; cash = pos 0; realized_pnl = pos 0 }
