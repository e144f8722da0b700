-- ===== src/RiskEngine.antt =====
-- src/risk/risk_engine.hpp. The engine is its limits and its counters; `validate` returns the engine
-- with the counters advanced beside its result. Signed sums of the position wrap at 32 bits, and the
-- sum of the notional at 64.
pub mod Accept
use mockex.Prelude.{ℕ, ◌+◌, ◌*◌, ◌%◌, ◌^◌, Bool, ◌&&◌, ◌||◌, not, ltb, ◌==◌, if◌then◌else◌}
use mockex.Prelude.Int.{ℤ, pos, ◌+ℤ◌, ◌-ℤ◌, ltb_ℤ, abs, wrap32, to_int32}
use mockex.Types.{Side, is_bid, OrderIntent, PortfolioState, RiskLimits, invalid_price, add64}

pub data RiskResult : Type 0 where
  accept reject_qty reject_position reject_notional reject_price_collar : RiskResult

pub record RiskStats : Type 0 where
  pub total_checks : ℕ
  pub rejects : ℕ

pub record RiskEngine : Type 0 where
  pub limits : RiskLimits
  pub stats : RiskStats

-- `new_pos`
unfoldable pub new_position : ℤ → Side → ℕ → ℤ
new_position position side qty =
    if is_bid side then wrap32 (position +ℤ to_int32 qty) else wrap32 (position -ℤ to_int32 qty)

-- `new_pos > max_position || new_pos < -max_position`
unfoldable pub breaks_position : RiskLimits → ℤ → Bool
breaks_position limits new_pos =
    ltb_ℤ limits.max_position new_pos || ltb_ℤ new_pos (wrap32 (pos 0 -ℤ limits.max_position))

-- The product of two uint32_t in a uint64_t.
unfoldable pub notional : OrderIntent → ℕ
notional order = order.qty * order.price_ticks

-- The distance of two uint32_t prices, as int64_t arithmetic gives it.
unfoldable pub breaks_collar : RiskLimits → ℕ → ℕ → Bool
breaks_collar limits price reference_price =
    not (reference_price == invalid_price)
    && ltb 0 limits.price_collar_ticks
    && ltb limits.price_collar_ticks (abs (pos price -ℤ pos reference_price))

unfoldable pub verdict : RiskLimits → OrderIntent → PortfolioState → ℕ → RiskResult
verdict limits order portfolio reference_price =
    if ltb limits.max_order_qty order.qty
    then reject_qty
    else (if breaks_position limits (new_position portfolio.position order.side order.qty)
        then reject_position
        else (if ltb limits.max_notional (add64 portfolio.notional_exposure (notional order))
            then reject_notional
            else (if breaks_collar limits order.price_ticks reference_price
                then reject_price_collar
                else accept)))

-- `stats_.total_checks++`, and `stats_.rejects++` on each return of a rejection.
unfoldable pub count : RiskStats → RiskResult → RiskStats
count s accept = record s { total_checks = add64 s.total_checks 1 }
count s _ = record { total_checks = add64 s.total_checks 1; rejects = add64 s.rejects 1 }

unfoldable pub validate : RiskEngine → OrderIntent → PortfolioState → ℕ → RiskEngine × RiskResult
unfolding verdict count new_position breaks_position notional breaks_collar
validate e order portfolio reference_price =
    let r = verdict e.limits order portfolio reference_price in
    (record e { stats = count e.stats r }, r)
