-- ===== src/MarketMaker/Quotes.antt =====
-- The quotes of src/strategy/market_maker.hpp.
use mockex.Prelude.{◌+◌, ◌*◌, ◌^◌, ◌<◌, ◌≡◌, ◌≢◌, refl, arith, List, [], ◌∷◌}
use mathlib.Core.Logic.{◌↔◌}
use mockex.Prelude.{ℕ, All, not, ◌||◌, Bool, true, false}
use mockex.Prelude.Int.{pos, ◌+ℤ◌, ◌-ℤ◌, ◌≤ℤ◌, pos_part, neg_part}
use mockex.Prelude.Int.{+ℤ_parts, -ℤ_parts, eq_of_parts, wrap32, wrap32_of_IsInt32}
use mockex.Types.{new, bid, ask, is_bid, BboUpdate, OrderIntent, invalid_price}
use mockex.MarketMaker.{MarketMaker, on_bbo, bid_px, ask_px}

-- The two prices are the base spread on either side of one centre: they differ by twice that spread.
spread_of_quotes :
    (m : MarketMaker) (bbo : BboUpdate)
    → ask_px m bbo ≡ bid_px m bbo +ℤ pos (m.cfg.base_spread_ticks + m.cfg.base_spread_ticks)
unfolding bid_px ask_px
spread_of_quotes m bbo = eq_of_parts _ _ (omega (arith, +ℤ_parts, -ℤ_parts))

-- Whether an answer has an order of a side.
abbrev pub has_side : Bool → List OrderIntent → Bool
has_side b [] = false
has_side true (o ∷ os) = is_bid o.side || has_side true os
has_side false (o ∷ os) = not (is_bid o.side) || has_side false os

-- A market with both sides, where both quotes come out at a tick or more.
abbrev pub IsQuotable : MarketMaker → BboUpdate → Type 0
IsQuotable m bbo =
    (bbo.best_bid_px ≢ invalid_price)
    × (bbo.best_ask_px ≢ invalid_price)
    × (pos 1 ≤ℤ bid_px m bbo)
    × (pos 1 ≤ℤ ask_px m bbo)

module _ (m : MarketMaker) (bbo : BboUpdate) where
  -- The answer has a bid exactly if the market is quotable and the inventory is below the maximum.
  has_bid_iff :
      (has_side true (on_bbo m bbo) ≡ true)
      ↔ (IsQuotable m bbo × (m.inventory +ℤ pos 1 ≤ℤ m.cfg.max_position))
  unfolding on_bbo
  has_bid_iff = (
    λ h. ground (arith, +ℤ_parts m.inventory (pos 1)),
    λ h. ground (arith, +ℤ_parts m.inventory (pos 1)),
  )

  -- The same for an ask, above minus a maximum that an int32_t can negate.
  has_ask_iff :
      neg_part m.cfg.max_position ≡ 0
      → pos_part m.cfg.max_position < 2 ^ 31
      → (has_side false (on_bbo m bbo) ≡ true)
        ↔ (IsQuotable m bbo × (pos 1 ≤ℤ m.inventory +ℤ m.cfg.max_position))
  has_ask_iff nonneg small =
      let negated : wrap32 (pos 0 -ℤ m.cfg.max_position) ≡ pos 0 -ℤ m.cfg.max_position =
        wrap32_of_IsInt32 _ (unfold ◌-ℤ◌ in ground arith) in
      let parts = -ℤ_parts (pos 0) m.cfg.max_position in
      let sum = +ℤ_parts m.inventory m.cfg.max_position in
      unfold on_bbo in (λ h. ground arith, λ h. ground arith)

-- For a maximum position from 0 to 2 ^ 31 - 1 the answer has a bid exactly if the market is quotable
-- (both sides present, both quotes at a tick or more) and the inventory is below the maximum, and an
-- ask exactly if the market is quotable and the inventory is above minus the maximum.
pub on_bbo_sides :
    (m : MarketMaker) (bbo : BboUpdate)
    → neg_part m.cfg.max_position ≡ 0
    → pos_part m.cfg.max_position < 2 ^ 31
    → ((has_side true (on_bbo m bbo) ≡ true)
        ↔ (IsQuotable m bbo × (m.inventory +ℤ pos 1 ≤ℤ m.cfg.max_position)))
      × ((has_side false (on_bbo m bbo) ≡ true)
          ↔ (IsQuotable m bbo × (pos 1 ≤ℤ m.inventory +ℤ m.cfg.max_position)))
on_bbo_sides m bbo nonneg small = (has_bid_iff m bbo, has_ask_iff m bbo nonneg small)

-- If the answer is two orders and the ask price is below 2 ^ 32, the first is a bid and the second
-- an ask, each of one lot, and the ask stands twice the base spread above the bid.
pub on_bbo_uncrossed :
    (m : MarketMaker) (bbo : BboUpdate) (a b : OrderIntent)
    → on_bbo m bbo ≡ a ∷ b ∷ []
    → pos_part (ask_px m bbo) < 2 ^ 32
    → (a.side ≡ bid)
      × (b.side ≡ ask)
      × (a.qty ≡ m.cfg.lot_size)
      × (b.qty ≡ m.cfg.lot_size)
      × (b.price_ticks ≡ a.price_ticks + 2 * m.cfg.base_spread_ticks)
unfolding on_bbo
on_bbo_uncrossed m bbo a b h small =
    let far : ask_px m bbo
        ≡ bid_px m bbo +ℤ pos (m.cfg.base_spread_ticks + m.cfg.base_spread_ticks) =
      spread_of_quotes m bbo in
    ground (
      arith,
      far,
      +ℤ_parts (bid_px m bbo) (pos (m.cfg.base_spread_ticks + m.cfg.base_spread_ticks)),
    )

-- What the strategy sends: new orders of its lot size.
abbrev pub IsLot : ℕ → OrderIntent → Type 0
IsLot lot i = (i.action ≡ new) × (i.qty ≡ lot)

pub on_bbo-IsLot : (m : MarketMaker) (bbo : BboUpdate) → All (IsLot m.cfg.lot_size) (on_bbo m bbo)
unfolding on_bbo
on_bbo-IsLot m bbo = ground arith

abbrev pub IsNew : OrderIntent → Type 0
IsNew i = i.action ≡ new

pub on_bbo-IsNew : (m : MarketMaker) (bbo : BboUpdate) → All IsNew (on_bbo m bbo)
unfolding on_bbo
on_bbo-IsNew m bbo = ground arith

-- The strategy does not read the local time of an update.
pub on_bbo-ts :
    (m : MarketMaker) (bbo : BboUpdate) (t : ℕ)
    → on_bbo m bbo ≡ on_bbo m (record bbo { ts_local = t })
unfolding on_bbo bid_px ask_px
on_bbo-ts m bbo t = refl
