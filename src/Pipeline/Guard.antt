-- ===== src/Pipeline/Guard.antt =====
-- Fills in src/app/main_replay.cpp keep a position within the limit of the strategy.
use mockex.Prelude.{ℕ, ◌+◌, ◌-◌, ◌^◌, ◌≤◌, ◌<◌, ◌≡◌, refl, ap, ◌∙◌, arith, List, [], ◌∷◌, All}
use mockex.Prelude.{true, inl, inr, Bool-cases}
use mockex.Prelude.Int.{ℤ, pos, ◌-ℤ◌, ◌≤ℤ◌, pos_part, neg_part, +ℤ_parts, -ℤ_parts}
use mockex.Types.{Side, bid, ask, other, is_bid, OrderIntent}
use mockex.MarketMaker.{StrategyConfig, on_fill}
use mockex.OrderGateway.{FillInfo}
use mockex.OrderGateway.Fills.{IsBelow, total_qty}
use mockex.Portfolio.Bounds.{IsBounded, HasRoom, apply_fill-IsBounded}
use mockex.RiskEngine.{
  RiskResult, accept, reject_qty, reject_position, reject_notional, reject_price_collar,
}
use mockex.RiskEngine.Accept.{exact_position}
use mockex.Pipeline.{Session, on_one_fill, on_fills}
use mockex.Pipeline.{risk_limits, is_accept}
use mockex.Pipeline.Invariants.{on_fills-kept}

pub accept_of : (r : RiskResult) → is_accept r ≡ true → r ≡ accept
accept_of accept e = refl
accept_of reject_qty e = cc e
accept_of reject_position e = cc e
accept_of reject_notional e = cc e
accept_of reject_price_collar e = cc e

pub room_of_within :
    (z m : ℤ) (side : Side) (qty : ℕ)
    → neg_part m ≡ 0
    → exact_position z side qty ≤ℤ m
    → pos 0 -ℤ m ≤ℤ exact_position z side qty
    → HasRoom (is_bid side) (pos_part m) qty z
room_of_within z m bid qty h long short = omega (arith, +ℤ_parts z (pos qty), long, h)
room_of_within z m ask qty h long short =
    omega (arith, -ℤ_parts z (pos qty), -ℤ_parts (pos 0) m, short, h)
room_of_within z m (other n) qty h long short =
    omega (arith, -ℤ_parts z (pos qty), -ℤ_parts (pos 0) m, short, h)

-- Fills on one side, of at most the room in all, keep the position bounded.
on_fills-IsBounded :
    (s : Session) (fs : List FillInfo) (side : Side) (limit room : ℕ)
    → All (λ f. f.side ≡ side) fs
    → total_qty fs ≤ room
    → limit + room < 2 ^ 31
    → IsBounded limit s.portfolio.position
    → HasRoom (is_bid side) limit room s.portfolio.position
    → IsBounded limit (on_fills s fs).portfolio.position
unfolding on_fills on_one_fill total_qty
on_fills-IsBounded s [] side limit room a le small b r = b
on_fills-IsBounded s (f ∷ fs) side limit room a le small b r =
    let (b', r') =
      apply_fill-IsBounded s.portfolio f.side limit room f.fill_qty f.fill_price (is_bid side)
        (ap is_bid a.0) small (omega arith) b r in
    on_fills-IsBounded (on_one_fill s f) fs side limit (room - f.fill_qty) a.1 (omega arith)
      (omega arith) b' r'

-- The session while fewer clock readings than 2 ^ 64 bound the order ids.
pub record IsSafe (cfg : StrategyConfig) (s : Session) : Type 0 where
  pub limited : s.risk.limits ≡ risk_limits cfg
  pub bounded : IsBounded (pos_part cfg.max_position) s.portfolio.position
  pub fresh : IsBelow s.gateway.next_order_id s.gateway
  pub few : s.gateway.next_order_id ≤ s.readings

pub record IsGuarded (cfg : StrategyConfig) (s : Session) : Type 0 where
  pub quotes : s.strategy.cfg ≡ cfg
  pub safe : s.readings < 2 ^ 64 → IsSafe cfg s

-- What fills leave alone.
record IsLike (s t : Session) : Type 0 where
  quotes : t.strategy.cfg ≡ s.strategy.cfg
  limited : t.risk.limits ≡ s.risk.limits
  gateway : t.gateway ≡ s.gateway
  readings : t.readings ≡ s.readings

on_one_fill-IsLike : (s t : Session) (f : FillInfo) → IsLike s t → IsLike s (on_one_fill t f)
unfolding on_one_fill on_fill
on_one_fill-IsLike s t f h = elim (Bool-cases (is_bid f.side)) [
  | inl buy ↦
      rw (on_one_fill, on_fill, buy)
        (record {
          quotes = h.quotes;
          limited = h.limited;
          gateway = h.gateway;
          readings = h.readings;
        })
  | inr sell ↦
      rw (on_one_fill, on_fill, sell)
        (record {
          quotes = h.quotes;
          limited = h.limited;
          gateway = h.gateway;
          readings = h.readings;
        })
]

on_fills-IsLike : (s : Session) (fs : List FillInfo) → IsLike s (on_fills s fs)
on_fills-IsLike s fs =
    on_fills-kept (IsLike s) (on_one_fill-IsLike s) s fs
      (record { quotes = refl; limited = refl; gateway = refl; readings = refl })

-- Fills of an order that was accepted and sent.
module _ (cfg : StrategyConfig) (nonneg : neg_part cfg.max_position ≡ 0)
    (room : pos_part cfg.max_position + cfg.lot_size < 2 ^ 31) where
  pub sent-IsGuarded :
      (s : Session) (intent : OrderIntent) (fs : List FillInfo)
      → IsGuarded cfg s
      → intent.qty ≡ cfg.lot_size
      → (s.readings < 2 ^ 64
          → All (λ f. f.side ≡ intent.side) fs
            × (total_qty fs ≤ intent.qty)
            × HasRoom
                (is_bid intent.side)
                (pos_part cfg.max_position)
                intent.qty
                s.portfolio.position)
      → IsGuarded cfg (on_fills s fs)
  sent-IsGuarded s intent fs h lot served =
      let like = on_fills-IsLike s fs in
      record {
        quotes = like.quotes ∙ h.quotes;
        safe = λ lt.
            let safe = h.safe (omega (arith, lt, like.readings)) in
            let (sided, enough, has_room) = served (omega (arith, lt, like.readings)) in
            record {
              limited = like.limited ∙ safe.limited;
              bounded =
                  on_fills-IsBounded s fs intent.side _ intent.qty sided enough
                    (omega (arith, room, lot)) safe.bounded has_room;
              fresh = rw like.gateway safe.fresh;
              few = rw (like.gateway, like.readings) safe.few;
            };
      }
