-- ===== src/RiskEngine/Accept.antt =====
-- What src/risk/risk_engine.hpp accepts, against the limits read as plain integer bounds.
use mockex.Prelude.{ℕ, ◌+◌, ◌*◌, ◌%◌, ◌^◌, ◌≤◌, ◌<◌, ◌≡◌, ◌≢◌, refl, ◌⊎◌, inl, inr, arith}
use mockex.Prelude.{false}
use mathlib.Core.Logic.{◌↔◌}
use mockex.Prelude.Int.{to_int32-small, wrap32, wrap32_of_IsInt32, add-IsInt32, sub-IsInt32}
use mockex.Prelude.Int.{ℤ, pos, ◌+ℤ◌, ◌-ℤ◌, ◌≤ℤ◌, pos_part, neg_part}
use mockex.Types.{Side, bid, ask, other, OrderIntent, PortfolioState, RiskLimits, invalid_price}
use mockex.RiskEngine.{RiskEngine, validate, verdict, accept, new_position, breaks_position}
use mockex.RiskEngine.{notional, breaks_collar, RiskResult, RiskStats, count}
use mockex.RiskEngine.{reject_qty, reject_position, reject_notional, reject_price_collar}

-- The position that the order leads to, as an integer.
abbrev pub exact_position : ℤ → Side → ℕ → ℤ
exact_position position bid qty = position +ℤ pos qty
exact_position position ask qty = position -ℤ pos qty
exact_position position (other n) qty = position -ℤ pos qty

-- The limits, with no machine arithmetic in them.
pub record IsWithin (limits : RiskLimits) (order : OrderIntent) (p : PortfolioState) (ref : ℕ)
    : Type 0 where
  pub small : order.qty ≤ limits.max_order_qty
  pub not_long : exact_position p.position order.side order.qty ≤ℤ limits.max_position
  pub not_short : pos 0 -ℤ limits.max_position ≤ℤ exact_position p.position order.side order.qty
  pub cheap : p.notional_exposure + order.qty * order.price_ticks ≤ limits.max_notional
  pub near :
      (ref ≡ invalid_price)
      ⊎ (limits.price_collar_ticks ≡ 0)
      ⊎ ((order.price_ticks ≤ ref + limits.price_collar_ticks)
          × (ref ≤ order.price_ticks + limits.price_collar_ticks))

-- The values of the machine types at hand leave room for the sums.
pub record Fits (limits : RiskLimits) (order : OrderIntent) (p : PortfolioState) : Type 0 where
  pub bounded : (neg_part limits.max_position ≡ 0) × (pos_part limits.max_position < 2 ^ 31)
  pub room_up : pos_part p.position + limits.max_order_qty < 2 ^ 31
  pub room_down : neg_part p.position + limits.max_order_qty < 2 ^ 31
  pub room : p.notional_exposure + order.qty * order.price_ticks < 2 ^ 64

-- In range the position does not wrap.
new_position-exact :
    (position : ℤ) (side : Side) (qty : ℕ)
    → pos_part position + qty < 2 ^ 31
    → neg_part position + qty < 2 ^ 31
    → new_position position side qty ≡ exact_position position side qty
unfolding new_position
new_position-exact position bid qty up down =
    rw (new_position, to_int32-small qty (omega arith))
      (wrap32_of_IsInt32 _ (add-IsInt32 position qty up down))
new_position-exact position ask qty up down =
    rw (new_position, to_int32-small qty (omega arith))
      (wrap32_of_IsInt32 _ (sub-IsInt32 position qty up down))
new_position-exact position (other n) qty up down =
    rw (new_position, to_int32-small qty (omega arith))
      (wrap32_of_IsInt32 _ (sub-IsInt32 position qty up down))

position_iff :
    (limits : RiskLimits) (z : ℤ)
    → neg_part limits.max_position ≡ 0
    → pos_part limits.max_position < 2 ^ 31
    → (breaks_position limits z ≡ false)
      ↔ ((z ≤ℤ limits.max_position) × (pos 0 -ℤ limits.max_position ≤ℤ z))
unfolding breaks_position
position_iff limits z nonneg small =
    let negated : wrap32 (pos 0 -ℤ limits.max_position) ≡ pos 0 -ℤ limits.max_position =
      wrap32_of_IsInt32 _ (unfold ◌-ℤ◌ in ground arith) in
    rw (breaks_position, negated) (λ h. ground arith, λ h. ground arith)

module _ (limits : RiskLimits) (order : OrderIntent) (p : PortfolioState)
    (fits : Fits limits order p) where
  collar_iff :
      (ref : ℕ)
      → (breaks_collar limits order.price_ticks ref ≡ false) ↔ (
          (ref ≡ invalid_price)
          ⊎ (limits.price_collar_ticks ≡ 0)
          ⊎ ((order.price_ticks ≤ ref + limits.price_collar_ticks)
              × (ref ≤ order.price_ticks + limits.price_collar_ticks)))
  unfolding breaks_collar ◌-ℤ◌
  collar_iff ref = (λ h. ground arith, λ h. ground arith)

  verdict_there : (ref : ℕ) → verdict limits order p ref ≡ accept → IsWithin limits order p ref
  unfolding verdict notional
  verdict_there ref h =
      let small : order.qty ≤ limits.max_order_qty = ground arith in
      let exact = new_position-exact p.position order.side order.qty (omega arith) (omega arith) in
      let held : breaks_position limits (new_position p.position order.side order.qty) ≡ false =
        ground arith in
      let (long, short) =
        (position_iff limits _ (omega arith) (omega arith)).0 (rw exact at held) in
      record {
        small = small;
        not_long = long;
        not_short = short;
        cheap = ground arith;
        near = (collar_iff ref).0 (ground arith);
      }

  verdict_back : (ref : ℕ) → IsWithin limits order p ref → verdict limits order p ref ≡ accept
  unfolding verdict notional
  verdict_back ref w =
      let exact =
        new_position-exact p.position order.side order.qty (omega (arith, w.small))
          (omega (arith, w.small)) in
      let held : breaks_position limits (new_position p.position order.side order.qty) ≡ false =
        rw exact
          ((position_iff limits _ (omega arith) (omega arith)).1 (w.not_long, w.not_short)) in
      let near : breaks_collar limits order.price_ticks ref ≡ false = (collar_iff ref).1 w.near in
      ground (arith, held, near, w.small, w.cheap)

  -- For a maximum position from 0 to 2 ^ 31 - 1, a position that cannot leave 32 bits by an order of
  -- the maximum quantity and an exposure that cannot leave 64 bits by the order's notional, an order
  -- is accepted exactly if it is within the four limits read as plain integers: its quantity, the
  -- position it leads to on both sides, the exposure with its notional, and its distance from the
  -- reference price where there is one and the collar is on.
  pub validate-accept_iff :
      (stats : RiskStats) (ref : ℕ)
      → ((validate (record { limits = limits; stats = stats }) order p ref).1 ≡ accept)
        ↔ IsWithin limits order p ref
  unfolding validate
  validate-accept_iff stats ref = (verdict_there ref, verdict_back ref)

-- An order that is accepted leads to a position within the limit, where the position cannot leave
-- 32 bits by the order.
pub validate_position :
    (e : RiskEngine) (order : OrderIntent) (p : PortfolioState) (ref : ℕ)
    → neg_part e.limits.max_position ≡ 0
    → pos_part e.limits.max_position < 2 ^ 31
    → pos_part p.position + order.qty < 2 ^ 31
    → neg_part p.position + order.qty < 2 ^ 31
    → (validate e order p ref).1 ≡ accept
    → let after = exact_position p.position order.side order.qty in
      (after ≤ℤ e.limits.max_position) × (pos 0 -ℤ e.limits.max_position ≤ℤ after)
unfolding validate verdict
validate_position e order p ref nonneg small up down h =
    let exact = new_position-exact p.position order.side order.qty up down in
    let held : breaks_position e.limits (new_position p.position order.side order.qty) ≡ false =
      ground arith in
    (position_iff e.limits _ nonneg small).0 (rw exact at held)

-- A validation counts one check, and one reject unless it accepts, modulo 2 ^ 64.
pub validate_counts_mod :
    (e : RiskEngine) (order : OrderIntent) (p : PortfolioState) (ref : ℕ)
    → let (e', r) = validate e order p ref in
      (e'.stats.total_checks ≡ (e.stats.total_checks + 1) % 2 ^ 64)
      × ((r ≡ accept) × (e'.stats.rejects ≡ e.stats.rejects)
          ⊎ (r ≢ accept) × (e'.stats.rejects ≡ (e.stats.rejects + 1) % 2 ^ 64))
unfolding validate
validate_counts_mod e order p ref = go (verdict e.limits order p ref)
  where
    go :
        (r : RiskResult)
        → ((count e.stats r).total_checks ≡ (e.stats.total_checks + 1) % 2 ^ 64)
          × ((r ≡ accept) × ((count e.stats r).rejects ≡ e.stats.rejects)
              ⊎ (r ≢ accept) × ((count e.stats r).rejects ≡ (e.stats.rejects + 1) % 2 ^ 64))
    go accept = (refl, inl (refl, refl))
    go reject_qty = (refl, inr (λ c. cc c, refl))
    go reject_position = (refl, inr (λ c. cc c, refl))
    go reject_notional = (refl, inr (λ c. cc c, refl))
    go reject_price_collar = (refl, inr (λ c. cc c, refl))

-- Each validation counts one check, counts one reject exactly if it does not accept, and leaves the
-- limits; counters below 2 ^ 64 - 1 do not wrap.
pub validate_counts :
    (e : RiskEngine) (order : OrderIntent) (p : PortfolioState) (ref : ℕ)
    → e.stats.total_checks + 1 < 2 ^ 64
    → e.stats.rejects + 1 < 2 ^ 64
    → let (e', r) = validate e order p ref in
      (e'.limits ≡ e.limits)
      × (e'.stats.total_checks ≡ e.stats.total_checks + 1)
      × (r ≡ accept → e'.stats.rejects ≡ e.stats.rejects)
      × (r ≢ accept → e'.stats.rejects ≡ e.stats.rejects + 1)
unfolding validate
validate_counts e order p ref h k = go (verdict e.limits order p ref)
  where
    go :
        (r : RiskResult)
        → (e.limits ≡ e.limits)
          × ((count e.stats r).total_checks ≡ e.stats.total_checks + 1)
          × (r ≡ accept → (count e.stats r).rejects ≡ e.stats.rejects)
          × (r ≢ accept → (count e.stats r).rejects ≡ e.stats.rejects + 1)
    go accept = (refl, omega arith, λ _. refl, λ ne. absurd (ne refl))
    go reject_qty = (refl, omega arith, λ c. cc c, λ _. omega arith)
    go reject_position = (refl, omega arith, λ c. cc c, λ _. omega arith)
    go reject_notional = (refl, omega arith, λ c. cc c, λ _. omega arith)
    go reject_price_collar = (refl, omega arith, λ c. cc c, λ _. omega arith)
