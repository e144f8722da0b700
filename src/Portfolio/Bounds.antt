-- ===== src/Portfolio/Bounds.antt =====
-- Fills of src/portfolio/portfolio.hpp that keep a position within a bound.
use mockex.Prelude.{ℕ, ◌+◌, ◌-◌, ◌^◌, ◌≤◌, ◌<◌, ◌≡◌, Bool, true, false, arith}
use mockex.Prelude.Int.{ℤ, pos, ◌+ℤ◌, ◌-ℤ◌, pos_part, neg_part, to_int32-small}
use mockex.Prelude.Int.{wrap32_of_IsInt32, add-IsInt32, sub-IsInt32}
use mockex.Types.{Side, is_bid}
use mockex.Portfolio.{Portfolio, apply_fill}
use mockex.Portfolio.Ledger.{apply_fill_buy, apply_fill_sell}

-- A position from -limit to limit.
abbrev pub IsBounded : ℕ → ℤ → Type 0
IsBounded limit z = (pos_part z ≤ limit) × (neg_part z ≤ limit)

-- Room for a quantity on a side.
abbrev pub HasRoom : Bool → ℕ → ℕ → ℤ → Type 0
HasRoom true limit qty z = pos_part z + qty ≤ limit + neg_part z
HasRoom false limit qty z = neg_part z + qty ≤ limit + pos_part z

module _ (z : ℤ) (limit room qty : ℕ) (le : qty ≤ room) (h : IsBounded limit z) where
  add-IsBounded :
      HasRoom true limit room z
      → IsBounded limit (z +ℤ pos qty) × HasRoom true limit (room - qty) (z +ℤ pos qty)
  unfolding ◌+ℤ◌
  add-IsBounded r = ground arith

  sub-IsBounded :
      HasRoom false limit room z
      → IsBounded limit (z -ℤ pos qty) × HasRoom false limit (room - qty) (z -ℤ pos qty)
  unfolding ◌-ℤ◌
  sub-IsBounded r = ground arith

module _ (p : Portfolio) (side : Side) (limit room qty price : ℕ) where
  -- A fill within the room leaves a bounded position with what is left of the room.
  pub apply_fill-IsBounded :
      (b : Bool)
      → is_bid side ≡ b
      → limit + room < 2 ^ 31
      → qty ≤ room
      → IsBounded limit p.position
      → HasRoom b limit room p.position
      → let z = (apply_fill p side qty price).position in
        IsBounded limit z × HasRoom b limit (room - qty) z
  apply_fill-IsBounded true buy small le h r =
      let (e, _, _) = apply_fill_buy p side qty price buy in
      rw
        (
          e,
          to_int32-small qty (omega arith),
          wrap32_of_IsInt32 _ (add-IsInt32 p.position qty (omega (arith, h)) (omega (arith, h))),
        )
        (add-IsBounded p.position limit room qty le h r)
  apply_fill-IsBounded false sell small le h r =
      let (e, _, _) = apply_fill_sell p side qty price sell in
      rw
        (
          e,
          to_int32-small qty (omega arith),
          wrap32_of_IsInt32 _ (sub-IsInt32 p.position qty (omega (arith, h)) (omega (arith, h))),
        )
        (sub-IsBounded p.position limit room qty le h r)
