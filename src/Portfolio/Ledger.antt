-- ===== src/Portfolio/Ledger.antt =====
-- The fills of src/portfolio/portfolio.hpp against exact sums.
use native.Mathlib.Nat.{div-add-mod, zero-add}
use mockex.Prelude.{ℕ, ◌+◌, ◌*◌, ◌%◌, ◌^◌, ◌<◌, ◌≡◌, refl, ◌∙◌, ap, ap₂, sym, arith, List, [], ◌∷◌}
use mockex.Prelude.{if◌then◌else◌, Bool, true, false, Bool-cases, inl, inr, All}
use mockex.Prelude.Int.{ℤ, pos, ◌+ℤ◌, ◌-ℤ◌, wrap32, wrap64, to_int32, to_int64}
use mockex.Prelude.Int.{IsInt32, IsInt64, +ℤ_parts, -ℤ_parts}
use mockex.Prelude.Int.{wrap32_of_IsInt32, wrap64_of_IsInt64, wrap32-IsInt32, wrap64-IsInt64}
use mockex.Prelude.Wrap.{wrap32_parts, wrap64_parts, to_int32_parts, to_int64_parts}
use mockex.Prelude.Wrap.{wrap32_congr, wrap64_congr}
use mockex.Types.{Side, is_bid}
use mockex.Portfolio.{Portfolio, amount, apply_fill}

pub record Fill : Type 0 where
  pub side : Side
  pub qty : ℕ
  pub price : ℕ

-- The fills of a session, one after the other.
unfoldable pub apply_fills : Portfolio → List Fill → Portfolio
apply_fills p [] = p
apply_fills p (f ∷ fs) = apply_fills (apply_fill p f.side f.qty f.price) fs

-- What a measure of the fills sums to on one side.
unfoldable pub total : Bool → (Fill → ℕ) → List Fill → ℕ
total b g [] = 0
total true g (f ∷ fs) = (if is_bid f.side then g f else 0) + total true g fs
total false g (f ∷ fs) = (if is_bid f.side then 0 else g f) + total false g fs

abbrev pub fill_qty : Fill → ℕ
fill_qty f = f.qty

abbrev pub fill_value : ℕ → Fill → ℕ
fill_value tick f = f.qty * f.price * tick

wrap32_buy :
    (p : ℤ) (q n s : ℕ)
    → q < 2 ^ 32
    → wrap32 (wrap32 (p +ℤ to_int32 q) +ℤ pos n -ℤ pos s) ≡ wrap32 (p +ℤ pos (q + n) -ℤ pos s)
wrap32_buy p q n s h =
    wrap32_congr _ _
      (omega (arith, +ℤ_parts, -ℤ_parts, wrap32_parts (p +ℤ to_int32 q), to_int32_parts q h))

wrap32_sell :
    (p : ℤ) (q n s : ℕ)
    → q < 2 ^ 32
    → wrap32 (wrap32 (p -ℤ to_int32 q) +ℤ pos n -ℤ pos s) ≡ wrap32 (p +ℤ pos n -ℤ pos (q + s))
wrap32_sell p q n s h =
    wrap32_congr _ _
      (omega (arith, +ℤ_parts, -ℤ_parts, wrap32_parts (p -ℤ to_int32 q), to_int32_parts q h))

-- The two 64-bit products give the value of the fill up to multiples of 2 ^ 64.
amount_mod : (q price tick : ℕ) → amount q price tick ≡ q * price * tick % 2 ^ 64
unfolding amount
amount_mod q price tick = omega (arith, ap (λ (t : ℕ). t * tick) (div-add-mod (q * price) (2 ^ 64)))

wrap64_buy :
    (c : ℤ) (a v n s : ℕ)
    → a ≡ v % 2 ^ 64
    → wrap64 (wrap64 (c -ℤ to_int64 a) +ℤ pos n -ℤ pos s) ≡ wrap64 (c +ℤ pos n -ℤ pos (v + s))
wrap64_buy c a v n s h = wrap64_congr _ _ (
    omega
      (arith, +ℤ_parts, -ℤ_parts, wrap64_parts (c -ℤ to_int64 a), to_int64_parts a (omega arith)))

wrap64_sell :
    (c : ℤ) (a v n s : ℕ)
    → a ≡ v % 2 ^ 64
    → wrap64 (wrap64 (c +ℤ to_int64 a) +ℤ pos n -ℤ pos s) ≡ wrap64 (c +ℤ pos (v + n) -ℤ pos s)
wrap64_sell c a v n s h = wrap64_congr _ _ (
    omega
      (arith, +ℤ_parts, -ℤ_parts, wrap64_parts (c +ℤ to_int64 a), to_int64_parts a (omega arith)))

add_zero_sub_zero : (z : ℤ) → z +ℤ pos 0 -ℤ pos 0 ≡ z
unfolding ◌+ℤ◌ ◌-ℤ◌
add_zero_sub_zero z = ground arith

-- One fill on each side.
module _ (p : Portfolio) (side : Side) (qty price : ℕ) where
  pub apply_fill_buy :
      is_bid side ≡ true
      → let p' = apply_fill p side qty price in
        (p'.position ≡ wrap32 (p.position +ℤ to_int32 qty))
        × (p'.cash ≡ wrap64 (p.cash -ℤ to_int64 (amount qty price p.tick_value_cents)))
        × (p'.tick_value_cents ≡ p.tick_value_cents)
  unfolding apply_fill
  apply_fill_buy is = rw (apply_fill, is) (refl, refl, refl)

  pub apply_fill_sell :
      is_bid side ≡ false
      → let p' = apply_fill p side qty price in
        (p'.position ≡ wrap32 (p.position -ℤ to_int32 qty))
        × (p'.cash ≡ wrap64 (p.cash +ℤ to_int64 (amount qty price p.tick_value_cents)))
        × (p'.tick_value_cents ≡ p.tick_value_cents)
  unfolding apply_fill
  apply_fill_sell is = rw (apply_fill, is) (refl, refl, refl)

-- The first fill counts on its own side.
module _ (g : Fill → ℕ) (f : Fill) (fs : List Fill) where
  total_buy :
      is_bid f.side ≡ true
      → (total true g (f ∷ fs) ≡ g f + total true g fs)
        × (total false g (f ∷ fs) ≡ total false g fs)
  unfolding total
  total_buy is = rw is (refl, zero-add _)

  total_sell :
      is_bid f.side ≡ false
      → (total true g (f ∷ fs) ≡ total true g fs)
        × (total false g (f ∷ fs) ≡ g f + total false g fs)
  unfolding total
  total_sell is = rw is (zero-add _, refl)

-- The position and the cash that exact sums give.
abbrev pub position_after : ℤ → List Fill → ℤ
position_after z fs = wrap32 (z +ℤ pos (total true fill_qty fs) -ℤ pos (total false fill_qty fs))

abbrev pub cash_after : ℕ → ℤ → List Fill → ℤ
cash_after tick z fs =
    wrap64 (z +ℤ pos (total false (fill_value tick) fs) -ℤ pos (total true (fill_value tick) fs))

position_after_cons :
    (z : ℤ) (f : Fill) (fs : List Fill) {m n : ℕ}
    → (total true fill_qty (f ∷ fs) ≡ m) × (total false fill_qty (f ∷ fs) ≡ n)
    → position_after z (f ∷ fs) ≡ wrap32 (z +ℤ pos m -ℤ pos n)
position_after_cons z f fs e = ap₂ (λ (a b : ℕ). wrap32 (z +ℤ pos a -ℤ pos b)) e.0 e.1

cash_after_cons :
    (tick : ℕ) (z : ℤ) (f : Fill) (fs : List Fill) {m n : ℕ}
    → (total true (fill_value tick) (f ∷ fs) ≡ m) × (total false (fill_value tick) (f ∷ fs) ≡ n)
    → cash_after tick z (f ∷ fs) ≡ wrap64 (z +ℤ pos n -ℤ pos m)
cash_after_cons tick z f fs e = ap₂ (λ (a b : ℕ). wrap64 (z +ℤ pos b -ℤ pos a)) e.0 e.1

-- After any sequence of fills of uint32_t quantities the position is the starting position plus all
-- that was bought minus all that was sold, and the cash is the starting cash plus the value of what
-- was sold minus the value of what was bought, each wrapped once, at the end, to its width.
pub fills_ledger :
    (p : Portfolio) (fs : List Fill)
    → IsInt32 p.position
    → IsInt64 p.cash
    → All (λ f. f.qty < 2 ^ 32) fs
    → ((apply_fills p fs).position ≡ position_after p.position fs)
      × ((apply_fills p fs).cash ≡ cash_after p.tick_value_cents p.cash fs)
unfolding apply_fills total
fills_ledger p [] hp hc a = (
  sym (ap wrap32 (add_zero_sub_zero p.position) ∙ wrap32_of_IsInt32 p.position hp),
  sym (ap wrap64 (add_zero_sub_zero p.cash) ∙ wrap64_of_IsInt64 p.cash hc),
)
fills_ledger p (f ∷ fs) hp hc a = elim (Bool-cases (is_bid f.side)) [
  | inl is ↦
      let (q, c, t) = apply_fill_buy p f.side f.qty f.price is in
      let (ih_q, ih_c) =
        fills_ledger (apply_fill p f.side f.qty f.price) fs (rw q (wrap32-IsInt32 _))
          (rw c (wrap64-IsInt64 _)) a.1 in
      (
        ih_q
            ∙ ap (λ z. position_after z fs) q
            ∙ wrap32_buy p.position f.qty _ _ a.0
            ∙ sym (position_after_cons p.position f fs (total_buy fill_qty f fs is)),
        ih_c
            ∙ ap₂ (λ t' z. cash_after t' z fs) t c
            ∙ wrap64_buy p.cash _ (fill_value p.tick_value_cents f) _ _
                (amount_mod f.qty f.price p.tick_value_cents)
            ∙ sym (
                cash_after_cons p.tick_value_cents p.cash f fs
                  (total_buy (fill_value p.tick_value_cents) f fs is)),
      )
  | inr is ↦
      let (q, c, t) = apply_fill_sell p f.side f.qty f.price is in
      let (ih_q, ih_c) =
        fills_ledger (apply_fill p f.side f.qty f.price) fs (rw q (wrap32-IsInt32 _))
          (rw c (wrap64-IsInt64 _)) a.1 in
      (
        ih_q
            ∙ ap (λ z. position_after z fs) q
            ∙ wrap32_sell p.position f.qty _ _ a.0
            ∙ sym (position_after_cons p.position f fs (total_sell fill_qty f fs is)),
        ih_c
            ∙ ap₂ (λ t' z. cash_after t' z fs) t c
            ∙ wrap64_sell p.cash _ (fill_value p.tick_value_cents f) _ _
                (amount_mod f.qty f.price p.tick_value_cents)
            ∙ sym (
                cash_after_cons p.tick_value_cents p.cash f fs
                  (total_sell (fill_value p.tick_value_cents) f fs is)),
      )
]
