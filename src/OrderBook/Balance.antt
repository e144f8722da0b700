-- ===== src/OrderBook/Balance.antt =====
-- After every event of the replay loop, the levels of src/book/order_book.hpp are the sums of the
-- orders in its table.
use mockex.Prelude.{ℕ, ◌+◌, ◌-◌, ◌^◌, ◌≤◌, ◌<◌, ◌≡◌, ◌≢◌, refl, sym, ap, ◌∙◌, arith, List, [], ◌∷◌}
use mockex.Prelude.{
  Bool, true, false, not, ◌==◌, leb, if◌then◌else◌, none, some, Option-cases, inl, inr,
}
use mockex.Prelude.{leb→le, Bool-cases}
use mockex.Types.{Side, is_bid, OrderState}
use mockex.FlatHashMap
use mockex.FlatHashMap.{store}
use mockex.FlatHashMap.Totals.{total, cell, cell_empty, sum-zero}
use mockex.FlatHashMap.Sound.{times_absent, vacant-Sound, slot_of_find_sound}
use mockex.FlatHashMap.Refill.{insert-Added}
use mockex.StdMap.{lookup}
use mockex.OrderBook.{OrderBook, qty_at, add_to_side, remove_from_side, create, add_order, clear}
use mockex.OrderBook.{
  modify_order, cancel_order, apply_trade, invalidate_cache, remove_level, add_level,
}
use mockex.OrderBook.RoundTrip.{side_of, add_order_levels, cancel_order_levels}
use mockex.OrderBook.Events.{Event, add, modify, cancel, trade, clear_all, apply, run}
use mockex.OrderBook.Ledger.{IsBalanced, weight, weight_this, weight_that, covered, follow}
use mockex.OrderBook.Ledger.{
  level_add, level_remove, add_to_side-IsSorted, remove_from_side-IsSorted,
}
use mockex.OrderBook.Ledger.{erased-IsBalanced, stored-IsBalanced}

-- A new order with a nonzero id that no slot holds.
add_order-IsBalanced :
    (b : OrderBook) (id price qty : ℕ) (side : Side)
    → id ≢ 0
    → ((i : ℕ) → b.orders.keys i ≢ id)
    → b.orders.size + 1 < 2 ^ 64
    → qty_at price (side_of (is_bid side) b) + qty < 2 ^ 32
    → IsBalanced b
    → IsBalanced (add_order b id price qty side).0
unfolding add_order
add_order-IsBalanced b id price qty side nz new few fits v =
    let ord : OrderState = record { price_ticks = price; qty = qty; side = side } in
    let this = is_bid side in
    let m = side_of this b in
    let r = insert-Added v.sound id ord nz (times_absent b.orders id new) v.wide in
    elim (Option-cases (FlatHashMap.find b.orders id)) [
      | inr (i, at) ↦ absurd (new i (slot_of_find_sound v.sound id i at).1)
      | inl fresh ↦
          let (grown, same, orders) = add_order_levels b id price qty side fresh in
          follow b (add_order b id price qty side).0 this (λ q. if price == q then qty else 0)
            (λ _. 0) v (rw orders r.ok) (rw orders (omega (arith, r.wide, v.wide)))
            (rw orders (omega (arith, r.size)))
            (rw grown (add_to_side-IsSorted m price qty (v.sorted this))) same
            (λ q. rw grown (omega (arith, level_add m price qty q fits)))
            (λ q.
              rw orders (omega (arith, r.weighs (weight this q), weight_this this q id ord refl)))
            (λ q.
              rw orders (
                omega
                  (arith, r.weighs (weight (not this) q), weight_that (not this) q id ord refl)))
    ]

pub modify_order_levels :
    (b : OrderBook) (id i new_price new_qty : ℕ)
    → FlatHashMap.find b.orders id ≡ some i
    → let ord = b.orders.vals i in
      let this = is_bid ord.side in
      let b' = (modify_order b id new_price new_qty).0 in
      (side_of this b'
        ≡ add_to_side (remove_from_side (side_of this b) ord.price_ticks ord.qty) new_price new_qty)
      × (side_of (not this) b' ≡ side_of (not this) b)
      × (b'.orders ≡ store b.orders i (record ord { price_ticks = new_price; qty = new_qty }))
unfolding modify_order invalidate_cache remove_level add_level
modify_order_levels b id i new_price new_qty at =
    elim (Bool-cases (is_bid (b.orders.vals i).side)) [
      | inl is ↦ rw (modify_order, at, is) (refl, refl, refl)
      | inr is ↦ rw (modify_order, at, is) (refl, refl, refl)
    ]

pub cancel_order_orders :
    (b : OrderBook) (id i : ℕ)
    → FlatHashMap.find b.orders id ≡ some i
    → (cancel_order b id).0.orders ≡ (FlatHashMap.erase b.orders id).0
unfolding cancel_order invalidate_cache remove_level
cancel_order_orders b id i at = rw (cancel_order, at)

pub trade_levels :
    (b : OrderBook) (id i qty : ℕ)
    → FlatHashMap.find b.orders id ≡ some i
    → let ord = b.orders.vals i in
      let this = is_bid ord.side in
      let b' = (apply_trade b id qty).0 in
      (side_of this b' ≡ remove_from_side (side_of this b) ord.price_ticks qty)
      × (side_of (not this) b' ≡ side_of (not this) b)
      × (b'.orders ≡ (
          if leb ord.qty qty
          then (FlatHashMap.erase b.orders id).0
          else store b.orders i (record ord { qty = ord.qty - qty })))
unfolding apply_trade invalidate_cache remove_level
trade_levels b id i qty at = elim (Bool-cases (is_bid (b.orders.vals i).side)) [
  | inl is ↦ rw (apply_trade, at, is) (refl, refl, refl)
  | inr is ↦ rw (apply_trade, at, is) (refl, refl, refl)
]

modify_order-IsBalanced :
    (b : OrderBook) (id new_price new_qty : ℕ)
    → ((s : Bool) → qty_at new_price (side_of s b) + new_qty < 2 ^ 32)
    → IsBalanced b
    → IsBalanced (modify_order b id new_price new_qty).0
unfolding modify_order
modify_order-IsBalanced b id new_price new_qty fits v =
    elim (Option-cases (FlatHashMap.find b.orders id)) [
      | inl gone ↦ rw (modify_order, gone) v
      | inr (i, at) ↦
          let ord = b.orders.vals i in
          let this = is_bid ord.side in
          let m = side_of this b in
          let (moved, same, orders) = modify_order_levels b id i new_price new_qty at in
          let removed = λ (q : ℕ).
            level_remove m ord.price_ticks ord.qty q (v.sorted this) (covered b id i v at) in
          stored-IsBalanced b (modify_order b id new_price new_qty).0 id i _
            (λ q. if new_price == q then new_qty else 0)
            (λ q. if ord.price_ticks == q then ord.qty else 0) v at refl
            (rw moved (
              add_to_side-IsSorted _ new_price new_qty
                (remove_from_side-IsSorted m ord.price_ticks ord.qty (v.sorted this))))
            (λ q. rw moved (
              omega (
                arith,
                level_add (remove_from_side m ord.price_ticks ord.qty) new_price new_qty q
                    (omega (arith, removed new_price, fits this)),
                removed q,
              )))
            same orders (λ q. omega arith)
    ]

cancel_order-IsBalanced : (b : OrderBook) (id : ℕ) → IsBalanced b → IsBalanced (cancel_order b id).0
unfolding cancel_order
cancel_order-IsBalanced b id v = elim (Option-cases (FlatHashMap.find b.orders id)) [
  | inl gone ↦ rw (cancel_order, gone) v
  | inr (i, at) ↦
      let (shrunk, same) = cancel_order_levels b id i (b.orders.vals i) at refl in
      erased-IsBalanced b (cancel_order b id).0 id i v at shrunk same
        (cancel_order_orders b id i at)
]

-- A trade of no more than the order has left, if it is found.
abbrev pub Within : OrderBook → ℕ → ℕ → Type 0
Within b id qty = elim (FlatHashMap.find b.orders id) [
  | none ↦ Unit
  | some i ↦ qty ≤ (b.orders.vals i).qty
]

apply_trade-IsBalanced :
    (b : OrderBook) (id qty : ℕ)
    → Within b id qty
    → IsBalanced b
    → IsBalanced (apply_trade b id qty).0
unfolding apply_trade
apply_trade-IsBalanced b id qty h v = elim (Option-cases (FlatHashMap.find b.orders id)) [
  | inl gone ↦ rw (apply_trade, gone) v
  | inr (i, at) ↦
      let ord = b.orders.vals i in
      let this = is_bid ord.side in
      let m = side_of this b in
      let enough : qty ≤ ord.qty = rw (Within, at) at h in
      let (shrunk, same, orders) = trade_levels b id i qty at in
      elim (Bool-cases (leb ord.qty qty)) [
        | inl all ↦
            let whole : qty ≡ ord.qty = omega (arith, leb→le ord.qty qty all) in
            erased-IsBalanced b (apply_trade b id qty).0 id i v at
              (shrunk ∙ ap (remove_from_side m ord.price_ticks) whole) same (rw all at orders)
        | inr part ↦
            stored-IsBalanced b (apply_trade b id qty).0 id i (record ord { qty = ord.qty - qty })
              (λ _. 0) (λ q. if ord.price_ticks == q then qty else 0) v at refl
              (rw shrunk (remove_from_side-IsSorted m ord.price_ticks qty (v.sorted this)))
              (λ q. rw shrunk (
                omega (
                  arith,
                  level_remove m ord.price_ticks qty q (v.sorted this)
                      (omega (arith, enough, covered b id i v at)),
                )))
              same (rw part at orders) (λ q. ground (arith, enough))
      ]
]

no_levels : (b : OrderBook) (s : Bool) → b.bids ≡ [] → b.asks ≡ [] → side_of s b ≡ []
no_levels b true bids asks = bids
no_levels b false bids asks = asks

-- A book with no level and no order.
empty-IsBalanced :
    (b : OrderBook) (bits : ℕ)
    → b.orders.capacity ≡ 2 ^ bits
    → b.orders.mask ≡ 2 ^ bits - 1
    → 4 ≤ b.orders.capacity
    → b.orders.size ≡ 0
    → ((i : ℕ) → b.orders.keys i ≡ 0)
    → b.bids ≡ []
    → b.asks ≡ []
    → IsBalanced b
unfolding qty_at lookup
empty-IsBalanced b bits power masked wide none_in vacant bids asks = record {
  sound = vacant-Sound b.orders bits power masked none_in vacant;
  wide = wide;
  small = omega arith;
  sorted = λ s. rw (no_levels b s bids asks) tt;
  balance = λ s price. rw (no_levels b s bids asks) (
      sym (
        sum-zero (cell (weight s price) b.orders) b.orders.capacity
          (λ i. cell_empty (weight s price) b.orders i (vacant i))));
}

clear-IsBalanced : (b : OrderBook) → IsBalanced b → IsBalanced (clear b)
unfolding clear FlatHashMap.clear
clear-IsBalanced b v =
    empty-IsBalanced (clear b) v.sound.bits v.sound.power v.sound.masked v.wide refl (λ i. refl)
      refl refl

create-IsBalanced : (id : ℕ) → IsBalanced (create id)
unfolding create FlatHashMap.create FlatHashMap.round_up
create-IsBalanced id =
    empty-IsBalanced (create id) 24 refl refl (omega arith) refl (λ i. refl) refl refl

-- What each event may be, for the levels to follow the orders.
abbrev pub IsFair : OrderBook → Event → Type 0
IsFair b (add id price qty side) =
    (id ≢ 0)
    × ((i : ℕ) → b.orders.keys i ≢ id)
    × (b.orders.size + 1 < 2 ^ 64)
    × (qty_at price (side_of (is_bid side) b) + qty < 2 ^ 32)
IsFair b (modify id new_price new_qty) =
    (s : Bool) → qty_at new_price (side_of s b) + new_qty < 2 ^ 32
IsFair b (trade id qty) = Within b id qty
IsFair b _ = Unit

abbrev pub AreFair : OrderBook → List Event → Type 0
AreFair b [] = Unit
AreFair b (e ∷ es) = IsFair b e × AreFair (apply b e).0 es

apply-IsBalanced :
    (b : OrderBook) (e : Event) → IsFair b e → IsBalanced b → IsBalanced (apply b e).0
unfolding apply
apply-IsBalanced b (add id price qty side) (nz, new, few, fits) v =
    add_order-IsBalanced b id price qty side nz new few fits v
apply-IsBalanced b (modify id new_price new_qty) fits v =
    modify_order-IsBalanced b id new_price new_qty fits v
apply-IsBalanced b (cancel id) h v = cancel_order-IsBalanced b id v
apply-IsBalanced b (trade id qty) h v = apply_trade-IsBalanced b id qty h v
apply-IsBalanced b clear_all h v = clear-IsBalanced b v

run-IsBalanced :
    (b : OrderBook) (es : List Event) → AreFair b es → IsBalanced b → IsBalanced (run b es)
unfolding run
run-IsBalanced b [] h v = v
run-IsBalanced b (e ∷ es) (fair, later) v =
    run-IsBalanced (apply b e).0 es later (apply-IsBalanced b e fair v)

-- From a new book, after any events in which each add has a nonzero id that no slot of the table
-- holds, no trade that is found takes more than its order has, the table has room, and no add or
-- modify takes a level out of 32 bits: each price of each side has the quantity of the stored orders
-- of that price and side, all together, whether or not the search still finds them; a price without
-- an order has none.
pub run_levels :
    (id : ℕ) (es : List Event)
    → AreFair (create id) es
    → (s : Bool) (price : ℕ)
    → qty_at price (side_of s (run (create id) es))
      ≡ total (weight s price) (run (create id) es).orders
run_levels id es fair s price =
    (run-IsBalanced (create id) es fair (create-IsBalanced id)).balance s price
