-- ===== src/OrderBook/Ledger.antt =====
-- The levels of src/book/order_book.hpp against the orders in its table.
use mockex.Prelude.{ℕ, ◌+◌, ◌^◌, ◌≤◌, ◌<◌, ◌≡◌, ◌≢◌, refl, ap, sym, ◌∙◌, arith}
use mockex.Prelude.{Bool, true, false, not, ◌==◌, leb, if◌then◌else◌, some, Option-cases, inl, inr}
use mockex.Prelude.{Bool-cases}
use mockex.Types.{is_bid, OrderState}
use mockex.FlatHashMap
use mockex.FlatHashMap.{FlatHashMap, store}
use mockex.FlatHashMap.Totals.{total, cell, le-sum, cell_full, total-store}
use mockex.FlatHashMap.Sound.{Sound, slot_of_find_sound, store-Sound}
use mockex.FlatHashMap.Shift.{erase-Erased}
use mockex.StdMap.{StdMap, IsSorted, lookup}
use mockex.StdMap.Laws.{assign-IsSorted, erase-IsSorted}
use mockex.OrderBook.{OrderBook, qty_at, add_to_side, remove_from_side}
use mockex.OrderBook.Levels.{qty_at-add, qty_at-remove}
use mockex.OrderBook.RoundTrip.{side_of, Bool-same_or_not}

-- What an order adds to the level of a price on a side.
unfoldable pub weight : Bool → ℕ → ℕ → OrderState → ℕ
weight true price id o = if is_bid o.side then (if o.price_ticks == price then o.qty else 0) else 0
weight false price id o = if is_bid o.side then 0 else (if o.price_ticks == price then o.qty else 0)

pub weight_this :
    (s : Bool) (price id : ℕ) (o : OrderState)
    → s ≡ is_bid o.side
    → weight s price id o ≡ (if o.price_ticks == price then o.qty else 0)
unfolding weight
weight_this true price id o e = rw (← e)
weight_this false price id o e = rw (← e)

pub weight_that :
    (s : Bool) (price id : ℕ) (o : OrderState) → s ≡ not (is_bid o.side) → weight s price id o ≡ 0
unfolding weight
weight_that true price id o e = ground arith
weight_that false price id o e = ground arith

pub add_to_side-IsSorted :
    (m : StdMap ℕ) (price qty : ℕ) → IsSorted m → IsSorted (add_to_side m price qty)
unfolding add_to_side
add_to_side-IsSorted m price qty h = assign-IsSorted price _ m h

pub remove_from_side-IsSorted :
    (m : StdMap ℕ) (price qty : ℕ) → IsSorted m → IsSorted (remove_from_side m price qty)
unfolding remove_from_side
remove_from_side-IsSorted m price qty h = elim (Option-cases (lookup price m)) [
  | inl gone ↦ rw (gone, remove_from_side) h
  | inr (have, at) ↦ elim (Bool-cases (leb have qty)) [
    | inl all ↦ rw (at, remove_from_side, all) (erase-IsSorted price m h)
    | inr part ↦ rw (at, remove_from_side, part) (assign-IsSorted price _ m h)
  ]
]

-- What a level gains and loses, as an equation for every price.
pub level_add :
    (m : StdMap ℕ) (price qty q : ℕ)
    → qty_at price m + qty < 2 ^ 32
    → qty_at q (add_to_side m price qty) ≡ qty_at q m + (if price == q then qty else 0)
level_add m price qty q fits =
    ground (arith, qty_at-add q price qty m, ap (λ (p : ℕ). qty_at p m) {x = q} {y = price})

pub level_remove :
    (m : StdMap ℕ) (price qty q : ℕ)
    → IsSorted m
    → qty ≤ qty_at price m
    → qty_at q (remove_from_side m price qty) + (if price == q then qty else 0) ≡ qty_at q m
level_remove m price qty q sorted enough =
    ground
      (arith, qty_at-remove q price qty m sorted, ap (λ (p : ℕ). qty_at p m) {x = q} {y = price})

-- The table is sound, the sides are sorted, and each level is the sum of the orders of its price.
pub record IsBalanced (b : OrderBook) : Type 0 where
  pub sound : Sound b.orders
  pub wide : 4 ≤ b.orders.capacity
  pub small : b.orders.size < 2 ^ 64
  pub sorted : (s : Bool) → IsSorted (side_of s b)
  pub balance :
      (s : Bool) (price : ℕ) → qty_at price (side_of s b) ≡ total (weight s price) b.orders

-- One side of a book changes, or none.
side_of-IsSorted :
    (b b' : OrderBook) (this : Bool)
    → IsSorted (side_of this b')
    → side_of (not this) b' ≡ side_of (not this) b
    → ((s : Bool) → IsSorted (side_of s b))
    → (s : Bool) → IsSorted (side_of s b')
side_of-IsSorted b b' this new same old s = elim (Bool-same_or_not s this) [
  | inl e ↦ rw e new
  | inr e ↦ rw (e, same) (old (not this))
]

-- A level has at least the quantity of each order at its price that the search finds.
pub covered :
    (b : OrderBook) (id i : ℕ)
    → IsBalanced b
    → FlatHashMap.find b.orders id ≡ some i
    → let ord = b.orders.vals i in ord.qty ≤ qty_at ord.price_ticks (side_of (is_bid ord.side) b)
covered b id i v at =
    let ord = b.orders.vals i in
    let this = is_bid ord.side in
    let (lt, there, nz, _) = slot_of_find_sound v.sound id i at in
    let w = weight this ord.price_ticks in
    let whole : w (b.orders.keys i) ord ≡ ord.qty =
      weight_this this ord.price_ticks _ ord refl ∙ ground arith in
    omega (
      arith,
      v.balance this ord.price_ticks,
      le-sum (cell w b.orders) b.orders.capacity i lt,
      cell_full w b.orders i (λ z. nz (sym there ∙ z)),
      whole,
    )

-- An order that is found is rewritten, erased or shrunk, and its level follows: the new table weighs
-- `gain` more at each price, and `loss` less, on the side of the order alone.
pub follow :
    (b b' : OrderBook) (this : Bool) (gain loss : ℕ → ℕ)
    → IsBalanced b
    → Sound b'.orders
    → 4 ≤ b'.orders.capacity
    → b'.orders.size < 2 ^ 64
    → IsSorted (side_of this b')
    → side_of (not this) b' ≡ side_of (not this) b
    → ((q : ℕ) → qty_at q (side_of this b') + loss q ≡ qty_at q (side_of this b) + gain q)
    → ((q : ℕ) → total (weight this q) b'.orders + loss q ≡ total (weight this q) b.orders + gain q)
    → ((q : ℕ) → total (weight (not this) q) b'.orders ≡ total (weight (not this) q) b.orders)
    → IsBalanced b'
follow b b' this gain loss v sound wide small sorted same level table others = record {
  sound = sound;
  wide = wide;
  small = small;
  sorted = side_of-IsSorted b b' this sorted same v.sorted;
  balance = λ s q. elim (Bool-same_or_not s this) [
    | inl e ↦ rw e (omega (arith, level q, table q, v.balance this q))
    | inr e ↦ rw (e, same) (v.balance (not this) q ∙ sym (others q))
  ];
}

-- An order that is found leaves the table, and its level shrinks by what it had.
pub erased-IsBalanced :
    (b b' : OrderBook) (id i : ℕ)
    → IsBalanced b
    → FlatHashMap.find b.orders id ≡ some i
    → let ord = b.orders.vals i in
      let this = is_bid ord.side in
      side_of this b' ≡ remove_from_side (side_of this b) ord.price_ticks ord.qty
      → side_of (not this) b' ≡ side_of (not this) b
      → b'.orders ≡ (FlatHashMap.erase b.orders id).0
      → IsBalanced b'
erased-IsBalanced b b' id i v at shrunk same orders =
    let ord = b.orders.vals i in
    let this = is_bid ord.side in
    let side = side_of this b in
    let r = erase-Erased v.sound id i v.small at in
    let loss : ℕ → ℕ = λ q. if ord.price_ticks == q then ord.qty else 0 in
    follow b b' this (λ _. 0) loss v (rw orders r.ok)
      (rw orders (omega (arith, r.capacity, v.wide))) (rw orders (omega (arith, r.size, v.small)))
      (rw shrunk (remove_from_side-IsSorted side ord.price_ticks ord.qty (v.sorted this))) same
      (λ q. rw shrunk (
        omega (
          arith,
          level_remove side ord.price_ticks ord.qty q (v.sorted this) (covered b id i v at),
        )))
      (λ q. rw orders (omega (arith, r.weighs (weight this q), weight_this this q id ord refl)))
      (λ q.
        rw orders
          (omega (arith, r.weighs (weight (not this) q), weight_that (not this) q id ord refl)))

-- An order that is found is rewritten on its side, and its level follows.
pub stored-IsBalanced :
    (b b' : OrderBook) (id i : ℕ) (new : OrderState) (gain loss : ℕ → ℕ)
    → IsBalanced b
    → FlatHashMap.find b.orders id ≡ some i
    → let ord = b.orders.vals i in
      let this = is_bid ord.side in
      new.side ≡ ord.side
      → IsSorted (side_of this b')
      → ((q : ℕ) → qty_at q (side_of this b') + loss q ≡ qty_at q (side_of this b) + gain q)
      → side_of (not this) b' ≡ side_of (not this) b
      → b'.orders ≡ store b.orders i new
      → ((q : ℕ)
          → (if new.price_ticks == q then new.qty else 0) + loss q
            ≡ (if ord.price_ticks == q then ord.qty else 0) + gain q)
      → IsBalanced b'
stored-IsBalanced b b' id i new gain loss v at side sorted level same orders change =
    let ord = b.orders.vals i in
    let this = is_bid ord.side in
    let (lt, there, nz, _) = slot_of_find_sound v.sound id i at in
    let key = b.orders.keys i in
    let full : key ≢ 0 = λ z. nz (sym there ∙ z) in
    let kept : this ≡ is_bid new.side = ap is_bid (sym side) in
    follow b b' this gain loss v (rw orders (store-Sound v.sound id i new))
      (rw orders (unfold store in v.wide)) (rw orders (unfold store in v.small)) sorted same level
      (λ q. rw orders (
        omega (
          arith,
          total-store (weight this q) b.orders i new lt full,
          weight_this this q key ord refl,
          weight_this this q key new kept,
          change q,
        )))
      (λ q. rw orders (
        omega (
          arith,
          total-store (weight (not this) q) b.orders i new lt full,
          weight_that (not this) q key ord refl,
          weight_that (not this) q key new (ap not kept),
        )))
