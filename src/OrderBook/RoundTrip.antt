-- ===== src/OrderBook/RoundTrip.antt =====
-- The levels of src/book/order_book.hpp after an add that a cancel undoes, and after a trade.
use mockex.Prelude.{ℕ, ◌+◌, ◌-◌, ◌≤◌, ◌<◌, ◌^◌, ◌≡◌, ◌≢◌, refl, ap, ◌∙◌, ◌==◌, if◌then◌else◌}
use mockex.Prelude.{
  none, some, arith, Option-cases, inl, inr, ◌⊎◌, Bool, true, false, not, Bool-cases,
}
use mockex.Types.{Side, is_bid, OrderState}
use mockex.FlatHashMap
use mockex.FlatHashMap.{FlatHashMap}
use mockex.FlatHashMap.Valid
use mockex.FlatHashMap.Insert.{insert-Inserted}
use mockex.StdMap.{StdMap, IsSorted}
use mockex.OrderBook.{OrderBook, qty_at, add_to_side, remove_from_side, add_bid, add_ask, add_order}
use mockex.OrderBook.{remove_level, invalidate_cache, cancel_order, apply_trade, modify_order}
use mockex.OrderBook.Levels.{qty_at-add, qty_at-remove}
use mockex.StdMap.Laws.{assign-IsSorted}
use mockex.Prelude.{==_of_eq}
use mockex.FlatHashMap.Place.{lookup_of_find, lookup_of_no_find}

-- The levels of one side.
abbrev pub side_of : Bool → OrderBook → StdMap ℕ
side_of true b = b.bids
side_of false b = b.asks

-- Only the levels of the order's side change in an add, by the quantity.
pub add_order_levels :
    (b : OrderBook) (order_id price qty : ℕ) (side : Side)
    → FlatHashMap.find b.orders order_id ≡ none
    → let b' = (add_order b order_id price qty side).0 in
      (side_of (is_bid side) b' ≡ add_to_side (side_of (is_bid side) b) price qty)
      × (side_of (not (is_bid side)) b' ≡ side_of (not (is_bid side)) b)
      × (b'.orders
          ≡ (FlatHashMap.insert b.orders order_id
              (record { price_ticks = price; qty = qty; side = side })).0)
unfolding add_order add_bid add_ask
add_order_levels b order_id price qty side fresh = elim (Bool-cases (is_bid side)) [
  | inl is ↦ rw (add_order, fresh, is) (ground arith, ground arith, ground arith)
  | inr is ↦ rw (add_order, fresh, is) (ground arith, ground arith, ground arith)
]

-- A cancel takes the order's quantity from the level at its price, on its side alone.
pub cancel_order_levels :
    (b : OrderBook) (order_id i : ℕ) (ord : OrderState)
    → FlatHashMap.find b.orders order_id ≡ some i
    → b.orders.vals i ≡ ord
    → let b' = (cancel_order b order_id).0 in
      (side_of (is_bid ord.side) b'
        ≡ remove_from_side (side_of (is_bid ord.side) b) ord.price_ticks ord.qty)
      × (side_of (not (is_bid ord.side)) b' ≡ side_of (not (is_bid ord.side)) b)
unfolding cancel_order invalidate_cache remove_level
cancel_order_levels b order_id i ord at is_ord = elim (Bool-cases (is_bid ord.side)) [
  | inl is ↦ rw (cancel_order, at, is_ord, is) (refl, refl)
  | inr is ↦ rw (cancel_order, at, is_ord, is) (refl, refl)
]

pub Bool-same_or_not : (s c : Bool) → (s ≡ c) ⊎ (s ≡ not c)
Bool-same_or_not true true = inl refl
Bool-same_or_not true false = inr refl
Bool-same_or_not false true = inr refl
Bool-same_or_not false false = inl refl

-- A stored order is found again, with its fields.
found_after_insert :
    {m : FlatHashMap OrderState} (order_id : ℕ) (ord : OrderState)
    → Valid.IsValid m
    → order_id ≢ 0
    → 4 ≤ m.capacity
    → let m' = (FlatHashMap.insert m order_id ord).0 in
      (i : ℕ) × (FlatHashMap.find m' order_id ≡ some i) × (m'.vals i ≡ ord)
found_after_insert {m = m} order_id ord valid nz wide =
    let r = insert-Inserted valid order_id ord nz wide in
    let m' = (FlatHashMap.insert m order_id ord).0 in
    let reads : FlatHashMap.lookup m' order_id ≡ some ord =
      r.reads order_id ∙ rw (==_of_eq {a = order_id} refl) in
    elim (Option-cases (FlatHashMap.find m' order_id)) [
      | inl gone ↦ cc (reads, lookup_of_no_find m' order_id gone)
      | inr (i, at) ↦ (i, at, cc (reads, lookup_of_find m' order_id i at))
    ]

module _ (side : StdMap ℕ) (price qty : ℕ) (sorted : IsSorted side)
    (fits : qty_at price side + qty < 2 ^ 32) where
  -- A level that grows and shrinks by one quantity is back.
  add-remove :
      (q : ℕ) → qty_at q (remove_from_side (add_to_side side price qty) price qty) ≡ qty_at q side
  add-remove q = ground (
    arith,
    qty_at-remove q price qty (add_to_side side price qty)
        (unfold add_to_side in assign-IsSorted price _ side sorted),
    qty_at-add q price qty side,
    qty_at-add price price qty side,
    ap (λ (p : ℕ). qty_at p side) {x = q} {y = price},
  )

-- On a valid table of orders with at least four slots and a side in price order, an order with a
-- nonzero id that is not stored and a quantity that fits its level, added and then cancelled,
-- leaves every price of both sides with the quantity that it had.
pub cancel_order-add_order :
    (b : OrderBook) (order_id price qty : ℕ) (side : Side)
    → Valid.IsValid b.orders
    → 4 ≤ b.orders.capacity
    → order_id ≢ 0
    → FlatHashMap.find b.orders order_id ≡ none
    → IsSorted (side_of (is_bid side) b)
    → qty_at price (side_of (is_bid side) b) + qty < 2 ^ 32
    → (s : Bool) (q : ℕ)
    → qty_at q (side_of s (cancel_order (add_order b order_id price qty side).0 order_id).0)
      ≡ qty_at q (side_of s b)
cancel_order-add_order b order_id price qty side valid wide nz fresh sorted fits s q =
    let ord : OrderState = record { price_ticks = price; qty = qty; side = side } in
    let added = (add_order b order_id price qty side).0 in
    let (grown, same, orders) = add_order_levels b order_id price qty side fresh in
    let (i, at, is_ord) = found_after_insert order_id ord valid nz wide in
    let at' : FlatHashMap.find added.orders order_id ≡ some i = rw orders at in
    let is_ord' : added.orders.vals i ≡ ord = rw orders is_ord in
    let (shrunk, same') = cancel_order_levels added order_id i ord at' is_ord' in
    elim (Bool-same_or_not s (is_bid side)) [
      | inl this ↦ rw (this, shrunk, grown) (add-remove _ price qty sorted fits q)
      | inr that ↦ rw (that, same', same) refl
    ]

-- A trade against a stored order, on a side in price order, takes the traded quantity from the
-- level at the order's price, down to nothing, even where it is more than the order has left; every
-- other price of that side and the whole other side keep their quantities.
pub apply_trade_levels :
    (b : OrderBook) (order_id trade_qty i q : ℕ)
    → FlatHashMap.find b.orders order_id ≡ some i
    → IsSorted (side_of (is_bid (b.orders.vals i).side) b)
    → let ord = b.orders.vals i in
      let b' = (apply_trade b order_id trade_qty).0 in
      let this = is_bid ord.side in
      (qty_at q (side_of this b') ≡ (
        if q == ord.price_ticks
        then qty_at ord.price_ticks (side_of this b) - trade_qty
        else qty_at q (side_of this b)))
      × (side_of (not this) b' ≡ side_of (not this) b)
unfolding apply_trade invalidate_cache remove_level
apply_trade_levels b order_id trade_qty i q at sorted =
    elim (Bool-cases (is_bid (b.orders.vals i).side)) [
      | inl is ↦
          rw (apply_trade, at, is)
            (qty_at-remove q (b.orders.vals i).price_ticks trade_qty b.bids (rw is at sorted), refl)
      | inr is ↦
          rw (apply_trade, at, is)
            (qty_at-remove q (b.orders.vals i).price_ticks trade_qty b.asks (rw is at sorted), refl)
    ]

-- An add under id 0, the empty key of the table of orders, grows its level all the same, and no
-- cancel, modify or trade under id 0 changes the book after it or returns an update.
pub add_order_id_zero :
    (b : OrderBook) (price qty new_price new_qty : ℕ) (side : Side)
    → let b' = (add_order b 0 price qty side).0 in
      (side_of (is_bid side) b' ≡ add_to_side (side_of (is_bid side) b) price qty)
      × (cancel_order b' 0 ≡ (b', none))
      × (modify_order b' 0 new_price new_qty ≡ (b', none))
      × (apply_trade b' 0 new_qty ≡ (b', none))
unfolding cancel_order modify_order apply_trade FlatHashMap.find
add_order_id_zero b price qty new_price new_qty side =
    ((add_order_levels b 0 price qty side refl).0, refl, refl, refl)
