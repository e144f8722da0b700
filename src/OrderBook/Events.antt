-- ===== src/OrderBook/Events.antt =====
-- What the replay loop of src/app/main_replay.cpp feeds to the book, and what every sequence of
-- such events keeps true of it.
use mockex.Prelude.{ℕ, ◌^◌, ◌<◌, Option, none, List, [], ◌∷◌}
use mockex.Prelude.{All, arith, Option-cases, inl, inr, Bool-cases}
use mockex.Types.{Side, is_bid, OrderState, BboUpdate, invalid_price}
use mockex.FlatHashMap
use mockex.FlatHashMap.{FlatHashMap}
use mockex.StdMap.{first, last}
use mockex.OrderBook.{OrderBook, create, add_order}
use mockex.OrderBook.{remove_level, add_level, modify_order, cancel_order, apply_trade, clear}
use mockex.OrderBook.Levels.{add_to_side-IsSide, remove_from_side-IsSide}
use mockex.OrderBook.Cache.{IsSided, IsValid, invalidate_cache-IsValid, add_bid-IsValid}
use mockex.OrderBook.Cache.{add_ask-IsValid}

pub data Event : Type 0 where
  add : ℕ → ℕ → ℕ → Side → Event
  modify : ℕ → ℕ → ℕ → Event
  cancel : ℕ → Event
  trade : ℕ → ℕ → Event
  clear_all : Event

unfoldable pub apply : OrderBook → Event → OrderBook × Option BboUpdate
apply b (add order_id price qty side) = add_order b order_id price qty side
apply b (modify order_id new_price new_qty) = modify_order b order_id new_price new_qty
apply b (cancel order_id) = cancel_order b order_id
apply b (trade order_id qty) = apply_trade b order_id qty
apply b clear_all = (clear b, none)

unfoldable pub run : OrderBook → List Event → OrderBook
run b [] = b
run b (e ∷ es) = run (apply b e).0 es

-- Prices below the invalid price, and quantities that a uint32_t holds.
abbrev pub IsInRange : Event → Type 0
IsInRange (add order_id price qty side) = (price < invalid_price) × (qty < 2 ^ 32)
IsInRange (modify order_id new_price new_qty) = (new_price < invalid_price) × (new_qty < 2 ^ 32)
IsInRange _ = Unit

pub create-IsValid : (id : ℕ) → IsValid (create id)
unfolding create first last
create-IsValid id = ground arith

clear-IsValid : (b : OrderBook) → IsValid (clear b)
unfolding clear first last
clear-IsValid b = ground arith

remove_level-IsSided :
    (b : OrderBook) (ord : OrderState) (qty : ℕ) → IsSided b → IsSided (remove_level b ord qty)
unfolding remove_level
remove_level-IsSided b ord qty s = ground (
  arith,
  remove_from_side-IsSide invalid_price ord.price_ticks qty b.bids,
  remove_from_side-IsSide invalid_price ord.price_ticks qty b.asks,
)

add_level-IsSided :
    (b : OrderBook) (side : Side) (price qty : ℕ)
    → price < invalid_price
    → IsSided b
    → IsSided (add_level b side price qty)
unfolding add_level
add_level-IsSided b side price qty h s = ground (
  arith,
  add_to_side-IsSide invalid_price price qty b.bids,
  add_to_side-IsSide invalid_price price qty b.asks,
)

-- The orders themselves play no part in the invariant.
module _ (b : OrderBook) (orders : FlatHashMap OrderState) where
  with_orders-IsSided : IsSided b → IsSided (record b { orders = orders })
  with_orders-IsSided s = record { bids_ok = s.bids_ok; asks_ok = s.asks_ok }

  with_orders-IsValid : IsValid b → IsValid (record b { orders = orders })
  with_orders-IsValid v = record {
    sided = with_orders-IsSided v.sided;
    bb = v.bb;
    bbq = v.bbq;
    ba = v.ba;
    baq = v.baq;
  }

add_order-IsValid :
    (b : OrderBook) (order_id price qty : ℕ) (side : Side)
    → price < invalid_price
    → qty < 2 ^ 32
    → IsValid b
    → IsValid (add_order b order_id price qty side).0
unfolding add_order
add_order-IsValid b order_id price qty side h fits v =
    elim (Option-cases (FlatHashMap.find b.orders order_id)) [
      | inr (i, at) ↦ rw (add_order, at) v
      | inl fresh ↦ elim (Bool-cases (is_bid side)) [
        | inl is ↦
            rw (add_order, fresh, is)
              (add_bid-IsValid _ price qty h fits (with_orders-IsValid b _ v))
        | inr is ↦
            rw (add_order, fresh, is)
              (add_ask-IsValid _ price qty h fits (with_orders-IsValid b _ v))
      ]
    ]

modify_order-IsValid :
    (b : OrderBook) (order_id new_price new_qty : ℕ)
    → new_price < invalid_price
    → IsValid b
    → IsValid (modify_order b order_id new_price new_qty).0
unfolding modify_order
modify_order-IsValid b order_id new_price new_qty h v =
    elim (Option-cases (FlatHashMap.find b.orders order_id)) [
      | inl gone ↦ rw (modify_order, gone) v
      | inr (i, at) ↦
          let removed = remove_level-IsSided b (b.orders.vals i) (b.orders.vals i).qty v.sided in
          rw (modify_order, at)
            (invalidate_cache-IsValid _ (
              add_level-IsSided _ (b.orders.vals i).side new_price new_qty h
                (with_orders-IsSided _ _ removed)))
    ]

cancel_order-IsValid :
    (b : OrderBook) (order_id : ℕ) → IsValid b → IsValid (cancel_order b order_id).0
unfolding cancel_order
cancel_order-IsValid b order_id v = elim (Option-cases (FlatHashMap.find b.orders order_id)) [
  | inl gone ↦ rw (cancel_order, gone) v
  | inr (i, at) ↦
      let removed = remove_level-IsSided b (b.orders.vals i) (b.orders.vals i).qty v.sided in
      rw (cancel_order, at) (invalidate_cache-IsValid _ (with_orders-IsSided _ _ removed))
]

apply_trade-IsValid :
    (b : OrderBook) (order_id qty : ℕ) → IsValid b → IsValid (apply_trade b order_id qty).0
unfolding apply_trade
apply_trade-IsValid b order_id qty v = elim (Option-cases (FlatHashMap.find b.orders order_id)) [
  | inl gone ↦ rw (apply_trade, gone) v
  | inr (i, at) ↦
      let removed = remove_level-IsSided b (b.orders.vals i) qty v.sided in
      rw (apply_trade, at) (invalidate_cache-IsValid _ (with_orders-IsSided _ _ removed))
]

pub apply-IsValid : (b : OrderBook) (e : Event) → IsInRange e → IsValid b → IsValid (apply b e).0
unfolding apply
apply-IsValid b (add order_id price qty side) r v =
    add_order-IsValid b order_id price qty side r.0 r.1 v
apply-IsValid b (modify order_id new_price new_qty) r v =
    modify_order-IsValid b order_id new_price new_qty r.0 v
apply-IsValid b (cancel order_id) r v = cancel_order-IsValid b order_id v
apply-IsValid b (trade order_id qty) r v = apply_trade-IsValid b order_id qty v
apply-IsValid b clear_all r v = clear-IsValid b

pub run-IsValid :
    (b : OrderBook) (es : List Event) → All IsInRange es → IsValid b → IsValid (run b es)
unfolding run
run-IsValid b [] r v = v
run-IsValid b (e ∷ es) r v = run-IsValid (apply b e).0 es r.1 (apply-IsValid b e r.0 v)
