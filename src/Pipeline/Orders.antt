-- ===== src/Pipeline/Orders.antt =====
-- The two tables of open orders behind the ITCH loop of src/app/main_replay.cpp: that of the parser
-- (src/feed/itch_parser.cpp) and that of the book (src/book/order_book.hpp).
use mockex.Prelude.{ℕ, zero, suc, ◌+◌, ◌-◌, ◌^◌, ◌<◌, ◌≤◌, ◌≡◌, ◌≢◌, refl, ap, sym, ◌∙◌, arith}
use mockex.Prelude.{[], ◌||◌, ◌==◌, leb, if◌then◌else◌, none, some}
use mockex.Prelude.{Bool-cases, Option-cases, inl, inr, le→leb}
use mockex.Types.{Side, bid, ask, other, OrderState}
use mockex.FlatHashMap
use mockex.FlatHashMap.{FlatHashMap}
use mockex.FlatHashMap.Sound.{times, times_at, slot_of_find_sound}
use mockex.OrderBook.RoundTrip.{add_order_levels}
use mockex.OrderBook.Balance.{trade_levels, modify_order_levels, cancel_order_orders}
use mockex.FlatHashMap.Same.{
  Same, Reached, neither, both, Same-vals, insert-Same, erase-Same, store-Same, replace-Same,
}
use mockex.ItchParser.{ItchParser, ItchParsed, reduce}
use mockex.ItchParser.Wire.{Message}
use mockex.ItchParser.Meaning.{add_of, executed_of}
use mockex.ItchParser.Meaning.{executed_price_of, cancelled_of, delete_of, replace_of, non_cross_of}
use mockex.OrderBook.{OrderBook, apply_trade}
use mockex.OrderBook.Events.{apply, run}
use mockex.Pipeline.ItchBook.{then_events}

abbrev Table : Type 0
Table = FlatHashMap OrderState

code : Side → ℕ
code bid = 0
code ask = 1
code (other n) = suc (suc n)

decode : ℕ → Side
decode zero = bid
decode (suc zero) = ask
decode (suc (suc n)) = other n

decode-code : (s : Side) → decode (code s) ≡ s
unfolding decode code
decode-code bid = refl
decode-code ask = refl
decode-code (other n) = refl

-- An order that is found in both tables is the same order.
found_alike :
    {m m' : Table} (s : Same m m') (id i j : ℕ)
    → FlatHashMap.find m id ≡ some i
    → FlatHashMap.find m' id ≡ some j
    → m.vals i ≡ m'.vals j
found_alike {m} {m'} s id i j at at' =
    let price = Same-vals s id i j (λ o. o.price_ticks) at at' in
    let qty = Same-vals s id i j (λ o. o.qty) at at' in
    let side : (m.vals i).side ≡ (m'.vals j).side =
      sym (decode-code (m.vals i).side)
      ∙ ap decode (Same-vals s id i j (λ o. code o.side) at at')
      ∙ decode-code (m'.vals j).side in
    λ k. record { price_ticks = price k; qty = qty k; side = side k }

-- What the parser makes of a message, against what the book makes of the parser's output.
abbrev pub Agrees : OrderBook → ItchParser × ItchParsed → Type 0
Agrees b r = Same r.0.orders (run b (then_events r.1 [])).orders

-- The search for the order of the message ends alike in both tables; an add is of a new nonzero id, a
-- cancel is of all that the order has left, a trade outside the book names no order of the book, and
-- a replace keeps the id.
abbrev pub IsClean : Table → Table → Message → Type 0
IsClean m m' (Message.add id _ _ _ _) = (id ≢ 0) × (times id m ≡ 0) × (m.size + 1 < 2 ^ 64)
IsClean m m' (Message.add_mpid id _ _ _ _ _) = (id ≢ 0) × (times id m ≡ 0) × (m.size + 1 < 2 ^ 64)
IsClean m m' (Message.executed id _ _) = Reached m m' id
IsClean m m' (Message.executed_price id _ _ _ _) = Reached m m' id
IsClean m m' (Message.cancel id qty) =
    Reached m m' id × ((i : ℕ) → FlatHashMap.find m id ≡ some i → (m.vals i).qty ≤ qty)
IsClean m m' (Message.delete id) = Reached m m' id
IsClean m m' (Message.replace id new_id _ _) = (id ≡ new_id) × Reached m m' id
IsClean m m' (Message.trade id _ _ _ _ _) = FlatHashMap.find m' id ≡ none

-- A key that no slot of one table holds is not found in the other.
absent : {m m' : Table} (s : Same m m') (id : ℕ) → times id m ≡ 0 → FlatHashMap.find m' id ≡ none
absent {m} {m'} s id gone = elim (Option-cases (FlatHashMap.find m' id)) [
  | inl e ↦ e
  | inr (i, at) ↦
      let (lt, there, nz, _) = slot_of_find_sound s.right id i at in
      absurd (
        omega (
          arith,
          times_at s.right id i lt there nz,
          gone,
          s.weighs (λ k _. if k == id then 1 else 0),
        ))
]

no_trade :
    (b : OrderBook) (id qty : ℕ)
    → FlatHashMap.find b.orders id ≡ none
    → (apply_trade b id qty).0 ≡ b
unfolding apply_trade
no_trade b id qty gone = rw (apply_trade, gone) refl

module _ (p : ItchParser) (b : OrderBook) (s : Same p.orders b.orders) (ts id : ℕ) where
  -- A quantity leaves an order of the parser's table and trades in the book.
  reduce-Same :
      (i j qty : ℕ)
      → FlatHashMap.find p.orders id ≡ some i
      → FlatHashMap.find b.orders id ≡ some j
      → Same (reduce p.orders id i qty) (apply_trade b id qty).0.orders
  unfolding reduce
  reduce-Same i j qty at at' =
      let (_, _, orders) = trade_levels b id j qty at' in
      let o = found_alike s id i j at at' in
      let new : record (p.orders.vals i) { qty = (p.orders.vals i).qty - qty }
          ≡ record (b.orders.vals j) { qty = (b.orders.vals j).qty - qty } =
        ap (λ (x : OrderState). record x { qty = x.qty - qty }) o in
      let less : leb (b.orders.vals j).qty qty ≡ leb (p.orders.vals i).qty qty =
        ap (λ (x : OrderState). leb x.qty qty) (sym o) in
      elim (Bool-cases (leb (p.orders.vals i).qty qty)) [
        | inl all ↦ rw (orders, less, all) (erase-Same s id i j at at' o)
        | inr part ↦ rw (orders, less, part) (store-Same s id i j _ _ at at' o new)
      ]

  pub add_of-Same :
      (side : Side) (qty price : ℕ)
      → (id ≢ 0) × (times id p.orders ≡ 0) × (p.orders.size + 1 < 2 ^ 64)
      → Agrees b (add_of p ts id side qty price)
  unfolding run apply
  add_of-Same side qty price (nz, gone, few) = elim (Bool-cases ((qty == 0) || (price == 0))) [
    | inl nothing ↦ rw nothing s
    | inr some_of ↦
        let (_, _, orders) = add_order_levels b id price qty side (absent s id gone) in
        rw (some_of, orders) (insert-Same s id _ nz gone few)
  ]

  pub executed_of-Same :
      (qty : ℕ) → Reached p.orders b.orders id → Agrees b (executed_of p ts id qty)
  unfolding run apply
  executed_of-Same qty (neither gone gone') = rw (executed_of, gone) s
  executed_of-Same qty (both i j at at') = rw (executed_of, at) (reduce-Same i j qty at at')

  pub executed_price_of-Same :
      (qty price : ℕ)
      → Reached p.orders b.orders id
      → Agrees b (executed_price_of p ts id qty price)
  unfolding run apply
  executed_price_of-Same qty price (neither gone gone') =
      rw (executed_price_of, gone, no_trade b id qty gone') s
  executed_price_of-Same qty price (both i j at at') =
      rw (executed_price_of, at) (reduce-Same i j qty at at')

  pub delete_of-Same : Reached p.orders b.orders id → Agrees b (delete_of p ts id)
  unfolding run apply
  delete_of-Same (neither gone gone') = rw (delete_of, gone) s
  delete_of-Same (both i j at at') =
      rw (delete_of, at, cancel_order_orders b id j at')
        (erase-Same s id i j at at' (found_alike s id i j at at'))

  pub cancelled_of-Same :
      (qty : ℕ)
      → Reached p.orders b.orders id
        × ((i : ℕ) → FlatHashMap.find p.orders id ≡ some i → (p.orders.vals i).qty ≤ qty)
      → Agrees b (cancelled_of p ts id qty)
  unfolding run apply reduce
  cancelled_of-Same qty (neither gone gone', _) = rw (cancelled_of, gone) s
  cancelled_of-Same qty (both i j at at', all) =
      rw (cancelled_of, at, reduce, le→leb _ qty (all i at), cancel_order_orders b id j at')
        (erase-Same s id i j at at' (found_alike s id i j at at'))

  pub non_cross_of-Same :
      (side : Side) (qty price : ℕ)
      → FlatHashMap.find b.orders id ≡ none
      → Agrees b (non_cross_of p ts id side qty price)
  unfolding run apply
  non_cross_of-Same side qty price gone = elim (Bool-cases ((qty == 0) || (price == 0))) [
    | inl nothing ↦ rw nothing s
    | inr some_of ↦ rw (some_of, no_trade b id qty gone) s
  ]

  pub replace_of-Same :
      (qty price : ℕ) → Reached p.orders b.orders id → Agrees b (replace_of p ts id id qty price)
  unfolding run apply
  replace_of-Same qty price (neither gone gone') = rw (replace_of, gone) s
  replace_of-Same qty price (both i j at at') =
      let (_, _, orders) = modify_order_levels b id j price qty at' in
      let o = found_alike s id i j at at' in
      let new : (λ (x : OrderState). record x { price_ticks = price; qty = qty }) (p.orders.vals i)
          ≡ record (b.orders.vals j) { price_ticks = price; qty = qty } =
        ap (λ (x : OrderState). record x { price_ticks = price; qty = qty }) o in
      rw (replace_of, at, orders) (replace-Same s id i j _ _ at at' o new)
