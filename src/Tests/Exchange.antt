-- ===== src/Tests/Exchange.antt =====
-- The exchange of src/exchange/exchange_sim.hpp and the gateway of src/gateway/order_gateway.hpp.
use mockex.Prelude.{
  ℕ, ◌≡◌, ◌<◌, ◌+◌, ◌^◌, ◌≤◌, ◌-◌, min, ltb, if◌then◌else◌, refl, arith, [], ◌∷◌, All,
}
use mockex.Types.{bid, ask, new, Side, OutboundOrder, OrderIntent, OrderAction}
use mockex.FlatHashMap
use mockex.StdMap
use mockex.StdMap.{assign}
use mockex.ExchangeSim.{ExchangeSim, RestingOrder, no_resting, create, submit, sweep_asks}
use mockex.ExchangeSim.{fill_one, match_order, rest_order, submit_new}
use mockex.ExchangeSim.Sides.{depth, total}
use mockex.ExchangeSim.Uncrossed.{IsValid, submit_all, submit_all-IsUncrossed}
use mockex.ExchangeSim.Fills.{within, rest_of, submit_new_fills}
use mockex.OrderGateway
use mockex.OrderGateway.Fills.{IsBelow, total_qty, submit_intent_fills}

abbrev resting : ℕ → Side → ℕ → ℕ → RestingOrder
resting id side price qty = record {
  client_order_id = id;
  instrument_id = 7;
  side = side;
  price_ticks = price;
  remaining_qty = qty;
}

-- Two asks.
abbrev offers : ExchangeSim
offers = record {
  bids = [];
  asks = (100, resting 1 ask 100 10) ∷ (101, resting 2 ask 101 5) ∷ [];
  by_id = FlatHashMap.create no_resting 10;
}

offers-IsValid : IsValid offers
offers-IsValid = record { bids_ok = tt; asks_ok = ((omega arith, tt), (tt, tt)); apart = tt }

abbrev order : ℕ → Side → ℕ → ℕ → OutboundOrder
order id side price qty = record {
  client_order_id = id;
  instrument_id = 7;
  side = side;
  price_ticks = price;
  qty = qty;
  action = new;
}

-- A buy of 20 at 100 takes the 10 that are offered there, and 10 rest.
part_rests : (submit offers (order 3 bid 100 20)).0.bids ≡ (100, resting 3 bid 100 10) ∷ []
unfolding submit submit_new match_order rest_order sweep_asks fill_one StdMap.assign StdMap.erase
    StdMap.size
part_rests = refl

submit_new_fills_example :
    let sim' = (submit offers (order 3 bid 100 20)).0 in
    let offered = depth (within (order 3 bid 100 20)) offers.asks in
    (total sim'.asks + min 20 offered ≡ total offers.asks)
    × (sim'.bids ≡ (
        if ltb offered 20 then assign 100 (rest_of (order 3 bid 100 20) (20 - offered)) [] else []))
submit_new_fills_example = submit_new_fills offers (order 3 bid 100 20) offers-IsValid refl

submit_all-IsUncrossed_example :
    IsValid (submit_all (create 16) (order 1 ask 103 5 ∷ order 2 bid 104 8 ∷ []))
submit_all-IsUncrossed_example =
    submit_all-IsUncrossed 16 (order 1 ask 103 5 ∷ order 2 bid 104 8 ∷ [])

abbrev intent : OrderAction → ℕ → OrderIntent
intent action id = record {
  instrument_id = 7;
  side = bid;
  price_ticks = 101;
  qty = 12;
  action = action;
  orig_client_order_id = id;
}

-- A buy of 15 at 101 takes both asks; a table with no active order has all ids below the next one.
abbrev buying : OrderIntent
buying = record {
  instrument_id = 7;
  side = bid;
  price_ticks = 101;
  qty = 15;
  action = new;
  orig_client_order_id = 0;
}

gateway_begun : (OrderGateway.create offers 16).next_order_id + 1 < 2 ^ 64
unfolding OrderGateway.create
gateway_begun = omega arith

no_active : let g = OrderGateway.create offers 16 in IsBelow g.next_order_id g
unfolding OrderGateway.create FlatHashMap.create
no_active = λ i nz. absurd (nz refl)

submit_intent_fills_example :
    let (g, fills) = OrderGateway.submit_intent (OrderGateway.create offers 16) buying in
    All (λ f. f.side ≡ bid) fills × (total_qty fills ≤ 15) × IsBelow g.next_order_id g
submit_intent_fills_example =
    submit_intent_fills (OrderGateway.create offers 16) buying refl gateway_begun no_active
