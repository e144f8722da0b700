-- ===== src/ExchangeSim/Fills.antt =====
-- What `submit` of src/exchange/exchange_sim.hpp does with a new order.
use mockex.Prelude.{ℕ, ◌+◌, ◌-◌, ◌≡◌, refl, ap, min, Bool, true, false, ltb}
use mockex.Prelude.{if◌then◌else◌, [], arith}
use mockex.Prelude.{Bool-cases, inl, inr}
use mockex.StdMap.{StdMap, assign, size}
use mockex.Types.{OutboundOrder, is_bid, new}
use mockex.ExchangeSim.{ExchangeSim, RestingOrder, backward, submit, submit_new, match_order}
use mockex.Types.{push_back, ack}
use mockex.ExchangeSim.{report, rest_order, sweep_asks, sweep_bids, start}
use mockex.ExchangeSim.Sides.{total, depth}
use mockex.ExchangeSim.Sweep.{at_most, at_least}
use mockex.ExchangeSim.Loops.{asks_Swept, bids_Swept}
use mockex.ExchangeSim.Uncrossed.{IsValid}

-- The side that an order trades against, the side that it rests on, and the prices within its limit.
abbrev pub opposite : OutboundOrder → ExchangeSim → StdMap RestingOrder
opposite ord sim = if is_bid ord.side then sim.asks else sim.bids

abbrev pub own : OutboundOrder → ExchangeSim → StdMap RestingOrder
own ord sim = if is_bid ord.side then sim.bids else sim.asks

abbrev pub within : OutboundOrder → ℕ → Bool
within ord = if is_bid ord.side then at_most ord.price_ticks else at_least ord.price_ticks

-- What is left of an order, as it rests.
abbrev pub rest_of : OutboundOrder → ℕ → RestingOrder
rest_of ord qty = record {
  client_order_id = ord.client_order_id;
  instrument_id = ord.instrument_id;
  side = ord.side;
  price_ticks = ord.price_ticks;
  remaining_qty = qty;
}

-- On a book whose sides are in price order, a new order takes from the opposite side the smaller of
-- its quantity and the quantity that rests there within its limit, and exactly what it does not get
-- rests on its own side at its price, which is otherwise unchanged.
pub submit_new_fills :
    (sim : ExchangeSim) (ord : OutboundOrder)
    → IsValid sim
    → ord.action ≡ new
    → let sim' = (submit sim ord).0 in
      let offered = depth (within ord) (opposite ord sim) in
      (total (opposite ord sim') + min ord.qty offered ≡ total (opposite ord sim))
      × (own ord sim' ≡ (
          if ltb offered ord.qty
          then assign ord.price_ticks (rest_of ord (ord.qty - offered)) (own ord sim)
          else own ord sim))
unfolding submit submit_new match_order rest_order
submit_new_fills sim ord v h = elim (Bool-cases (is_bid ord.side)) [
  | inl buy ↦
      let reports = push_back [] (report ord.client_order_id ack ord.qty) in
      let s = asks_Swept sim ord reports v.asks_ok in
      let m = sweep_asks ord sim.asks (start ord reports sim.asks sim) in
      elim (Bool-cases (ltb 0 m.remaining)) [
        | inl on ↦
            let less : ltb (depth (at_most ord.price_ticks) sim.asks) ord.qty ≡ true =
              ground (arith, on, s.left) in
            rw (h, submit, buy, on, less)
              (
                omega (arith, s.left, s.conserved),
                ap (λ (q : ℕ). assign ord.price_ticks (rest_of ord q) sim.bids) s.left,
              )
        | inr off ↦
            let less : ltb (depth (at_most ord.price_ticks) sim.asks) ord.qty ≡ false =
              ground (arith, off, s.left) in
            rw (h, submit, buy, off, less) (ground (arith, off, s.left, s.conserved), refl)
      ]
  | inr sell ↦
      let reports = push_back [] (report ord.client_order_id ack ord.qty) in
      let s = bids_Swept sim ord reports v.bids_ok in
      let m =
        sweep_bids (size sim.bids + 1) ord (backward sim.bids) (start ord reports sim.bids sim) in
      elim (Bool-cases (ltb 0 m.remaining)) [
        | inl on ↦
            let less : ltb (depth (at_least ord.price_ticks) sim.bids) ord.qty ≡ true =
              ground (arith, on, s.left) in
            rw (h, submit, sell, on, less)
              (
                omega (arith, s.left, s.conserved),
                ap (λ (q : ℕ). assign ord.price_ticks (rest_of ord q) sim.asks) s.left,
              )
        | inr off ↦
            let less : ltb (depth (at_least ord.price_ticks) sim.bids) ord.qty ≡ false =
              ground (arith, off, s.left) in
            rw (h, submit, sell, off, less) (ground (arith, off, s.left, s.conserved), refl)
      ]
]
