-- ===== src/ExchangeSim/Uncrossed.antt =====
-- What `submit` of src/exchange/exchange_sim.hpp keeps true of the two sides of the book.
use mockex.Prelude.{ℕ, ◌+◌, ◌<◌, ◌≡◌, refl, ltb}
use mockex.Prelude.{List, [], ◌∷◌, All, arith}
use mockex.Prelude.{Bool-cases, inl, inr}
use mockex.Prelude.{Option-cases}
use mockex.StdMap.{StdMap, IsSorted, erase, assign, size}
use mockex.StdMap.Laws.{All-map, All-assign, All-erase, assign-IsSorted, erase-IsSorted}
use mockex.FlatHashMap
use mockex.Types.{OutboundOrder, is_bid, new, cancel, modify, ExecutionReport}
use mockex.Types.{OrderAction}
use mockex.ExchangeSim.{ExchangeSim, RestingOrder, backward, submit, submit_new, match_order}
use mockex.ExchangeSim.{rest_order, cancel_resting, create, sweep_asks, sweep_bids, start}
use mockex.ExchangeSim.Loops.{asks_Swept, bids_Swept}

-- Every bid is below every ask.
abbrev pub Apart : StdMap RestingOrder → StdMap RestingOrder → Type 0
Apart bids asks = All (λ b. All (λ a. b.0 < a.0) asks) bids

-- Both sides in price order, and not crossed.
pub record IsValid (sim : ExchangeSim) : Type 0 where
  pub bids_ok : IsSorted sim.bids
  pub asks_ok : IsSorted sim.asks
  pub apart : Apart sim.bids sim.asks

Apart-asks :
    (bids asks asks' : StdMap RestingOrder)
    → ((P : ℕ → Type 0) → All (λ e. P e.0) asks → All (λ e. P e.0) asks')
    → Apart bids asks
    → Apart bids asks'
Apart-asks bids asks asks' f a = All-map _ _ bids (λ b h. f (λ k. b.0 < k) h) a

Apart-assign :
    (price : ℕ) (ro : RestingOrder) (bids asks : StdMap RestingOrder)
    → All (λ b. b.0 < price) bids
    → Apart bids asks
    → Apart bids (assign price ro asks)
Apart-assign price ro [] asks h a = tt
Apart-assign price ro (b ∷ bids) asks h a =
    (All-assign (λ k. b.0 < k) price ro asks h.0 a.0, Apart-assign price ro bids asks h.1 a.1)

new-IsValid :
    (sim : ExchangeSim) (ord : OutboundOrder) (reports : List ExecutionReport)
    → IsValid sim
    → IsValid (submit_new sim ord reports).0
unfolding submit_new match_order rest_order
new-IsValid sim ord reports v = elim (Bool-cases (is_bid ord.side)) [
  | inl buy ↦
      let s = asks_Swept sim ord reports v.asks_ok in
      let m = sweep_asks ord sim.asks (start ord reports sim.asks sim) in
      let kept : Apart sim.bids m.levels = Apart-asks sim.bids sim.asks m.levels s.fewer v.apart in
      elim (Bool-cases (ltb 0 m.remaining)) [
        | inl on ↦
            rw (buy, on)
              (record {
                bids_ok = assign-IsSorted ord.price_ticks _ sim.bids v.bids_ok;
                asks_ok = s.sorted v.asks_ok;
                apart =
                    All-assign (λ k. All (λ a. k < a.0) m.levels) ord.price_ticks _ sim.bids
                      (All-map _ _ m.levels (λ a h. ground arith) (s.clean (ground arith))) kept;
              })
        | inr off ↦
            rw (buy, off)
              (record { bids_ok = v.bids_ok; asks_ok = s.sorted v.asks_ok; apart = kept })
      ]
  | inr sell ↦
      let s = bids_Swept sim ord reports v.bids_ok in
      let m =
        sweep_bids (size sim.bids + 1) ord (backward sim.bids) (start ord reports sim.bids sim) in
      let kept : Apart m.levels sim.asks = s.fewer (λ k. All (λ a. k < a.0) sim.asks) v.apart in
      elim (Bool-cases (ltb 0 m.remaining)) [
        | inl on ↦
            rw (sell, on)
              (record {
                bids_ok = s.sorted v.bids_ok;
                asks_ok = assign-IsSorted ord.price_ticks _ sim.asks v.asks_ok;
                apart =
                    Apart-assign ord.price_ticks _ m.levels sim.asks
                      (All-map _ _ m.levels (λ b h. ground arith) (s.clean (ground arith))) kept;
              })
        | inr off ↦
            rw (sell, off)
              (record { bids_ok = s.sorted v.bids_ok; asks_ok = v.asks_ok; apart = kept })
      ]
]

cancel-IsValid :
    (sim : ExchangeSim) (ord : OutboundOrder) (reports : List ExecutionReport)
    → IsValid sim
    → IsValid (cancel_resting sim ord reports).0
unfolding cancel_resting
cancel-IsValid sim ord reports v =
    elim (Option-cases (FlatHashMap.find sim.by_id ord.client_order_id)) [
      | inl gone ↦ rw (gone, cancel_resting) v
      | inr (i, at) ↦
          let price = (sim.by_id.vals i).price_ticks in
          elim (Bool-cases (is_bid (sim.by_id.vals i).side)) [
            | inl is ↦
                rw (at, cancel_resting, is)
                  (record {
                    bids_ok = erase-IsSorted price sim.bids v.bids_ok;
                    asks_ok = v.asks_ok;
                    apart = All-erase (λ k. All (λ a. k < a.0) sim.asks) price sim.bids v.apart;
                  })
            | inr is ↦
                rw (at, cancel_resting, is)
                  (record {
                    bids_ok = v.bids_ok;
                    asks_ok = erase-IsSorted price sim.asks v.asks_ok;
                    apart =
                        Apart-asks sim.bids sim.asks (erase price sim.asks)
                          (λ P a. All-erase P price sim.asks a) v.apart;
                  })
          ]
    ]

-- Any order leaves a book whose sides are in price order and not crossed in that state.
pub submit-IsValid :
    (sim : ExchangeSim) (ord : OutboundOrder) → IsValid sim → IsValid (submit sim ord).0
unfolding submit
submit-IsValid sim ord v = go ord.action refl
  where
    go : (a : OrderAction) → ord.action ≡ a → IsValid (submit sim ord).0
    go new h = rw (h, submit) (new-IsValid sim ord _ v)
    go cancel h = rw (h, submit) (cancel-IsValid sim ord _ v)
    go modify h = rw (h, submit) v

-- A sequence of orders.
unfoldable pub submit_all : ExchangeSim → List OutboundOrder → ExchangeSim
submit_all sim [] = sim
submit_all sim (ord ∷ ords) = submit_all (submit sim ord).0 ords

submit_all-IsValid :
    (sim : ExchangeSim) (ords : List OutboundOrder) → IsValid sim → IsValid (submit_all sim ords)
unfolding submit_all
submit_all-IsValid sim [] v = v
submit_all-IsValid sim (ord ∷ ords) v =
    submit_all-IsValid (submit sim ord).0 ords (submit-IsValid sim ord v)

-- After every sequence of new orders, cancels and modifies on a new exchange, both sides are in
-- price order and every resting bid is below every resting ask.
pub submit_all-IsUncrossed :
    (expected_orders : ℕ) (ords : List OutboundOrder)
    → IsValid (submit_all (create expected_orders) ords)
unfolding create
submit_all-IsUncrossed expected_orders ords =
    submit_all-IsValid (create expected_orders) ords
      (record { bids_ok = tt; asks_ok = tt; apart = tt })
