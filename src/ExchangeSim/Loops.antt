-- ===== src/ExchangeSim/Loops.antt =====
-- The two matching loops of src/exchange/exchange_sim.hpp take exactly what is within the limit.
use mockex.Prelude.{ℕ, ◌+◌, ◌-◌, ◌<◌, ◌≤◌, ◌≡◌, refl, ap, false, ltb, leb}
use mockex.Prelude.{List, [], ◌∷◌, ◌++◌, arith, ◌∙◌, sym, ◌&&◌}
use mockex.Prelude.{==_of_eq, zero, suc, Bool-cases, inl, inr, subst}
use native.Mathlib.Decide.{dec_lt}
use mockex.StdMap.{StdMap, IsSorted, erase, assign, size}
use mockex.StdMap.Laws.{All-map}
use mockex.Types.{OutboundOrder, ExecutionReport}
use mockex.ExchangeSim.{
  ExchangeSim, start, RestingOrder, Match, backward, sweep_asks, sweep_bids, fill_one, next_bid,
}
use mockex.ExchangeSim.Sides.{Swept}
use mockex.ExchangeSim.Sides.{
  IsSorted-snoc, erase_snoc, assign_snoc, backward_lem, snoc-All, size-backward,
}
use mockex.ExchangeSim.Sweep.{at_most, at_least, stop-Swept, all-Swept, part-Swept, front-Splits}
use mockex.ExchangeSim.Sweep.{end-Splits, fill_one_all, fill_one_part, done_asks, done_bids}

-- A resting order with a quantity taken off.
abbrev cut : RestingOrder → ℕ → RestingOrder
cut r qty = record r { remaining_qty = r.remaining_qty - qty }

erase_front : (p : ℕ) (r : RestingOrder) (m : StdMap RestingOrder) → erase p ((p, r) ∷ m) ≡ m
unfolding erase
erase_front p r m = rw (==_of_eq {a = p} refl) refl

assign_front :
    (p : ℕ) (r v : RestingOrder) (m : StdMap RestingOrder) → assign p v ((p, r) ∷ m) ≡ (p, v) ∷ m
unfolding assign
assign_front p r v m = rw (==_of_eq {a = p} refl) refl

-- What the loop over the asks does from a state whose side is what the iterator has ahead.
pub sweep_asks-Swept :
    (ord : OutboundOrder) (todo : StdMap RestingOrder) (m : Match)
    → IsSorted todo
    → m.levels ≡ todo
    → Swept (at_most ord.price_ticks) todo m.remaining (sweep_asks ord todo m)
unfolding sweep_asks
sweep_asks-Swept ord [] m s h =
    subst (λ t. Swept (at_most ord.price_ticks) t m.remaining m) h (stop-Swept _ m (λ lt. rw h tt))
sweep_asks-Swept ord ((p, r) ∷ todo) m s h =
    let limit = ord.price_ticks in
    elim (Bool-cases (leb p limit && ltb 0 m.remaining)) [
      | inl on ↦ rw on (elim (dec_lt m.remaining r.remaining_qty) [
        | yes part ↦
            let (levels, z) = fill_one_part ord.client_order_id m p r part in
            let next = fill_one ord.client_order_id m p r in
            rw (done_asks ord todo next z) (
              part-Swept (at_most limit) ((p, r) ∷ todo) todo ((p, cut r m.remaining) ∷ todo) (p, r)
                m.remaining (cut r m.remaining) next (front-Splits todo (p, r))
                (front-Splits todo (p, cut r m.remaining)) (ground arith) part refl
                (assign_front p r (cut r m.remaining) todo)
                (levels ∙ ap (assign p (cut r m.remaining)) h) z)
        | no all ↦
            let (levels, left) = fill_one_all ord.client_order_id m p r (omega arith) in
            let next = fill_one ord.client_order_id m p r in
            let ih =
              sweep_asks-Swept ord todo next s.1 (levels ∙ ap (erase p) h ∙ erase_front p r todo) in
            all-Swept (at_most limit) ((p, r) ∷ todo) todo (p, r) m.remaining
              (sweep_asks ord todo next) (front-Splits todo (p, r)) (ground arith) (omega arith)
              (rw left at ih)
      ])
      | inr off ↦ rw off (
          subst (λ t. Swept (at_most limit) t m.remaining m) h
            (stop-Swept _ m (λ lt.
              let out : leb p limit ≡ false = ground (arith, off, lt) in
              rw h (
                out,
                All-map (λ f. p < f.0) (λ f. leb f.0 limit ≡ false) todo (λ f above. ground arith)
                    s.0,
              ))))
    ]

next_bid_all :
    (m : Match) (r : RestingOrder) (todo : StdMap RestingOrder) (after : Match)
    → r.remaining_qty ≤ m.remaining
    → next_bid m r todo after ≡ backward after.levels
unfolding next_bid
next_bid_all m r todo after le = ground arith

-- What the loop over the bids does from a state whose side, backwards, is what the iterator has
-- ahead.
pub sweep_bids-Swept :
    (fuel : ℕ) (ord : OutboundOrder) (todo : StdMap RestingOrder) (m : Match)
    → size todo < fuel
    → IsSorted (backward todo)
    → m.levels ≡ backward todo
    → Swept (at_least ord.price_ticks) (backward todo) m.remaining (sweep_bids fuel ord todo m)
unfolding sweep_bids size backward
sweep_bids-Swept zero ord todo m f s h = absurd (omega arith)
sweep_bids-Swept (suc fuel) ord [] m f s h =
    subst (λ t. Swept (at_least ord.price_ticks) t m.remaining m) h (stop-Swept _ m (λ lt. rw h tt))
sweep_bids-Swept (suc fuel) ord ((p, r) ∷ todo) m f s h =
    let limit = ord.price_ticks in
    let rest = backward todo in
    let (sorted, below) = IsSorted-snoc rest (p, r) s in
    let next = fill_one ord.client_order_id m p r in
    elim (Bool-cases (leb limit p && ltb 0 m.remaining)) [
      | inl on ↦ elim (dec_lt m.remaining r.remaining_qty) [
        | yes part ↦
            let (levels, z) = fill_one_part ord.client_order_id m p r part in
            rw (on, done_bids fuel ord (next_bid m r todo next) next z)
              (part-Swept (at_least limit) (rest ++ ((p, r) ∷ [])) rest
                (rest ++ ((p, cut r m.remaining) ∷ [])) (p, r) m.remaining (cut r m.remaining) next
                (end-Splits rest (p, r)) (end-Splits rest (p, cut r m.remaining)) (ground arith)
                part refl (assign_snoc rest (p, r) (cut r m.remaining) below)
                (levels ∙ ap (assign p (cut r m.remaining)) h) z)
        | no all ↦
            let (levels, left) = fill_one_all ord.client_order_id m p r (omega arith) in
            let same : next.levels ≡ rest =
              levels ∙ ap (erase p) h ∙ erase_snoc rest (p, r) below in
            let again : next_bid m r todo next ≡ todo =
              next_bid_all m r todo next (omega arith) ∙ ap backward same ∙ backward_lem todo in
            let ih = sweep_bids-Swept fuel ord todo next (omega arith) sorted same in
            rw (on, again)
              (all-Swept (at_least limit) (rest ++ ((p, r) ∷ [])) rest (p, r) m.remaining
                (sweep_bids fuel ord todo next) (end-Splits rest (p, r)) (ground arith)
                (omega arith) (rw left at ih))
      ]
      | inr off ↦ rw off (
          subst (λ t. Swept (at_least limit) t m.remaining m) h
            (stop-Swept _ m (λ lt.
              let out : leb limit p ≡ false = ground (arith, off, lt) in
              rw h (
                snoc-All (λ k. leb limit k ≡ false) rest (p, r)
                  (All-map (λ f. f.0 < p) (λ f. leb limit f.0 ≡ false) rest
                    (λ f above. ground arith) below)
                  out))))
    ]

-- The loop for an order, on the side that it trades against.
pub asks_Swept :
    (sim : ExchangeSim) (ord : OutboundOrder) (reports : List ExecutionReport)
    → IsSorted sim.asks
    → Swept
        (at_most ord.price_ticks)
        sim.asks
        ord.qty
        (sweep_asks ord sim.asks (start ord reports sim.asks sim))
asks_Swept sim ord reports s = sweep_asks-Swept ord sim.asks (start ord reports sim.asks sim) s refl

pub bids_Swept :
    (sim : ExchangeSim) (ord : OutboundOrder) (reports : List ExecutionReport)
    → IsSorted sim.bids
    → Swept
        (at_least ord.price_ticks)
        sim.bids
        ord.qty
        (sweep_bids (size sim.bids + 1) ord (backward sim.bids) (start ord reports sim.bids sim))
bids_Swept sim ord reports s =
    let twice = backward_lem sim.bids in
    let r =
      sweep_bids-Swept (size sim.bids + 1) ord (backward sim.bids) (start ord reports sim.bids sim)
        (omega (arith, size-backward sim.bids)) (rw twice s) (sym twice) in
    rw twice at r
