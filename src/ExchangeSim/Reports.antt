-- ===== src/ExchangeSim/Reports.antt =====
-- What the reports of src/exchange/exchange_sim.hpp on an order say.
use mockex.Prelude.{ℕ, zero, suc, ◌+◌, ◌-◌, ◌≤◌, ◌≡◌, refl, arith, min, Bool-cases, inl, inr, All}
use mockex.Prelude.{List, [], ◌∷◌, ◌++◌, ltb, leb, ◌&&◌, length, ◌==◌}
use mockex.StdMap.{StdMap}
use mockex.Types.{ExecutionReport, OutboundOrder, new, is_bid, push_back}
use mockex.Types.{max_entries, ack, fill}
use mockex.ExchangeSim.{ExchangeSim, RestingOrder, Match, fill_one, sweep_asks, sweep_bids, submit}
use mockex.ExchangeSim.{match_order, report, submit_new}

-- What is filled, over all reports.
unfoldable pub filled : List ExecutionReport → ℕ
filled [] = 0
filled (r ∷ rs) = r.filled_qty + filled rs

-- The reports are on the order, and do not fill more than its quantity.
pub record IsTold (id qty : ℕ) (reports : List ExecutionReport) : Type 0 where
  pub mine : All (λ r. r.client_order_id ≡ id) reports
  pub enough : filled reports ≤ qty

filled-append :
    (rs : List ExecutionReport) (r : ExecutionReport)
    → filled (rs ++ (r ∷ [])) ≡ filled rs + r.filled_qty
unfolding filled
filled-append [] r = omega arith
filled-append (r' ∷ rs) r = omega (arith, filled-append rs r)

All-append_one {ℓ} :
    {A : Type ℓ} (P : A → Type 0) (xs : List A) (x : A) → All P xs → P x → All P (xs ++ (x ∷ []))
All-append_one P [] x a p = (p, tt)
All-append_one P (y ∷ ys) x a p = (a.0, All-append_one P ys x a.1 p)

pub push_back-All {ℓ} :
    {A : Type ℓ} (P : A → Type 0) (xs : List A) (x : A) → All P xs → P x → All P (push_back xs x)
unfolding push_back
push_back-All P xs x a p = elim (Bool-cases (ltb (length xs) max_entries)) [
  | inl room ↦ rw (push_back, room) (All-append_one P xs x a p)
  | inr full ↦ rw (push_back, full) a
]

push_back-IsTold :
    (id qty : ℕ) (rs : List ExecutionReport) (r : ExecutionReport)
    → IsTold id qty rs
    → r.client_order_id ≡ id
    → IsTold id (qty + r.filled_qty) (push_back rs r)
unfolding push_back
push_back-IsTold id qty rs r t own = record {
  mine = push_back-All (λ r'. r'.client_order_id ≡ id) rs r t.mine own;
  enough = ground (arith, filled-append rs r, t.enough);
}

IsTold-mono : {id q q' : ℕ} {rs : List ExecutionReport} → q ≤ q' → IsTold id q rs → IsTold id q' rs
IsTold-mono le t = record { mine = t.mine; enough = omega (arith, t.enough) }

-- A state of a matching loop: what is filled and what is left stay within the order.
record IsMatched (id qty : ℕ) (m : Match) : Type 0 where
  bounded : m.remaining ≤ qty
  told : IsTold id (qty - m.remaining) m.reports

module _ (id qty : ℕ) where
  fill_one-IsMatched :
      (m : Match) (price : ℕ) (r : RestingOrder)
      → IsMatched id qty m
      → IsMatched id qty (fill_one id m price r)
  unfolding fill_one
  fill_one-IsMatched m price r h =
      let qty_filled = min m.remaining r.remaining_qty in
      let entry : ExecutionReport = record {
        client_order_id = id;
        exec = fill;
        filled_qty = qty_filled;
        remaining_qty = m.remaining - qty_filled;
        fill_price_ticks = price;
        ts_exchange_sim = 0;
      } in
      let told : IsTold id (qty - (m.remaining - qty_filled)) (push_back m.reports entry) =
        IsTold-mono (omega (arith, h.bounded))
          (push_back-IsTold id (qty - m.remaining) m.reports entry h.told refl) in
      elim (Bool-cases (r.remaining_qty - qty_filled == 0)) [
        | inl gone ↦
            rw (gone, fill_one) (record { bounded = omega (arith, h.bounded); told = told })
        | inr left ↦
            rw (left, fill_one) (record { bounded = omega (arith, h.bounded); told = told })
      ]

module _ (ord : OutboundOrder) (qty : ℕ) where
  abbrev IsMine : Match → Type 0
  IsMine m = IsMatched ord.client_order_id qty m

  sweep_asks-IsMine :
      (todo : StdMap RestingOrder) (m : Match) → IsMine m → IsMine (sweep_asks ord todo m)
  unfolding sweep_asks
  sweep_asks-IsMine [] m h = h
  sweep_asks-IsMine ((price, r) ∷ todo) m h =
      elim (Bool-cases (leb price ord.price_ticks && ltb 0 m.remaining)) [
        | inl on ↦
            rw (on, sweep_asks)
              (sweep_asks-IsMine todo _ (fill_one-IsMatched ord.client_order_id qty m price r h))
        | inr off ↦ rw (off, sweep_asks) h
      ]

  sweep_bids-IsMine :
      (fuel : ℕ) (todo : StdMap RestingOrder) (m : Match)
      → IsMine m
      → IsMine (sweep_bids fuel ord todo m)
  unfolding sweep_bids
  sweep_bids-IsMine zero todo m h = h
  sweep_bids-IsMine (suc fuel) [] m h = h
  sweep_bids-IsMine (suc fuel) ((price, r) ∷ todo) m h =
      elim (Bool-cases (leb ord.price_ticks price && ltb 0 m.remaining)) [
        | inl on ↦
            rw (on, sweep_bids)
              (sweep_bids-IsMine fuel _ _ (fill_one-IsMatched ord.client_order_id qty m price r h))
        | inr off ↦ rw (off, sweep_bids) h
      ]

  match_order-IsMine :
      (sim : ExchangeSim) (reports : List ExecutionReport)
      → ord.qty ≤ qty
      → IsTold ord.client_order_id (qty - ord.qty) reports
      → IsMine (match_order sim ord reports).1
  unfolding match_order
  match_order-IsMine sim reports le t = elim (Bool-cases (is_bid ord.side)) [
    | inl buy ↦
        rw (buy, match_order) (sweep_asks-IsMine sim.asks _ (record { bounded = le; told = t }))
    | inr sell ↦
        rw (sell, match_order) (sweep_bids-IsMine _ _ _ (record { bounded = le; told = t }))
  ]

-- The reports on a new order are on that order, and what they fill, all together, is at most its
-- quantity.
pub submit-IsTold :
    (sim : ExchangeSim) (ord : OutboundOrder)
    → ord.action ≡ new
    → IsTold ord.client_order_id ord.qty (submit sim ord).1
unfolding submit submit_new filled
submit-IsTold sim ord is =
    let reports = push_back [] (report ord.client_order_id ack ord.qty) in
    let ack_told : IsTold ord.client_order_id (ord.qty - ord.qty) reports =
      IsTold-mono (omega arith) (
        push_back-IsTold ord.client_order_id 0 [] (report ord.client_order_id ack ord.qty)
          (record { mine = tt; enough = omega arith }) refl) in
    rw (is, submit)
      (IsTold-mono (omega arith)
        (match_order-IsMine ord ord.qty sim reports (omega arith) ack_told).told)
