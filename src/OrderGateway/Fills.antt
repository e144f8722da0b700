-- ===== src/OrderGateway/Fills.antt =====
-- The fills that src/gateway/order_gateway.hpp hands out for an order.
use mockex.Prelude.{ℕ, ◌+◌, ◌^◌, ◌≤◌, ◌<◌, ◌≡◌, refl, arith, List, [], ◌∷◌, All}
use mockex.Prelude.{Option-cases, Bool-cases, inl, inr, ◌==◌, ◌++◌}
use mockex.FlatHashMap
use mockex.FlatHashMap.{FlatHashMap}
use mockex.FlatHashMap.Entries.{Holds, insert-Holds, erase-Holds, find-Holds}
use mockex.Types.{Side, OrderIntent, ExecutionReport, ExecType, push_back, new}
use mockex.Types.{ack, reject, fill, partial_fill, cancelled}
use mockex.ExchangeSim
use mockex.ExchangeSim.{RestingOrder}
use mockex.ExchangeSim.Reports.{filled, submit-IsTold, push_back-All}
use mockex.OrderGateway.{OrderGateway, FillInfo, on_fill_report, on_report, process_reports, send}
use mockex.OrderGateway.{register, outbound, submit_intent}
use mockex.OrderGateway.Ids.{submit_intent_new}

-- The quantity of all fills.
unfoldable pub total_qty : List FillInfo → ℕ
total_qty [] = 0
total_qty (f ∷ fs) = f.fill_qty + total_qty fs

total_qty-append :
    (fs : List FillInfo) (f : FillInfo) → total_qty (fs ++ (f ∷ [])) ≡ total_qty fs + f.fill_qty
unfolding total_qty
total_qty-append [] f = omega arith
total_qty-append (f' ∷ fs) f = omega (arith, total_qty-append fs f)

total_qty-push_back :
    (fs : List FillInfo) (f : FillInfo) → total_qty (push_back fs f) ≤ total_qty fs + f.fill_qty
unfolding push_back
total_qty-push_back fs f = ground (arith, total_qty-append fs f)

-- Every active order has an id below n, and the order `id` is on a side.
abbrev pub IsBelow : ℕ → OrderGateway → Type 0
IsBelow n g = Holds (λ k _. k < n) g.active_orders

-- What holds while the reports on the order `id` are handled.
record IsServed (n id : ℕ) (side : Side) (qty : ℕ) (r : OrderGateway × List FillInfo) : Type 0 where
  active : Holds (λ k (v : RestingOrder). (k < n) × (k ≡ id → v.side ≡ side)) r.0.active_orders
  sided : All (λ f. f.side ≡ side) r.1
  enough : total_qty r.1 ≤ qty

module _ (n id : ℕ) (side : Side) where
  abbrev Entry : ℕ → RestingOrder → Type 0
  Entry k v = (k < n) × (k ≡ id → v.side ≡ side)

  on_fill_report-IsServed :
      (g : OrderGateway) (r : ExecutionReport) (fills : List FillInfo) (qty : ℕ)
      → r.client_order_id ≡ id
      → IsServed n id side qty (g, fills)
      → IsServed n id side (qty + r.filled_qty) (on_fill_report g r fills)
  unfolding on_fill_report
  on_fill_report-IsServed g r fills qty own h =
      elim (Option-cases (FlatHashMap.find g.active_orders r.client_order_id)) [
        | inl gone ↦
            rw (gone, on_fill_report)
              (record { active = h.active; sided = h.sided; enough = omega (arith, h.enough) })
        | inr (i, at) ↦
            let entry = find-Holds Entry g.active_orders r.client_order_id i h.active at in
            let sided = push_back-All (λ f. f.side ≡ side) fills _ h.sided (entry.1 own) in
            elim (Bool-cases (r.remaining_qty == 0)) [
              | inl last ↦
                  rw (at, on_fill_report, last)
                    (record {
                      active = erase-Holds Entry g.active_orders r.client_order_id h.active;
                      sided = sided;
                      enough = omega (arith, total_qty-push_back fills _, h.enough);
                    })
              | inr more ↦
                  rw (at, on_fill_report, more)
                    (record {
                      active = h.active;
                      sided = sided;
                      enough = omega (arith, total_qty-push_back fills _, h.enough);
                    })
            ]
      ]

  on_report-IsServed :
      (g : OrderGateway) (r : ExecutionReport) (fills : List FillInfo) (qty : ℕ)
      → r.client_order_id ≡ id
      → IsServed n id side qty (g, fills)
      → IsServed n id side (qty + r.filled_qty) (on_report g r fills)
  unfolding on_report
  on_report-IsServed g r fills qty own h = go r.exec refl
    where
      same : IsServed n id side (qty + r.filled_qty) (g, fills)
      same = record { active = h.active; sided = h.sided; enough = omega (arith, h.enough) }

      dropped : Holds Entry (FlatHashMap.erase g.active_orders r.client_order_id).0
      dropped = erase-Holds Entry g.active_orders r.client_order_id h.active

      go :
          (e : ExecType)
          → r.exec ≡ e
          → IsServed n id side (qty + r.filled_qty) (on_report g r fills)
      go fill s = rw (s, on_report) (on_fill_report-IsServed g r fills qty own h)
      go partial_fill s = rw (s, on_report) (on_fill_report-IsServed g r fills qty own h)
      go cancelled s =
          rw (s, on_report) (record { active = dropped; sided = same.sided; enough = same.enough })
      go reject s =
          rw (s, on_report) (record { active = dropped; sided = same.sided; enough = same.enough })
      go ack s = rw (s, on_report) same

  process_reports-IsServed :
      (g : OrderGateway) (reports : List ExecutionReport) (fills : List FillInfo) (qty : ℕ)
      → All (λ r. r.client_order_id ≡ id) reports
      → IsServed n id side qty (g, fills)
      → IsServed n id side (qty + filled reports) (process_reports g reports fills)
  unfolding process_reports filled
  process_reports-IsServed g [] fills qty own h = record {
    active = h.active;
    sided = h.sided;
    enough = omega (arith, h.enough);
  }
  process_reports-IsServed g (r ∷ reports) fills qty own h =
      let (g', fills') = on_report g r fills in
      let rest =
        process_reports-IsServed g' reports fills' (qty + r.filled_qty) own.1
          (on_report-IsServed g r fills qty own.0 h) in
      record { active = rest.active; sided = rest.sided; enough = omega (arith, rest.enough) }

-- A new order is active with its side, where no active order had its id.
register-active :
    (g : OrderGateway) (intent : OrderIntent)
    → IsBelow g.next_order_id g
    → Holds
        (Entry (g.next_order_id + 1) g.next_order_id intent.side)
        (register g intent).active_orders
unfolding register
register-active g intent below =
    insert-Holds (Entry (g.next_order_id + 1) g.next_order_id intent.side) g.active_orders _ _
      (omega arith, λ _. refl)
      (λ i nz. (omega (arith, below i nz), λ same. absurd (omega (arith, below i nz, same))))

send-IsServed :
    (g : OrderGateway) (intent : OrderIntent) (n id : ℕ)
    → intent.action ≡ new
    → Holds (Entry n id intent.side) g.active_orders
    → IsServed n id intent.side intent.qty (send g (outbound intent id))
unfolding send total_qty
send-IsServed g intent n id is active =
    let out = outbound intent id in
    let told = submit-IsTold g.sim out is in
    let (sim, reports) = ExchangeSim.submit g.sim out in
    let served =
      process_reports-IsServed n id intent.side (record g { sim = sim }) reports [] 0 told.mine
        (record { active = active; sided = tt; enough = omega arith }) in
    record {
      active = served.active;
      sided = served.sided;
      enough = omega (arith, served.enough, told.enough);
    }

-- A new order, when its id plus one is below 2 ^ 64 and every active order has an id below its own, is
-- filled on its side only and for at most its quantity, over all fills; afterwards every active order
-- has an id below the next one.
pub submit_intent_fills :
    (g : OrderGateway) (intent : OrderIntent)
    → intent.action ≡ new
    → g.next_order_id + 1 < 2 ^ 64
    → IsBelow g.next_order_id g
    → let (g', fills) = submit_intent g intent in
      All (λ f. f.side ≡ intent.side) fills
      × (total_qty fills ≤ intent.qty)
      × IsBelow g'.next_order_id g'
unfolding submit_intent
submit_intent_fills g intent is small below =
    let id = g.next_order_id in
    let served =
      send-IsServed (register g intent) intent (id + 1) id is (register-active g intent below) in
    let after : IsBelow (id + 1) (submit_intent g intent).0 =
      rw (is, submit_intent) (λ i nz. (served.active i nz).0) in
    let next : (submit_intent g intent).0.next_order_id ≡ id + 1 =
      omega (arith, (submit_intent_new g intent is).0) in
    (rw (is, submit_intent) served.sided, rw (is, submit_intent) served.enough, rw next after)
