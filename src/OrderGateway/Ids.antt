-- ===== src/OrderGateway/Ids.antt =====
-- The ids and the fills of src/gateway/order_gateway.hpp.
use mockex.Prelude.{ℕ, ◌+◌, ◌%◌, ◌^◌, ◌≤◌, ◌<◌, ◌≡◌, refl, List, [], ◌∷◌, length, arith}
use mockex.Prelude.{suc, ◌∙◌, Option-cases, inl, inr, Bool-cases, ◌==◌, length-append, All}
use mockex.FlatHashMap
use mockex.Types.{OrderIntent, OutboundOrder, ExecutionReport, ExecType, OrderAction, push_back}
use mockex.Types.{new, cancel, modify, ack, reject, fill, partial_fill, cancelled, max_entries}
use mockex.ExchangeSim.{ExchangeSim}
use mockex.ExchangeSim
use mockex.OrderGateway.{OrderGateway, FillInfo, submit_intent, send, register, process_reports}
use mockex.OrderGateway.{on_report, on_fill_report, create, outbound, count_cancel}

-- What the handling of reports leaves alone, and how many fills it may hand out.
record Handled (g : OrderGateway) (r : OrderGateway × List FillInfo) : Type 0 where
  ids : r.0.next_order_id ≡ g.next_order_id
  sent : r.0.stats.orders_sent ≡ g.stats.orders_sent
  cancels : r.0.stats.orders_cancelled ≡ g.stats.orders_cancelled
  few : length r.1 ≤ max_entries

push_back_few :
    (fills : List FillInfo) (f : FillInfo)
    → length fills ≤ max_entries
    → length (push_back fills f) ≤ max_entries
unfolding push_back
push_back_few fills f h = ground (arith, length-append fills (f ∷ []))

on_fill_report-Handled :
    (g : OrderGateway) (r : ExecutionReport) (fills : List FillInfo)
    → length fills ≤ max_entries
    → Handled g (on_fill_report g r fills)
unfolding on_fill_report
on_fill_report-Handled g r fills h =
    elim (Option-cases (FlatHashMap.find g.active_orders r.client_order_id)) [
      | inl gone ↦
          rw (gone, on_fill_report) (record { ids = refl; sent = refl; cancels = refl; few = h })
      | inr (i, at) ↦ elim (Bool-cases (r.remaining_qty == 0)) [
        | inl last ↦
            rw (at, on_fill_report, last)
              (record { ids = refl; sent = refl; cancels = refl; few = push_back_few fills _ h })
        | inr more ↦
            rw (at, on_fill_report, more)
              (record { ids = refl; sent = refl; cancels = refl; few = push_back_few fills _ h })
      ]
    ]

on_report-Handled :
    (g : OrderGateway) (r : ExecutionReport) (fills : List FillInfo)
    → length fills ≤ max_entries
    → Handled g (on_report g r fills)
unfolding on_report
on_report-Handled g r fills h = go r.exec refl
  where
    go : (e : ExecType) → r.exec ≡ e → Handled g (on_report g r fills)
    go fill s = rw (s, on_report) (on_fill_report-Handled g r fills h)
    go partial_fill s = rw (s, on_report) (on_fill_report-Handled g r fills h)
    go cancelled s = rw (s, on_report) (record { ids = refl; sent = refl; cancels = refl; few = h })
    go reject s = rw (s, on_report) (record { ids = refl; sent = refl; cancels = refl; few = h })
    go ack s = rw (s, on_report) (record { ids = refl; sent = refl; cancels = refl; few = h })

process_reports-Handled :
    (g : OrderGateway) (reports : List ExecutionReport) (fills : List FillInfo)
    → length fills ≤ max_entries
    → Handled g (process_reports g reports fills)
unfolding process_reports
process_reports-Handled g [] fills h = record { ids = refl; sent = refl; cancels = refl; few = h }
process_reports-Handled g (r ∷ reports) fills h =
    let one = on_report-Handled g r fills h in
    let (g', fills') = on_report g r fills in
    let rest = process_reports-Handled g' reports fills' one.few in
    record {
      ids = rest.ids ∙ one.ids;
      sent = rest.sent ∙ one.sent;
      cancels = rest.cancels ∙ one.cancels;
      few = rest.few;
    }

send-Handled : (g : OrderGateway) (out : OutboundOrder) → Handled g (send g out)
unfolding send
send-Handled g out =
    let (sim, reports) = ExchangeSim.submit g.sim out in
    let r = process_reports-Handled (record g { sim = sim }) reports [] (omega arith) in
    record { ids = r.ids; sent = r.sent; cancels = r.cancels; few = r.few }

-- A new order takes one id and counts once.
pub submit_intent_new :
    (g : OrderGateway) (intent : OrderIntent)
    → intent.action ≡ new
    → let g' = (submit_intent g intent).0 in
      (g'.next_order_id ≡ (g.next_order_id + 1) % 2 ^ 64)
      × (g'.stats.orders_sent ≡ (g.stats.orders_sent + 1) % 2 ^ 64)
      × (g'.stats.orders_cancelled ≡ g.stats.orders_cancelled)
unfolding submit_intent register
submit_intent_new g intent e =
    let h = send-Handled (register g intent) (outbound intent g.next_order_id) in
    rw (e, submit_intent) (h.ids, h.sent, h.cancels)

-- How many intents are new orders, and how many are cancels.
unfoldable pub news : List OrderIntent → ℕ
news [] = 0
news (intent ∷ intents) = elim intent.action [
  | new ↦ suc (news intents)
  | cancel ↦ news intents
  | modify ↦ news intents
]

unfoldable pub cancels : List OrderIntent → ℕ
cancels [] = 0
cancels (intent ∷ intents) = elim intent.action [
  | new ↦ cancels intents
  | cancel ↦ suc (cancels intents)
  | modify ↦ cancels intents
]

-- The gateway after a sequence of intents, and the fills of all of them.
unfoldable pub submit_intents :
    OrderGateway → List OrderIntent → OrderGateway × List (List FillInfo)
submit_intents g [] = (g, [])
submit_intents g (intent ∷ intents) =
    let (g', fills) = submit_intent g intent in
    let (g'', all) = submit_intents g' intents in (g'', fills ∷ all)

-- The counters after some new orders and some cancels, and at most four fills for each intent.
record Counted (g : OrderGateway) (n c : ℕ) (r : OrderGateway × List (List FillInfo)) : Type 0 where
  ids : r.0.next_order_id ≡ (g.next_order_id + n) % 2 ^ 64
  sent : r.0.stats.orders_sent ≡ (g.stats.orders_sent + n) % 2 ^ 64
  cancelled : r.0.stats.orders_cancelled ≡ (g.stats.orders_cancelled + c) % 2 ^ 64
  few : All (λ fills. length fills ≤ max_entries) r.1

-- The same for one intent.
record Stepped (g : OrderGateway) (n c : ℕ) (r : OrderGateway × List FillInfo) : Type 0 where
  ids : r.0.next_order_id ≡ (g.next_order_id + n) % 2 ^ 64
  sent : r.0.stats.orders_sent ≡ (g.stats.orders_sent + n) % 2 ^ 64
  cancelled : r.0.stats.orders_cancelled ≡ (g.stats.orders_cancelled + c) % 2 ^ 64
  few : length r.1 ≤ max_entries

news-cons :
    (intent : OrderIntent) (intents : List OrderIntent)
    → (news (intent ∷ intents) ≡ news (intent ∷ []) + news intents)
      × (cancels (intent ∷ intents) ≡ cancels (intent ∷ []) + cancels intents)
unfolding news cancels
news-cons intent intents = go intent.action refl
  where
    go :
        (a : OrderAction)
        → intent.action ≡ a
        → (news (intent ∷ intents) ≡ news (intent ∷ []) + news intents)
          × (cancels (intent ∷ intents) ≡ cancels (intent ∷ []) + cancels intents)
    go new e = rw (e, news, cancels) (omega arith, omega arith)
    go cancel e = rw (e, news, cancels) (omega arith, omega arith)
    go modify e = rw (e, news, cancels) (omega arith, omega arith)

submit_intent-Stepped :
    (g : OrderGateway) (intent : OrderIntent)
    → g.next_order_id < 2 ^ 64
    → g.stats.orders_sent < 2 ^ 64
    → g.stats.orders_cancelled < 2 ^ 64
    → Stepped g (news (intent ∷ [])) (cancels (intent ∷ [])) (submit_intent g intent)
unfolding submit_intent news cancels register
submit_intent-Stepped g intent i s c = go intent.action refl
  where
    go :
        (a : OrderAction)
        → intent.action ≡ a
        → Stepped g (news (intent ∷ [])) (cancels (intent ∷ [])) (submit_intent g intent)
    go new e =
        let h = send-Handled (register g intent) (outbound intent g.next_order_id) in
        rw (e, submit_intent, news, cancels)
          (record {
            ids = omega (arith, h.ids);
            sent = omega (arith, h.sent);
            cancelled = omega (arith, h.cancels);
            few = h.few;
          })
    go cancel e =
        let h = send-Handled (count_cancel g) (outbound intent intent.orig_client_order_id) in
        rw (e, submit_intent, news, cancels)
          (record {
            ids = omega (arith, h.ids);
            sent = omega (arith, h.sent);
            cancelled = omega (arith, h.cancels);
            few = h.few;
          })
    go modify e =
        rw (e, submit_intent, news, cancels)
          (record {
            ids = omega arith;
            sent = omega arith;
            cancelled = omega arith;
            few = omega arith;
          })

submit_intents-Counted :
    (g : OrderGateway) (intents : List OrderIntent)
    → g.next_order_id < 2 ^ 64
    → g.stats.orders_sent < 2 ^ 64
    → g.stats.orders_cancelled < 2 ^ 64
    → Counted g (news intents) (cancels intents) (submit_intents g intents)
unfolding submit_intents news cancels
submit_intents-Counted g [] i s c = record {
  ids = omega arith;
  sent = omega arith;
  cancelled = omega arith;
  few = tt;
}
submit_intents-Counted g (intent ∷ intents) i s c =
    let one = submit_intent-Stepped g intent i s c in
    let rest =
      submit_intents-Counted (submit_intent g intent).0 intents (omega (arith, one.ids))
        (omega (arith, one.sent)) (omega (arith, one.cancelled)) in
    let (n, k) = news-cons intent intents in
    record {
      ids = omega (arith, one.ids, rest.ids, n);
      sent = omega (arith, one.sent, rest.sent, n);
      cancelled = omega (arith, one.cancelled, rest.cancelled, k);
      few = (one.few, rest.few);
    }

-- From a new gateway, whatever the exchange holds, after any sequence of intents the next id is one
-- more than the number of new orders, the counters of sent and of cancelled orders are the numbers of
-- new orders and of cancels, all modulo 2 ^ 64, and each intent gave at most four fills.
pub submit_intents_lem :
    (sim : ExchangeSim) (expected_orders : ℕ) (intents : List OrderIntent)
    → let (g, fills) = submit_intents (create sim expected_orders) intents in
      (g.next_order_id ≡ (1 + news intents) % 2 ^ 64)
      × (g.stats.orders_sent ≡ news intents % 2 ^ 64)
      × (g.stats.orders_cancelled ≡ cancels intents % 2 ^ 64)
      × All (λ f. length f ≤ max_entries) fills
unfolding create
submit_intents_lem sim expected_orders intents =
    let r =
      submit_intents-Counted (create sim expected_orders) intents (omega arith) (omega arith)
        (omega arith) in
    (r.ids, omega (arith, r.sent), omega (arith, r.cancelled), r.few)
