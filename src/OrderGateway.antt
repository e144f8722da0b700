-- ===== src/OrderGateway.antt =====
-- src/gateway/order_gateway.hpp: the gateway numbers the orders, sends them to the exchange, and
-- turns its reports into fills. The exchange that it refers to is part of its state.
pub mod Ids
pub mod Fills
use mockex.Prelude.{
  ℕ, ◌+◌, ◌*◌, ◌/◌, ◌%◌, ◌^◌, Bool, ◌==◌, if◌then◌else◌, List, [], ◌∷◌, none, some,
}
use mockex.Types.{Side, OrderIntent, OutboundOrder, ExecutionReport, ExecType, push_back, add64}
use mockex.Types.{new, cancel, modify, ack, reject, fill, partial_fill, cancelled}
use mockex.FlatHashMap
use mockex.FlatHashMap.{FlatHashMap}
use mockex.ExchangeSim
use mockex.ExchangeSim.{ExchangeSim, RestingOrder, no_resting}

pub record GatewayStats : Type 0 where
  pub orders_sent : ℕ
  pub orders_cancelled : ℕ
  pub fills_received : ℕ
  pub rejects_received : ℕ

pub record FillInfo : Type 0 where
  pub instrument_id : ℕ
  pub side : Side
  pub fill_qty : ℕ
  pub fill_price : ℕ

pub record OrderGateway : Type 0 where
  pub sim : ExchangeSim
  pub next_order_id : ℕ
  pub active_orders : FlatHashMap RestingOrder
  pub stats : GatewayStats

-- The constructor, over an exchange.
unfoldable pub create : ExchangeSim → ℕ → OrderGateway
create sim expected_orders = record {
  sim = sim;
  next_order_id = 1;
  active_orders = FlatHashMap.create no_resting (expected_orders * 10 / 7);
  stats = record {
    orders_sent = 0;
    orders_cancelled = 0;
    fills_received = 0;
    rejects_received = 0;
  };
}

-- `active_orders_.erase(id)`
abbrev pub drop_order : OrderGateway → ℕ → OrderGateway
drop_order g id = record g { active_orders = (FlatHashMap.erase g.active_orders id).0 }

-- The fill branch of `process_reports`.
unfoldable pub on_fill_report :
    OrderGateway → ExecutionReport → List FillInfo → OrderGateway × List FillInfo
on_fill_report g r fills = elim (FlatHashMap.find g.active_orders r.client_order_id) [
  | none ↦ (g, fills)
  | some i ↦
      let order = g.active_orders.vals i in
      let info : FillInfo = record {
        instrument_id = order.instrument_id;
        side = order.side;
        fill_qty = r.filled_qty;
        fill_price = r.fill_price_ticks;
      } in
      let counted = record g {
        stats = record g.stats { fills_received = add64 g.stats.fills_received 1 };
      } in
      (
        if r.remaining_qty == 0 then drop_order counted r.client_order_id else counted,
        push_back fills info,
      )
]

-- The `switch` of `process_reports`.
unfoldable pub on_report :
    OrderGateway → ExecutionReport → List FillInfo → OrderGateway × List FillInfo
unfolding on_fill_report
on_report g r fills = elim r.exec [
  | fill ↦ on_fill_report g r fills
  | partial_fill ↦ on_fill_report g r fills
  | cancelled ↦ (drop_order g r.client_order_id, fills)
  | reject ↦ (
    drop_order
        (record g {
          stats = record g.stats { rejects_received = add64 g.stats.rejects_received 1 };
        })
        r.client_order_id,
    fills,
  )
  | ack ↦ (g, fills)
]

unfoldable pub process_reports :
    OrderGateway → List ExecutionReport → List FillInfo → OrderGateway × List FillInfo
unfolding on_report
process_reports g [] fills = (g, fills)
process_reports g (r ∷ reports) fills =
    let (g', fills') = on_report g r fills in process_reports g' reports fills'

-- `sim_.submit(out)` and the reports on it.
unfoldable pub send : OrderGateway → OutboundOrder → OrderGateway × List FillInfo
unfolding process_reports
send g out =
    let (sim, reports) = ExchangeSim.submit g.sim out in
    process_reports (record g { sim = sim }) reports []

-- `OutboundOrder out`, but for its id.
abbrev pub outbound : OrderIntent → ℕ → OutboundOrder
outbound intent id = record {
  client_order_id = id;
  instrument_id = intent.instrument_id;
  side = intent.side;
  price_ticks = intent.price_ticks;
  qty = intent.qty;
  action = intent.action;
}

-- A new order that is about to be sent: its id is used up, and it is active.
unfoldable pub register : OrderGateway → OrderIntent → OrderGateway
register g intent =
    let ro : RestingOrder = record {
      client_order_id = g.next_order_id;
      instrument_id = intent.instrument_id;
      side = intent.side;
      price_ticks = intent.price_ticks;
      remaining_qty = intent.qty;
    } in
    record g {
      next_order_id = add64 g.next_order_id 1;
      active_orders = (FlatHashMap.insert g.active_orders g.next_order_id ro).0;
      stats = record g.stats { orders_sent = add64 g.stats.orders_sent 1 };
    }

-- A cancel that is about to be sent.
abbrev pub count_cancel : OrderGateway → OrderGateway
count_cancel g = record g {
  stats = record g.stats { orders_cancelled = add64 g.stats.orders_cancelled 1 };
}

unfoldable pub submit_intent : OrderGateway → OrderIntent → OrderGateway × List FillInfo
unfolding send register
submit_intent g intent = elim intent.action [
  | new ↦ send (register g intent) (outbound intent g.next_order_id)
  | cancel ↦ send (count_cancel g) (outbound intent intent.orig_client_order_id)
  | modify ↦ (g, [])
]
