-- ===== src/Types.antt =====
-- src/common/types.hpp: the enums, messages and records that the components exchange. Unsigned
-- fields are numbers, whose ranges the theorems state where they need them; int32_t and int64_t
-- fields are integers.
use mockex.Prelude.{ℕ, ◌+◌, ◌-◌, ◌%◌, ◌^◌, Bool, true, false, ltb, if◌then◌else◌}
use mockex.Prelude.{List, [], ◌∷◌, ◌++◌, length}
use mockex.Prelude.Int.{ℤ}

-- The message tags of the wire format. An `enum class` with a fixed type holds any byte.
pub data MsgType : Type 0 where
  add_order modify_order cancel_order trade clear : MsgType
  unknown : ℕ → MsgType

-- `bid` is 0 and `ask` is 1; a cast from a byte may give any other value, which is neither.
pub data Side : Type 0 where
  bid ask : Side
  other : ℕ → Side

abbrev pub is_bid : Side → Bool
is_bid bid = true
is_bid ask = false
is_bid (other n) = false

pub data OrderAction : Type 0 where
  new cancel modify : OrderAction

pub data ExecType : Type 0 where
  ack reject fill partial_fill cancelled : ExecType

pub record AddOrderMsg : Type 0 where
  pub seq_no : ℕ
  pub ts_exchange : ℕ
  pub order_id : ℕ
  pub instrument_id : ℕ
  pub price_ticks : ℕ
  pub qty : ℕ
  pub side : Side

pub record ModifyOrderMsg : Type 0 where
  pub seq_no : ℕ
  pub ts_exchange : ℕ
  pub order_id : ℕ
  pub instrument_id : ℕ
  pub new_price_ticks : ℕ
  pub new_qty : ℕ

pub record CancelOrderMsg : Type 0 where
  pub seq_no : ℕ
  pub ts_exchange : ℕ
  pub order_id : ℕ
  pub instrument_id : ℕ
  pub canceled_qty : ℕ

pub record TradeMsg : Type 0 where
  pub seq_no : ℕ
  pub ts_exchange : ℕ
  pub order_id : ℕ
  pub instrument_id : ℕ
  pub price_ticks : ℕ
  pub qty : ℕ
  pub side : Side

pub record ClearMsg : Type 0 where
  pub seq_no : ℕ
  pub ts_exchange : ℕ
  pub instrument_id : ℕ

-- `kWireHeaderSize` and the payload sizes.
abbrev pub wire_header_size : ℕ
wire_header_size = 3

abbrev pub add_order_wire_size : ℕ
add_order_wire_size = 37

abbrev pub modify_order_wire_size : ℕ
modify_order_wire_size = 36

abbrev pub cancel_order_wire_size : ℕ
cancel_order_wire_size = 32

abbrev pub trade_wire_size : ℕ
trade_wire_size = 37

abbrev pub clear_wire_size : ℕ
clear_wire_size = 20

pub record BboUpdate : Type 0 where
  pub instrument_id : ℕ
  pub best_bid_px : ℕ
  pub best_bid_qty : ℕ
  pub best_ask_px : ℕ
  pub best_ask_qty : ℕ
  pub ts_local : ℕ

pub record OrderIntent : Type 0 where
  pub instrument_id : ℕ
  pub side : Side
  pub price_ticks : ℕ
  pub qty : ℕ
  pub action : OrderAction
  pub orig_client_order_id : ℕ

pub record OutboundOrder : Type 0 where
  pub client_order_id : ℕ
  pub instrument_id : ℕ
  pub side : Side
  pub price_ticks : ℕ
  pub qty : ℕ
  pub action : OrderAction

pub record ExecutionReport : Type 0 where
  pub client_order_id : ℕ
  pub exec : ExecType
  pub filled_qty : ℕ
  pub remaining_qty : ℕ
  pub fill_price_ticks : ℕ
  pub ts_exchange_sim : ℕ

pub record RiskLimits : Type 0 where
  pub max_position : ℤ
  pub max_order_qty : ℕ
  pub max_notional : ℕ
  pub price_collar_ticks : ℕ

pub record PortfolioState : Type 0 where
  pub position : ℤ
  pub realized_pnl : ℤ
  pub cash : ℤ
  pub notional_exposure : ℕ

pub record OrderState : Type 0 where
  pub price_ticks : ℕ
  pub qty : ℕ
  pub side : Side

-- `UINT32_MAX`
abbrev pub invalid_price : ℕ
invalid_price = 0xffff_ffff

-- uint32_t and uint64_t addition, and subtraction with the borrow that wraps.
abbrev pub add32 : ℕ → ℕ → ℕ
add32 a b = (a + b) % 2 ^ 32

abbrev pub sub32 : ℕ → ℕ → ℕ
sub32 a b = (a + 2 ^ 32 - b) % 2 ^ 32

abbrev pub add64 : ℕ → ℕ → ℕ
add64 a b = (a + b) % 2 ^ 64

-- `kMaxOrders` and `kMaxReports`, and `kMaxFills` of the gateway.
abbrev pub max_entries : ℕ
max_entries = 4

-- `push_back` of `StrategyOutput`, `ExecutionReports` and `FillResults`: the array with its count is
-- the list of the entries in use, and a full array drops the entry.
unfoldable pub push_back {ℓ} : {A : Type ℓ} → List A → A → List A
push_back xs x = if ltb (length xs) max_entries then xs ++ (x ∷ []) else xs
