-- ===== src/Trading/Schema.antt =====
-- internal/trading/schema.go. A named string type is a data type with a constructor for each
-- constant; `other` holds a text that is none of them, the empty text included.
use ti_relay_trader.Prelude.{ℕ, String, Bool, List}
use ti_relay_trader.Prelude.Int.{ℤ}
use ti_relay_trader.Float64.{Float64}
use ti_relay_trader.Time.{Time}

pub data Exchange : Type 0 where
  sh sz bj : Exchange
  other : String → Exchange

pub data TradeSide : Type 0 where
  buy sell purchase redemption : TradeSide
  other : String → TradeSide

pub data BusinessType : Type 0 where
  stock etf : BusinessType
  other : String → BusinessType

pub data OffsetType : Type 0 where
  open_position close_position : OffsetType
  other : String → OffsetType

pub data AccountStatus : Type 0 where
  enabled disabled readonly : AccountStatus
  other : String → AccountStatus

pub data OrderStatus : Type 0 where
  created accepted working partially_filled filled cancelled rejected : OrderStatus
  other : String → OrderStatus

pub data GatewayStatus : Type 0 where
  accepted working filled cancelled rejected : GatewayStatus
  other : String → GatewayStatus

-- The texts of the constants, by which Go compares values.
unfoldable pub exchange_text : Exchange → String
exchange_text Exchange.sh = "SH"
exchange_text Exchange.sz = "SZ"
exchange_text Exchange.bj = "BJ"
exchange_text (Exchange.other s) = s

unfoldable pub trade_side_text : TradeSide → String
trade_side_text TradeSide.buy = "B"
trade_side_text TradeSide.sell = "S"
trade_side_text TradeSide.purchase = "P"
trade_side_text TradeSide.redemption = "R"
trade_side_text (TradeSide.other s) = s

unfoldable pub business_type_text : BusinessType → String
business_type_text BusinessType.stock = "S"
business_type_text BusinessType.etf = "E"
business_type_text (BusinessType.other s) = s

unfoldable pub offset_type_text : OffsetType → String
offset_type_text OffsetType.open_position = "O"
offset_type_text OffsetType.close_position = "C"
offset_type_text (OffsetType.other s) = s

unfoldable pub order_status_text : OrderStatus → String
order_status_text OrderStatus.created = "created"
order_status_text OrderStatus.accepted = "accepted"
order_status_text OrderStatus.working = "working"
order_status_text OrderStatus.partially_filled = "partially_filled"
order_status_text OrderStatus.filled = "filled"
order_status_text OrderStatus.cancelled = "cancelled"
order_status_text OrderStatus.rejected = "rejected"
order_status_text (OrderStatus.other s) = s

unfoldable pub gateway_status_text : GatewayStatus → String
gateway_status_text GatewayStatus.accepted = "accepted"
gateway_status_text GatewayStatus.working = "working"
gateway_status_text GatewayStatus.filled = "filled"
gateway_status_text GatewayStatus.cancelled = "cancelled"
gateway_status_text GatewayStatus.rejected = "rejected"
gateway_status_text (GatewayStatus.other s) = s

pub record Account : Type 0 where
  pub account_id : String
  pub broker_id : String
  pub gateway_id : String
  pub stream_prefix : String
  pub status : AccountStatus
  pub enabled : Bool
  pub trading_enabled : Bool
  pub simulated : Bool
  pub tags : List (String × String)
  pub updated_at : Time

pub record SubmitOrderRequest : Type 0 where
  pub account_id : String
  pub client_order_id : String
  pub gateway_order_id : String
  pub trade_date : String
  pub symbol : String
  pub exchange : Exchange
  pub trade_side : TradeSide
  pub business_type : BusinessType
  pub offset_type : OffsetType
  pub price : Float64
  pub qty : ℤ
  pub idempotency_key : String
  pub strategy_type : String
  pub strategy_id : String
  pub basket_id : String
  pub parent_order_id : String
  pub t0_order_group_id : String

pub record BatchSubmitOrderRequest : Type 0 where
  pub account_id : String
  pub orders : List SubmitOrderRequest
  pub idempotency_key : String

pub record CancelOrderRequest : Type 0 where
  pub account_id : String
  pub gateway_order_id : String
  pub cancel_id : String
  pub idempotency_key : String

-- A value of an adapter context, `map[string]any`: a text, a number, or another value by its JSON text.
pub data ContextValue : Type 0 where
  text : String → ContextValue
  number : ℕ → ContextValue
  json : String → ContextValue

pub record Order : Type 0 where
  pub account_id : String
  pub client_order_id : String
  pub gateway_order_id : String
  pub order_id : ℤ
  pub order_stream_id : String
  pub counter_session_id : String
  pub trade_date : String
  pub symbol : String
  pub name : String
  pub exchange : Exchange
  pub trade_side : TradeSide
  pub business_type : BusinessType
  pub offset_type : OffsetType
  pub limit_price : Float64
  pub order_qty : ℤ
  pub submitted_qty : ℤ
  pub cum_filled_qty : ℤ
  pub leaves_qty : ℤ
  pub cancelled_qty : ℤ
  pub invalid_qty : ℤ
  pub avg_fill_price : Float64
  pub fee : Float64
  pub status : OrderStatus
  pub gateway_status : GatewayStatus
  pub adapter_status_code : ℤ
  pub adapter_status_name : String
  pub is_terminal : Bool
  pub reject_code : String
  pub reject_message : String
  pub origin_message_id : String
  pub request_id : String
  pub idempotency_key : String
  pub shareholder_id : String
  pub strategy_type : String
  pub strategy_id : String
  pub basket_id : String
  pub parent_order_id : String
  pub t0_order_group_id : String
  pub created_at : Time
  pub accepted_at : Time
  pub inserted_at : Time
  pub last_updated_at : Time
  pub terminal_at : Time
  pub adapter_context : List (String × ContextValue)

pub record OrderEvent : Type 0 where
  pub event_id : String
  pub event_type : String
  pub account_id : String
  pub gateway_order_id : String
  pub status : OrderStatus
  pub gateway_status : GatewayStatus
  pub is_terminal : Bool
  pub order : Order
  pub produced_at : Time
  pub adapter_context : List (String × ContextValue)

pub record OrderQuery : Type 0 where
  pub account_id : String
  pub gateway_order_id : String
  pub client_order_id : String
  pub origin_message_id : String
  pub symbol : String
  pub exchange : Exchange
  pub status : OrderStatus
  pub trade_date : String
  pub date_from : String
  pub date_to : String
  pub history : Bool
  pub strategy_type : String
  pub strategy_id : String
  pub basket_id : String
  pub parent_order_id : String
  pub t0_order_group_id : String
  pub limit : ℤ
  pub cursor : String

pub record FillQuery : Type 0 where
  pub account_id : String
  pub gateway_order_id : String
  pub symbol : String
  pub exchange : Exchange
  pub trade_date : String
  pub date_from : String
  pub date_to : String
  pub history : Bool
  pub strategy_type : String
  pub strategy_id : String
  pub basket_id : String
  pub parent_order_id : String
  pub t0_order_group_id : String
  pub limit : ℤ
  pub cursor : String

pub record ComponentTransferQuery : Type 0 where
  pub account_id : String
  pub gateway_order_id : String
  pub symbol : String
  pub exchange : Exchange
  pub trade_date : String
  pub date_from : String
  pub date_to : String
  pub history : Bool
  pub basket_id : String
  pub limit : ℤ
  pub cursor : String

pub record PositionQuery : Type 0 where
  pub account_id : String
  pub symbol : String
  pub exchange : Exchange
  pub trade_date : String
  pub date_from : String
  pub date_to : String
  pub snapshot_type : String
  pub history : Bool
  pub limit : ℤ
  pub cursor : String

pub record Position : Type 0 where
  pub account_id : String
  pub trade_date : String
  pub snapshot_type : String
  pub symbol : String
  pub name : String
  pub exchange : Exchange
  pub quantity : ℤ
  pub sellable_qty : ℤ
  pub initial_qty : ℤ
  pub today_qty : ℤ
  pub avg_cost : Float64
  pub total_cost : Float64
  pub avg_cost_source : String
  pub cost_complete : Bool
  pub last_price : Float64
  pub market_value : Float64
  pub unrealized_pnl : Float64
  pub day_unrealized_pnl : Float64
  pub settled_profit : Float64
  pub shareholder_id : String
  pub updated_at : Time
