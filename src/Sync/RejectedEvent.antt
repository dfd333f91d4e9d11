-- ===== src/Sync/RejectedEvent.antt =====
-- orderErrorInfo, orderDebugContext, rejectedOrderEvent and the references of an envelope, in
-- internal/redisstream/ledger_sync.go. The decoding of JSON is a parameter.
use Prim.Native.String.{◌++◌ as ◌++ₛ◌}
use ti_relay_trader.Prelude.{
  String, Bool, true, ◌||◌, Option, List, [], ◌∷◌, ◌++◌, if◌then◌else◌, str_eq,
}
use ti_relay_trader.Prelude.Int.{ℤ, pos}
use ti_relay_trader.Text.{is_empty, trim_space}
use ti_relay_trader.Time.{unset}
use ti_relay_trader.Trading.Schema.{
  Order, OrderEvent, OrderStatus, GatewayStatus, Exchange, TradeSide, BusinessType, OffsetType,
  text,
}
use ti_relay_trader.Trading.Validation.{is_blank}
use ti_relay_trader.Ledger.Store.{StreamRef, SourceRef}
use ti_relay_trader.Ledger.Orders.{lookup_text}
use ti_relay_trader.Ledger.Orders.Merge.{Context, join_contexts}
use ti_relay_trader.Ledger.Positions.{zero_float}
use ti_relay_trader.Sync.Envelope.{EntryEnvelope, first_non_empty}

pub record FailedOrder : Type 0 where
  pub index : ℤ
  pub gateway_order_id : String
  pub code : String
  pub message : String

-- The gateway order ids of the orders of a batch reply, and its failed orders.
pub record BatchPayload : Type 0 where
  pub orders : List String
  pub failed_orders : List FailedOrder

-- What encoding/json makes of a payload: the entries of an object, no entry where it is none; the orders
-- of a batch, if they decode; the gateway order id, empty where there is none.
pub record Decoders : Type 0 where
  pub entries : String → Context
  pub batch : String → Option BatchPayload
  pub gateway_order_id : String → String

abbrev texts : Context → List String → List String
texts context [] = []
texts context (key ∷ keys) = lookup_text key context ∷ texts context keys

-- orderErrorInfo: the code and the message
unfoldable pub order_error_info : Decoders → EntryEnvelope → String × String
order_error_info d e =
    let payload = d.entries e.payload in
    (
      first_non_empty (
          texts payload ("reject_code" ∷ "error_code" ∷ "err_code" ∷ "code" ∷ []) ++ (e.code ∷ [])),
      first_non_empty (
          texts payload (
            "reject_message" ∷ "error_message" ∷ "error_msg" ∷ "err_msg" ∷ "error_text"
            ∷ "status_msg" ∷ "status_message" ∷ "message" ∷ [])
          ++ texts e.adapter_context (
              "error_message" ∷ "error_msg" ∷ "err_msg" ∷ "error_text" ∷ "status_msg"
              ∷ "status_message" ∷ "broker_status_text" ∷ [])
          ++ (e.message ∷ [])),
    )

-- `context[key] = value`, for a value that is not empty
abbrev with_entry : String → String → Context → Context
with_entry key value context =
    if is_empty value then context else join_contexts context ((key, text value) ∷ [])

-- orderDebugContext
unfoldable pub order_debug_context : EntryEnvelope → String → String → Context
order_debug_context e code message = with_entry "relay_error_message" message (
    with_entry "relay_error_code" code (
      with_entry "relay_reply_status" e.status (
        with_entry "relay_reply_message" e.message
          (with_entry "relay_reply_code" e.code e.adapter_context))))

abbrev pub rejected_order : EntryEnvelope → String → String → String → Order
rejected_order envelope gateway_order_id code message = record {
  account_id = envelope.routing.account_id;
  client_order_id = "";
  gateway_order_id = gateway_order_id;
  order_id = pos 0;
  order_stream_id = "";
  counter_session_id = "";
  trade_date = "";
  symbol = "";
  name = "";
  exchange = Exchange.other "";
  trade_side = TradeSide.other "";
  business_type = BusinessType.other "";
  offset_type = OffsetType.other "";
  limit_price = zero_float;
  order_qty = pos 0;
  submitted_qty = pos 0;
  cum_filled_qty = pos 0;
  leaves_qty = pos 0;
  cancelled_qty = pos 0;
  invalid_qty = pos 0;
  avg_fill_price = zero_float;
  fee = zero_float;
  status = OrderStatus.rejected;
  gateway_status = GatewayStatus.rejected;
  adapter_status_code = pos 0;
  adapter_status_name = "";
  is_terminal = true;
  reject_code = code;
  reject_message = message;
  origin_message_id = envelope.origin_message_id;
  request_id = envelope.request_id;
  idempotency_key = envelope.idempotency_key;
  shareholder_id = "";
  strategy_type = "";
  strategy_id = "";
  basket_id = "";
  parent_order_id = "";
  t0_order_group_id = "";
  created_at = unset;
  accepted_at = unset;
  inserted_at = unset;
  last_updated_at = envelope.produced_at;
  terminal_at = envelope.produced_at;
  adapter_context = order_debug_context envelope code message;
}

-- rejectedOrderEvent
unfoldable pub rejected_order_event : EntryEnvelope → String → String → String → String → OrderEvent
rejected_order_event envelope gateway_order_id code message event_id = record {
  event_id = event_id;
  event_type = "order.event";
  account_id = envelope.routing.account_id;
  gateway_order_id = gateway_order_id;
  status = OrderStatus.rejected;
  gateway_status = GatewayStatus.rejected;
  is_terminal = true;
  order = rejected_order envelope gateway_order_id code message;
  produced_at = envelope.produced_at;
  adapter_context = order_debug_context envelope code message;
}

-- isIndeterminateCommandError
unfoldable pub is_indeterminate_command_error : Decoders → EntryEnvelope → Bool
is_indeterminate_command_error d e =
    let code = trim_space (order_error_info d e).0 in
    str_eq code "BROKER_NOT_READY" || str_eq code "COMMAND_OUTCOME_UNKNOWN"

-- indeterminateCommandSkipReason
unfoldable pub indeterminate_command_skip_reason : Decoders → EntryEnvelope → String
indeterminate_command_skip_reason d e =
    let (code, given) = order_error_info d e in
    let message = if is_blank given then "command outcome is not safe to infer" else given in
    "indeterminate command failure " ++ₛ (trim_space code ++ₛ (": " ++ₛ trim_space message))

abbrev pub stream_ref : EntryEnvelope → StreamRef
stream_ref e = record { key = e.stream; id = e.stream_id }

abbrev pub source_ref : EntryEnvelope → SourceRef
source_ref e = record {
  origin_message_id = e.origin_message_id;
  request_id = e.request_id;
  correlation_id = first_non_empty (e.correlation_id ∷ e.request_correlation_id ∷ []);
  idempotency_key = e.idempotency_key;
}
