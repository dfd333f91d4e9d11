-- ===== src/Orderflow/Requests.antt =====
-- The pure helpers of internal/orderflow/service.go: dates, drafts, and when a request is the same
-- as an earlier one.
use Prim.Native.String.{slice, len, ◌++◌}
use ti_relay_trader.Prelude.{String, Bool, false, ◌&&◌, ◌||◌, [], ◌∷◌, if◌then◌else◌, str_eq, ◌==◌}
use ti_relay_trader.Prelude.Int.{ℤ, pos, pos_part, neg_part}
use ti_relay_trader.Float64
use ti_relay_trader.Float64.{finite}
use ti_relay_trader.Text.{is_empty, trim_space}
use ti_relay_trader.Time.{Time, unset, is_unset, business_date}
use ti_relay_trader.Errors.{Result, ok, err, unsupported_business_type}
use ti_relay_trader.Trading.Schema.{
  OrderStatus, GatewayStatus, SubmitOrderRequest, CancelOrderRequest, Order, text, exchange_text,
  trade_side_text, business_type_text, offset_type_text,
}

-- submitTradeDate
unfoldable pub submit_trade_date : String → Time → String
submit_trade_date value now =
    let v = trim_space value in
    if is_empty v
    then (if is_unset now then "" else business_date now)
    else if len v == 8
    then slice v 0 4 ++ "-" ++ slice v 4 6 ++ "-" ++ slice v 6 8
    else v

-- sameOptionalTradeDate
unfoldable pub same_optional_trade_date : String → String → Bool
same_optional_trade_date existing requested =
    let e = submit_trade_date existing unset in
    let r = submit_trade_date requested unset in is_empty e || is_empty r || str_eq e r

-- validateSupportedSubmitOrder
unfoldable pub validate_supported_submit_order : SubmitOrderRequest → Result (Unit {0})
validate_supported_submit_order req =
    if str_eq (business_type_text req.business_type) "E"
    then err unsupported_business_type
    else ok tt

-- draftOrderFromRequest
unfoldable pub draft_order_from_request : SubmitOrderRequest → Time → Order
draft_order_from_request req now = record {
  account_id = req.account_id;
  client_order_id = req.client_order_id;
  gateway_order_id = req.gateway_order_id;
  order_id = pos 0;
  order_stream_id = "";
  counter_session_id = "";
  trade_date = submit_trade_date req.trade_date now;
  symbol = req.symbol;
  name = "";
  exchange = req.exchange;
  trade_side = req.trade_side;
  business_type = req.business_type;
  offset_type = req.offset_type;
  limit_price = req.price;
  order_qty = req.qty;
  submitted_qty = pos 0;
  cum_filled_qty = pos 0;
  leaves_qty = req.qty;
  cancelled_qty = pos 0;
  invalid_qty = pos 0;
  avg_fill_price = finite (pos 0);
  fee = finite (pos 0);
  status = OrderStatus.created;
  gateway_status = GatewayStatus.accepted;
  adapter_status_code = pos 0;
  adapter_status_name = "";
  is_terminal = false;
  reject_code = "";
  reject_message = "";
  origin_message_id = "";
  request_id = "";
  idempotency_key = req.idempotency_key;
  shareholder_id = "";
  strategy_type = trim_space req.strategy_type;
  strategy_id = trim_space req.strategy_id;
  basket_id = trim_space req.basket_id;
  parent_order_id = trim_space req.parent_order_id;
  t0_order_group_id = trim_space req.t0_order_group_id;
  created_at = now;
  accepted_at = unset;
  inserted_at = unset;
  last_updated_at = now;
  terminal_at = unset;
  adapter_context = ("draft_source", text "relay-api") ∷ [];
}

abbrev pub same_int : ℤ → ℤ → Bool
same_int a b = pos_part a == pos_part b && neg_part a == neg_part b

-- `strings.TrimSpace(a) == strings.TrimSpace(b)`
abbrev pub same_trimmed : String → String → Bool
same_trimmed a b = str_eq (trim_space a) (trim_space b)

-- sameSubmitOrder: a stored order against a request
unfoldable pub same_submit_order : Order → SubmitOrderRequest → Bool
same_submit_order order req =
    str_eq order.account_id req.account_id
    && str_eq order.client_order_id req.client_order_id
    && str_eq order.gateway_order_id req.gateway_order_id
    && str_eq order.symbol req.symbol
    && str_eq (exchange_text order.exchange) (exchange_text req.exchange)
    && str_eq (trade_side_text order.trade_side) (trade_side_text req.trade_side)
    && str_eq (business_type_text order.business_type) (business_type_text req.business_type)
    && str_eq (offset_type_text order.offset_type) (offset_type_text req.offset_type)
    && Float64.eq order.limit_price req.price
    && same_int order.order_qty req.qty
    && same_optional_trade_date order.trade_date req.trade_date
    && str_eq order.strategy_type (trim_space req.strategy_type)
    && str_eq order.strategy_id (trim_space req.strategy_id)
    && str_eq order.basket_id (trim_space req.basket_id)
    && str_eq order.parent_order_id (trim_space req.parent_order_id)
    && str_eq order.t0_order_group_id (trim_space req.t0_order_group_id)

-- sameSubmitOrderRequests: an archived request against a request
unfoldable pub same_submit_order_requests : SubmitOrderRequest → SubmitOrderRequest → Bool
same_submit_order_requests l r =
    same_trimmed l.account_id r.account_id
    && same_trimmed l.client_order_id r.client_order_id
    && same_trimmed l.gateway_order_id r.gateway_order_id
    && same_trimmed l.symbol r.symbol
    && str_eq (exchange_text l.exchange) (exchange_text r.exchange)
    && str_eq (trade_side_text l.trade_side) (trade_side_text r.trade_side)
    && str_eq (business_type_text l.business_type) (business_type_text r.business_type)
    && str_eq (offset_type_text l.offset_type) (offset_type_text r.offset_type)
    && Float64.eq l.price r.price
    && same_int l.qty r.qty
    && same_optional_trade_date l.trade_date r.trade_date
    && same_trimmed l.idempotency_key r.idempotency_key
    && same_trimmed l.strategy_type r.strategy_type
    && same_trimmed l.strategy_id r.strategy_id
    && same_trimmed l.basket_id r.basket_id
    && same_trimmed l.parent_order_id r.parent_order_id
    && same_trimmed l.t0_order_group_id r.t0_order_group_id

-- sameCancelOrder
unfoldable pub same_cancel_order : CancelOrderRequest → CancelOrderRequest → Bool
same_cancel_order l r =
    same_trimmed l.account_id r.account_id
    && same_trimmed l.gateway_order_id r.gateway_order_id
    && same_trimmed l.cancel_id r.cancel_id
    && same_trimmed l.idempotency_key r.idempotency_key
