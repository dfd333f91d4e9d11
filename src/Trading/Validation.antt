-- ===== src/Trading/Validation.antt =====
-- internal/trading/validation.go: what each request must satisfy.
pub mod Laws
use ti_relay_trader.Prelude.{
  ℕ, suc, ◌+◌, String, Bool, true, false, not, ◌&&◌, ◌||◌, List, [], ◌∷◌, if◌then◌else◌, str_eq,
}
use ti_relay_trader.Prelude.Int.{ℤ, pos, leb_ℤ}
use ti_relay_trader.Text.{is_empty, trim_space, lower_is, one_of}
use ti_relay_trader.Float64.{le_zero}
use ti_relay_trader.Errors.{Error, invalid_schema, at_order, Result, ok, err, ◌>>=◌, ◌>>◌, guard}
use ti_relay_trader.Trading.Schema.{
  Exchange, TradeSide, BusinessType, OffsetType, OrderStatus, GatewayStatus, SubmitOrderRequest,
  BatchSubmitOrderRequest, CancelOrderRequest, Order,
}

-- `strings.TrimSpace(s) == ""`
abbrev pub is_blank : String → Bool
is_blank s = is_empty (trim_space s)

unfoldable pub exchange_valid : Exchange → Bool
exchange_valid (Exchange.other s) = false
exchange_valid _ = true

unfoldable pub trade_side_valid : TradeSide → Bool
trade_side_valid (TradeSide.other s) = false
trade_side_valid _ = true

unfoldable pub business_type_valid : BusinessType → Bool
business_type_valid (BusinessType.other s) = false
business_type_valid _ = true

unfoldable pub offset_type_valid : OffsetType → Bool
offset_type_valid (OffsetType.other s) = is_empty s
offset_type_valid _ = true

unfoldable pub order_status_terminal : OrderStatus → Bool
order_status_terminal OrderStatus.filled = true
order_status_terminal OrderStatus.cancelled = true
order_status_terminal OrderStatus.rejected = true
order_status_terminal _ = false

unfoldable pub order_status_valid : OrderStatus → Bool
order_status_valid (OrderStatus.other s) = false
order_status_valid _ = true

unfoldable pub gateway_status_terminal : GatewayStatus → Bool
gateway_status_terminal GatewayStatus.filled = true
gateway_status_terminal GatewayStatus.cancelled = true
gateway_status_terminal GatewayStatus.rejected = true
gateway_status_terminal _ = false

abbrev is_stock : BusinessType → Bool
is_stock BusinessType.stock = true
is_stock _ = false

abbrev is_gateway_working : GatewayStatus → Bool
is_gateway_working GatewayStatus.working = true
is_gateway_working _ = false

abbrev is_live_status : OrderStatus → Bool
is_live_status OrderStatus.accepted = true
is_live_status OrderStatus.working = true
is_live_status OrderStatus.partially_filled = true
is_live_status _ = false

unfoldable pub is_queued_day_order_expiry_candidate : Order → Bool
is_queued_day_order_expiry_candidate order =
    if order.is_terminal || order_status_terminal order.status || not (is_stock order.business_type)
    then false
    else if not (is_gateway_working order.gateway_status)
        || not (lower_is (trim_space order.adapter_status_name) "queued")
    then false
    else if leb_ℤ order.order_qty (pos 0) || leb_ℤ order.leaves_qty (pos 0)
    then false
    else is_live_status order.status

-- NormalizeTradeSide: the side, and whether the text names one.
unfoldable pub normalize_trade_side : String → TradeSide × Bool
normalize_trade_side value =
    let v = trim_space value in
    if lower_is v "b" || lower_is v "buy"
    then (TradeSide.buy, true)
    else if lower_is v "s" || lower_is v "sell"
    then (TradeSide.sell, true)
    else if lower_is v "p" || lower_is v "purchase"
    then (TradeSide.purchase, true)
    else if lower_is v "r" || lower_is v "redemption" || lower_is v "redeem"
    then (TradeSide.redemption, true)
    else (TradeSide.other "", false)

unfoldable pub normalize_business_type : String → BusinessType × Bool
normalize_business_type value =
    let v = trim_space value in
    if lower_is v "s" || lower_is v "stock"
    then (BusinessType.stock, true)
    else if lower_is v "e" || lower_is v "etf"
    then (BusinessType.etf, true)
    else (BusinessType.other "", false)

-- SubmitOrderRequest.Validate
unfoldable pub validate_submit : SubmitOrderRequest → Result (Unit {0})
validate_submit req = do
  guard (not (is_blank req.account_id)) (invalid_schema "account_id" "is required")
  guard (not (is_blank req.symbol)) (invalid_schema "symbol" "is required")
  guard (exchange_valid req.exchange) (invalid_schema "exchange" "must be SH, SZ, or BJ")
  guard (trade_side_valid req.trade_side) (invalid_schema "trade_side" "must be B, S, P, or R")
  guard (business_type_valid req.business_type) (invalid_schema "business_type" "must be S or E")
  guard (offset_type_valid req.offset_type) (invalid_schema "offset_type" "must be O, C, or empty")
  guard (not (le_zero req.price)) (invalid_schema "price" "must be positive")
  guard (not (leb_ℤ req.qty (pos 0))) (invalid_schema "qty" "must be positive")

-- The order of a batch with the account of the batch where its own is blank.
unfoldable pub with_account : String → SubmitOrderRequest → SubmitOrderRequest
with_account account order =
    if is_blank order.account_id then record order { account_id = account } else order

at_index : ℕ → Result (Unit {0}) → Result (Unit {0})
at_index i (ok u) = ok u
at_index i (err e) = err (at_order i e)

-- One round of the loop of BatchSubmitOrderRequest.Validate, on the order ids seen so far.
unfoldable pub validate_batch_order :
    String → ℕ → List String → SubmitOrderRequest → Result (List String)
unfolding at_index
validate_batch_order account i seen entry = do
  let order = with_account account entry
  guard (str_eq order.account_id account)
      (at_order i (invalid_schema "account_id" "must match batch account_id"))
  at_index i (validate_submit order)
  if is_empty order.gateway_order_id then ok seen else do
    guard (not (one_of order.gateway_order_id seen))
        (at_order i (invalid_schema "gateway_order_id" "must be unique in the batch"))
    ok (order.gateway_order_id ∷ seen)

unfoldable pub validate_batch_orders :
    String → ℕ → List String → List SubmitOrderRequest → Result (Unit {0})
validate_batch_orders account i seen [] = ok tt
validate_batch_orders account i seen (entry ∷ rest) =
    validate_batch_order account i seen entry >>= λ seen'.
    validate_batch_orders account (suc i) seen' rest

abbrev is_nil {ℓ} : {A : Type ℓ} → List A → Bool
is_nil [] = true
is_nil (x ∷ xs) = false

-- BatchSubmitOrderRequest.Validate
unfoldable pub validate_batch : BatchSubmitOrderRequest → Result (Unit {0})
unfolding validate_batch_orders
validate_batch req = do
  guard (not (is_blank req.account_id)) (invalid_schema "account_id" "is required")
  guard (not (is_nil req.orders)) (invalid_schema "orders" "must contain at least one order")
  validate_batch_orders req.account_id 0 [] req.orders

-- CancelOrderRequest.Validate
unfoldable pub validate_cancel : CancelOrderRequest → Result (Unit {0})
validate_cancel req = do
  guard (not (is_blank req.account_id)) (invalid_schema "account_id" "is required")
  guard (not (is_blank req.gateway_order_id)) (invalid_schema "gateway_order_id" "is required")
