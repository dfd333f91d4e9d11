-- ===== src/Ledger/Orders/Merge.antt =====
-- What a write of an order makes of the row that is there: the ON CONFLICT clause of upsertOrderSQL in
-- internal/ledger/sql.go. NULL is the empty text, 0 and the time that is not set, as in the null
-- helpers of repository.go.
use ti_relay_trader.Prelude.{
  String, Bool, true, false, not, ◌&&◌, ◌||◌, List, [], ◌∷◌, if◌then◌else◌, str_eq,
}
use ti_relay_trader.Prelude.Int.{ℤ, ltb_ℤ}
use ti_relay_trader.Text.{is_empty, trim_space}
use ti_relay_trader.Time.{Time, unset, at}
use ti_relay_trader.Trading.Schema.{
  Order, OrderStatus, GatewayStatus, OffsetType, ContextValue, text, number, json,
  order_status_text, gateway_status_text,
}
use ti_relay_trader.Trading.ExecutionState.{is_zero_int}
use ti_relay_trader.Ledger.Store.{OrderEventRow}
use ti_relay_trader.Ledger.Orders.{lookup_text, later}

abbrev pub Context : Type 0
Context = List (String × ContextValue)

abbrev pub has_entry : String → Context → Bool
has_entry key [] = false
has_entry key ((k, v) ∷ rest) = str_eq k key || has_entry key rest

-- `context || more` of JSON objects: an entry of the second one takes the place of the first one's.
unfoldable pub join_contexts : Context → Context → Context
join_contexts [] more = more
join_contexts ((k, v) ∷ rest) more =
    let joined = join_contexts rest more in if has_entry k more then joined else (k, v) ∷ joined

-- COALESCE(x, y), by the kind of the column.
abbrev pub text_or : String → String → String
text_or x y = if is_empty x then y else x

abbrev pub int_or : ℤ → ℤ → ℤ
int_or x y = if is_zero_int x then y else x

abbrev pub time_or : Time → Time → Time
time_or unset y = y
time_or (at n) y = at n

abbrev pub offset_or : OffsetType → OffsetType → OffsetType
offset_or (OffsetType.other s) y = if is_empty s then y else OffsetType.other s
offset_or x y = x

-- GREATEST
abbrev pub greatest : ℤ → ℤ → ℤ
greatest x y = if ltb_ℤ x y then y else x

abbrev pub is_rejected : OrderStatus → Bool
is_rejected OrderStatus.rejected = true
is_rejected status = false

abbrev pub is_gateway_rejected : GatewayStatus → Bool
is_gateway_rejected GatewayStatus.rejected = true
is_gateway_rejected status = false

-- `COALESCE(context ->> 'reported_fee_source', 'unavailable') = 'unavailable'`
abbrev pub fee_unavailable : Context → Bool
fee_unavailable [] = true
fee_unavailable ((k, text v) ∷ rest) =
    if str_eq k "reported_fee_source" then str_eq v "unavailable" else fee_unavailable rest
fee_unavailable ((k, number v) ∷ rest) =
    if str_eq k "reported_fee_source" then false else fee_unavailable rest
fee_unavailable ((k, json v) ∷ rest) =
    if str_eq k "reported_fee_source" then str_eq v "null" else fee_unavailable rest

-- The earlier of two times, where they are set: MIN.
abbrev earliest : Time → Time → Time
earliest t unset = t
earliest unset t = t
earliest (at m) (at n) = if later (at m) (at n) then at n else at m

abbrev same_status : Order → OrderEventRow → Bool
same_status o e =
    str_eq (order_status_text e.event.status) (order_status_text o.status)
    || str_eq (gateway_status_text e.event.gateway_status) (gateway_status_text o.gateway_status)

-- The events of an order that reported the same terminal status.
abbrev reports_end : Order → OrderEventRow → Bool
reports_end o e =
    str_eq e.event.account_id o.account_id
    && str_eq e.event.order.trade_date o.trade_date
    && str_eq e.event.gateway_order_id o.gateway_order_id
    && e.event.is_terminal
    && same_status o e

unfoldable pub first_end : Order → List OrderEventRow → Time
first_end o [] = unset
first_end o (e ∷ events) =
    let rest = first_end o events in
    if reports_end o e then earliest e.event.produced_at rest else rest

abbrev pub reply_key : String
reply_key = "relay_reply_status"

-- terminal_at, in the order of its CASE. A page of a reply decides, and where it does not, a terminal row
-- is not taken back.
abbrev pub terminal_time : Time → List OrderEventRow → Order → Order → Time
terminal_time now events old new =
    if has_entry reply_key new.adapter_context
    then (if new.is_terminal
        then time_or new.terminal_at (
            time_or (first_end new events)
              (time_or old.terminal_at (time_or new.last_updated_at now)))
        else unset)
    else if old.is_terminal && not new.is_terminal
    then old.terminal_at
    else if new.is_terminal
    then time_or new.terminal_at (time_or old.terminal_at (time_or new.last_updated_at now))
    else old.terminal_at

-- reject_code and reject_message
abbrev pub reject_text : Order → Order → String → String → String
reject_text old new old_text new_text =
    if old.is_terminal && not new.is_terminal && is_rejected old.status
    then old_text
    else if is_rejected new.status || is_gateway_rejected new.gateway_status
    then new_text
    else ""

-- The row after the write, from the row that is there, the row that was proposed, and whether its
-- average price is NULL.
unfoldable pub merge_order : Time → List OrderEventRow → Bool → Order → Order → Order
merge_order now events no_average old new =
    let reply = has_entry reply_key new.adapter_context in
    let kept = old.is_terminal && not new.is_terminal in
    let context =
      if reply
      then new.adapter_context
      else join_contexts old.adapter_context new.adapter_context in
    record {
      account_id = old.account_id;
      client_order_id = text_or new.client_order_id old.client_order_id;
      gateway_order_id = old.gateway_order_id;
      order_id = int_or new.order_id old.order_id;
      order_stream_id = text_or new.order_stream_id old.order_stream_id;
      counter_session_id = trim_space (lookup_text "counter_session_id" context);
      trade_date = old.trade_date;
      symbol = new.symbol;
      name = new.name;
      exchange = new.exchange;
      trade_side = new.trade_side;
      business_type = new.business_type;
      offset_type = offset_or new.offset_type old.offset_type;
      limit_price = new.limit_price;
      order_qty = new.order_qty;
      submitted_qty =
          if reply then new.submitted_qty else greatest old.submitted_qty new.submitted_qty;
      cum_filled_qty =
          if reply || new.is_terminal
          then new.cum_filled_qty
          else greatest old.cum_filled_qty new.cum_filled_qty;
      leaves_qty =
          if reply then new.leaves_qty else if kept then old.leaves_qty else new.leaves_qty;
      cancelled_qty =
          if reply then new.cancelled_qty else greatest old.cancelled_qty new.cancelled_qty;
      invalid_qty = if reply then new.invalid_qty else greatest old.invalid_qty new.invalid_qty;
      avg_fill_price =
          if reply
          then new.avg_fill_price
          else if no_average
          then old.avg_fill_price
          else new.avg_fill_price;
      fee =
          if has_entry "fee_record_id" old.adapter_context && fee_unavailable new.adapter_context
          then old.fee
          else new.fee;
      status = if reply then new.status else if kept then old.status else new.status;
      gateway_status =
          if reply
          then new.gateway_status
          else if kept
          then old.gateway_status
          else new.gateway_status;
      adapter_status_code =
          if reply
          then new.adapter_status_code
          else int_or new.adapter_status_code old.adapter_status_code;
      adapter_status_name =
          if reply
          then new.adapter_status_name
          else text_or new.adapter_status_name old.adapter_status_name;
      is_terminal = if reply then new.is_terminal else old.is_terminal || new.is_terminal;
      reject_code = reject_text old new old.reject_code new.reject_code;
      reject_message = reject_text old new old.reject_message new.reject_message;
      origin_message_id = text_or old.origin_message_id new.origin_message_id;
      request_id = text_or old.request_id new.request_id;
      idempotency_key = text_or old.idempotency_key new.idempotency_key;
      shareholder_id = text_or new.shareholder_id old.shareholder_id;
      strategy_type = text_or new.strategy_type old.strategy_type;
      strategy_id = text_or new.strategy_id old.strategy_id;
      basket_id = text_or new.basket_id old.basket_id;
      parent_order_id = text_or new.parent_order_id old.parent_order_id;
      t0_order_group_id = text_or new.t0_order_group_id old.t0_order_group_id;
      created_at = new.created_at;
      accepted_at = time_or new.accepted_at old.accepted_at;
      inserted_at = time_or new.inserted_at old.inserted_at;
      last_updated_at = time_or new.last_updated_at old.last_updated_at;
      terminal_at = terminal_time now events old new;
      adapter_context = context;
    }
