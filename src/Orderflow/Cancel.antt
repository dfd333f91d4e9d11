-- ===== src/Orderflow/Cancel.antt =====
-- Service.CancelOrder of internal/orderflow/service.go. The mutex that it holds from the archive
-- lookup to the end makes the calls of one process follow one another.
pub mod Refusal
use Prim.Native.String.{◌++◌}
use ti_relay_trader.Prelude.{String, Bool, true, false, ◌&&◌, ◌||◌, if◌then◌else◌}
use ti_relay_trader.Prelude.Int.{pos, ltb_ℤ, leb_ℤ}
use ti_relay_trader.Text.{trim_space, is_empty}
use ti_relay_trader.Errors.{
  Result, ok, err, missing_publisher, idempotency_conflict, order_terminal_not_cancelable,
  order_without_leaves_not_cancelable, is_archived_command_not_found, guard,
}
use ti_relay_trader.Trading.Schema.{CancelOrderRequest, Order}
use ti_relay_trader.Trading.Validation.{is_blank, validate_cancel, order_status_terminal}
use ti_relay_trader.Streams.{
  CommandPublishResult, cancel, new_streams, command_stream_for_action, new_command_envelope,
  action_order_cancel, suffix_cmd_trade,
}
use ti_relay_trader.Ledger.Store.{RawStreamMessage}
use ti_relay_trader.Ledger.Archive.{get_archived_command}
use ti_relay_trader.Ledger.Orders.{get_order}
use ti_relay_trader.Orderflow.World.{
  AccountRoute, Service, M, ◌>>=◌, ◌>>◌, pure, raise, lift, attempt, new_id, now, read_ledger,
  publish_command,
}
use ti_relay_trader.Orderflow.Requests.{same_cancel_order}
use ti_relay_trader.Orderflow.Archived.{
  metadata_from_archived_command, archived_cancel_request, archive_command,
}
use ti_relay_trader.Orderflow.Preflight.{route_for_account}
use ti_relay_trader.Orderflow.Submit.{or_new_id}

pub record CancelOrderResult : Type 0 where
  pub account_id : String
  pub action : String
  pub order : Order
  pub cancel_id : String
  pub message_id : String
  pub stream_key : String
  pub stream_id : String
  pub idempotency_key : String
  pub request_id : String
  pub published : CommandPublishResult
  pub replayed : Bool

-- The request with its cancel id and its idempotency key filled in.
unfoldable pub with_cancel_id : CancelOrderRequest → String → CancelOrderRequest
with_cancel_id req id = record req {
  cancel_id = id;
  idempotency_key =
      if is_blank req.idempotency_key
      then "cancel:" ++ req.account_id ++ ":" ++ req.gateway_order_id ++ ":" ++ id
      else req.idempotency_key;
}

-- A cancel with the idempotency key was sent before.
unfoldable pub replayed_cancel :
    Service → CancelOrderRequest → String → RawStreamMessage → M CancelOrderResult
replayed_cancel service req option archived = do
  previous ← lift (archived_cancel_request archived)
  lift (guard (same_cancel_order previous req) idempotency_conflict)
  order ← read_ledger service (get_order req.account_id req.gateway_order_id)
  let receipt =
      metadata_from_archived_command service archived req.idempotency_key (trim_space option)
  pure (record {
    account_id = req.account_id;
    action = action_order_cancel;
    order = order;
    cancel_id = previous.cancel_id;
    message_id = receipt.message_id;
    stream_key = receipt.stream_key;
    stream_id = receipt.stream_id;
    idempotency_key = receipt.idempotency_key;
    request_id = receipt.request_id;
    published = receipt.published;
    replayed = true;
  })

-- What makes the order uncancelable, if anything does.
unfoldable pub cancelable : Order → Result (Unit {0})
cancelable order =
    if order.is_terminal || order_status_terminal order.status
    then err order_terminal_not_cancelable
    else if ltb_ℤ (pos 0) order.order_qty && leb_ℤ order.leaves_qty (pos 0)
    then err order_without_leaves_not_cancelable
    else ok tt

-- The cancel is new: the order must be cancelable, and then the command is sent and archived.
unfoldable pub fresh_cancel :
    Service → AccountRoute → CancelOrderRequest → String → M CancelOrderResult
fresh_cancel service route req option = do
  order ← read_ledger service (get_order req.account_id req.gateway_order_id)
  lift (cancelable order)
  time ← now service
  message_id ← new_id service "msg-order-cancel"
  let given = trim_space option
  request_id ← (if is_empty given then new_id service "req-order-cancel" else pure given)
  key ← lift (command_stream_for_action (new_streams route.stream_prefix) action_order_cancel)
  let sent =
      new_command_envelope service.wall_clock action_order_cancel message_id request_id request_id
        req.idempotency_key (cancel req) time
  published ← publish_command service key sent
  archive_command service published sent suffix_cmd_trade req.account_id req.gateway_order_id
  pure (record {
    account_id = req.account_id;
    action = action_order_cancel;
    order = order;
    cancel_id = req.cancel_id;
    message_id = message_id;
    stream_key = published.stream_key;
    stream_id = published.stream_id;
    idempotency_key = req.idempotency_key;
    request_id = request_id;
    published = published;
    replayed = false;
  })

abbrev pub archived_cancel :
    Service
    → AccountRoute
    → CancelOrderRequest
    → String
    → Result RawStreamMessage
    → M CancelOrderResult
archived_cancel service route req option (ok archived) = replayed_cancel service req option archived
archived_cancel service route req option (err e) =
    if is_archived_command_not_found e then fresh_cancel service route req option else raise e

-- Service.CancelOrder; `option` is CancelOptions.RequestID.
unfoldable pub cancel_order : Service → CancelOrderRequest → String → M CancelOrderResult
cancel_order service req option = do
  lift (validate_cancel req)
  route ← lift (route_for_account service req.account_id)
  lift (guard service.has_publisher missing_publisher)
  id ← or_new_id service "cancel" req.cancel_id
  let normalized = with_cancel_id req id
  archived ← attempt (
      read_ledger service
        (get_archived_command normalized.account_id action_order_cancel normalized.idempotency_key))
  archived_cancel service route normalized option archived
