-- ===== src/Orderflow/Submit.antt =====
-- Service.SubmitOrder of internal/orderflow/service.go.
pub mod Commands
pub mod Backing
pub mod AtMostOnce
use Prim.Native.String.{◌++◌}
use ti_relay_trader.Prelude.{
  String, Bool, true, false, ◌&&◌, Option, none, some, List, [], ◌∷◌, if◌then◌else◌,
}
use ti_relay_trader.Text.{is_empty, trim_space}
use ti_relay_trader.Time.{Time}
use ti_relay_trader.Errors.{
  Error, Result, ok, err, missing_publisher, order_conflict, is_order_conflict,
  is_archived_command_not_found, guard,
}
use ti_relay_trader.Trading.Schema.{SubmitOrderRequest, Account, Order}
use ti_relay_trader.Trading.Validation.{is_blank, validate_submit}
use ti_relay_trader.Streams.{
  CommandEnvelope, CommandPublishResult, Payload, submit, new_streams, command_stream_for_action,
  new_command_envelope, action_order_submit, suffix_cmd_trade,
}
use ti_relay_trader.Ledger.Store.{RawStreamMessage, upsert_account}
use ti_relay_trader.Ledger.Archive.{get_archived_command}
use ti_relay_trader.Ledger.Orders.{create_order}
use ti_relay_trader.Orderflow.World.{
  AccountRoute, Service, M, ◌>>=◌, ◌>>◌, pure, raise, lift, attempt, new_id, now, read_ledger,
  write_ledger, publish_command,
}
use ti_relay_trader.Orderflow.Requests.{
  submit_trade_date, validate_supported_submit_order, draft_order_from_request,
}
use ti_relay_trader.Orderflow.Archived.{
  CommandReceipt, metadata_from_archived_command, archive_command,
}
use ti_relay_trader.Orderflow.Preflight.{
  route_for_account, account_of_route, Preflight, preflight_submit_order,
}

pub record SubmitOrderResult : Type 0 where
  pub account_id : String
  pub action : String
  pub order : Order
  pub message_id : String
  pub stream_key : String
  pub stream_id : String
  pub idempotency_key : String
  pub request_id : String
  pub published : CommandPublishResult
  pub replayed : Bool

abbrev pub no_publication : CommandPublishResult
no_publication = record { stream_key = ""; stream_id = ""; body_bytes = 0 }

abbrev receipt_of : Service → String → String → Result RawStreamMessage → Result CommandReceipt
receipt_of service key fallback (ok raw) =
    ok (metadata_from_archived_command service raw key fallback)
receipt_of service key fallback (err e) =
    if is_archived_command_not_found e
    then ok (record {
      message_id = "";
      stream_key = "";
      stream_id = "";
      idempotency_key = key;
      request_id = fallback;
      published = no_publication;
    })
    else err e

-- replayedCommandMetadata
unfoldable pub replayed_command_metadata :
    Service → String → String → String → String → M CommandReceipt
replayed_command_metadata service account action key fallback = do
  archived ← attempt (read_ledger service (get_archived_command account action key))
  lift (receipt_of service key fallback archived)

-- replayedSubmitResult
unfoldable pub replayed_submit_result : Service → Order → String → String → M SubmitOrderResult
replayed_submit_result service order key fallback = do
  let own = trim_space order.request_id
  let original = if is_empty own then fallback else own
  receipt ← replayed_command_metadata service order.account_id action_order_submit key original
  pure (record {
    account_id = order.account_id;
    action = action_order_submit;
    order = order;
    message_id =
        if is_empty receipt.message_id then order.origin_message_id else receipt.message_id;
    stream_key = receipt.stream_key;
    stream_id = receipt.stream_id;
    idempotency_key = receipt.idempotency_key;
    request_id = receipt.request_id;
    published = receipt.published;
    replayed = true;
  })

-- An id of the generator's in place of a blank one.
unfoldable pub or_new_id : Service → String → String → M String
or_new_id service prefix given = if is_blank given then new_id service prefix else pure given

-- The request with its order ids and its idempotency key filled in.
unfoldable pub with_ids : SubmitOrderRequest → String → SubmitOrderRequest
with_ids req gateway = record req {
  gateway_order_id = gateway;
  idempotency_key =
      if is_blank req.idempotency_key
      then "order:" ++ req.account_id ++ ":" ++ gateway
      else req.idempotency_key;
  client_order_id = if is_blank req.client_order_id then gateway else req.client_order_id;
}

unfoldable pub with_trade_date : SubmitOrderRequest → Time → SubmitOrderRequest
with_trade_date req now = record req { trade_date = submit_trade_date req.trade_date now }

-- The draft that is stored before the command is sent.
unfoldable pub submitted_order : SubmitOrderRequest → Time → String → String → Order
submitted_order req now message_id request_id = record (draft_order_from_request req now) {
  origin_message_id = message_id;
  request_id = request_id;
}

-- The command is published and archived; the draft stands in the ledger by now.
unfoldable pub send_submit :
    Service
    → AccountRoute
    → SubmitOrderRequest
    → Time
    → String
    → String
    → Order
    → M SubmitOrderResult
send_submit service route req now message_id request_id order = do
  key ← lift (command_stream_for_action (new_streams route.stream_prefix) action_order_submit)
  let sent =
      new_command_envelope service.wall_clock action_order_submit message_id request_id request_id
        req.idempotency_key (submit req) now
  published ← publish_command service key sent
  archive_command service published sent suffix_cmd_trade req.account_id req.gateway_order_id
  pure (record {
    account_id = req.account_id;
    action = action_order_submit;
    order = order;
    message_id = message_id;
    stream_key = published.stream_key;
    stream_id = published.stream_id;
    idempotency_key = req.idempotency_key;
    request_id = request_id;
    published = published;
    replayed = false;
  })

abbrev replay_or :
    Service → SubmitOrderRequest → String → M SubmitOrderResult → Preflight → M SubmitOrderResult
replay_or service req request_id otherwise none = otherwise
replay_or service req request_id otherwise (some existing) =
    replayed_submit_result service existing req.idempotency_key request_id

-- CreateOrder was refused: an order that came in between is looked for again.
unfoldable pub refused_submit : Service → SubmitOrderRequest → String → Error → M SubmitOrderResult
refused_submit service req request_id e =
    if is_order_conflict e
    then (do
      seen ← preflight_submit_order service req
      replay_or service req request_id (raise e) seen)
    else raise e

abbrev created_submit :
    Service
    → SubmitOrderRequest
    → String
    → M SubmitOrderResult
    → Result (Unit {0})
    → M SubmitOrderResult
created_submit service req request_id go (ok _) = go
created_submit service req request_id go (err e) = refused_submit service req request_id e

-- The order is new: its draft is stored, and then its command is sent.
unfoldable pub fresh_submit :
    Service → AccountRoute → SubmitOrderRequest → Time → String → M SubmitOrderResult
fresh_submit service route req now given = do
  message_id ← new_id service "msg-order-submit"
  request_id ← (if is_empty given then new_id service "req-order-submit" else pure given)
  let order = submitted_order req now message_id request_id
  write_ledger service (upsert_account service.database (account_of_route route now))
  created ← attempt (write_ledger service (create_order service.database order))
  created_submit service req request_id
      (send_submit service route req now message_id request_id order) created

-- Service.SubmitOrder; `option` is SubmitOptions.RequestID.
unfoldable pub submit_order : Service → SubmitOrderRequest → String → M SubmitOrderResult
submit_order service req option = do
  lift (validate_submit req)
  lift (validate_supported_submit_order req)
  route ← lift (route_for_account service req.account_id)
  lift (guard service.has_publisher missing_publisher)
  gateway ← or_new_id service "gw" req.gateway_order_id
  time ← now service
  let normalized = with_trade_date (with_ids req gateway) time
  let given = trim_space option
  seen ← preflight_submit_order service normalized
  replay_or service normalized given (fresh_submit service route normalized time given) seen
