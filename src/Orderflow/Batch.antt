-- ===== src/Orderflow/Batch.antt =====
-- Service.BatchSubmitOrders of internal/orderflow/service.go.
pub mod Drafts
pub mod Backing
use Prim.Native.String.{◌++◌}
use ti_relay_trader.Prelude
use ti_relay_trader.Prelude.{
  ℕ, suc, String, Bool, true, false, not, ◌&&◌, Option, none, some, List, [], ◌∷◌, map,
  if◌then◌else◌, str_eq,
}
use ti_relay_trader.Text.{is_empty, trim_space}
use ti_relay_trader.Time.{Time}
use ti_relay_trader.Errors.{
  Error, Result, ok, err, missing_publisher, duplicate_gateway_order, idempotency_conflict,
  at_order, is_order_conflict, guard,
}
use ti_relay_trader.Trading.Schema.{
  SubmitOrderRequest, BatchSubmitOrderRequest, Order, text, number,
}
use ti_relay_trader.Trading.Validation.{is_blank, validate_batch, with_account}
use ti_relay_trader.Streams.{
  CommandPublishResult, batch, new_streams, command_stream_for_action, new_command_envelope,
  action_order_batch_submit, suffix_cmd_trade,
}
use ti_relay_trader.Ledger.Store.{upsert_account}
use ti_relay_trader.Ledger.Orders.{create_order}
use ti_relay_trader.Orderflow.World.{
  AccountRoute, Service, M, ◌>>=◌, ◌>>◌, pure, raise, lift, attempt, new_id, now, write_ledger,
  publish_command,
}
use ti_relay_trader.Orderflow.Requests.{validate_supported_submit_order, draft_order_from_request}
use ti_relay_trader.Orderflow.Archived.{archive_command}
use ti_relay_trader.Orderflow.Preflight.{
  route_for_account, account_of_route, Preflight, preflight_submit_order,
}
use ti_relay_trader.Orderflow.Submit.{or_new_id, with_trade_date, replayed_command_metadata}

pub record BatchSubmitOrderResult : Type 0 where
  pub account_id : String
  pub action : String
  pub orders : List Order
  pub message_id : String
  pub stream_key : String
  pub stream_id : String
  pub idempotency_key : String
  pub request_id : String
  pub published : CommandPublishResult
  pub replayed : Bool

abbrev first_request_id : List Order → String → String
first_request_id [] fallback = fallback
first_request_id (o ∷ os) fallback = if is_blank o.request_id then fallback else o.request_id

abbrev first_message_id : String → List Order → String
first_message_id known [] = known
first_message_id known (o ∷ os) = if is_empty known then o.origin_message_id else known

-- replayedBatchSubmitResult
unfoldable pub replayed_batch_submit_result :
    Service → String → List Order → String → String → M BatchSubmitOrderResult
replayed_batch_submit_result service account orders key fallback = do
  receipt ←
      replayed_command_metadata service account action_order_batch_submit key
        (first_request_id orders fallback)
  pure (record {
    account_id = account;
    action = action_order_batch_submit;
    orders = orders;
    message_id = first_message_id receipt.message_id orders;
    stream_key = receipt.stream_key;
    stream_id = receipt.stream_id;
    idempotency_key = receipt.idempotency_key;
    request_id = receipt.request_id;
    published = receipt.published;
    replayed = true;
  })

-- The idempotency keys met so far, each with the gateway order id that it was last met with.
abbrev pub Keys : Type 0
Keys = List (String × String)

abbrev pub key_owner : String → Keys → Option String
key_owner key [] = none
key_owner key ((k, g) ∷ rest) = if str_eq k key then some g else key_owner key rest

-- The key is free, or belongs to the same order.
abbrev pub key_agrees : String → Option String → Bool
key_agrees gateway none = true
key_agrees gateway (some g) = str_eq g gateway

-- The child request with its ids, its key and its trade date filled in.
unfoldable pub child_request : String → Time → SubmitOrderRequest → String → SubmitOrderRequest
child_request batch_key time order gateway =
    with_trade_date
      (record order {
        gateway_order_id = gateway;
        client_order_id = if is_blank order.client_order_id then gateway else order.client_order_id;
        idempotency_key =
            if is_blank order.idempotency_key
            then batch_key ++ ":" ++ gateway
            else order.idempotency_key;
      })
      time

-- What the loop over the children has gathered: the requests as they will be sent, the drafts of
-- the new ones with the requests that stand at their index, and the orders that were replayed.
pub record Gathered : Type 0 where
  pub requests : List SubmitOrderRequest
  pub drafts : List Order
  pub replays : List Order

-- The draft of the child at the index i.
unfoldable pub child_draft : SubmitOrderRequest → Time → ℕ → Order
child_draft req time i =
    let draft = draft_order_from_request req time in
    record draft {
      adapter_context =
          Prelude.◌++◌ draft.adapter_context
            (("batch_source", text "relay-api") ∷ ("batch_index", number i) ∷ []);
    }

abbrev place : SubmitOrderRequest → Time → ℕ → Preflight → Gathered → Gathered
place req time i none g = record {
  requests = req ∷ g.requests;
  drafts = child_draft req time i ∷ g.drafts;
  replays = g.replays;
}
place req time i (some existing) g = record {
  requests = req ∷ g.requests;
  drafts = g.drafts;
  replays = existing ∷ g.replays;
}

abbrev at_child : {A : Type 0} → ℕ → Result A → Result A
at_child i (ok a) = ok a
at_child i (err e) = err (at_order i e)

-- One round up to the preflight: the child with its ids, under a key that no other child of the
-- batch uses for another order.
unfoldable pub prepare_child :
    Service → String → String → Time → ℕ → Keys → SubmitOrderRequest → M SubmitOrderRequest
prepare_child service account batch_key time i keys entry = do
  let order = with_account account entry
  lift (at_child i (validate_supported_submit_order order))
  gateway ← or_new_id service "gw" order.gateway_order_id
  let req = child_request batch_key time order gateway
  lift (guard (key_agrees gateway (key_owner req.idempotency_key keys)) idempotency_conflict)
  pure req

-- The loop over the orders of the batch.
unfoldable pub gather_children :
    Service → String → String → Time → ℕ → Keys → List SubmitOrderRequest → M Gathered
gather_children service account batch_key time i keys [] =
    pure (record { requests = []; drafts = []; replays = [] })
gather_children service account batch_key time i keys (entry ∷ rest) =
    prepare_child service account batch_key time i keys entry >>= λ req.
    preflight_submit_order service req >>= λ seen.
    gather_children service account batch_key time (suc i)
      ((req.idempotency_key, req.gateway_order_id) ∷ keys) rest
    >>= λ g. pure (place req time i seen g)

abbrev pub conflict_error : Error → Preflight → Error
conflict_error e none = e
conflict_error e (some existing) = duplicate_gateway_order

abbrev pub stored_or :
    Service → SubmitOrderRequest → M (Unit {0}) → Result (Unit {0}) → M (Unit {0})
stored_or service req go (ok _) = go
stored_or service req go (err e) =
    if is_order_conflict e
    then (preflight_submit_order service req >>= λ seen. raise (conflict_error e seen))
    else raise e

-- Each draft is stored in turn, before anything is published; the request is the one at the
-- draft's index.
unfoldable pub store_drafts :
    Service → String → String → List Order → List SubmitOrderRequest → M (Unit {0})
store_drafts service message_id request_id (draft ∷ drafts) (req ∷ requests) =
    let more = store_drafts service message_id request_id drafts requests in
    attempt (
      write_ledger service (
        create_order service.database
          (record draft { origin_message_id = message_id; request_id = request_id })))
    >>= stored_or service req more
store_drafts service message_id request_id _ _ = pure tt

unfoldable pub stamp : String → String → Order → Order
stamp message_id request_id o = record o { origin_message_id = message_id; request_id = request_id }

-- All children are new: the drafts are stored, and then one command carries the whole batch.
unfoldable pub fresh_batch :
    Service
    → AccountRoute
    → BatchSubmitOrderRequest
    → Time
    → String
    → List Order
    → M BatchSubmitOrderResult
fresh_batch service route req time given drafts = do
  message_id ← new_id service "msg-order-batch-submit"
  request_id ← (if is_empty given then new_id service "req-order-batch-submit" else pure given)
  store_drafts service message_id request_id drafts req.orders
  key ← lift (command_stream_for_action (new_streams route.stream_prefix) action_order_batch_submit)
  let sent =
      new_command_envelope service.wall_clock action_order_batch_submit message_id request_id
        request_id req.idempotency_key (batch req) time
  published ← publish_command service key sent
  archive_command service published sent suffix_cmd_trade req.account_id ""
  pure (record {
    account_id = req.account_id;
    action = action_order_batch_submit;
    orders = map (stamp message_id request_id) drafts;
    message_id = message_id;
    stream_key = published.stream_key;
    stream_id = published.stream_id;
    idempotency_key = req.idempotency_key;
    request_id = request_id;
    published = published;
    replayed = false;
  })

-- A batch of replays is replayed, a batch of new orders is sent, and a mixture is refused.
abbrev pub settle_batch :
    Service
    → AccountRoute
    → BatchSubmitOrderRequest
    → Time
    → String
    → List Order
    → List Order
    → M BatchSubmitOrderResult
settle_batch service route req time given drafts [] =
    fresh_batch service route req time given drafts
settle_batch service route req time given [] (r ∷ replays) =
    replayed_batch_submit_result service req.account_id (r ∷ replays) req.idempotency_key given
settle_batch service route req time given (d ∷ drafts) (r ∷ replays) = raise duplicate_gateway_order

-- Service.BatchSubmitOrders; `option` is BatchSubmitOptions.RequestID.
unfoldable pub batch_submit_orders :
    Service → BatchSubmitOrderRequest → String → M BatchSubmitOrderResult
batch_submit_orders service req option = do
  lift (validate_batch req)
  route ← lift (route_for_account service req.account_id)
  lift (guard service.has_publisher missing_publisher)
  time ← now service
  let given = trim_space option
  batch_key ←
      (if is_blank req.idempotency_key
        then (do id ← new_id service "batch"; pure ("batch:" ++ req.account_id ++ ":" ++ id))
        else pure req.idempotency_key)
  write_ledger service (upsert_account service.database (account_of_route route time))
  g ← gather_children service req.account_id batch_key time 0 [] req.orders
  settle_batch service route (record req { idempotency_key = batch_key; orders = g.requests }) time
      given g.drafts g.replays
