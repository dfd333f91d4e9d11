-- ===== src/Tests/Orderflow.antt =====
-- Tests of the order flow.
use ti_relay_trader.Prelude.{ℕ, ◌≤◌, ◌≡◌, ◌⊎◌, refl, true, false, List, [], ◌∷◌, length, All, arith}
use ti_relay_trader.Prelude.Int.{pos}
use ti_relay_trader.Text.{trim_space}
use ti_relay_trader.Text.Decimal.{itoa}
use ti_relay_trader.Errors.{ok, err, order_terminal_not_cancelable}
use ti_relay_trader.Trading.Validation.{order_status_terminal}
use ti_relay_trader.Trading.ExecutionState.{
  normalize_order_execution_state, quantity_complete, gateway_status_for_order_status,
}
use ti_relay_trader.Ledger.Orders.{get_order, scan_order}
use ti_relay_trader.Orderflow.Cancel.{cancelable}
use ti_relay_trader.Orderflow.Batch.Backing.{BatchBacked, batch_submit_orders-backed}
use ti_relay_trader.Orderflow.Cancel.Refusal.{cancel_order-refused}
use ti_relay_trader.Samples.{cancelled_order, finished_world}
use ti_relay_trader.Trading.Validation.{is_blank}
use ti_relay_trader.Orderflow.Requests.{draft_order_from_request}
use ti_relay_trader.Orderflow.Preflight.Laws.{wanted_id, wanted_key}
use ti_relay_trader.Orderflow.Submit.{submit_order}
use ti_relay_trader.Orderflow.Submit.Commands.{submit_order-keeps}
use ti_relay_trader.Orderflow.Submit.Backing.{SubmitsBacked, submit_order-backed}
use ti_relay_trader.Orderflow.Submit.AtMostOnce.{
  submit_order-quiet_id, submit_order-quiet_key, submit_all, NamesOrder, submit_all-at_most_one,
}
use ti_relay_trader.Orderflow.Batch.{batch_submit_orders}
use ti_relay_trader.Orderflow.Cancel.{cancel_order}
use ti_relay_trader.Orderflow.Refresh.{RefreshOptions, publish_account_query}
use ti_relay_trader.Orderflow.Publications.{
  IsCancelOf, IsQueryOf, cancel_order-one, publish_account_query-one,
}
use ti_relay_trader.Orderflow.Queries.{cursor_offset, cut_page}
use ti_relay_trader.Orderflow.Queries.Laws.{cursor_offset-itoa, fetched, IsPage, cut_page-pages}
use ti_relay_trader.Orderflow.Safety.{holds, Sent}
use ti_relay_trader.Streams.{action_account_asset}
use ti_relay_trader.Samples.{
  request, batch_request, cancel_request, service, world, stormy_world, known_world,
}

gateway-given : is_blank request.gateway_order_id ≡ false
unfolding trim_space
gateway-given = refl

key-given : is_blank request.idempotency_key ≡ false
unfolding trim_space
key-given = refl

known-id : holds (wanted_id request) known_world ≡ true
unfolding trim_space draft_order_from_request
known-id = refl

known-key : holds (wanted_key request) known_world ≡ true
unfolding trim_space draft_order_from_request
known-key = refl

both-name : All (NamesOrder "acct" "gw-1") ((request, "") ∷ (request, "req-2") ∷ [])
unfolding trim_space
both-name = ((refl, refl, refl), ((refl, refl, refl), tt))

submit_all-at_most_one_example :
    length (submit_all service ((request, "") ∷ (request, "req-2") ∷ []) stormy_world).published ≤ 1
submit_all-at_most_one_example =
    submit_all-at_most_one "acct" "gw-1" service ((request, "") ∷ (request, "req-2") ∷ [])
      stormy_world both-name

submit_order-backed_example :
    let (r, w') = submit_order service request "" world in
    (w'.published ≡ []) ⊎ SubmitsBacked request world w'
submit_order-backed_example = submit_order-backed service request "" world

submit_order-quiet_id_example : (submit_order service request "" known_world).1.published ≡ []
submit_order-quiet_id_example =
    submit_order-quiet_id service request "" known_world gateway-given known-id

submit_order-quiet_key_example : (submit_order service request "" known_world).1.published ≡ []
submit_order-quiet_key_example =
    submit_order-quiet_key service request "" known_world key-given known-key

submit_order-keeps_example :
    holds (wanted_id request) (submit_order service request "" known_world).1 ≡ true
submit_order-keeps_example =
    submit_order-keeps (wanted_id request) service request "" known_world known-id

batch_submit_orders-backed_example :
    let w' = (batch_submit_orders service batch_request "" world).1 in
    (w'.published ≡ []) ⊎ BatchBacked "acct" world w'
batch_submit_orders-backed_example = batch_submit_orders-backed service batch_request "" world

cancel_order-one_example :
    let w' = (cancel_order service cancel_request "" known_world).1 in
    (w'.published ≡ []) ⊎ Sent (IsCancelOf cancel_request) known_world w'
cancel_order-one_example = cancel_order-one service cancel_request "" known_world

abbrev options : RefreshOptions
options = record { request_id = ""; trade_date = "" }

publish_account_query-one_example :
    let w' = (publish_account_query service "acct" action_account_asset "asset" options world).1 in
    (w'.published ≡ []) ⊎ Sent (IsQueryOf "acct" "") world w'
publish_account_query-one_example =
    publish_account_query-one service "acct" action_account_asset "asset" options world

cursor_offset-itoa_example : cursor_offset (itoa (pos 250)) ≡ ok 250
cursor_offset-itoa_example = cursor_offset-itoa 250 (omega arith)

abbrev rows : List ℕ
rows = 4 ∷ 5 ∷ 6 ∷ 7 ∷ []

cut_page-pages_example : IsPage rows 1 2 (cut_page 500 1 (pos 2) (fetched 500 rows 1 2))
cut_page-pages_example = cut_page-pages rows 500 1 2 (omega arith) (omega arith) (omega arith)

cancelled-found :
    get_order cancel_request.account_id cancel_request.gateway_order_id finished_world.store
    ≡ ok cancelled_order
unfolding get_order scan_order trim_space draft_order_from_request normalize_order_execution_state
    quantity_complete order_status_terminal gateway_status_for_order_status
cancelled-found = refl

cancelled-final : cancelable cancelled_order ≡ err order_terminal_not_cancelable
unfolding cancelable order_status_terminal
cancelled-final = refl

cancel_order-refused_example :
    (cancel_order service cancel_request "" finished_world).1.published ≡ []
cancel_order-refused_example =
    cancel_order-refused service cancel_request "" finished_world cancelled_order
      order_terminal_not_cancelable (refl, (refl, tt)) cancelled-found cancelled-final
