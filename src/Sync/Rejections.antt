-- ===== src/Sync/Rejections.antt =====
-- The replies that reject orders: processRejectedOrderReply, processBatchFailedOrders and what
-- processReplyEnvelope does with them, in internal/redisstream/ledger_sync.go.
pub mod Rejected
use Prim.Native.String.{◌++◌ as ◌++ₛ◌}
use ti_relay_trader.Prelude.{
  ℕ, zero, suc, ◌+◌, String, Bool, true, false, not, ◌&&◌, ◌||◌, Option, none, some, List, [], ◌∷◌,
  ◌++◌, length, ltb, if◌then◌else◌, str_eq,
}
use ti_relay_trader.Prelude.Int.{ℤ, pos, negsuc}
use ti_relay_trader.Text.{is_empty, trim_space}
use ti_relay_trader.Text.Decimal.{itoa}
use ti_relay_trader.Time.{Time, unset}
use ti_relay_trader.Errors.{Result, ok, err}
use ti_relay_trader.Streams.{action_order_submit, action_order_batch_submit}
use ti_relay_trader.Trading.Schema.{
  Order, OrderEvent, OrderStatus, GatewayStatus, Exchange, TradeSide, BusinessType, OffsetType,
  text,
}
use ti_relay_trader.Trading.Validation.{is_blank}
use ti_relay_trader.Ledger.Store.{Store, StreamRef, SourceRef}
use ti_relay_trader.Ledger.Orders.{lookup_text}
use ti_relay_trader.Ledger.Orders.Merge.{Context, join_contexts}
use ti_relay_trader.Ledger.Positions.{zero_float}
use ti_relay_trader.Ledger.OrderEvents.{update_order_status, append_order_event}
use ti_relay_trader.Sync.Envelope.{EntryEnvelope, first_non_empty}
use ti_relay_trader.Sync.Results.{LedgerProcessResult, words, skip, fail}
use ti_relay_trader.Sync.Progress.{Surroundings, Progress, stopped, going, and_then}
use ti_relay_trader.Sync.RejectedEvent.{
  FailedOrder, BatchPayload, Decoders, order_error_info, rejected_order_event,
  is_indeterminate_command_error, indeterminate_command_skip_reason, stream_ref, source_ref,
}

abbrev pub updated : LedgerProcessResult → Store → Result Store → Progress
updated r s (err e) = stopped (fail e r) s
updated r s (ok s') = going (record r { orders = r.orders + 1 }) s'

abbrev pub appended : LedgerProcessResult → Store → Result Store → Progress
appended r s (err e) = stopped (fail e r) s
appended r s (ok s') = going (record r { order_events = r.order_events + 1 }) s'

-- UpdateOrderStatus and AppendOrderEvent with an event
unfoldable pub write_event :
    Surroundings → OrderEvent → StreamRef → SourceRef → LedgerProcessResult → Store → Progress
write_event w event stream source r s =
    and_then (updated r s (update_order_status w.database event s))
      (λ r s. appended r s (append_order_event w.database event stream source s))

abbrev pub is_submission : EntryEnvelope → Bool
is_submission e = str_eq e.action action_order_submit || str_eq e.action action_order_batch_submit

abbrev pub reply_gateway_order_id : Decoders → EntryEnvelope → String
reply_gateway_order_id d e =
    first_non_empty (e.gateway_order_id ∷ d.gateway_order_id e.payload ∷ [])

-- processRejectedOrderReply
unfoldable pub process_rejected_order_reply :
    Surroundings → Decoders → EntryEnvelope → LedgerProcessResult → Store → Progress
process_rejected_order_reply w d e r s =
    let gateway_order_id = reply_gateway_order_id d e in
    let (code, message) = order_error_info d e in
    let event = rejected_order_event e gateway_order_id code message e.message_id in
    if not (is_submission e)
    then going r s
    else if is_empty e.routing.account_id || is_empty gateway_order_id
    then going (skip (words "rejected order reply missing account_id or gateway_order_id") r) s
    else write_event w event (stream_ref e) (source_ref e) r s

abbrev nth : List String → ℕ → String
nth [] n = ""
nth (x ∷ xs) zero = x
nth (x ∷ xs) (suc n) = nth xs n

-- The id of a failed order, or that of the order at its index.
abbrev order_at : List String → ℤ → String
order_at orders (pos n) = trim_space (nth orders n)
order_at orders (negsuc n) = ""

abbrev failed_gateway_order_id : BatchPayload → FailedOrder → String
failed_gateway_order_id b f =
    let own = trim_space f.gateway_order_id in
    if is_empty own then order_at b.orders f.index else own

abbrev failed_event : EntryEnvelope → BatchPayload → FailedOrder → OrderEvent
failed_event e b f =
    rejected_order_event e (failed_gateway_order_id b f) (first_non_empty (f.code ∷ e.code ∷ []))
      (first_non_empty (f.message ∷ e.message ∷ [])) (e.message_id ++ₛ (":batch:" ++ₛ itoa f.index))

abbrev failed_stream : EntryEnvelope → FailedOrder → StreamRef
failed_stream e f = record { key = e.stream; id = e.stream_id ++ₛ ("#failed-" ++ₛ itoa f.index) }

-- The loop of processBatchFailedOrders
unfoldable pub process_failed_orders :
    Surroundings
    → EntryEnvelope
    → BatchPayload
    → List FailedOrder
    → LedgerProcessResult
    → Store
    → Progress
process_failed_orders w e b [] r s = going r s
process_failed_orders w e b (f ∷ failed) r s =
    let reason =
      "batch failed order index "
      ++ₛ (itoa f.index ++ₛ " missing account_id or gateway_order_id") in
    and_then
      (if is_empty (failed_gateway_order_id b f) || is_blank e.routing.account_id
        then going (skip (words reason) r) s
        else write_event w (failed_event e b f) (failed_stream e f) (source_ref e) r s)
      (process_failed_orders w e b failed)

-- processBatchFailedOrders, with the number of failed orders
abbrev pub process_batch_failed_orders :
    Surroundings → EntryEnvelope → Option BatchPayload → LedgerProcessResult → Store → Progress × ℕ
process_batch_failed_orders w e none r s = (going r s, 0)
process_batch_failed_orders w e (some b) r s =
    (process_failed_orders w e b b.failed_orders r s, length b.failed_orders)

abbrev pub is_refusal : EntryEnvelope → Bool
is_refusal e = str_eq e.status "rejected" || str_eq e.status "failed"

-- The reply behind its failed orders: one that rejects or fails, or one for the branches of the pages.
abbrev pub refusal_or :
    Surroundings
    → Decoders
    → (LedgerProcessResult → Store → Progress)
    → EntryEnvelope
    → LedgerProcessResult
    → Store
    → Progress
refusal_or w d pages e r s =
    if not (is_refusal e)
    then pages r s
    else if is_indeterminate_command_error d e
    then going (skip (words (indeterminate_command_skip_reason d e)) r) s
    else process_rejected_order_reply w d e r s

-- A batch reply that refuses and that lists failed orders is done with them.
abbrev behind_batch :
    Surroundings
    → Decoders
    → (LedgerProcessResult → Store → Progress)
    → EntryEnvelope
    → Progress × ℕ
    → Progress
behind_batch w d pages e (m, n) = and_then m (λ r s.
    if ltb 0 r.ledger_errors || (ltb 0 n && is_refusal e)
    then going r s
    else refusal_or w d pages e r s)

-- processReplyEnvelope for a reply to another action than a cancellation, in front of the branches for the
-- pages.
unfoldable pub process_reply :
    Surroundings
    → Decoders
    → (LedgerProcessResult → Store → Progress)
    → EntryEnvelope
    → LedgerProcessResult
    → Store
    → Progress
process_reply w d pages e r s =
    if str_eq e.action action_order_batch_submit
    then behind_batch w d pages e (process_batch_failed_orders w e (d.batch e.payload) r s)
    else refusal_or w d pages e r s
