-- ===== src/Orderflow/Archived.antt =====
-- What internal/orderflow/service.go reads back from an archived command, and what it archives.
use Prim.Native.String.{len}
use ti_relay_trader.Prelude.{ℕ, String, List, [], ◌∷◌, if◌then◌else◌, str_eq, ◌==◌}
use ti_relay_trader.Text.{is_empty, trim_space}
use ti_relay_trader.Time.{Time}
use ti_relay_trader.Errors
use ti_relay_trader.Errors.{Result, ok, err, bad_archive}
use ti_relay_trader.Trading.Schema.{SubmitOrderRequest, CancelOrderRequest}
use ti_relay_trader.Trading.Validation.{is_blank}
use ti_relay_trader.Streams.{
  CommandEnvelope, CommandPublishResult, Payload, submit, batch, cancel, action_order_submit,
  action_order_batch_submit,
}
use ti_relay_trader.Ledger.Store.{Body, absent, envelope, text, RawStreamMessage}
use ti_relay_trader.Ledger.Archive.{archive_raw_stream_message}
use ti_relay_trader.Orderflow.World.{Service, M, ◌>>=◌, now, write_ledger}

abbrev body_payload : Body → Result Payload
body_payload (envelope e) = ok e.payload
body_payload _ = err bad_archive

-- archivedCommandPayload: the body text, and the body where that is empty. A text that holds no
-- envelope has no payload.
unfoldable pub archived_command_payload : RawStreamMessage → Result Payload
archived_command_payload raw = elim raw.body_text [
  | absent ↦ body_payload raw.body
  | envelope e ↦ ok e.payload
  | text s ↦ if is_empty (trim_space s) then body_payload raw.body else err bad_archive
]

-- The child of an archived batch with the gateway order id, with the account of the batch where its
-- own is blank.
find_child : String → String → List SubmitOrderRequest → Result SubmitOrderRequest
find_child gateway account [] = err bad_archive
find_child gateway account (order ∷ rest) =
    if str_eq (trim_space order.gateway_order_id) (trim_space gateway)
    then ok (if is_blank order.account_id then record order { account_id = account } else order)
    else find_child gateway account rest

-- The payload under the action of its envelope; the relay archives no other pairs.
decode_submit : String → String → Payload → Result SubmitOrderRequest
unfolding find_child
decode_submit action gateway (submit r) =
    if str_eq action action_order_submit then ok r else err bad_archive
decode_submit action gateway (batch b) =
    if str_eq action action_order_batch_submit
    then find_child gateway b.account_id b.orders
    else err bad_archive
decode_submit action gateway _ = err bad_archive

-- archivedSubmitOrderRequest
unfoldable pub archived_submit_order_request : RawStreamMessage → String → Result SubmitOrderRequest
unfolding decode_submit
archived_submit_order_request raw gateway =
    Errors.◌>>=◌ (archived_command_payload raw) (decode_submit (trim_space raw.action) gateway)

decode_cancel : Payload → Result CancelOrderRequest
decode_cancel (cancel c) = ok c
decode_cancel _ = err bad_archive

-- archivedCancelRequest
unfoldable pub archived_cancel_request : RawStreamMessage → Result CancelOrderRequest
unfolding decode_cancel
archived_cancel_request raw = Errors.◌>>=◌ (archived_command_payload raw) decode_cancel

-- commandReceiptMetadata
pub record CommandReceipt : Type 0 where
  pub message_id : String
  pub stream_key : String
  pub stream_id : String
  pub idempotency_key : String
  pub request_id : String
  pub published : CommandPublishResult

abbrev encoded_bytes : Service → Body → ℕ
encoded_bytes service absent = 0
encoded_bytes service (envelope e) = service.body_bytes e
encoded_bytes service (text s) = len s

-- The bytes of the archived body text, and of the body where that is empty.
archived_bytes : Service → RawStreamMessage → ℕ
archived_bytes service raw =
    let size = encoded_bytes service raw.body_text in
    if size == 0 then encoded_bytes service raw.body else size

-- metadataFromArchivedCommand
unfoldable pub metadata_from_archived_command :
    Service → RawStreamMessage → String → String → CommandReceipt
unfolding archived_bytes
metadata_from_archived_command service raw key fallback =
    let request_id = trim_space raw.source_ref.request_id in
    let archived_key = trim_space raw.source_ref.idempotency_key in
    let stream_key = trim_space raw.stream_ref.key in
    let stream_id = trim_space raw.stream_ref.id in
    record {
      message_id = trim_space raw.source_ref.origin_message_id;
      stream_key = stream_key;
      stream_id = stream_id;
      idempotency_key = if is_empty archived_key then trim_space key else archived_key;
      request_id = if is_empty request_id then trim_space fallback else request_id;
      published = record {
        stream_key = stream_key;
        stream_id = stream_id;
        body_bytes = archived_bytes service raw;
      };
    }

-- The row of a command that was published.
abbrev pub command_message :
    CommandPublishResult → CommandEnvelope → String → String → String → Time → RawStreamMessage
command_message published sent role account gateway received = record {
  stream_ref = record { key = published.stream_key; id = published.stream_id };
  source_ref = record {
    origin_message_id = sent.message_id;
    request_id = sent.request_id;
    correlation_id = sent.correlation_id;
    idempotency_key = sent.idempotency_key;
  };
  direction = "in";
  role = role;
  message_type = sent.message_type;
  action = sent.action;
  event_type = "";
  status = "";
  code = "";
  account_id = account;
  gateway_order_id = gateway;
  body = envelope sent;
  body_text = envelope sent;
  parse_error = "";
  received_at = received;
}

-- archiveCommand; an envelope that was published has been encoded once, so it is encoded again.
unfoldable pub archive_command :
    Service → CommandPublishResult → CommandEnvelope → String → String → String → M (Unit {0})
archive_command service published sent role account gateway = do
  received ← now service
  write_ledger service (
      archive_raw_stream_message service.database
        (command_message published sent role account gateway received))
