-- ===== src/Ledger/Archive.antt =====
-- ArchiveRawStreamMessage, GetArchivedCommand and GetArchivedCommandByMessageID.
use ti_relay_trader.Prelude.{
  String, Bool, true, false, not, ◌&&◌, ◌||◌, Option, none, some, List, [], ◌∷◌, if◌then◌else◌,
  str_eq, keep, ltb,
}
use ti_relay_trader.Text.{trim_space}
use ti_relay_trader.Time.{Time, unset, at, is_unset}
use ti_relay_trader.Errors.{
  Result, ok, err, invalid_ledger_input, archived_command_not_found, ◌>>◌, guard,
}
use ti_relay_trader.Trading.Validation.{is_blank}
use ti_relay_trader.Ledger.Store.{Store, RawStreamMessage, Database}

-- ON CONFLICT (stream_key, stream_id) DO UPDATE
put_message : RawStreamMessage → List RawStreamMessage → List RawStreamMessage
put_message m [] = m ∷ []
put_message m (n ∷ rest) =
    if str_eq n.stream_ref.key m.stream_ref.key && str_eq n.stream_ref.id m.stream_ref.id
    then m ∷ rest
    else n ∷ put_message m rest

-- nullString trims a text on its way into a column, and COALESCE gives back an empty one for NULL.
message_row : Database → RawStreamMessage → RawStreamMessage
message_row db m = record m {
  source_ref = record {
    origin_message_id = trim_space m.source_ref.origin_message_id;
    request_id = trim_space m.source_ref.request_id;
    correlation_id = trim_space m.source_ref.correlation_id;
    idempotency_key = trim_space m.source_ref.idempotency_key;
  };
  message_type = trim_space m.message_type;
  action = trim_space m.action;
  event_type = trim_space m.event_type;
  status = trim_space m.status;
  code = trim_space m.code;
  account_id = trim_space m.account_id;
  gateway_order_id = trim_space m.gateway_order_id;
  parse_error = trim_space m.parse_error;
  received_at = if is_unset m.received_at then db.now else m.received_at;
}

unfoldable pub archive_raw_stream_message : Database → RawStreamMessage → Store → Result Store
unfolding put_message message_row
archive_raw_stream_message db m s = do
  guard (not (is_blank m.stream_ref.key)) (invalid_ledger_input "stream_key is required")
  guard (not (is_blank m.stream_ref.id)) (invalid_ledger_input "stream_id is required")
  guard (not (is_blank m.direction)) (invalid_ledger_input "direction is required")
  guard (not (is_blank m.role)) (invalid_ledger_input "stream_role is required")
  ok (record s { archive = put_message (message_row db m) s.archive })

abbrev pub earlier : Time → Time → Bool
earlier unset unset = false
earlier unset (at n) = true
earlier (at m) unset = false
earlier (at m) (at n) = ltb m n

-- ORDER BY received_at, raw_message_pk LIMIT 1
pub earliest : List RawStreamMessage → Option RawStreamMessage
earliest [] = none
earliest (m ∷ rest) = elim (earliest rest) [
  | none ↦ some m
  | some n ↦ if earlier n.received_at m.received_at then some n else some m
]

-- The rows that hold a trade command that the relay sent.
abbrev is_trade_command : RawStreamMessage → Bool
is_trade_command m =
    str_eq m.direction "in" && str_eq m.role "cmd.trade" && str_eq m.message_type "command"

abbrev pub found : Option RawStreamMessage → Result RawStreamMessage
found none = err archived_command_not_found
found (some m) = ok m

abbrev pub is_command_for : String → String → String → RawStreamMessage → Bool
is_command_for account action key m =
    is_trade_command m
    && str_eq m.account_id account
    && str_eq m.action action
    && str_eq m.source_ref.idempotency_key key

unfoldable pub get_archived_command : String → String → String → Store → Result RawStreamMessage
unfolding earliest
get_archived_command account action key s = do
  guard (not (is_blank account || is_blank action || is_blank key))
      (invalid_ledger_input "account_id, action, and idempotency_key are required")
  found (
      earliest
        (keep (is_command_for (trim_space account) (trim_space action) (trim_space key)) s.archive))

abbrev pub is_command_of : String → RawStreamMessage → Bool
is_command_of message_id m = is_trade_command m && str_eq m.source_ref.origin_message_id message_id

unfoldable pub get_archived_command_by_message_id : String → Store → Result RawStreamMessage
unfolding earliest
get_archived_command_by_message_id message_id s = do
  guard (not (is_blank message_id)) (invalid_ledger_input "message_id is required")
  found (earliest (keep (is_command_of (trim_space message_id)) s.archive))
