-- ===== src/Sync/Results.antt =====
-- LedgerProcessResult of internal/redisstream/ledger_sync.go, without the cancel attempts.
pub mod Totals
use ti_relay_trader.Prelude.{
  ℕ, ◌+◌, ◌-◌, String, Bool, true, false, List, [], ◌∷◌, ◌++◌, any, take, length, if◌then◌else◌,
  str_eq,
}
use ti_relay_trader.Text.{is_empty, trim_space}
use ti_relay_trader.Errors.{Error}

-- A text, or the text of an error of the ledger.
pub data Reason : Type 0 where
  words : String → Reason
  failure : Error → Reason

pub record LedgerProcessResult : Type 0 where
  pub seen : ℕ
  pub archived : ℕ
  pub accounts : ℕ
  pub orders : ℕ
  pub order_events : ℕ
  pub cancel_attempts : ℕ
  pub cancel_failures : ℕ
  pub fills : ℕ
  pub transfers : ℕ
  pub fees : ℕ
  pub assets : ℕ
  pub positions : ℕ
  pub stale_positions : ℕ
  pub replies : ℕ
  pub skipped : ℕ
  pub skip_reasons : List Reason
  pub parse_errors : ℕ
  pub ledger_errors : ℕ
  pub unsupported : ℕ
  pub dead_letters : ℕ
  pub data_quality_dlq : ℕ
  pub gateway_status_normalized : ℕ
  pub last_stream_id : String
  pub last_message_id : String
  pub last_event_type : String
  pub last_action : String
  pub last_account_id : String
  pub account_ids : List String
  pub last_gateway_oid : String

abbrev max_ledger_skip_reasons : ℕ
max_ledger_skip_reasons = 200

-- The accounts with another one behind them, if it is new.
unfoldable pub noted : List String → String → List String
noted ids account_id =
    let trimmed = trim_space account_id in
    if is_empty trimmed
    then ids
    else if any (λ existing. str_eq existing trimmed) ids
    then ids
    else ids ++ (trimmed ∷ [])

abbrev pub note_account : String → LedgerProcessResult → LedgerProcessResult
note_account account_id r = record r { account_ids = noted r.account_ids account_id }

abbrev pub note_all : List String → List String → List String
note_all ids [] = ids
note_all ids (account_id ∷ more) = note_all (noted ids account_id) more

abbrev last_of : String → String → String
last_of old new = if is_empty new then old else new

-- LedgerProcessResult.add. The deleted positions are not added up.
unfoldable pub add : LedgerProcessResult → LedgerProcessResult → LedgerProcessResult
add r o = record {
  seen = r.seen + o.seen;
  archived = r.archived + o.archived;
  accounts = r.accounts + o.accounts;
  orders = r.orders + o.orders;
  order_events = r.order_events + o.order_events;
  cancel_attempts = r.cancel_attempts + o.cancel_attempts;
  cancel_failures = r.cancel_failures + o.cancel_failures;
  fills = r.fills + o.fills;
  transfers = r.transfers + o.transfers;
  fees = r.fees + o.fees;
  assets = r.assets + o.assets;
  positions = r.positions + o.positions;
  stale_positions = r.stale_positions;
  replies = r.replies + o.replies;
  skipped = r.skipped + o.skipped;
  skip_reasons =
      r.skip_reasons ++ take (max_ledger_skip_reasons - length r.skip_reasons) o.skip_reasons;
  parse_errors = r.parse_errors + o.parse_errors;
  ledger_errors = r.ledger_errors + o.ledger_errors;
  unsupported = r.unsupported + o.unsupported;
  dead_letters = r.dead_letters + o.dead_letters;
  data_quality_dlq = r.data_quality_dlq + o.data_quality_dlq;
  gateway_status_normalized = r.gateway_status_normalized + o.gateway_status_normalized;
  last_stream_id = last_of r.last_stream_id o.last_stream_id;
  last_message_id = last_of r.last_message_id o.last_message_id;
  last_event_type = last_of r.last_event_type o.last_event_type;
  last_action = last_of r.last_action o.last_action;
  last_account_id = last_of r.last_account_id o.last_account_id;
  account_ids = note_all r.account_ids o.account_ids;
  last_gateway_oid = last_of r.last_gateway_oid o.last_gateway_oid;
}

-- `result.Skipped++` with its reason, and `return`
abbrev pub skip : Reason → LedgerProcessResult → LedgerProcessResult
skip reason r = record r { skipped = r.skipped + 1; skip_reasons = r.skip_reasons ++ (reason ∷ []) }

-- `result.LedgerErrors++` with the error
abbrev pub fail : Error → LedgerProcessResult → LedgerProcessResult
fail e r = record r {
  ledger_errors = r.ledger_errors + 1;
  skip_reasons = r.skip_reasons ++ (failure e ∷ []);
}

-- The totals of a report: the results are added one by one.
abbrev pub totals : LedgerProcessResult → List LedgerProcessResult → LedgerProcessResult
totals r [] = r
totals r (o ∷ others) = totals (add r o) others
