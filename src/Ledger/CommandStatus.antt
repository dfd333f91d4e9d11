-- ===== src/Ledger/CommandStatus.antt =====
-- What the replies to a command amount to: summarizeCommandStatus of internal/ledger/repository.go.
pub mod Laws
use ti_relay_trader.Prelude.{
  ℕ, zero, suc, ◌+◌, String, Bool, true, false, not, ◌&&◌, ◌||◌, List, [], ◌∷◌, length, ltb, leb,
  ◌==◌, str_eq, if◌then◌else◌,
}
use ti_relay_trader.Prelude.Int.{ℤ, pos, negsuc, ltb_ℤ}
use ti_relay_trader.Text.{is_empty, trim_space, lower_is, one_of, equal_fold}
use ti_relay_trader.Time.{Time}

pub record CommandReplyStatus : Type 0 where
  pub message_id : String
  pub account_id : String
  pub action : String
  pub status : String
  pub code : String
  pub message : String
  pub result_type : String
  pub is_last : Bool
  pub request_id : String
  pub stream_key : String
  pub stream_id : String
  pub received_at : Time

pub data CommandState : Type 0 where
  pending invalid completed accepted failed : CommandState

pub record CommandStatus : Type 0 where
  pub origin_message_id : String
  pub account_id : String
  pub action : String
  pub expected_result_type : String
  pub state : CommandState
  pub terminal : Bool
  pub success : Bool
  pub recovered : Bool
  pub contradictory : Bool
  pub reply_count : ℕ
  pub terminal_count : ℕ
  pub replies : List CommandReplyStatus

-- expectedCommandResultType
unfoldable pub expected_command_result_type : String → String
expected_command_result_type given =
    let action = trim_space given in
    if str_eq action "account.asset.query"
    then "asset_page"
    else if str_eq action "account.positions.query"
    then "position_page"
    else if str_eq action "order.list.query"
    then "order_page"
    else if str_eq action "fill.list.query"
    then "fill_page"
    else if str_eq action "fee.list.query"
    then "fee_page"
    else if one_of action ("order.submit" ∷ "order.batch.submit" ∷ "order.cancel" ∷ [])
    then "order_action_receipt"
    else ""

-- The local counters of summarizeCommandStatus, with its TerminalCount.
pub record Tally : Type 0 where
  pub terminal_count : ℕ
  pub completed_valid : ℕ
  pub completed_invalid : ℕ
  pub accepted_valid : ℕ
  pub accepted_invalid : ℕ
  pub failed_replies : ℕ
  pub interrupted_failures : ℕ
  pub data_pages : ℕ
  pub last_interrupted_index : ℤ
  pub last_completed_valid_index : ℤ

abbrev pub no_replies : Tally
no_replies = record {
  terminal_count = 0;
  completed_valid = 0;
  completed_invalid = 0;
  accepted_valid = 0;
  accepted_invalid = 0;
  failed_replies = 0;
  interrupted_failures = 0;
  data_pages = 0;
  last_interrupted_index = negsuc 0;
  last_completed_valid_index = negsuc 0;
}

abbrev pub type_fits : String → CommandReplyStatus → Bool
type_fits expected reply = str_eq reply.result_type expected

abbrev count_page : String → CommandReplyStatus → Tally → Tally
count_page expected reply t =
    if type_fits expected reply && not (is_empty reply.result_type)
    then record t { data_pages = suc t.data_pages }
    else t

abbrev count_accepted : Bool → Tally → Tally
count_accepted true t = record t {
  terminal_count = suc t.terminal_count;
  accepted_valid = suc t.accepted_valid;
}
count_accepted false t = record t {
  terminal_count = suc t.terminal_count;
  accepted_invalid = suc t.accepted_invalid;
}

abbrev count_completed : Bool → ℕ → Tally → Tally
count_completed true index t = record t {
  terminal_count = suc t.terminal_count;
  completed_valid = suc t.completed_valid;
  last_completed_valid_index = pos index;
}
count_completed false index t = record t {
  terminal_count = suc t.terminal_count;
  completed_invalid = suc t.completed_invalid;
}

abbrev count_failed : Bool → ℕ → Tally → Tally
count_failed true index t = record t {
  terminal_count = suc t.terminal_count;
  failed_replies = suc t.failed_replies;
  interrupted_failures = suc t.interrupted_failures;
  last_interrupted_index = pos index;
}
count_failed false index t = record t {
  terminal_count = suc t.terminal_count;
  failed_replies = suc t.failed_replies;
}

abbrev pub is_status : String → CommandReplyStatus → Bool
is_status status reply = lower_is (trim_space reply.status) status

abbrev pub completes : String → CommandReplyStatus → Bool
completes expected reply = reply.is_last && (is_empty expected || type_fits expected reply)

-- One round of the loop over the replies.
unfoldable pub count_reply : String → Bool → ℕ → CommandReplyStatus → Tally → Tally
count_reply expected trade index reply before =
    let t = count_page expected reply before in
    if is_status "accepted" reply
    then if trade then count_accepted (type_fits expected reply) t else t
    else if is_status "completed" reply
    then count_completed (completes expected reply) index t
    else if is_status "failed" reply || is_status "rejected" reply
    then count_failed (equal_fold (trim_space reply.code) "query_interrupted") index t
    else t

unfoldable pub count_replies : String → Bool → ℕ → List CommandReplyStatus → Tally → Tally
count_replies expected trade index [] t = t
count_replies expected trade index (reply ∷ replies) t =
    count_replies expected trade (suc index) replies (count_reply expected trade index reply t)

unfoldable pub recovered_query : String → Bool → Tally → Bool
recovered_query expected trade t =
    not (is_empty expected)
    && not trade
    && t.completed_valid == 1
    && t.completed_invalid == 0
    && t.accepted_valid == 0
    && t.accepted_invalid == 0
    && ltb 0 t.failed_replies
    && t.failed_replies == t.interrupted_failures
    && ltb_ℤ t.last_interrupted_index t.last_completed_valid_index

-- The switch behind the loop: the state, and whether it is a success.
unfoldable pub state_of : Tally → CommandState × Bool
state_of t =
    if t.failed_replies == 1
    then (failed, false)
    else if t.completed_invalid == 1
    then (invalid, false)
    else if t.accepted_invalid == 1
    then (invalid, false)
    else if t.completed_valid == 1
    then (completed, true)
    else if t.accepted_valid == 1
    then (accepted, true)
    else (pending, false)

abbrev conclude : CommandStatus → Tally → Bool → CommandStatus
conclude status t recovered =
    let (state, success) = state_of t in
    let contradictory = ltb 0 t.failed_replies && (ltb 0 t.data_pages || ltb 0 t.accepted_valid) in
    let counted = record status {
      terminal_count = t.terminal_count;
      terminal = ltb 0 t.terminal_count;
      contradictory = contradictory;
    } in
    if recovered
    then record counted {
      state = completed;
      success = true;
      recovered = true;
      contradictory = false;
    }
    else if ltb 1 t.terminal_count
    then record counted {
      state = invalid;
      success = false;
      recovered = false;
      contradictory = true;
    }
    else record counted { state = state; success = success; recovered = false }

-- summarizeCommandStatus
unfoldable pub summarize_command_status : CommandStatus → CommandStatus
summarize_command_status given =
    let expected = expected_command_result_type given.action in
    let trade = str_eq expected "order_action_receipt" in
    let t = count_replies expected trade 0 given.replies no_replies in
    conclude (record given { reply_count = length given.replies; expected_result_type = expected })
      t (recovered_query expected trade t)
