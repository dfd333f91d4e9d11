-- ===== src/Tests/Commands.antt =====
-- Tests of the summary of a command's replies.
use ti_relay_trader.Prelude.{String, ◌≡◌, ◌↔◌, refl, true, false, [], ◌∷◌, str_eq}
use ti_relay_trader.Text.{trim_space}
use ti_relay_trader.Ledger.CommandStatus.{
  CommandReplyStatus, CommandStatus, pending, expected_command_result_type,
  summarize_command_status,
}
use ti_relay_trader.Ledger.CommandStatus.Laws.{count, ends, confirms, summarize-success}
use ti_relay_trader.Samples.{noon}

abbrev reply : String → String → CommandReplyStatus
reply status result_type = record {
  message_id = "m-2";
  account_id = "acct";
  action = "order.submit";
  status = status;
  code = "";
  message = "";
  result_type = result_type;
  is_last = true;
  request_id = "r-1";
  stream_key = "s";
  stream_id = "1-0";
  received_at = noon;
}

abbrev status : CommandStatus
status = record {
  origin_message_id = "m-1";
  account_id = "acct";
  action = "order.submit";
  expected_result_type = "";
  state = pending;
  terminal = false;
  success = false;
  recovered = false;
  contradictory = false;
  reply_count = 0;
  terminal_count = 0;
  replies = reply "processing" "" ∷ reply " Accepted" "order_action_receipt" ∷ [];
}

status-trade : str_eq (expected_command_result_type status.action) "order_action_receipt" ≡ true
unfolding expected_command_result_type trim_space
status-trade = refl

summarize-success_example : ((summarize_command_status status).success ≡ true) ↔ (
    (count (ends true) status.replies ≡ 1)
    × (count (confirms (expected_command_result_type status.action) true) status.replies ≡ 1))
summarize-success_example = summarize-success status status-trade
