-- ===== src/Ledger/CommandStatus/Laws.antt =====
-- When a command counts as a success, in internal/ledger/repository.go.
use ti_relay_trader.Prelude.{
  ℕ, suc, ◌+◌, ◌≤◌, String, ◌≡◌, ◌↔◌, inl, inr, sym, subst, ◌∙◌, Bool, true, false, not, ◌&&◌, ◌||◌,
  List, [], ◌∷◌, length, keep, ltb, Bool-cases, str_eq, if◌then◌else◌, arith,
}
use ti_relay_trader.Ledger.CommandStatus.{
  CommandReplyStatus, CommandStatus, Tally, no_replies, type_fits, is_status, completes,
  count_reply, count_replies, recovered_query, state_of, conclude, summarize_command_status,
  expected_command_result_type, count_page,
}

-- The replies that confirm a command, of whatever kind it is; those that deny it; and those that end
-- it at all.
abbrev pub confirms : String → Bool → CommandReplyStatus → Bool
confirms expected trade r =
    if is_status "accepted" r
    then trade && type_fits expected r
    else is_status "completed" r && completes expected r

abbrev pub ends : Bool → CommandReplyStatus → Bool
ends trade r =
    if is_status "accepted" r
    then trade
    else is_status "completed" r || is_status "failed" r || is_status "rejected" r

abbrev pub fails : CommandReplyStatus → Bool
fails r =
    not (is_status "accepted" r)
    && not (is_status "completed" r)
    && (is_status "failed" r || is_status "rejected" r)

-- How many of the replies have a property.
abbrev pub count : (CommandReplyStatus → Bool) → List CommandReplyStatus → ℕ
count p rs = length (keep p rs)

abbrev one_if : Bool → ℕ
one_if true = 1
one_if false = 0

count-cons :
    (p : CommandReplyStatus → Bool) (r : CommandReplyStatus) (rs : List CommandReplyStatus)
    → count p (r ∷ rs) ≡ one_if (p r) + count p rs
count-cons p r rs = ground arith

page_kept :
    (expected : String) (r : CommandReplyStatus) (t : Tally)
    → ((count_page expected r t).terminal_count ≡ t.terminal_count)
      × ((count_page expected r t).completed_valid ≡ t.completed_valid)
      × ((count_page expected r t).accepted_valid ≡ t.accepted_valid)
      × ((count_page expected r t).failed_replies ≡ t.failed_replies)
page_kept expected r t = (ground arith, ground arith, ground arith, ground arith)

count_reply-ends :
    (expected : String) (trade : Bool) (i : ℕ) (r : CommandReplyStatus) (t : Tally)
    → (count_reply expected trade i r t).terminal_count ≡ one_if (ends trade r) + t.terminal_count
unfolding count_reply
count_reply-ends expected trade i r t = ground arith

count_reply-confirms :
    (expected : String) (trade : Bool) (i : ℕ) (r : CommandReplyStatus) (t : Tally)
    → (count_reply expected trade i r t).completed_valid
        + (count_reply expected trade i r t).accepted_valid
      ≡ one_if (confirms expected trade r) + (t.completed_valid + t.accepted_valid)
unfolding count_reply
count_reply-confirms expected trade i r t = ground arith

count_reply-fails :
    (expected : String) (trade : Bool) (i : ℕ) (r : CommandReplyStatus) (t : Tally)
    → (count_reply expected trade i r t).failed_replies ≡ one_if (fails r) + t.failed_replies
unfolding count_reply
count_reply-fails expected trade i r t = ground arith

abbrev counted : Tally → ℕ
counted t =
    t.completed_valid
    + t.accepted_valid
    + (t.completed_invalid + t.accepted_invalid + t.failed_replies)

count_reply-counted :
    (expected : String) (trade : Bool) (i : ℕ) (r : CommandReplyStatus) (t : Tally)
    → counted (count_reply expected trade i r t) ≡ one_if (ends trade r) + counted t
unfolding count_reply
count_reply-counted expected trade i r t = ground arith

-- A counter that each reply with a property adds one to counts these replies.
count_replies-count :
    (expected : String) (trade : Bool) (counter : Tally → ℕ) (p : CommandReplyStatus → Bool)
    → ((i : ℕ) (r : CommandReplyStatus) (t : Tally)
        → counter (count_reply expected trade i r t) ≡ one_if (p r) + counter t)
    → (i : ℕ) (rs : List CommandReplyStatus) (t : Tally)
    → counter (count_replies expected trade i rs t) ≡ count p rs + counter t
unfolding count_replies
count_replies-count expected trade counter p step i [] t = omega arith
count_replies-count expected trade counter p step i (r ∷ rs) t =
    count_replies-count expected trade counter p step (suc i) rs (count_reply expected trade i r t)
    ∙ omega (arith, step i r t, count-cons p r rs)

abbrev tally : String → Bool → List CommandReplyStatus → Tally
tally expected trade rs = count_replies expected trade 0 rs no_replies

module _ (expected : String) (trade : Bool) (rs : List CommandReplyStatus) where
  tally-ends : (tally expected trade rs).terminal_count ≡ count (ends trade) rs
  tally-ends =
      count_replies-count expected trade (λ t. t.terminal_count) (ends trade)
        (count_reply-ends expected trade) 0 rs no_replies
      ∙ omega arith

  tally-counted : counted (tally expected trade rs) ≡ count (ends trade) rs
  tally-counted =
      count_replies-count expected trade counted (ends trade) (count_reply-counted expected trade) 0
        rs no_replies
      ∙ omega arith

  tally-confirms :
      (tally expected trade rs).completed_valid + (tally expected trade rs).accepted_valid
      ≡ count (confirms expected trade) rs
  tally-confirms =
      count_replies-count expected trade (λ t. t.completed_valid + t.accepted_valid)
        (confirms expected trade) (count_reply-confirms expected trade) 0 rs no_replies
      ∙ omega arith

-- One ending, which confirms.
abbrev OneConfirmed : ℕ → ℕ → Type 0
OneConfirmed ended confirmed = (ended ≡ 1) × (confirmed ≡ 1)

state_of-success :
    (t : Tally)
    → counted t ≡ t.terminal_count
    → t.terminal_count ≤ 1
    → ((state_of t).1 ≡ true) ↔ OneConfirmed t.terminal_count (t.completed_valid + t.accepted_valid)
unfolding state_of
state_of-success t balanced few = ground arith

-- Of more endings than one, none is a success.
conclude-success :
    (status : CommandStatus) (t : Tally)
    → counted t ≡ t.terminal_count
    → ((conclude status t false).success ≡ true)
      ↔ OneConfirmed t.terminal_count (t.completed_valid + t.accepted_valid)
conclude-success status t balanced = elim (Bool-cases (ltb 1 t.terminal_count)) [
  | inl many ↦ rw many (ground (arith, many))
  | inr few ↦ rw few (state_of-success t balanced (ground (arith, few)))
]

trade-recovered : (expected : String) (t : Tally) → recovered_query expected true t ≡ false
unfolding recovered_query
trade-recovered expected t = ground arith

-- An order command, to submit, to submit a batch or to cancel, is summarised as a success if and only if
-- exactly one of its replies is an ending (accepted, completed, failed or rejected) and exactly one confirms
-- it: accepted with a receipt, or completed with a receipt that is the last part.
pub summarize-success :
    (given : CommandStatus)
    → str_eq (expected_command_result_type given.action) "order_action_receipt" ≡ true
    → ((summarize_command_status given).success ≡ true) ↔ (
        (count (ends true) given.replies ≡ 1)
        × (count (confirms (expected_command_result_type given.action) true) given.replies ≡ 1))
unfolding summarize_command_status
summarize-success given trade =
    let expected = expected_command_result_type given.action in
    let t = tally expected true given.replies in
    let status : CommandStatus = record given {
      reply_count = length given.replies;
      expected_result_type = expected;
    } in
    rw (trade, trade-recovered expected t)
      (subst
        (λ n.
          ((conclude status t false).success ≡ true)
          ↔ OneConfirmed n (count (confirms expected true) given.replies))
        (tally-ends expected true given.replies)
        (subst (λ n. ((conclude status t false).success ≡ true) ↔ OneConfirmed t.terminal_count n)
          (tally-confirms expected true given.replies)
          (conclude-success status t (
            tally-counted expected true given.replies
            ∙ sym (tally-ends expected true given.replies)))))
