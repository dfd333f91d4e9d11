-- ===== src/Sync/Rejections/Rejected.antt =====
-- A rejected order is rejected in the ledger, in internal/redisstream/ledger_sync.go.
use mathlib.Core.Bool.{true≢false}
use ti_relay_trader.Prelude.{
  eq_iff, ◌↔◌, ℕ, String, Bool, true, false, not, ◌≡◌, refl, sym, ap, ◌∙◌, ◌⊎◌, ◌&&◌, ◌||◌, inl,
  inr, Option, none, some, List, [], ◌∷◌, find_first, any, if◌then◌else◌, Bool-cases, arith, str_eq,
}
use ti_relay_trader.Text.{is_empty, trim_space}
use ti_relay_trader.Errors.{
  Result, ok, err, guard, backend, order_not_found, IfOk, IfOk-ok, IfOk-err, IfOk-bind, IfOk-step,
}
use ti_relay_trader.Streams.{action_order_submit, action_order_batch_submit}
use ti_relay_trader.Trading.Schema.{Order, OrderEvent, OrderStatus}
use ti_relay_trader.Trading.Validation.{is_blank, order_status_terminal}
use ti_relay_trader.Trading.ExecutionState.{
  normalize_order_execution_state, quantity_complete, gateway_status_for_order_status,
}
use ti_relay_trader.Ledger.Store.{Store, Database, StreamRef, SourceRef}
use ti_relay_trader.Ledger.Orders.{row_allowed, is_listed_status, is_listed_gateway_status}
use ti_relay_trader.Ledger.Orders.Merge.{is_rejected}
use ti_relay_trader.Ledger.Orders.Upsert.{put_row}
use ti_relay_trader.Ledger.Orders.Repeats.{find_first-picks}
use ti_relay_trader.Ledger.OrderEvents.{
  normalize_order_event, apply_event, update_found, update_order_status, append_order_event,
  is_order_of, average_or, greatest_fee, event_conflicts, event_row, trim_event, date_event,
  settle_event,
}
use ti_relay_trader.Sync.Envelope.{EntryEnvelope}
use ti_relay_trader.Sync.Results.{LedgerProcessResult}
use ti_relay_trader.Sync.Progress.{
  Surroundings, Progress, end, IfGoing, IfGoing-and_then, Outcome, Outcome-end,
}
use ti_relay_trader.Sync.RejectedEvent.{
  Decoders, rejected_order_event, order_error_info, is_indeterminate_command_error, stream_ref,
  source_ref,
}
use ti_relay_trader.Sync.Rejections.{
  process_rejected_order_reply, write_event, updated, appended, is_submission,
  reply_gateway_order_id, is_refusal, process_reply,
}

-- The row is of the order of an account, rejected and terminal.
abbrev pub is_rejected_row : String → String → Order → Bool
is_rejected_row account gateway o =
    str_eq o.account_id (trim_space account)
    && str_eq o.gateway_order_id (trim_space gateway)
    && is_rejected o.status
    && o.is_terminal

-- The event rejects the order.
Rejects : String → String → OrderEvent → Type 0
Rejects account gateway e =
    (e.account_id ≡ trim_space account)
    × (e.gateway_order_id ≡ trim_space gateway)
    × (e.status ≡ OrderStatus.rejected)
    × (e.is_terminal ≡ true)

same_choice : {A : Type 0} (b : Bool) (x : A) → (if b then x else x) ≡ x
same_choice true x = refl
same_choice false x = refl

normalize_rejected :
    (e : EntryEnvelope) (gateway code text id : String)
    → IfOk
        (normalize_order_event (rejected_order_event e gateway code text id))
        (Rejects e.routing.account_id gateway)
unfolding normalize_order_event rejected_order_event Rejects trim_event settle_event
    normalize_order_execution_state quantity_complete gateway_status_for_order_status
    order_status_terminal
normalize_rejected e gateway code text id =
    IfOk-bind (date_event (trim_event (rejected_order_event e gateway code text id))) _ (λ date.
      IfOk-bind
        (guard
          (not (is_blank (trim_event (rejected_order_event e gateway code text id)).account_id)) _)
        _
        (λ _.
          IfOk-bind
            (guard
              (not (
                is_blank
                  (trim_event (rejected_order_event e gateway code text id)).gateway_order_id))
              _)
            _
            (λ _. IfOk-ok _ (
              ap trim_space (same_choice (is_blank e.routing.account_id) e.routing.account_id),
              ap trim_space (same_choice (is_blank gateway) gateway),
              refl,
              refl,
            ))))

rejected_columns :
    (account gateway : String) (e : OrderEvent) (o : Order)
    → e.account_id ≡ trim_space account
    → e.gateway_order_id ≡ trim_space gateway
    → e.status ≡ OrderStatus.rejected
    → e.is_terminal ≡ true
    → is_order_of e o ≡ true
    → (str_eq o.account_id (trim_space account)
        && str_eq o.gateway_order_id (trim_space gateway)
        && is_rejected (if o.is_terminal && not e.is_terminal then o.status else e.status)
        && (o.is_terminal || e.is_terminal))
      ≡ true
rejected_columns account gateway e o a g s t h =
    let ids : (str_eq o.account_id (trim_space account) ≡ true)
        × (str_eq o.gateway_order_id (trim_space gateway) ≡ true) =
      (
        ap (str_eq o.account_id) (sym a) ∙ ground (arith, h),
        ap (str_eq o.gateway_order_id) (sym g) ∙ ground (arith, h),
      ) in
    rw (s, t) (ground (arith, ids.0, ids.1))

-- The event makes a row of its order rejected.
apply_rejected :
    (db : Database) (account gateway : String) (e : OrderEvent) (o : Order)
    → Rejects account gateway e
    → is_order_of e o ≡ true
    → IfOk (apply_event db e o) (λ row. is_rejected_row account gateway row ≡ true)
unfolding apply_event Rejects
apply_rejected db account gateway e o (a, g, s, t) h =
    IfOk-bind (average_or db o.avg_fill_price e.order.avg_fill_price) _ (λ average.
      IfOk-bind (greatest_fee db o.fee e.order.fee) _
        (λ fee. IfOk-ok _ (rejected_columns account gateway e o a g s t h)))

put_row-any :
    (test picks : Order → Bool) (row old : Order) (os : List Order)
    → find_first picks os ≡ some old
    → test row ≡ true
    → any test (put_row picks row os) ≡ true
unfolding put_row
put_row-any test picks row old [] found t = cc
put_row-any test picks row old (o ∷ os) found t = elim (Bool-cases (picks o)) [
  | inl e ↦ rw e (ground (arith, t))
  | inr e ↦ rw e (ground (arith, put_row-any test picks row old os (ground (arith, e, found)) t))
]

-- The tables have the rejected row.
abbrev pub HasRejected : String → String → Store → Type 0
HasRejected account gateway s = any (is_rejected_row account gateway) s.orders ≡ true

update_rejected :
    (db : Database) (account gateway : String) (e : OrderEvent) (s : Store) (r : Option Order)
    → Rejects account gateway e
    → find_first (is_order_of e) s.orders ≡ r
    → IfOk (update_found db e s r) (HasRejected account gateway)
update_rejected db account gateway e s none h f = IfOk-err order_not_found
update_rejected db account gateway e s (some o) h f =
    IfOk-step (apply_event db e o) _
      (apply_rejected db account gateway e o h (find_first-picks (is_order_of e) s.orders o f))
      (λ row there. IfOk-bind (guard (row_allowed row) backend) _ (λ _.
        IfOk-ok _
          (put_row-any (is_rejected_row account gateway) (is_order_of e) row o s.orders f there)))

append_rejected :
    (db : Database) (account gateway : String) (given : OrderEvent) (stream : StreamRef)
    (source : SourceRef) (s : Store)
    → HasRejected account gateway s
    → IfOk (append_order_event db given stream source s) (HasRejected account gateway)
unfolding append_order_event
append_rejected db account gateway given stream source s there =
    IfOk-bind (normalize_order_event given) _ (λ e.
      IfOk-bind
        (guard (is_listed_status e.status && is_listed_gateway_status e.gateway_status) backend) _
        (λ _. elim (Bool-cases (any (event_conflicts (event_row e stream source)) s.order_events)) [
          | inl known ↦ rw known (IfOk-ok s there)
          | inr fresh ↦
              rw fresh
                (IfOk-bind (guard (any (is_order_of e) s.orders) backend) _ (λ _. IfOk-ok _ there))
        ]))

IfGoing-updated :
    (n : ℕ) (P : Store → Type 0) (r : LedgerProcessResult) (s : Store) (m : Result Store)
    → r.ledger_errors ≡ n
    → IfOk m P
    → IfGoing n P (updated r s m)
IfGoing-updated n P r s (ok s') c h = (c, h.at s' refl)
IfGoing-updated n P r s (err e) c h = omega (arith, c)

IfGoing-appended :
    (n : ℕ) (P : Store → Type 0) (r : LedgerProcessResult) (s : Store) (m : Result Store)
    → r.ledger_errors ≡ n
    → IfOk m P
    → IfGoing n P (appended r s m)
IfGoing-appended n P r s (ok s') c h = (c, h.at s' refl)
IfGoing-appended n P r s (err e) c h = omega (arith, c)

process_rejected_order_reply-HasRejected :
    (w : Surroundings) (d : Decoders) (e : EntryEnvelope) (r : LedgerProcessResult) (s : Store)
    → is_submission e ≡ true
    → is_empty e.routing.account_id ≡ false
    → is_empty (reply_gateway_order_id d e) ≡ false
    → Outcome r.ledger_errors
        (HasRejected e.routing.account_id (reply_gateway_order_id d e))
        (end (process_rejected_order_reply w d e r s))
unfolding process_rejected_order_reply write_event update_order_status
process_rejected_order_reply-HasRejected w d e r s sub a g =
    let n = r.ledger_errors in
    let gateway = reply_gateway_order_id d e in
    let (code, text) = order_error_info d e in
    let event = rejected_order_event e gateway code text e.message_id in
    let P = HasRejected e.routing.account_id gateway in
    rw (sub, a, g)
      (Outcome-end n P _ (
        IfGoing-and_then n P P (updated r s (update_order_status w.database event s)) _
          (IfGoing-updated n P r s _ refl (
            IfOk-step (normalize_order_event event) _
              (normalize_rejected e gateway code text e.message_id)
              (λ x h.
                update_rejected w.database e.routing.account_id gateway x s
                  (find_first (is_order_of x) s.orders) h refl)))
          (λ r' s' c there. IfGoing-appended n P r' s' _ c (
            append_rejected w.database e.routing.account_id gateway event (stream_ref e)
              (source_ref e) s' there))))

submission :
    (e : EntryEnvelope)
    → e.action ≡ action_order_submit
    → (str_eq e.action action_order_batch_submit ≡ false) × (is_submission e ≡ true)
submission e h = rw h (refl, refl)

refusing :
    (e : EntryEnvelope) → (e.status ≡ "rejected") ⊎ (e.status ≡ "failed") → is_refusal e ≡ true
refusing e (inl h) = rw h refl
refusing e (inr h) = rw h refl

-- The codes that say that the outcome of the command is not known.
abbrev pub IsUnknown : Decoders → EntryEnvelope → Type 0
IsUnknown d e =
    let code = trim_space (order_error_info d e).0 in
    (code ≡ "BROKER_NOT_READY") ⊎ (code ≡ "COMMAND_OUTCOME_UNKNOWN")

indeterminate_iff :
    (d : Decoders) (e : EntryEnvelope) → (is_indeterminate_command_error d e ≡ true) ↔ IsUnknown d e
unfolding is_indeterminate_command_error
indeterminate_iff d e =
    let code = trim_space (order_error_info d e).0 in
    let (b, b') = eq_iff code "BROKER_NOT_READY" in
    let (c, c') = eq_iff code "COMMAND_OUTCOME_UNKNOWN" in
    (λ h. ground (arith, h, b, c), λ h. ground (arith, h, b', c'))

known_outcome :
    (d : Decoders) (e : EntryEnvelope)
    → is_indeterminate_command_error d e ≡ false
    → ¬ IsUnknown d e
known_outcome d e h u = true≢false (sym ((indeterminate_iff d e).1 u) ∙ h)

-- What a refusing reply does to its order: where the code says that the outcome of the command is not known,
-- nothing, and no error is counted; where it does not, the order is rejected, or a failed call is counted.
abbrev pub Refuses : Decoders → EntryEnvelope → ℕ → Store → LedgerProcessResult × Store → Type 0
Refuses d e n s (r', s') =
    (IsUnknown d e × (s' ≡ s) × (r'.ledger_errors ≡ n))
    ⊎ ((¬ IsUnknown d e)
        × Outcome n (HasRejected e.routing.account_id (reply_gateway_order_id d e)) (r', s'))

-- A reply that refuses the submission of one order, with the ids of its account and its order, leaves the
-- tables as they are and counts no error if its code is BROKER_NOT_READY or COMMAND_OUTCOME_UNKNOWN.
-- With any other code a failed call is counted, a missing order among them, or the order stands in the
-- tables as rejected and terminal, under the account and the order id of the reply, both trimmed.
pub process_reply-Refuses :
    (w : Surroundings) (d : Decoders) (pages : LedgerProcessResult → Store → Progress)
    (e : EntryEnvelope) (r : LedgerProcessResult) (s : Store)
    → e.action ≡ action_order_submit
    → (e.status ≡ "rejected") ⊎ (e.status ≡ "failed")
    → is_empty e.routing.account_id ≡ false
    → is_empty (reply_gateway_order_id d e) ≡ false
    → Refuses d e r.ledger_errors s (end (process_reply w d pages e r s))
unfolding process_reply
process_reply-Refuses w d pages e r s action status a g =
    let (single, sub) = submission e action in
    let refused = refusing e status in
    elim (Bool-cases (is_indeterminate_command_error d e)) [
      | inl unknown ↦
          rw (single, refused, unknown) (inl ((indeterminate_iff d e).0 unknown, refl, refl))
      | inr known ↦
          rw (single, refused, known)
            (inr
              (known_outcome d e known, process_rejected_order_reply-HasRejected w d e r s sub a g))
    ]
