-- ===== src/Ledger/OrderEvents/Replays.antt =====
-- An event of a stream that is delivered again, in internal/ledger/repository.go.
use ti_relay_trader.Prelude.{
  true, false, ◌≡◌, ◌∙◌, ◌&&◌, inl, inr, List, [], ◌∷◌, ◌++◌, any, any-append, Bool-cases, arith,
  eq_refl,
}
use ti_relay_trader.Text.{is_empty, trim_space}
use ti_relay_trader.Errors.{
  Result, ok, err, guard, ◌>>=◌, backend, IfOk, IfOk-ok, IfOk-guard, IfOk-bind,
}
use ti_relay_trader.Trading.Schema.{OrderEvent}
use ti_relay_trader.Ledger.Store.{Store, Database, StreamRef, SourceRef, OrderEventRow}
use ti_relay_trader.Ledger.Orders.{is_listed_status, is_listed_gateway_status}
use ti_relay_trader.Ledger.OrderEvents.{
  append_order_event, normalize_order_event, append_row, is_order_of, event_row, event_conflicts,
}

event_conflicts_self :
    (e : OrderEvent) (stream : StreamRef) (source : SourceRef)
    → is_empty (trim_space stream.key) ≡ false
    → is_empty (trim_space stream.id) ≡ false
    → let row = event_row e stream source in event_conflicts row row ≡ true
event_conflicts_self e stream source k i =
    ground (arith, k, i, eq_refl (trim_space stream.key), eq_refl (trim_space stream.id))

-- The test that the row is there, on the table with the row at its end.
recorded-append :
    (row : OrderEventRow) (rows : List OrderEventRow)
    → event_conflicts row row ≡ true
    → any (event_conflicts row) (rows ++ (row ∷ [])) ≡ true
recorded-append row rows h = any-append (event_conflicts row) rows (row ∷ []) ∙ ground (arith, h)

append_row-append_row :
    (e : OrderEvent) (row : OrderEventRow) (s : Store)
    → event_conflicts row row ≡ true
    → IfOk (append_row e row s) (λ s'. append_row e row s' ≡ ok s')
append_row-append_row e row s self =
    IfOk-guard (is_listed_status e.status && is_listed_gateway_status e.gateway_status) backend _
      (λ listed. elim (Bool-cases (any (event_conflicts row) s.order_events)) [
        | inl known ↦ rw known (IfOk-ok s (rw (listed, known)))
        | inr fresh ↦ rw fresh (
            IfOk-bind (guard (any (is_order_of e) s.orders) backend) _
              (λ _. IfOk-ok _ (rw (listed, recorded-append row s.order_events self))))
      ])

append_normalized :
    (r : Result OrderEvent) (stream : StreamRef) (source : SourceRef) (s s' : Store)
    → is_empty (trim_space stream.key) ≡ false
    → is_empty (trim_space stream.id) ≡ false
    → (r >>= λ e. append_row e (event_row e stream source) s) ≡ ok s'
    → (r >>= λ e. append_row e (event_row e stream source) s') ≡ ok s'
append_normalized (err e) stream source s s' k i h = cc
append_normalized (ok e) stream source s s' k i h =
    (append_row-append_row e (event_row e stream source) s
        (event_conflicts_self e stream source k i)).at
      s' h

-- An event with a stream position that was recorded once is recorded: delivered again, at any time,
-- it changes nothing and is no error.
pub append_order_event-append_order_event :
    (db db' : Database) (given : OrderEvent) (stream : StreamRef) (source : SourceRef)
    (s s' : Store)
    → is_empty (trim_space stream.key) ≡ false
    → is_empty (trim_space stream.id) ≡ false
    → append_order_event db given stream source s ≡ ok s'
    → append_order_event db' given stream source s' ≡ ok s'
unfolding append_order_event
append_order_event-append_order_event db db' given stream source s s' k i h =
    append_normalized (normalize_order_event given) stream source s s' k i h
