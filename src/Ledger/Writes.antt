-- ===== src/Ledger/Writes.antt =====
-- The writes of orders of internal/ledger/repository.go in a row, as the synchronisation and the order
-- service make them.
use ti_relay_trader.Prelude.{
  Bool, true, false, not, ◌≡◌, refl, sym, ap, subst, ◌∙◌, ◌&&◌, inl, inr, Option, none, some, List,
  [], ◌∷◌, find_first, Bool-cases, arith, All, any,
}
use ti_relay_trader.Errors.{
  Result, ok, err, guard, backend, IfOk, IfOk-ok, IfOk-err, IfOk-bind, IfOk-guard, IfOk-step,
}
use ti_relay_trader.Trading.Schema.{Order, OrderEvent}
use ti_relay_trader.Ledger.Store.{Store, Database, StreamRef, SourceRef}
use ti_relay_trader.Ledger.Orders.{
  normalize_order, order_row, row_allowed, create_order, micro, conflicts, is_account,
  is_listed_status, is_listed_gateway_status,
}
use ti_relay_trader.Ledger.Orders.Laws.{
  create_order-Inserted, normalize_order_context, order_row_context,
}
use ti_relay_trader.Ledger.Orders.Merge.{merge_order, has_entry, reply_key}
use ti_relay_trader.Ledger.Orders.Upsert.{
  upsert_order, insert_or_merge, same_identity, conflicts_elsewhere,
}
use ti_relay_trader.Ledger.Orders.Lifecycle.{
  Advances, Evolves, Evolves-refl, Evolves-trans, Evolves-append, put_row-Evolves,
  merge_order-Advances, greatest-le,
}
use ti_relay_trader.Ledger.OrderEvents.{
  apply_event, update_found, update_order_status, append_order_event, normalize_order_event,
  is_order_of, event_row, average_or, greatest_fee, event_conflicts,
}

pub data Write : Type 0 where
  create upsert : Database → Order → Write
  update : Database → OrderEvent → Write
  record_event : Database → OrderEvent → StreamRef → SourceRef → Write

unfoldable pub write : Write → Store → Result Store
write (create db o) s = create_order db o s
write (upsert db o) s = upsert_order db o s
write (update db e) s = update_order_status db e s
write (record_event db e stream source) s = append_order_event db e stream source s

abbrev pub or_unchanged : Store → Result Store → Store
or_unchanged s (ok s') = s'
or_unchanged s (err e) = s

-- A write that fails leaves the tables as they are.
unfoldable pub run_writes : List Write → Store → Store
run_writes [] s = s
run_writes (w ∷ ws) s = run_writes ws (or_unchanged s (write w s))

-- An upsert of an order from a page of a reply may take back what is there.
unfoldable pub is_plain : Write → Bool
is_plain (upsert db o) = not (has_entry reply_key o.adapter_context)
is_plain w = true

apply_event-Advances :
    (db : Database) (e : OrderEvent) (o : Order) → IfOk (apply_event db e o) (Advances o)
unfolding apply_event
apply_event-Advances db e o =
    IfOk-bind (average_or db o.avg_fill_price e.order.avg_fill_price) _ (λ average.
      IfOk-bind (greatest_fee db o.fee e.order.fee) _ (λ fee. IfOk-ok _ (record {
        account = refl;
        gateway_order = refl;
        dated = refl;
        keyed = inr refl;
        client_order = inr refl;
        stays_terminal = ground arith;
        submitted = greatest-le o.submitted_qty e.order.submitted_qty;
        cancelled = greatest-le o.cancelled_qty e.order.cancelled_qty;
        invalid = greatest-le o.invalid_qty e.order.invalid_qty;
        filled = elim (Bool-cases e.is_terminal) [
          | inl ended ↦ inr (ground (arith, ended))
          | inr going ↦ inl (rw going (greatest-le o.cum_filled_qty e.order.cum_filled_qty))
        ];
      })))

-- A later store, as far as the rows of orders go.
abbrev pub Later : Store → Store → Type 0
Later s s' = Evolves s.orders s'.orders

update_found-Later :
    (db : Database) (e : OrderEvent) (s : Store) (r : Option Order)
    → find_first (is_order_of e) s.orders ≡ r
    → IfOk (update_found db e s r) (Later s)
update_found-Later db e s none h = IfOk-err _
update_found-Later db e s (some o) h =
    IfOk-step (apply_event db e o) _ (apply_event-Advances db e o) (λ row a.
      IfOk-guard (row_allowed row) backend _
        (λ allowed. IfOk-ok _ (put_row-Evolves (is_order_of e) o row s.orders h a)))

update_order_status-Later :
    (db : Database) (given : OrderEvent) (s : Store)
    → IfOk (update_order_status db given s) (Later s)
unfolding update_order_status
update_order_status-Later db given s =
    IfOk-bind (normalize_order_event given) _
      (λ e. update_found-Later db e s (find_first (is_order_of e) s.orders) refl)

insert_or_merge-Later :
    (db : Database) (no_average : Bool) (row : Order) (s : Store) (r : Option Order)
    → find_first (same_identity row) s.orders ≡ r
    → has_entry reply_key row.adapter_context ≡ false
    → IfOk (insert_or_merge db no_average row s r) (Later s)
insert_or_merge-Later db no_average row s none h plain =
    IfOk-bind (guard (not (any (conflicts row) s.orders)) backend) _ (λ _.
      IfOk-bind (guard (any (is_account row) s.accounts) backend) _
        (λ _. IfOk-ok _ (Evolves-append s.orders (row ∷ []))))
insert_or_merge-Later db no_average row s (some old) h plain =
    let merged = merge_order (micro db.now) s.order_events no_average old row in
    IfOk-bind (guard (row_allowed merged) backend) _ (λ _.
      IfOk-bind (guard (not (conflicts_elsewhere merged s.orders)) backend) _ (λ _. IfOk-ok _ (
        put_row-Evolves (same_identity row) old merged s.orders h
          (merge_order-Advances (micro db.now) s.order_events no_average old row plain))))

upsert_order-Later :
    (db : Database) (given : Order) (s : Store)
    → has_entry reply_key given.adapter_context ≡ false
    → IfOk (upsert_order db given s) (Later s)
unfolding upsert_order
upsert_order-Later db given s plain =
    IfOk-step (normalize_order given) _ (normalize_order_context given) (λ o kept.
      IfOk-step (order_row db o) _ (order_row_context db o) (λ row kept'.
        IfOk-bind (guard (row_allowed row) backend) _ (λ _.
          insert_or_merge-Later db _ row s (find_first (same_identity row) s.orders) refl
            (ap (has_entry reply_key) (kept' ∙ kept) ∙ plain))))

append_order_event-Later :
    (db : Database) (given : OrderEvent) (stream : StreamRef) (source : SourceRef) (s : Store)
    → IfOk (append_order_event db given stream source s) (Later s)
unfolding append_order_event
append_order_event-Later db given stream source s = IfOk-bind (normalize_order_event given) _ (λ e.
    IfOk-bind
      (guard (is_listed_status e.status && is_listed_gateway_status e.gateway_status) backend) _
      (λ _. elim (Bool-cases (any (event_conflicts (event_row e stream source)) s.order_events)) [
        | inl known ↦ rw known (IfOk-ok s (Evolves-refl s.orders))
        | inr fresh ↦ rw fresh (
            IfOk-bind (guard (any (is_order_of e) s.orders) backend) _
              (λ _. IfOk-ok _ (Evolves-refl s.orders)))
      ]))

create_order-Later :
    (db : Database) (given : Order) (s : Store) → IfOk (create_order db given s) (Later s)
create_order-Later db given s = record {
  at = λ s' h.
      let i = create_order-Inserted db given s s' h in
      subst (Evolves s.orders) (sym i.orders) (Evolves-append s.orders (i.row ∷ []));
}

write-Later : (w : Write) (s : Store) → is_plain w ≡ true → IfOk (write w s) (Later s)
unfolding write is_plain
write-Later (create db o) s h = create_order-Later db o s
write-Later (upsert db o) s h = upsert_order-Later db o s (ground (arith, h))
write-Later (update db e) s h = update_order_status-Later db e s
write-Later (record_event db e stream source) s h = append_order_event-Later db e stream source s

or_unchanged-Later : (s : Store) (r : Result Store) → IfOk r (Later s) → Later s (or_unchanged s r)
or_unchanged-Later s (ok s') h = h.at s' refl
or_unchanged-Later s (err e) h = Evolves-refl s.orders

-- Through any run of writes without pages of replies every row of an order stays in its place, with its
-- account id, its trade date and its gateway order id; an idempotency key that it has stays, and a client
-- order id that it has is kept or replaced by one that is not empty. A terminal order stays terminal; the
-- submitted, the cancelled and the invalid quantity do not shrink, and the filled one does so only in a row
-- that is terminal afterwards. New rows come behind.
pub run_writes-Evolves :
    (ws : List Write) (s : Store)
    → All (λ w. is_plain w ≡ true) ws
    → Evolves s.orders (run_writes ws s).orders
unfolding run_writes
run_writes-Evolves [] s h = Evolves-refl s.orders
run_writes-Evolves (w ∷ ws) s (h, hs) =
    let next = or_unchanged s (write w s) in
    Evolves-trans s.orders next.orders (run_writes ws next).orders
      (or_unchanged-Later s (write w s) (write-Later w s h)) (run_writes-Evolves ws next hs)
