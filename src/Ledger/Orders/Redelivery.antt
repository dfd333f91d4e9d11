-- ===== src/Ledger/Orders/Redelivery.antt =====
-- The ON CONFLICT clause of upsertOrderSQL in internal/ledger/sql.go with a row that comes again.
use mathlib.Core.List.{append_assoc}
use ti_relay_trader.Prelude.{
  ℕ, String, Bool, true, false, ◌≡◌, inl, inr, refl, sym, ap, ◌∙◌, ◌||◌, List, [], ◌∷◌, ◌++◌,
  Bool-cases, arith, str_eq, eq_refl, eq_iff,
}
use ti_relay_trader.Prelude.Int.{ℤ}
use ti_relay_trader.Text.{trim_space}
use ti_relay_trader.Time.{Time, unset, at}
use ti_relay_trader.Trading.Schema.{Order, OffsetType, ContextValue}
use ti_relay_trader.Ledger.Store.{OrderEventRow}
use ti_relay_trader.Ledger.Orders.{lookup_text}
use ti_relay_trader.Ledger.Orders.Merge.{
  Context, merge_order, has_entry, greatest, text_or, int_or, time_or, offset_or, reply_key,
  join_contexts,
}

has_entry-join :
    (key : String) (old new : Context)
    → has_entry key (join_contexts old new) ≡ (has_entry key old || has_entry key new)
unfolding join_contexts
has_entry-join key [] new = ground arith
has_entry-join key ((k, v) ∷ old) new = elim (Bool-cases (has_entry k new)) [
  | inl shadowed ↦ elim (Bool-cases (str_eq k key)) [
    | inl same ↦
        let there : has_entry key new ≡ true =
          ap (λ x. has_entry x new) (sym ((eq_iff k key).0 same)) ∙ shadowed in
        rw shadowed (ground (arith, has_entry-join key old new, there, same))
    | inr other ↦ rw shadowed (ground (arith, has_entry-join key old new, other))
  ]
  | inr own ↦ rw own (ground (arith, has_entry-join key old new))
]

has_entry-behind :
    (k : String) (v : ContextValue) (ys xs : Context) → has_entry k (ys ++ ((k, v) ∷ xs)) ≡ true
has_entry-behind k v [] xs = ground (arith, eq_refl k)
has_entry-behind k v ((l, w) ∷ ys) xs = ground (arith, has_entry-behind k v ys xs)

join-behind : (ys xs : Context) → join_contexts xs (ys ++ xs) ≡ ys ++ xs
unfolding join_contexts
join-behind ys [] = refl
join-behind ys ((k, v) ∷ xs) =
    let regroup = append_assoc ys ((k, v) ∷ []) xs in
    rw (has_entry-behind k v ys xs)
      (ap (join_contexts xs) (sym regroup) ∙ join-behind (ys ++ ((k, v) ∷ [])) xs ∙ regroup)

join-join : (old new : Context) → join_contexts (join_contexts old new) new ≡ join_contexts old new
unfolding join_contexts
join-join [] new = join-behind [] new
join-join ((k, v) ∷ old) new = elim (Bool-cases (has_entry k new)) [
  | inl shadowed ↦ rw shadowed (join-join old new)
  | inr own ↦ rw (own, own, join-join old new) refl
]

greatest-greatest : (x y : ℤ) → greatest (greatest x y) y ≡ greatest x y
greatest-greatest x y = ground arith

int_or-int_or : (x y : ℤ) → int_or x (int_or x y) ≡ int_or x y
int_or-int_or x y = ground arith

text_or-text_or : (x y : String) → text_or x (text_or x y) ≡ text_or x y
text_or-text_or x y = ground arith

kept_text : (x y : String) → text_or (text_or x y) y ≡ text_or x y
kept_text x y = ground arith

time_or-time_or : (x y : Time) → time_or x (time_or x y) ≡ time_or x y
time_or-time_or unset y = refl
time_or-time_or (at n) y = refl

time_or-at :
    (a b c d : Time) (n : ℕ)
    → time_or a (time_or (time_or a (time_or b (time_or c (at n)))) d)
      ≡ time_or a (time_or b (time_or c (at n)))
time_or-at (at m) b c d n = refl
time_or-at unset (at m) c d n = refl
time_or-at unset unset (at m) d n = refl
time_or-at unset unset unset d n = refl

offset_or-offset_or : (x y : OffsetType) → offset_or x (offset_or x y) ≡ offset_or x y
offset_or-offset_or (OffsetType.other s) y = ground arith
offset_or-offset_or OffsetType.open_position y = refl
offset_or-offset_or OffsetType.close_position y = refl

-- A second write of the same row, which is no page of a reply, on the row after the first write.
module _ (now : ℕ) (again : Time) (events events' : List OrderEventRow) (no_average : Bool)
    (old new : Order) (plain : has_entry reply_key new.adapter_context ≡ false) where
  abbrev once : Order
  once = merge_order (at now) events no_average old new

  abbrev twice : Order
  twice = merge_order again events' no_average once new

  twice_submitted_qty : twice.submitted_qty ≡ once.submitted_qty
  unfolding merge_order
  twice_submitted_qty = rw plain (greatest-greatest old.submitted_qty new.submitted_qty)

  twice_cancelled_qty : twice.cancelled_qty ≡ once.cancelled_qty
  unfolding merge_order
  twice_cancelled_qty = rw plain (greatest-greatest old.cancelled_qty new.cancelled_qty)

  twice_invalid_qty : twice.invalid_qty ≡ once.invalid_qty
  unfolding merge_order
  twice_invalid_qty = rw plain (greatest-greatest old.invalid_qty new.invalid_qty)

  twice_cum_filled_qty : twice.cum_filled_qty ≡ once.cum_filled_qty
  unfolding merge_order
  twice_cum_filled_qty =
      ground (arith, plain, greatest-greatest old.cum_filled_qty new.cum_filled_qty)

  twice_leaves_qty : twice.leaves_qty ≡ once.leaves_qty
  unfolding merge_order
  twice_leaves_qty = ground (arith, plain)

  twice_avg_fill_price : twice.avg_fill_price ≡ once.avg_fill_price
  unfolding merge_order
  twice_avg_fill_price = ground (arith, plain)

  twice_fee : twice.fee ≡ once.fee
  unfolding merge_order
  twice_fee =
      ground (arith, plain, has_entry-join "fee_record_id" old.adapter_context new.adapter_context)

  twice_status : twice.status ≡ once.status
  unfolding merge_order
  twice_status = ground (arith, plain)

  twice_gateway_status : twice.gateway_status ≡ once.gateway_status
  unfolding merge_order
  twice_gateway_status = ground (arith, plain)

  twice_adapter_status_code : twice.adapter_status_code ≡ once.adapter_status_code
  unfolding merge_order
  twice_adapter_status_code =
      rw plain (int_or-int_or new.adapter_status_code old.adapter_status_code)

  twice_adapter_status_name : twice.adapter_status_name ≡ once.adapter_status_name
  unfolding merge_order
  twice_adapter_status_name =
      rw plain (text_or-text_or new.adapter_status_name old.adapter_status_name)

  twice_is_terminal : twice.is_terminal ≡ once.is_terminal
  unfolding merge_order
  twice_is_terminal = ground (arith, plain)

  twice_reject_code : twice.reject_code ≡ once.reject_code
  unfolding merge_order
  twice_reject_code = ground (arith, plain)

  twice_reject_message : twice.reject_message ≡ once.reject_message
  unfolding merge_order
  twice_reject_message = ground (arith, plain)

  twice_terminal_at : twice.terminal_at ≡ once.terminal_at
  unfolding merge_order
  twice_terminal_at = elim (Bool-cases new.is_terminal) [
    | inl ended ↦ ground (
      arith,
      plain,
      ended,
      time_or-at new.terminal_at old.terminal_at new.last_updated_at
          (time_or new.last_updated_at again) now,
    )
    | inr going ↦ ground (arith, plain, going)
  ]

  twice_adapter_context : twice.adapter_context ≡ once.adapter_context
  unfolding merge_order
  twice_adapter_context = rw plain (join-join old.adapter_context new.adapter_context)

  twice_counter_session_id : twice.counter_session_id ≡ once.counter_session_id
  unfolding merge_order
  twice_counter_session_id = rw plain (
      ap (λ c. trim_space (lookup_text "counter_session_id" c))
        (join-join old.adapter_context new.adapter_context))

-- A row that is merged again into what the first merge made of it, at any time and whatever events were
-- recorded in between, changes nothing, where it is of no page of a reply.
pub merge_order-merge_order :
    (now : ℕ) (again : Time) (events events' : List OrderEventRow) (no_average : Bool)
    (old new : Order)
    → has_entry reply_key new.adapter_context ≡ false
    → merge_order again events' no_average (merge_order (at now) events no_average old new) new
      ≡ merge_order (at now) events no_average old new
unfolding merge_order
merge_order-merge_order now again events events' no_average old new plain = λ i. record {
  account_id = old.account_id;
  client_order_id = text_or-text_or new.client_order_id old.client_order_id i;
  gateway_order_id = old.gateway_order_id;
  order_id = int_or-int_or new.order_id old.order_id i;
  order_stream_id = text_or-text_or new.order_stream_id old.order_stream_id i;
  counter_session_id = twice_counter_session_id now again events events' no_average old new plain i;
  trade_date = old.trade_date;
  symbol = new.symbol;
  name = new.name;
  exchange = new.exchange;
  trade_side = new.trade_side;
  business_type = new.business_type;
  offset_type = offset_or-offset_or new.offset_type old.offset_type i;
  limit_price = new.limit_price;
  order_qty = new.order_qty;
  submitted_qty = twice_submitted_qty now again events events' no_average old new plain i;
  cum_filled_qty = twice_cum_filled_qty now again events events' no_average old new plain i;
  leaves_qty = twice_leaves_qty now again events events' no_average old new plain i;
  cancelled_qty = twice_cancelled_qty now again events events' no_average old new plain i;
  invalid_qty = twice_invalid_qty now again events events' no_average old new plain i;
  avg_fill_price = twice_avg_fill_price now again events events' no_average old new plain i;
  fee = twice_fee now again events events' no_average old new plain i;
  status = twice_status now again events events' no_average old new plain i;
  gateway_status = twice_gateway_status now again events events' no_average old new plain i;
  adapter_status_code =
      twice_adapter_status_code now again events events' no_average old new plain i;
  adapter_status_name =
      twice_adapter_status_name now again events events' no_average old new plain i;
  is_terminal = twice_is_terminal now again events events' no_average old new plain i;
  reject_code = twice_reject_code now again events events' no_average old new plain i;
  reject_message = twice_reject_message now again events events' no_average old new plain i;
  origin_message_id = kept_text old.origin_message_id new.origin_message_id i;
  request_id = kept_text old.request_id new.request_id i;
  idempotency_key = kept_text old.idempotency_key new.idempotency_key i;
  shareholder_id = text_or-text_or new.shareholder_id old.shareholder_id i;
  strategy_type = text_or-text_or new.strategy_type old.strategy_type i;
  strategy_id = text_or-text_or new.strategy_id old.strategy_id i;
  basket_id = text_or-text_or new.basket_id old.basket_id i;
  parent_order_id = text_or-text_or new.parent_order_id old.parent_order_id i;
  t0_order_group_id = text_or-text_or new.t0_order_group_id old.t0_order_group_id i;
  created_at = new.created_at;
  accepted_at = time_or-time_or new.accepted_at old.accepted_at i;
  inserted_at = time_or-time_or new.inserted_at old.inserted_at i;
  last_updated_at = time_or-time_or new.last_updated_at old.last_updated_at i;
  terminal_at = twice_terminal_at now again events events' no_average old new plain i;
  adapter_context = twice_adapter_context now again events events' no_average old new plain i;
}
