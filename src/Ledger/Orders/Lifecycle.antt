-- ===== src/Ledger/Orders/Lifecycle.antt =====
-- How the rows of orders change under the writes of internal/ledger/repository.go.
use ti_relay_trader.Prelude.{
  String, ap, Bool, true, false, not, ◌≡◌, ◌⊎◌, inl, inr, refl, sym, subst, ◌∙◌, ◌||◌, some, List,
  [], ◌∷◌, ◌++◌, find_first, Bool-cases, arith,
}
use ti_relay_trader.Prelude.Int.{ℤ, ◌≤ℤ◌}
use ti_relay_trader.Text.{is_empty}
use ti_relay_trader.Time.{Time}
use ti_relay_trader.Trading.Schema.{Order}
use ti_relay_trader.Ledger.Store.{OrderEventRow}
use ti_relay_trader.Ledger.Orders.Merge.{merge_order, text_or, has_entry, greatest, reply_key}
use ti_relay_trader.Ledger.Orders.Upsert.{put_row}

-- A text that is there is the same afterwards.
abbrev Stays : String → String → Type 0
Stays old new = (is_empty old ≡ true) ⊎ (new ≡ old)

-- A text is the same afterwards, or another one that is not empty.
abbrev IsNotLost : String → String → Type 0
IsNotLost old new = (is_empty new ≡ false) ⊎ (new ≡ old)

-- A row after some writes: its account, trade date and gateway order id are the same, its idempotency key
-- is if it had one, a client order id is not lost, a terminal order is terminal, and the submitted, cancelled
-- and invalid quantities have not shrunk, nor the filled one up to the end of the order.
pub record Advances (old new : Order) : Type 0 where
  pub account : new.account_id ≡ old.account_id
  pub gateway_order : new.gateway_order_id ≡ old.gateway_order_id
  pub dated : new.trade_date ≡ old.trade_date
  pub keyed : Stays old.idempotency_key new.idempotency_key
  pub client_order : IsNotLost old.client_order_id new.client_order_id
  pub stays_terminal : (not old.is_terminal || new.is_terminal) ≡ true
  pub submitted : old.submitted_qty ≤ℤ new.submitted_qty
  pub cancelled : old.cancelled_qty ≤ℤ new.cancelled_qty
  pub invalid : old.invalid_qty ≤ℤ new.invalid_qty
  pub filled : (old.cum_filled_qty ≤ℤ new.cum_filled_qty) ⊎ (new.is_terminal ≡ true)

Advances-refl : (o : Order) → Advances o o
Advances-refl o = record {
  account = refl;
  gateway_order = refl;
  dated = refl;
  keyed = inr refl;
  client_order = inr refl;
  stays_terminal = ground arith;
  submitted = omega arith;
  cancelled = omega arith;
  invalid = omega arith;
  filled = inl (omega arith);
}

filled_trans :
    (o p q : Order)
    → (not p.is_terminal || q.is_terminal) ≡ true
    → (o.cum_filled_qty ≤ℤ p.cum_filled_qty) ⊎ (p.is_terminal ≡ true)
    → (p.cum_filled_qty ≤ℤ q.cum_filled_qty) ⊎ (q.is_terminal ≡ true)
    → (o.cum_filled_qty ≤ℤ q.cum_filled_qty) ⊎ (q.is_terminal ≡ true)
filled_trans o p q stays (inl a) (inl b) = inl (omega (arith, a, b))
filled_trans o p q stays a (inr b) = inr b
filled_trans o p q stays (inr a) (inl b) = inr (ground (arith, stays, a))

Stays-trans : (x y z : String) → Stays x y → Stays y z → Stays x z
Stays-trans x y z (inl e) b = inl e
Stays-trans x y z (inr e) (inl f) = inl (ap is_empty (sym e) ∙ f)
Stays-trans x y z (inr e) (inr f) = inr (f ∙ e)

IsNotLost-trans : (x y z : String) → IsNotLost x y → IsNotLost y z → IsNotLost x z
IsNotLost-trans x y z a (inl f) = inl f
IsNotLost-trans x y z (inl e) (inr f) = inl (ap is_empty f ∙ e)
IsNotLost-trans x y z (inr e) (inr f) = inr (f ∙ e)

Advances-trans : (o p q : Order) → Advances o p → Advances p q → Advances o q
Advances-trans o p q a b = record {
  account = b.account ∙ a.account;
  gateway_order = b.gateway_order ∙ a.gateway_order;
  dated = b.dated ∙ a.dated;
  keyed = Stays-trans o.idempotency_key p.idempotency_key q.idempotency_key a.keyed b.keyed;
  client_order =
      IsNotLost-trans o.client_order_id p.client_order_id q.client_order_id a.client_order
        b.client_order;
  stays_terminal = ground (arith, a.stays_terminal, b.stays_terminal);
  submitted = omega (arith, a.submitted, b.submitted);
  cancelled = omega (arith, a.cancelled, b.cancelled);
  invalid = omega (arith, a.invalid, b.invalid);
  filled = filled_trans o p q b.stays_terminal a.filled b.filled;
}

pub greatest-le : (x y : ℤ) → x ≤ℤ greatest x y
greatest-le x y = ground arith

pub text_or-Stays : (old new : String) → Stays old (text_or old new)
text_or-Stays old new = elim (Bool-cases (is_empty old)) [ inl e ↦ inl e | inr e ↦ inr (rw e refl) ]

pub text_or-IsNotLost : (old new : String) → IsNotLost old (text_or new old)
text_or-IsNotLost old new = elim (Bool-cases (is_empty new)) [
  | inl e ↦ inr (rw e refl)
  | inr e ↦ inl (rw e e)
]

-- A write that is no page of a reply advances the row.
pub merge_order-Advances :
    (now : Time) (events : List OrderEventRow) (no_average : Bool) (old new : Order)
    → has_entry reply_key new.adapter_context ≡ false
    → Advances old (merge_order now events no_average old new)
unfolding merge_order
merge_order-Advances now events no_average old new h = record {
  account = refl;
  gateway_order = refl;
  dated = refl;
  keyed = text_or-Stays old.idempotency_key new.idempotency_key;
  client_order = text_or-IsNotLost old.client_order_id new.client_order_id;
  stays_terminal = ground (arith, h);
  submitted = rw h (greatest-le old.submitted_qty new.submitted_qty);
  cancelled = rw h (greatest-le old.cancelled_qty new.cancelled_qty);
  invalid = rw h (greatest-le old.invalid_qty new.invalid_qty);
  filled = elim (Bool-cases new.is_terminal) [
    | inl ended ↦ inr (ground (arith, h, ended))
    | inr going ↦ inl (rw (h, going) (greatest-le old.cum_filled_qty new.cum_filled_qty))
  ];
}

-- The rows advance one by one, and there may be more behind them.
abbrev pub Evolves : List Order → List Order → Type 0
Evolves [] qs = Unit
Evolves (o ∷ os) [] = ⊥
Evolves (o ∷ os) (q ∷ qs) = Advances o q × Evolves os qs

pub Evolves-refl : (os : List Order) → Evolves os os
Evolves-refl [] = tt
Evolves-refl (o ∷ os) = (Advances-refl o, Evolves-refl os)

pub Evolves-trans : (os ps qs : List Order) → Evolves os ps → Evolves ps qs → Evolves os qs
Evolves-trans [] ps qs a b = tt
Evolves-trans (o ∷ os) [] qs a b = absurd a
Evolves-trans (o ∷ os) (p ∷ ps) [] a b = absurd b
Evolves-trans (o ∷ os) (p ∷ ps) (q ∷ qs) (a, as') (b, bs) =
    (Advances-trans o p q a b, Evolves-trans os ps qs as' bs)

pub Evolves-append : (os qs : List Order) → Evolves os (os ++ qs)
Evolves-append [] qs = tt
Evolves-append (o ∷ os) qs = (Advances-refl o, Evolves-append os qs)

pub put_row-Evolves :
    (picks : Order → Bool) (old new : Order) (os : List Order)
    → find_first picks os ≡ some old
    → Advances old new
    → Evolves os (put_row picks new os)
unfolding put_row
put_row-Evolves picks old new [] found a = tt
put_row-Evolves picks old new (o ∷ os) found a = elim (Bool-cases (picks o)) [
  | inl e ↦
      let same : o ≡ old = ground (arith, e, found) in
      rw e (subst (λ p. Advances p new) (sym same) a, Evolves-refl os)
  | inr e ↦ rw e (Advances-refl o, put_row-Evolves picks old new os (ground (arith, e, found)) a)
]
