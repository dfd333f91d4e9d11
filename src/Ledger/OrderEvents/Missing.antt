-- ===== src/Ledger/OrderEvents/Missing.antt =====
-- When UpdateOrderStatus of internal/ledger/repository.go reports a missing order.
use ti_relay_trader.Prelude.{
  Bool, true, false, ◌≡◌, ◌≢◌, ◌↔◌, refl, sym, ap, ◌∙◌, ◌⊎◌, inl, inr, Option, none, some, List, [],
  ◌∷◌, find_first, any, Bool-cases, arith,
}
use ti_relay_trader.Prelude.Int.{pos}
use ti_relay_trader.Float64.{Float64, finite, eq, lt}
use ti_relay_trader.Errors.{Result, ok, err, guard, ◌>>=◌, backend, order_not_found}
use ti_relay_trader.Trading.Schema.{Order, OrderEvent}
use ti_relay_trader.Ledger.Store.{Store, Database}
use ti_relay_trader.Ledger.Orders.{row_allowed, refuse_number}
use ti_relay_trader.Ledger.OrderEvents.{
  apply_event, update_found, update_order_status, normalize_order_event, is_order_of, average_or,
  greatest_fee,
}

-- The database is the only one to refuse.
abbrev OnlyBackend {ℓ} : {A : Type ℓ} → Result A → Type 0
OnlyBackend (ok a) = Unit
OnlyBackend (err e) = e ≡ backend

refuse_number-OnlyBackend : (n : Option Float64) → OnlyBackend (refuse_number n)
refuse_number-OnlyBackend none = refl
refuse_number-OnlyBackend (some x) = tt

average_or-OnlyBackend :
    (db : Database) (old given : Float64) → OnlyBackend (average_or db old given)
average_or-OnlyBackend db old given = elim (Bool-cases (eq given (finite (pos 0)))) [
  | inl e ↦ rw e tt
  | inr e ↦ rw e (refuse_number-OnlyBackend (db.numeric given))
]

greatest_fee-OnlyBackend :
    (db : Database) (old given : Float64) → OnlyBackend (greatest_fee db old given)
greatest_fee-OnlyBackend db old given = elim (Bool-cases (lt given old)) [
  | inl e ↦ rw e tt
  | inr e ↦ rw e (refuse_number-OnlyBackend (db.numeric given))
]

guard-OnlyBackend : (b : Bool) → OnlyBackend (guard b backend)
guard-OnlyBackend true = tt
guard-OnlyBackend false = refl

OnlyBackend-bind :
    {A B : Type 0} (r : Result A) (f : A → Result B)
    → OnlyBackend r
    → ((a : A) → OnlyBackend (f a))
    → OnlyBackend (r >>= f)
OnlyBackend-bind (ok a) f h k = k a
OnlyBackend-bind (err e) f h k = h

update_found-OnlyBackend :
    (db : Database) (e : OrderEvent) (s : Store) (o : Order)
    → OnlyBackend (update_found db e s (some o))
unfolding apply_event
update_found-OnlyBackend db e s o =
    OnlyBackend-bind (apply_event db e o) _
      (OnlyBackend-bind (average_or db o.avg_fill_price e.order.avg_fill_price) _
        (average_or-OnlyBackend db o.avg_fill_price e.order.avg_fill_price)
        (λ average.
          OnlyBackend-bind (greatest_fee db o.fee e.order.fee) _
            (greatest_fee-OnlyBackend db o.fee e.order.fee) (λ fee. tt)))
      (λ row.
        OnlyBackend-bind (guard (row_allowed row) backend) _ (guard-OnlyBackend (row_allowed row))
          (λ _. tt))

-- The answer is no error, or that of a missing order, or one of the database.
abbrev pub RefusesOnly : {A : Type 0} → Result A → Type 0
RefusesOnly (ok a) = Unit
RefusesOnly (err x) = (x ≡ order_not_found) ⊎ (x ≡ backend)

OnlyBackend-RefusesOnly : {A : Type 0} (r : Result A) → OnlyBackend r → RefusesOnly r
OnlyBackend-RefusesOnly (ok a) h = tt
OnlyBackend-RefusesOnly (err x) h = inr h

update_found-RefusesOnly :
    (db : Database) (e : OrderEvent) (s : Store) (o : Option Order)
    → RefusesOnly (update_found db e s o)
update_found-RefusesOnly db e s none = inl refl
update_found-RefusesOnly db e s (some o) =
    OnlyBackend-RefusesOnly _ (update_found-OnlyBackend db e s o)

not_missing : {A : Type 0} (r : Result A) → OnlyBackend r → r ≢ err order_not_found
not_missing (ok a) h e = cc
not_missing (err x) h e = cc

find_first-none :
    {A : Type 0} (p : A → Bool) (xs : List A) → any p xs ≡ false → find_first p xs ≡ none
find_first-none p [] h = refl
find_first-none p (x ∷ xs) h = ground (arith, h, find_first-none p xs)

find_first-some :
    {A : Type 0} (p : A → Bool) (xs : List A)
    → any p xs ≡ true
    → (x : A) × (find_first p xs ≡ some x)
find_first-some p [] h = cc
find_first-some p (x ∷ xs) h = elim (Bool-cases (p x)) [
  | inl e ↦ (x, ground (arith, e))
  | inr e ↦ let (y, f) = find_first-some p xs (ground (arith, e, h)) in (y, ground (arith, e, f))
]

-- For an event that normalizeOrderEvent accepts, UpdateOrderStatus answers ErrOrderNotFound exactly when
-- no row has its account, its trade date and its gateway order id; any other error that it answers is the
-- database's.
pub update_order_status_missing :
    (db : Database) (given e : OrderEvent) (s : Store)
    → normalize_order_event given ≡ ok e
    → (update_order_status db given s ≡ err order_not_found ↔ any (is_order_of e) s.orders ≡ false)
      × RefusesOnly (update_order_status db given s)
unfolding update_order_status
update_order_status_missing db given e s h = rw h (
  (
    λ q. elim (Bool-cases (any (is_order_of e) s.orders)) [
      | inl there ↦
          let (o, f) = find_first-some (is_order_of e) s.orders there in
          absurd (
            not_missing _ (update_found-OnlyBackend db e s o)
              (ap (update_found db e s) (sym f) ∙ q))
      | inr gone ↦ gone
    ],
    λ gone. ap (update_found db e s) (find_first-none (is_order_of e) s.orders gone),
  ),
  update_found-RefusesOnly db e s (find_first (is_order_of e) s.orders),
)
