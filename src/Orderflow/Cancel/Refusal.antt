-- ===== src/Orderflow/Cancel/Refusal.antt =====
-- CancelOrder of internal/orderflow/service.go, for an order that cannot be cancelled.
use ti_relay_trader.Prelude.{
  String, Bool, true, false, ◌≡◌, refl, ap, ◌∙◌, ◌⊎◌, inl, inr, List, [], ◌∷◌, All, if◌then◌else◌,
}
use ti_relay_trader.Errors.{Error, Result, ok, err, backend, is_archived_command_not_found, ok_inj}
use ti_relay_trader.Trading.Schema.{CancelOrderRequest, Order}
use ti_relay_trader.Trading.Validation.{is_blank}
use ti_relay_trader.Ledger.Store.{Store, RawStreamMessage}
use ti_relay_trader.Ledger.Orders.{get_order}
use ti_relay_trader.Orderflow.World.{
  AccountRoute, Service, Weather, calm, failed, lost, rival, World, M, continue, ◌>>=◌, pure, raise,
  lift, attempt, new_id, meet, meet_under, reading, read_ledger,
}
use ti_relay_trader.Orderflow.Submit.{or_new_id}
use ti_relay_trader.Orderflow.Cancel.{
  with_cancel_id, cancelable, fresh_cancel, archived_cancel, cancel_order,
}
use ti_relay_trader.Orderflow.Safety.{Calm, Calm-raise, Calm-attempt}
use ti_relay_trader.Orderflow.Submit.Commands.{Calm-or_new_id}
use ti_relay_trader.Orderflow.Publications.{Calm-replayed_cancel}
use ti_relay_trader.Orderflow.Safety.Calls.{Calm-read_ledger}

-- No other process inserts an order.
abbrev pub is_own : Weather → Bool
is_own (rival o) = false
is_own _ = true

abbrev pub WithoutRivals : List Weather → Type 0
WithoutRivals = All (λ x. is_own x ≡ true)

-- The world has the store, and no other process changes it.
abbrev At : Store → World → Type 0
At s w = (w.store ≡ s) × WithoutRivals w.weather

meet_under-At :
    (s : Store) (service : Service) (w : World) (ws : List Weather)
    → w.store ≡ s
    → WithoutRivals ws
    → WithoutRivals w.weather
    → At s (meet_under service w ws).1
meet_under-At s service w [] e o h = (e, h)
meet_under-At s service w (calm ∷ ws) e o h = (e, o.1)
meet_under-At s service w (failed ∷ ws) e o h = (e, o.1)
meet_under-At s service w (lost ∷ ws) e o h = (e, o.1)
meet_under-At s service w (rival x ∷ ws) e o h = cc

meet-At : (s : Store) (service : Service) (w : World) → At s w → At s (meet service w).1
unfolding meet
meet-At s service w h = meet_under-At s service w w.weather h.0 h.1 h.1

record Steady {A : Type 0} (s : Store) (m : M A) : Type 0 where
  at : (w : World) → At s w → At s (m w).1

record QuietAt {A : Type 0} (s : Store) (m : M A) : Type 0 where
  at : (w : World) → At s w → (m w).1.published ≡ w.published

module _ {A B : Type 0} {s : Store} where
  QuietAt-bind_lift :
      (r : Result A) (f : A → M B) → ((a : A) → QuietAt s (f a)) → QuietAt s (lift r >>= f)
  unfolding ◌>>=◌ lift
  QuietAt-bind_lift (ok a) f c = record { at = (c a).at }
  QuietAt-bind_lift (err e) f c = record { at = λ w h. refl }

  QuietAt-bind :
      {t : Order → Bool} (m : M A) (f : A → M B)
      → Calm t m
      → Steady s m
      → ((a : A) → QuietAt s (f a))
      → QuietAt s (m >>= f)
  unfolding ◌>>=◌ lift
  QuietAt-bind m f c k cf = record {
    at = λ w h. let (r, w') = m w in (QuietAt-bind_lift r f cf).at w' (k.at w h) ∙ c.quiet w;
  }

no_order : Order → Bool
no_order o = false

module _ {s : Store} where
  Steady-new_id : (service : Service) (prefix : String) → Steady s (new_id service prefix)
  unfolding new_id
  Steady-new_id service prefix = record { at = λ w h. h }

  Steady-or_new_id :
      (service : Service) (prefix given : String) → Steady s (or_new_id service prefix given)
  unfolding or_new_id pure
  Steady-or_new_id service prefix given = chosen (is_blank given)
    where
      chosen : (b : Bool) → Steady s (if b then new_id service prefix else pure given)
      chosen true = Steady-new_id service prefix
      chosen false = record { at = λ w h. h }

  reading-At :
      {A : Type 0} (q : Store → Result A) (x : Weather × World) → At s x.1 → At s (reading q x).1
  reading-At q (calm, w) h = h
  reading-At q (failed, w) h = h
  reading-At q (lost, w) h = h
  reading-At q (rival o, w) h = h

  Steady-read :
      {A : Type 0} (service : Service) (q : Store → Result A)
      → Steady s (attempt (read_ledger service q))
  unfolding attempt read_ledger
  Steady-read service q = record {
    at = λ w h. reading-At q (meet service w) (meet-At s service w h);
  }

  -- A query answers from the store, or fails as a whole.
  reading-answer :
      {A : Type 0} (q : Store → Result A) (x : Weather × World)
      → At s x.1
      → ((reading q x).0 ≡ q s) ⊎ ((reading q x).0 ≡ err backend)
  reading-answer q (calm, w) h = inl (ap q h.0)
  reading-answer q (failed, w) h = inr refl
  reading-answer q (lost, w) h = inr refl
  reading-answer q (rival o, w) h = inr refl

-- A refusal ends the action.
lift-refused :
    {A B : Type 0} (r : Result A) (e : Error) (f : A → M B) (w : World)
    → r ≡ err e
    → ((lift r >>= f) w).1 ≡ w
unfolding ◌>>=◌ lift
lift-refused (ok a) e f w h = cc
lift-refused (err x) e f w h = refl

continue-refused :
    {B : Type 0} (order : Order) (e : Error) (k : Order → Unit {0} → M B) (r : Result Order)
    (w : World)
    → (r ≡ ok order) ⊎ (r ≡ err backend)
    → cancelable order ≡ err e
    → (continue r (λ o. lift (cancelable o) >>= k o) w).1 ≡ w
continue-refused order e k (ok o) w (inl h) c =
    lift-refused (cancelable o) e (k o) w (ap cancelable (ok_inj h) ∙ c)
continue-refused order e k (ok o) w (inr h) c = cc
continue-refused order e k (err x) w h c = refl

QuietAt-fresh :
    (s : Store) (service : Service) (route : AccountRoute) (req : CancelOrderRequest)
    (option : String) (order : Order) (e : Error)
    → get_order req.account_id req.gateway_order_id s ≡ ok order
    → cancelable order ≡ err e
    → QuietAt s (fresh_cancel service route req option)
unfolding fresh_cancel ◌>>=◌ read_ledger
QuietAt-fresh s service route req option order e g c = record {
  at = λ w h.
      let q = get_order req.account_id req.gateway_order_id in
      let (r, w') = reading q (meet service w) in
      ap (λ v. v.published)
        (continue-refused order e _ r w'
          (answered r (reading-answer q (meet service w) (meet-At s service w h))) c)
      ∙ (Calm-read_ledger {t = no_order} service q).quiet w;
}
  where
    answered :
        (r : Result Order)
        → (r ≡ get_order req.account_id req.gateway_order_id s) ⊎ (r ≡ err backend)
        → (r ≡ ok order) ⊎ (r ≡ err backend)
    answered r (inl h) = inl (h ∙ g)
    answered r (inr h) = inr h

QuietAt-archived :
    (s : Store) (service : Service) (route : AccountRoute) (req : CancelOrderRequest)
    (option : String) (r : Result RawStreamMessage)
    → QuietAt s (fresh_cancel service route req option)
    → QuietAt s (archived_cancel service route req option r)
QuietAt-archived s service route req option (ok archived) f = record {
  at = λ w h. (Calm-replayed_cancel {t = no_order} service req option archived).quiet w;
}
QuietAt-archived s service route req option (err x) f =
    fresh_or_raise (is_archived_command_not_found x)
  where
    fresh_or_raise :
        (b : Bool) → QuietAt s (if b then fresh_cancel service route req option else raise x)
    fresh_or_raise true = f
    fresh_or_raise false = record { at = λ w h. (Calm-raise {t = no_order} x).quiet w }

QuietAt-cancel :
    (s : Store) (service : Service) (req : CancelOrderRequest) (option : String) (order : Order)
    (e : Error)
    → get_order req.account_id req.gateway_order_id s ≡ ok order
    → cancelable order ≡ err e
    → QuietAt s (cancel_order service req option)
unfolding cancel_order with_cancel_id
QuietAt-cancel s service req option order e g c = QuietAt-bind_lift _ _ (λ _.
    QuietAt-bind_lift _ _ (λ route. QuietAt-bind_lift _ _ (λ _.
      QuietAt-bind {t = no_order} _ _ (Calm-or_new_id service _ _) (Steady-or_new_id service _ _)
        (λ id.
          QuietAt-bind {t = no_order} _ _ (Calm-attempt _ (Calm-read_ledger service _))
            (Steady-read service _)
            (λ archived.
              QuietAt-archived s service route (with_cancel_id req id) option archived
                (QuietAt-fresh s service route (with_cancel_id req id) option order e g c))))))

-- If GetOrder finds the order in the ledger, the order is terminal or has no quantity left to cancel,
-- and no other process inserts an order during the call, then CancelOrder publishes nothing, whether
-- the calls of the database and of Redis go through or fail.
pub cancel_order-refused :
    (service : Service) (req : CancelOrderRequest) (option : String) (w : World) (order : Order)
    (e : Error)
    → WithoutRivals w.weather
    → get_order req.account_id req.gateway_order_id w.store ≡ ok order
    → cancelable order ≡ err e
    → (cancel_order service req option w).1.published ≡ w.published
cancel_order-refused service req option w order e o g c =
    (QuietAt-cancel w.store service req option order e g c).at w (refl, o)
