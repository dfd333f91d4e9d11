-- ===== src/Orderflow/Submit/Backing.antt =====
-- The commands that SubmitOrder of internal/orderflow/service.go publishes, and the orders behind
-- them.
use ti_relay_trader.Prelude.{
  Bool, true, false, ◌≡◌, refl, ◌∙◌, ◌⊎◌, inl, inr, none, some, String, any, if◌then◌else◌, ◌&&◌,
}
use ti_relay_trader.Time.{Time}
use ti_relay_trader.Errors.{Result, ok, err}
use ti_relay_trader.Trading.Schema.{SubmitOrderRequest, Order}
use ti_relay_trader.Trading.Validation.{is_blank}
use ti_relay_trader.Ledger.Store.{Store, Database}
use ti_relay_trader.Ledger.Orders.{create_order}
use ti_relay_trader.Ledger.Orders.Laws.{create_order-Inserted, Inserted-has_ids}
use ti_relay_trader.Orderflow.World.{Service, World, M, ◌>>=◌, pure, lift, new_id}
use ti_relay_trader.Orderflow.Requests.{draft_order_from_request}
use ti_relay_trader.Orderflow.Preflight.{Preflight}
use ti_relay_trader.Orderflow.Preflight.Laws.{wanted_id, wanted_key, Calm-preflight}
use ti_relay_trader.Orderflow.Submit.{
  SubmitOrderResult, or_new_id, submitted_order, replay_or, submit_order,
}
use ti_relay_trader.Orderflow.Safety.{holds, Calm, Sent, Sent-before, Reserves, Calm-lift}
use ti_relay_trader.Orderflow.Safety.Calls.{Calm-new_id, Calm-now}
use ti_relay_trader.Orderflow.Submit.Commands.{Calm-replayed, Submits, Reserves-fresh, sent_request}

-- The order with the request's account, gateway order id and idempotency key.
abbrev pub wanted : SubmitOrderRequest → Order → Bool
wanted req o = wanted_id req o && wanted_key req o

submitted-wanted :
    (db : Database) (req : SubmitOrderRequest) (time : Time) (message_id request_id : String)
    (s s' : Store)
    → create_order db (submitted_order req time message_id request_id) s ≡ ok s'
    → any (wanted req) s'.orders ≡ true
unfolding submitted_order draft_order_from_request
submitted-wanted db req time message_id request_id s s' e =
    Inserted-has_ids (create_order-Inserted db _ s s' e)

-- The gateway order id is the given one, if that is not blank.
abbrev pub Fills : String → String → Type 0
Fills given gateway = (if is_blank given then gateway else given) ≡ gateway

-- Between the two worlds one command was published, which submits the request with its gateway
-- order id filled in at some time, and the order that the command asks for stands in the ledger.
abbrev pub SubmitsBacked : SubmitOrderRequest → World → World → Type 0
SubmitsBacked req w w' =
    (gateway : String) × Fills req.gateway_order_id gateway
    × (time : Time) × Sent (Submits (sent_request req gateway time)) w w'
    × (holds (wanted (sent_request req gateway time)) w' ≡ true)

record Emits {A : Type 0} (req : SubmitOrderRequest) (m : M A) : Type 0 where
  at : (w : World) → ((m w).1.published ≡ w.published) ⊎ SubmitsBacked req w (m w).1

no_order : Order → Bool
no_order o = false

module _ {A B : Type 0} {req : SubmitOrderRequest} where
  Emits-bind_lift :
      (r : Result A) (f : A → M B) → ((a : A) → Emits req (f a)) → Emits req (lift r >>= f)
  unfolding ◌>>=◌ lift
  Emits-bind_lift (ok a) f c = record { at = (c a).at }
  Emits-bind_lift (err e) f c = record { at = λ w. inl refl }

  Emits-bind :
      (m : M A) (f : A → M B) → Calm no_order m → ((a : A) → Emits req (f a)) → Emits req (m >>= f)
  unfolding ◌>>=◌ lift
  Emits-bind m f cm cf = record {
    at = λ w.
        let (r, w') = m w in
        elim ((Emits-bind_lift r f cf).at w') [
          | inl q ↦ inl (q ∙ cm.quiet w)
          | inr (gateway, fills, time, s, h) ↦
              inr (gateway, fills, time, Sent-before (cm.quiet w) s, h)
        ];
  }

Emits-replay_or :
    (service : Service) (req : SubmitOrderRequest) (gateway : String) (time : Time) (given : String)
    (m : M SubmitOrderResult) (seen : Preflight)
    → Fills req.gateway_order_id gateway
    → Reserves (wanted (sent_request req gateway time)) (Submits (sent_request req gateway time)) m
    → Emits req (replay_or service (sent_request req gateway time) given m seen)
Emits-replay_or service req gateway time given m none fills r = record {
  at = λ w. elim (r.sends w) [ inl q ↦ inl q | inr (s, h) ↦ inr (gateway, fills, time, s, h) ];
}
Emits-replay_or service req gateway time given m (some existing) fills r = record {
  at = λ w. inl ((Calm-replayed {t = no_order} service existing _ given).quiet w);
}

Emits-or_new_id :
    {A : Type 0} (service : Service) (prefix given : String) (req : SubmitOrderRequest)
    (f : String → M A)
    → ((gateway : String) → Fills given gateway → Emits req (f gateway))
    → Emits req (or_new_id service prefix given >>= f)
unfolding or_new_id ◌>>=◌ pure
Emits-or_new_id service prefix given req f c = filled (is_blank given) c
  where
    filled :
        (b : Bool)
        → ((gateway : String) → (if b then gateway else given) ≡ gateway → Emits req (f gateway))
        → Emits req ((if b then new_id service prefix else pure given) >>= f)
    filled true c = Emits-bind _ f (Calm-new_id service prefix) (λ gateway. c gateway refl)
    filled false c = record { at = (c given refl).at }

Emits-submit_order :
    (service : Service) (req : SubmitOrderRequest) (option : String)
    → Emits req (submit_order service req option)
unfolding submit_order
Emits-submit_order service req option = Emits-bind _ _ (Calm-lift _) (λ _.
    Emits-bind _ _ (Calm-lift _) (λ _. Emits-bind _ _ (Calm-lift _) (λ route.
      Emits-bind _ _ (Calm-lift _) (λ _. Emits-or_new_id service _ _ _ _ (λ gateway fills.
        Emits-bind _ _ (Calm-now service) (λ time.
          Emits-bind _ _ (Calm-preflight service _) (λ seen.
            Emits-replay_or service req gateway time _ _ seen fills (
              Reserves-fresh service route _ time _ (λ message_id request_id.
                submitted-wanted service.database _ time message_id request_id)))))))))

-- Whatever the weather, a call of SubmitOrder publishes nothing, or it appends one command to the
-- stream: that command submits the caller's request with a gateway order id filled in where it was
-- blank, and with the other defaults, and the order with the account, the gateway order id and the idempotency key of that command
-- stands in the ledger after the call.
pub submit_order-backed :
    (service : Service) (req : SubmitOrderRequest) (option : String) (w : World)
    → let (r, w') = submit_order service req option w in
      (w'.published ≡ w.published) ⊎ SubmitsBacked req w w'
submit_order-backed service req option w = (Emits-submit_order service req option).at w
