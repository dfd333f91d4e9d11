-- ===== src/Orderflow/Batch/Drafts.antt =====
-- The drafts that BatchSubmitOrders of internal/orderflow/service.go gathers and stores.
use ti_relay_trader.Prelude.{
  ℕ, suc, Bool, true, false, ◌≡◌, ◌≢◌, refl, none, some, List, [], ◌∷◌, String, any, All,
  if◌then◌else◌, subst, ◌&&◌,
}
use ti_relay_trader.Time.{Time}
use ti_relay_trader.Text.{trim_space}
use ti_relay_trader.Errors.{Error, Result, ok, err, ok_inj, is_order_conflict}
use ti_relay_trader.Trading.Schema.{SubmitOrderRequest, Order}
use ti_relay_trader.Ledger.Store.{Store, Database}
use ti_relay_trader.Ledger.Orders.{create_order, has_gateway_id, has_key}
use ti_relay_trader.Ledger.Orders.Laws.{create_order-Inserted, Inserted-has_ids}
use ti_relay_trader.Orderflow.World.{
  Service, World, M, continue, ◌>>=◌, pure, raise, attempt, write_ledger,
}
use ti_relay_trader.Orderflow.Requests.{draft_order_from_request}
use ti_relay_trader.Orderflow.Preflight.{Preflight, preflight_submit_order}
use ti_relay_trader.Orderflow.Submit.Backing.{wanted}
use ti_relay_trader.Orderflow.Batch.{
  Keys, Gathered, child_draft, place, conflict_error, gather_children, stored_or, store_drafts,
}
use ti_relay_trader.Orderflow.Safety.{holds, Calm}
use ti_relay_trader.Orderflow.Safety.Calls.{write_ledger-Reserved}
use ti_relay_trader.Orderflow.Publications.{Calm-store_drafts}

-- The order has the ids of the request.
abbrev SameIds : Order → SubmitOrderRequest → Type 0
SameIds o r =
    (o.account_id ≡ r.account_id)
    × (o.gateway_order_id ≡ r.gateway_order_id)
    × (o.idempotency_key ≡ r.idempotency_key)

-- Draft by draft, the drafts have the ids of the requests, and there are as many.
pub data AreDrafts : List Order → List SubmitOrderRequest → Type 0 where
  no_drafts : AreDrafts [] []
  next_draft :
      (o : Order) (r : SubmitOrderRequest) (os : List Order) (rs : List SubmitOrderRequest)
      → SameIds o r
      → AreDrafts os rs
      → AreDrafts (o ∷ os) (r ∷ rs)

-- All orders that the requests ask for stand in the ledger.
abbrev pub AllStored : List SubmitOrderRequest → World → Type 0
AllStored rs w = All (λ r. holds (wanted r) w ≡ true) rs

pub record Yields {A : Type 0} (P : A → Type 0) (m : M A) : Type 0 where
  pub at : (w : World) (a : A) → (m w).0 ≡ ok a → P a

Yields-pure : {B : Type 0} {P : B → Type 0} (b : B) → P b → Yields P (pure b)
unfolding pure
Yields-pure {P = P} b p = record { at = λ w a e. subst P (ok_inj e) p }

module _ {A B : Type 0} {P : B → Type 0} where
  Yields-continue :
      {Q : A → Type 0} (r : Result A) (f : A → M B) (w : World)
      → ((a : A) → r ≡ ok a → Q a)
      → ((a : A) → Q a → Yields P (f a))
      → (b : B) → (continue r f w).0 ≡ ok b
      → P b
  Yields-continue (ok a) f w q c b e = (c a (q a refl)).at w b e
  Yields-continue (err x) f w q c b e = cc

  Yields-step :
      {Q : A → Type 0} (m : M A) (f : A → M B)
      → Yields Q m
      → ((a : A) → Q a → Yields P (f a))
      → Yields P (m >>= f)
  unfolding ◌>>=◌
  Yields-step m f q c = record {
    at = λ w b e. let (r, w') = m w in Yields-continue r f w' (q.at w) c b e;
  }

  Yields-bind : (m : M A) (f : A → M B) → ((a : A) → Yields P (f a)) → Yields P (m >>= f)
  Yields-bind m f c = Yields-step {Q = λ a. Unit} m f (record { at = λ w a e. tt }) (λ a _. c a)

-- The children that were gathered with no replay among them are drafts of their requests.
abbrev pub AreFresh : Gathered → Type 0
AreFresh g = g.replays ≡ [] → AreDrafts g.drafts g.requests

child_draft-SameIds :
    (req : SubmitOrderRequest) (time : Time) (i : ℕ) → SameIds (child_draft req time i) req
unfolding child_draft draft_order_from_request
child_draft-SameIds req time i = (refl, refl, refl)

place-AreFresh :
    (req : SubmitOrderRequest) (time : Time) (i : ℕ) (seen : Preflight) (g : Gathered)
    → AreFresh g
    → AreFresh (place req time i seen g)
place-AreFresh req time i none g h e = next_draft _ _ _ _ (child_draft-SameIds req time i) (h e)
place-AreFresh req time i (some existing) g h e = cc

pub gather-AreFresh :
    (service : Service) (account batch_key : String) (time : Time) (i : ℕ) (keys : Keys)
    (entries : List SubmitOrderRequest)
    → Yields AreFresh (gather_children service account batch_key time i keys entries)
unfolding gather_children
gather-AreFresh service account batch_key time i keys [] = Yields-pure _ (λ e. no_drafts)
gather-AreFresh service account batch_key time i keys (entry ∷ rest) = Yields-bind _ _ (λ req.
    Yields-bind _ _ (λ seen.
      Yields-step {Q = AreFresh} _ _ (gather-AreFresh service account batch_key time (suc i) _ rest)
        (λ g h. Yields-pure _ (place-AreFresh req time i seen g h))))

draft-wanted :
    (db : Database) (draft : Order) (req : SubmitOrderRequest) (message_id request_id : String)
    (s s' : Store)
    → SameIds draft req
    → create_order db (record draft { origin_message_id = message_id; request_id = request_id }) s
      ≡ ok s'
    → any (wanted req) s'.orders ≡ true
draft-wanted db draft req message_id request_id s s' (a, g, k) e =
    subst
      (λ x.
        any
          (λ o.
            has_gateway_id (trim_space x) (trim_space req.gateway_order_id) o
            && has_key (trim_space x) (trim_space req.idempotency_key) o)
          s'.orders
        ≡ true)
      a
      (subst
        (λ y.
          any
            (λ o.
              has_gateway_id (trim_space draft.account_id) (trim_space y) o
              && has_key (trim_space draft.account_id) (trim_space req.idempotency_key) o)
            s'.orders
          ≡ true)
        g
        (subst
          (λ z.
            any
              (λ o.
                has_gateway_id (trim_space draft.account_id) (trim_space draft.gateway_order_id) o
                && has_key (trim_space draft.account_id) (trim_space z) o)
              s'.orders
            ≡ true)
          k (Inserted-has_ids (create_order-Inserted db _ s s' e))))

-- An action that stores the orders of all requests when it succeeds.
pub record Stores (rs : List SubmitOrderRequest) (m : M (Unit {0})) : Type 0 where
  pub at : (w : World) → (m w).0 ≡ ok tt → AllStored rs (m w).1

record Fails (m : M (Unit {0})) : Type 0 where
  pub at : (w : World) → (m w).0 ≢ ok tt

Fails-raise : (e : Error) → Fails (raise e)
unfolding raise
Fails-raise e = record { at = λ w h. cc }

Fails-if : (b : Bool) (m n : M (Unit {0})) → Fails m → Fails n → Fails (if b then m else n)
Fails-if true m n fm fn = fm
Fails-if false m n fm fn = fn

Fails-continue :
    {A : Type 0} (r : Result A) (f : A → M (Unit {0})) (w : World)
    → ((a : A) → Fails (f a))
    → (continue r f w).0 ≢ ok tt
Fails-continue (ok a) f w h e = (h a).at w e
Fails-continue (err x) f w h e = cc

Fails-bind :
    {A : Type 0} (m : M A) (f : A → M (Unit {0})) → ((a : A) → Fails (f a)) → Fails (m >>= f)
unfolding ◌>>=◌
Fails-bind m f h = record { at = λ w. let (r, w') = m w in Fails-continue r f w' h }

stored_or-AllStored :
    (service : Service) (req : SubmitOrderRequest) (rs : List SubmitOrderRequest)
    (more : M (Unit {0})) (r : Result (Unit {0})) (w : World)
    → (r ≡ ok tt → holds (wanted req) w ≡ true)
    → Calm (wanted req) more
    → Stores rs more
    → (stored_or service req more r w).0 ≡ ok tt
    → AllStored (req ∷ rs) (stored_or service req more r w).1
stored_or-AllStored service req rs more (ok u) w h c k e = (c.keeps w (h refl), k.at w e)
stored_or-AllStored service req rs more (err x) w h c k e = absurd (
    (Fails-if (is_order_conflict x) _ _
        (Fails-bind (preflight_submit_order service req) _
          (λ seen. Fails-raise (conflict_error x seen)))
        (Fails-raise x)).at
      w e)

pub Stores-drafts :
    (service : Service) (message_id request_id : String) {drafts : List Order}
    {requests : List SubmitOrderRequest}
    → AreDrafts drafts requests
    → Stores requests (store_drafts service message_id request_id drafts requests)
unfolding store_drafts ◌>>=◌ attempt
Stores-drafts service message_id request_id no_drafts = record { at = λ w e. tt }
Stores-drafts service message_id request_id (next_draft draft req drafts requests same more) =
    record {
      at = λ w e.
          let write =
            create_order service.database
              (record draft { origin_message_id = message_id; request_id = request_id }) in
          let (r, w') = write_ledger service write w in
          stored_or-AllStored service req requests _ r w'
            (write_ledger-Reserved (wanted req) service write w
              (λ s s'. draft-wanted service.database draft req message_id request_id s s' same))
            (Calm-store_drafts service message_id request_id drafts requests)
            (Stores-drafts service message_id request_id more) e;
    }
