-- ===== src/Orderflow/Publications.antt =====
-- The commands that CancelOrder and the refresh commands of internal/orderflow/service.go publish, and
-- the quiet parts of BatchSubmitOrders.
use ti_relay_trader.Prelude.{ℕ, suc, Bool, false, ◌≡◌, refl, ◌⊎◌, List, [], ◌∷◌, String}
use ti_relay_trader.Text.{trim_space}
use ti_relay_trader.Time.{Time}
use ti_relay_trader.Errors.{Result, ok, err}
use ti_relay_trader.Trading.Schema.{SubmitOrderRequest, CancelOrderRequest, Order}
use ti_relay_trader.Streams.{cancel, query, new_command_envelope}
use ti_relay_trader.Ledger.Store.{RawStreamMessage}
use ti_relay_trader.Orderflow.World.{AccountRoute, Service, World, M, Command}
use ti_relay_trader.Orderflow.Preflight.Laws.{Calm-preflight}
use ti_relay_trader.Orderflow.Submit.Commands.{Calm-metadata, Calm-or_new_id}
use ti_relay_trader.Orderflow.Batch.{
  Keys, prepare_child, gather_children, stored_or, store_drafts, replayed_batch_submit_result,
}
use ti_relay_trader.Orderflow.Cancel.{
  with_cancel_id, replayed_cancel, fresh_cancel, archived_cancel, cancel_order,
}
use ti_relay_trader.Orderflow.Refresh.{RefreshOptions, query_fields, publish_account_query}
use ti_relay_trader.Orderflow.Safety.{
  Calm, Sent, SendsOne, Calm-pure, Calm-raise, Calm-lift, Calm-attempt, Calm-if, Calm-bind,
  Calm-SendsOne, SendsOne-bind, SendsOne-if, SendsOne-then,
}
use ti_relay_trader.Orderflow.Safety.Calls.{
  Calm-new_id, Calm-now, Calm-read_ledger, Calm-write_ledger, create_order-Grows,
  upsert_account-Grows, Calm-archive_command, SendsOne-publish_command,
}

-- The command cancels the request's order.
abbrev pub IsCancelOf : CancelOrderRequest → Command → Type 0
IsCancelOf req command =
    (c : CancelOrderRequest) × (command.1.payload ≡ cancel c)
    × (c.account_id ≡ req.account_id)
    × (c.gateway_order_id ≡ req.gateway_order_id)

-- The command asks for the account's data.
abbrev pub IsQueryOf : String → String → Command → Type 0
IsQueryOf account trade_date command =
    command.1.payload ≡ query (query_fields (trim_space account) trade_date)

module _ {t : Order → Bool} where
  Calm-prepare_child :
      (service : Service) (account batch_key : String) (time : Time) (i : ℕ) (keys : Keys)
      (entry : SubmitOrderRequest)
      → Calm t (prepare_child service account batch_key time i keys entry)
  unfolding prepare_child
  Calm-prepare_child service account batch_key time i keys entry = Calm-bind _ _ (Calm-lift _) (λ _.
      Calm-bind _ _ (Calm-or_new_id service _ _)
        (λ gateway. Calm-bind _ _ (Calm-lift _) (λ _. Calm-pure _)))

  pub Calm-gather_children :
      (service : Service) (account batch_key : String) (time : Time) (i : ℕ) (keys : Keys)
      (entries : List SubmitOrderRequest)
      → Calm t (gather_children service account batch_key time i keys entries)
  unfolding gather_children
  Calm-gather_children service account batch_key time i keys [] = Calm-pure _
  Calm-gather_children service account batch_key time i keys (entry ∷ rest) =
      Calm-bind _ _ (Calm-prepare_child service account batch_key time i keys entry) (λ req.
        Calm-bind _ _ (Calm-preflight service req) (λ seen.
          Calm-bind _ _ (Calm-gather_children service account batch_key time (suc i) _ rest)
            (λ g. Calm-pure _)))

  Calm-stored_or :
      (service : Service) (req : SubmitOrderRequest) (go : M (Unit {0})) (r : Result (Unit {0}))
      → Calm t go
      → Calm t (stored_or service req go r)
  Calm-stored_or service req go (ok _) c = c
  Calm-stored_or service req go (err e) c =
      Calm-if _ _ _ (Calm-bind _ _ (Calm-preflight service req) (λ seen. Calm-raise _))
        (Calm-raise e)

  pub Calm-store_drafts :
      (service : Service) (message_id request_id : String) (drafts : List Order)
      (requests : List SubmitOrderRequest)
      → Calm t (store_drafts service message_id request_id drafts requests)
  unfolding store_drafts
  Calm-store_drafts service message_id request_id [] requests = Calm-pure _
  Calm-store_drafts service message_id request_id (draft ∷ drafts) [] = Calm-pure _
  Calm-store_drafts service message_id request_id (draft ∷ drafts) (req ∷ requests) =
      Calm-bind _ _ (Calm-attempt _ (Calm-write_ledger service _ (create_order-Grows _ _))) (λ r.
        Calm-stored_or service req _ r
          (Calm-store_drafts service message_id request_id drafts requests))

  pub Calm-replayed_batch :
      (service : Service) (account : String) (orders : List Order) (key fallback : String)
      → Calm t (replayed_batch_submit_result service account orders key fallback)
  unfolding replayed_batch_submit_result
  Calm-replayed_batch service account orders key fallback =
      Calm-bind _ _ (Calm-metadata service _ _ _ _) (λ receipt. Calm-pure _)

  pub Calm-replayed_cancel :
      (service : Service) (req : CancelOrderRequest) (option : String) (archived : RawStreamMessage)
      → Calm t (replayed_cancel service req option archived)
  unfolding replayed_cancel
  Calm-replayed_cancel service req option archived = Calm-bind _ _ (Calm-lift _) (λ previous.
      Calm-bind _ _ (Calm-lift _)
        (λ _. Calm-bind _ _ (Calm-read_ledger service _) (λ order. Calm-pure _)))

  SendsOne-fresh_cancel :
      (service : Service) (route : AccountRoute) (req : CancelOrderRequest) (option : String)
      → SendsOne t (IsCancelOf req) (fresh_cancel service route req option)
  unfolding fresh_cancel new_command_envelope
  SendsOne-fresh_cancel service route req option =
      SendsOne-bind _ _ (Calm-read_ledger service _) (λ order. SendsOne-bind _ _ (Calm-lift _) (λ _.
        SendsOne-bind _ _ (Calm-now service) (λ time.
          SendsOne-bind _ _ (Calm-new_id service _) (λ message_id.
            SendsOne-bind _ _ (Calm-if _ _ _ (Calm-new_id service _) (Calm-pure _)) (λ request_id.
              SendsOne-bind _ _ (Calm-lift _) (λ key.
                SendsOne-then _ _ (SendsOne-publish_command service key _ (req, refl, refl, refl))
                  (λ published.
                    Calm-bind _ _ (Calm-archive_command service published _ _ _ _)
                      (λ _. Calm-pure _))))))))

  SendsOne-archived_cancel :
      (service : Service) (route : AccountRoute) (req : CancelOrderRequest) (option : String)
      (r : Result RawStreamMessage)
      → SendsOne t (IsCancelOf req) (archived_cancel service route req option r)
  SendsOne-archived_cancel service route req option (ok archived) =
      Calm-SendsOne (Calm-replayed_cancel service req option archived)
  SendsOne-archived_cancel service route req option (err e) =
      SendsOne-if _ _ _ (SendsOne-fresh_cancel service route req option)
        (Calm-SendsOne (Calm-raise e))

  SendsOne-cancel :
      (service : Service) (req : CancelOrderRequest) (option : String)
      → SendsOne t (IsCancelOf req) (cancel_order service req option)
  unfolding cancel_order with_cancel_id
  SendsOne-cancel service req option = SendsOne-bind _ _ (Calm-lift _) (λ _.
      SendsOne-bind _ _ (Calm-lift _) (λ route. SendsOne-bind _ _ (Calm-lift _) (λ _.
        SendsOne-bind _ _ (Calm-or_new_id service _ _) (λ id.
          SendsOne-bind _ _ (Calm-attempt _ (Calm-read_ledger service _)) (λ archived.
            SendsOne-archived_cancel service route (with_cancel_id req id) option archived)))))

  SendsOne-query :
      (service : Service) (account action kind : String) (options : RefreshOptions)
      → SendsOne t
          (IsQueryOf account options.trade_date)
          (publish_account_query service account action kind options)
  unfolding publish_account_query new_command_envelope
  SendsOne-query service account action kind options = SendsOne-bind _ _ (Calm-lift _) (λ route.
      SendsOne-bind _ _ (Calm-lift _) (λ _. SendsOne-bind _ _ (Calm-now service) (λ time.
        SendsOne-bind _ _ (Calm-new_id service _) (λ message_id.
          SendsOne-bind _ _ (Calm-if _ _ _ (Calm-new_id service _) (Calm-pure _)) (λ request_id.
            SendsOne-bind _ _ (Calm-write_ledger service _ (upsert_account-Grows _ _)) (λ _.
              SendsOne-bind _ _ (Calm-lift _) (λ key.
                SendsOne-then _ _ (SendsOne-publish_command service key _ refl) (λ published.
                  Calm-bind _ _ (Calm-archive_command service published _ _ _ _)
                    (λ _. Calm-pure _)))))))))

no_order : Order → Bool
no_order o = false

-- Whatever the weather, a call of CancelOrder publishes nothing, or it appends one command to the
-- streams, which cancels the order that the caller names.
pub cancel_order-one :
    (service : Service) (req : CancelOrderRequest) (option : String) (w : World)
    → let w' = (cancel_order service req option w).1 in
      (w'.published ≡ w.published) ⊎ Sent (IsCancelOf req) w w'
cancel_order-one service req option w = (SendsOne-cancel {t = no_order} service req option).sends w

-- Whatever the weather, a refresh command publishes nothing, or it appends one query to the streams,
-- with the trimmed account and the trade date as its payload.
pub publish_account_query-one :
    (service : Service) (account action kind : String) (options : RefreshOptions) (w : World)
    → let w' = (publish_account_query service account action kind options w).1 in
      (w'.published ≡ w.published) ⊎ Sent (IsQueryOf account options.trade_date) w w'
publish_account_query-one service account action kind options w =
    (SendsOne-query {t = no_order} service account action kind options).sends w
