-- ===== src/Orderflow/Safety.antt =====
-- What an action does to the streams and to an order that stands in the ledger, one rule for each
-- way to build an action.
pub mod Calls
use ti_relay_trader.Prelude.{
  Bool, true, false, ◌≡◌, refl, sym, ◌∙◌, ap, ◌⊎◌, inl, inr, List, [], ◌∷◌, ◌++◌, String, any,
  if◌then◌else◌, arith, Option, none, some,
}
use ti_relay_trader.Time.{Time}
use ti_relay_trader.Errors.{Error, Result, ok, err, Result-cases}
use ti_relay_trader.Trading.Schema.{Order}
use ti_relay_trader.Streams.{CommandEnvelope, CommandPublishResult}
use ti_relay_trader.Ledger.Store.{Store}
use ti_relay_trader.Ledger.Orders.{create_order}
use ti_relay_trader.Ledger.Orders.Laws.{create_order-Inserted, Inserted-Keeps}
use ti_relay_trader.Orderflow.World.{
  Service, Weather, World, M, Command, ◌>>=◌, pure, raise, lift, attempt, new_id, now, meet,
  read_ledger, write_ledger, publish_command,
}

-- An order that passes the test stands in the ledger.
abbrev pub holds : (Order → Bool) → World → Bool
holds t w = any t w.store.orders

-- The action publishes nothing, and an order that passes the test stays.
pub record Calm {A : Type 0} (t : Order → Bool) (m : M A) : Type 0 where
  pub quiet : (w : World) → (m w).1.published ≡ w.published
  pub keeps : (w : World) → holds t w ≡ true → holds t (m w).1 ≡ true

-- One command was published between the two worlds, with the property.
pub record Sent (P : Command → Type 0) (w w' : World) : Type 0 where
  pub command : Command
  pub proved : P command
  pub appended : w'.published ≡ w.published ++ (command ∷ [])

-- The action publishes at most one command, with the property, and an order that passes the test
-- stays.
pub record SendsOne {A : Type 0} (t : Order → Bool) (P : Command → Type 0) (m : M A) : Type 0 where
  pub sends : (w : World) → ((m w).1.published ≡ w.published) ⊎ Sent P w (m w).1
  pub keeps : (w : World) → holds t w ≡ true → holds t (m w).1 ≡ true

-- Likewise, and when it publishes, an order that passes the test stands in the ledger in the end.
pub record Reserves {A : Type 0} (t : Order → Bool) (P : Command → Type 0) (m : M A) : Type 0 where
  pub sends :
      (w : World)
      → ((m w).1.published ≡ w.published) ⊎ (Sent P w (m w).1 × (holds t (m w).1 ≡ true))
  pub keeps : (w : World) → holds t w ≡ true → holds t (m w).1 ≡ true

module _ {A : Type 0} {t : Order → Bool} where
  pub Calm-pure : (a : A) → Calm t (pure a)
  unfolding pure
  Calm-pure a = record { quiet = λ w. refl; keeps = λ w h. h }

  pub Calm-raise : (e : Error) → Calm t (raise {A = A} e)
  unfolding raise
  Calm-raise e = record { quiet = λ w. refl; keeps = λ w h. h }

  pub Calm-lift : (r : Result A) → Calm t (lift r)
  unfolding lift
  Calm-lift r = record { quiet = λ w. refl; keeps = λ w h. h }

  pub Calm-attempt : (m : M A) → Calm t m → Calm t (attempt m)
  unfolding attempt
  Calm-attempt m c = record { quiet = c.quiet; keeps = c.keeps }

  pub Calm-if : (b : Bool) (m n : M A) → Calm t m → Calm t n → Calm t (if b then m else n)
  Calm-if true m n cm cn = cm
  Calm-if false m n cm cn = cn

module _ {A B : Type 0} {t : Order → Bool} where
  pub Calm-bind_lift :
      (r : Result A) (f : A → M B) → ((a : A) → r ≡ ok a → Calm t (f a)) → Calm t (lift r >>= f)
  unfolding ◌>>=◌ lift
  Calm-bind_lift (ok a) f c = record { quiet = (c a refl).quiet; keeps = (c a refl).keeps }
  Calm-bind_lift (err e) f c = record { quiet = λ w. refl; keeps = λ w h. h }

  pub Calm-bind : (m : M A) (f : A → M B) → Calm t m → ((a : A) → Calm t (f a)) → Calm t (m >>= f)
  unfolding ◌>>=◌ lift
  Calm-bind m f cm cf = record {
    quiet = λ w. let (r, w') = m w in (Calm-bind_lift r f (λ a _. cf a)).quiet w' ∙ cm.quiet w;
    keeps = λ w h. let (r, w') = m w in (Calm-bind_lift r f (λ a _. cf a)).keeps w' (cm.keeps w h);
  }

module _ {P : Command → Type 0} where
  pub Sent-before : {w w' w'' : World} → w'.published ≡ w.published → Sent P w' w'' → Sent P w w''
  Sent-before q s = record {
    command = s.command;
    proved = s.proved;
    appended = s.appended ∙ ap (λ cs. cs ++ (s.command ∷ [])) q;
  }

  Sent-after : {w w' w'' : World} → w''.published ≡ w'.published → Sent P w w' → Sent P w w''
  Sent-after q s = record { command = s.command; proved = s.proved; appended = q ∙ s.appended }

module _ {A : Type 0} {t : Order → Bool} {P : Command → Type 0} where
  pub Calm-SendsOne : {m : M A} → Calm t m → SendsOne t P m
  Calm-SendsOne c = record { sends = λ w. inl (c.quiet w); keeps = c.keeps }

  pub Calm-Reserves : {m : M A} → Calm t m → Reserves t P m
  Calm-Reserves c = record { sends = λ w. inl (c.quiet w); keeps = c.keeps }

  pub SendsOne-if :
      (b : Bool) (m n : M A) → SendsOne t P m → SendsOne t P n → SendsOne t P (if b then m else n)
  SendsOne-if true m n sm sn = sm
  SendsOne-if false m n sm sn = sn

module _ {A B : Type 0} {t : Order → Bool} {P : Command → Type 0} where
  SendsOne-bind_lift :
      (r : Result A) (f : A → M B) → ((a : A) → SendsOne t P (f a)) → SendsOne t P (lift r >>= f)
  unfolding ◌>>=◌ lift
  SendsOne-bind_lift (ok a) f c = record { sends = (c a).sends; keeps = (c a).keeps }
  SendsOne-bind_lift (err e) f c = record { sends = λ w. inl refl; keeps = λ w h. h }

  pub SendsOne-bind :
      (m : M A) (f : A → M B) → Calm t m → ((a : A) → SendsOne t P (f a)) → SendsOne t P (m >>= f)
  unfolding ◌>>=◌ lift
  SendsOne-bind m f cm cf = record {
    sends = λ w.
        let (r, w') = m w in
        elim ((SendsOne-bind_lift r f cf).sends w') [
          | inl q ↦ inl (q ∙ cm.quiet w)
          | inr s ↦ inr (Sent-before (cm.quiet w) s)
        ];
    keeps = λ w h. let (r, w') = m w in (SendsOne-bind_lift r f cf).keeps w' (cm.keeps w h);
  }

  -- An action that sends, before one that does not.
  pub SendsOne-then :
      (m : M A) (f : A → M B) → SendsOne t P m → ((a : A) → Calm t (f a)) → SendsOne t P (m >>= f)
  unfolding ◌>>=◌ lift
  SendsOne-then m f cm cf = record {
    sends = λ w.
        let (r, w') = m w in
        let quiet = (Calm-bind_lift r f (λ a _. cf a)).quiet w' in
        elim (cm.sends w) [ inl q ↦ inl (quiet ∙ q) | inr s ↦ inr (Sent-after quiet s) ];
    keeps = λ w h. let (r, w') = m w in (Calm-bind_lift r f (λ a _. cf a)).keeps w' (cm.keeps w h);
  }

  pub Reserves-bind_lift :
      (r : Result A) (f : A → M B)
      → ((a : A) → r ≡ ok a → Reserves t P (f a))
      → Reserves t P (lift r >>= f)
  unfolding ◌>>=◌ lift
  Reserves-bind_lift (ok a) f c = record { sends = (c a refl).sends; keeps = (c a refl).keeps }
  Reserves-bind_lift (err e) f c = record { sends = λ w. inl refl; keeps = λ w h. h }

  pub Reserves-bind :
      (m : M A) (f : A → M B) → Calm t m → ((a : A) → Reserves t P (f a)) → Reserves t P (m >>= f)
  unfolding ◌>>=◌ lift
  Reserves-bind m f cm cf = record {
    sends = λ w.
        let (r, w') = m w in
        elim ((Reserves-bind_lift r f (λ a _. cf a)).sends w') [
          | inl q ↦ inl (q ∙ cm.quiet w)
          | inr s ↦ inr (Sent-before (cm.quiet w) s.0, s.1)
        ];
    keeps =
        λ w h. let (r, w') = m w in (Reserves-bind_lift r f (λ a _. cf a)).keeps w' (cm.keeps w h);
  }
