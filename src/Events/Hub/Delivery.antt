-- ===== src/Events/Hub/Delivery.antt =====
-- A subscriber of internal/events/hub.go that reads from its channel while the hub publishes.
use mathlib.Core.List.{append-nil, append_assoc}
use ti_relay_trader.Prelude.{
  ℕ, ◌≤◌, String, ◌≡◌, refl, sym, ap, ◌∙◌, subst, Bool, true, false, List, [], ◌∷◌, ◌++◌, length,
  keep, keep-append, length-append, arith, ltb, ltb→lt, Bool-cases, ◌⊎◌, inl, inr,
}
use ti_relay_trader.Events.Hub.{Event, Subscriber, offer, subscriber_matches, slow_consumer_gap}

-- What happens to a subscriber: an event is published, or it reads from its channel.
pub data Turn : Type 0 where
  offering : Event → Turn
  reading : Turn

abbrev pub offered : List Turn → List Event
offered [] = []
offered (offering e ∷ turns) = e ∷ offered turns
offered (reading ∷ turns) = offered turns

abbrev pub receive : Subscriber → List Event → List Event × Subscriber
receive sub [] = ([], sub)
receive sub (e ∷ rest) = (e ∷ [], record sub { channel = rest })

-- The events that the subscriber reads, and the subscriber in the end. A read from an empty channel
-- waits.
unfoldable pub follow : List Turn → Subscriber → List Event × Subscriber
follow [] sub = ([], sub)
follow (offering e ∷ turns) sub = follow turns (offer e sub)
follow (reading ∷ turns) sub =
    let (now, sub') = receive sub sub.channel in
    let (later, sub'') = follow turns sub' in (now ++ later, sub'')

-- Of the events, a subscriber has been given all that match its account, or all that match from
-- a gap on, which has the cursor of the last event that was lost.
-- What was given ends with a gap at one of the events, and with those that match behind it.
pub record ToldFromGap (account : String) (events given : List Event) : Type 0 where
  pub before : List Event
  pub lost : Event
  pub after : List Event
  pub before_gap : List Event
  pub happened : events ≡ before ++ (lost ∷ after)
  pub was_given :
      given
      ≡ before_gap ++ (slow_consumer_gap account lost ∷ keep (subscriber_matches account) after)

abbrev pub Told : String → List Event → List Event → Type 0
Told account events given =
    (given ≡ keep (subscriber_matches account) events) ⊎ ToldFromGap account events given

-- How a subscriber stands: what it has read and what waits for it tell it of the events.
pub record Follows (account : String) (buffer : ℕ) (events read : List Event) (sub : Subscriber)
    : Type 0 where
  pub same_account : sub.account_id ≡ account
  pub same_buffer : sub.buffer ≡ buffer
  pub bounded : length sub.channel ≤ buffer
  pub told : Told account events (read ++ sub.channel)

keep_one : (p : Event → Bool) (e : Event) → p e ≡ true → keep p (e ∷ []) ≡ e ∷ []
keep_one p e h = ground (arith, h)

keep_none : (p : Event → Bool) (e : Event) → p e ≡ false → keep p (e ∷ []) ≡ []
keep_none p e h = ground (arith, h)

-- With one more event, that is given where it matches.
Told-append :
    (account : String) (events given more : List Event) (e : Event)
    → keep (subscriber_matches account) (e ∷ []) ≡ more
    → Told account events given
    → Told account (events ++ (e ∷ [])) (given ++ more)
Told-append account events given more e m (inl all) = inl (
    ap (λ g. g ++ more) all
    ∙ ap (λ g. keep (subscriber_matches account) events ++ g) (sym m)
    ∙ sym (keep-append (subscriber_matches account) events (e ∷ [])))
Told-append account events given more e m (inr g) = inr record {
  before = g.before;
  lost = g.lost;
  after = g.after ++ (e ∷ []);
  before_gap = g.before_gap;
  happened =
      ap (λ xs. xs ++ (e ∷ [])) g.happened ∙ append_assoc g.before (g.lost ∷ g.after) (e ∷ []);
  was_given =
      ap (λ xs. xs ++ more) g.was_given
      ∙ append_assoc g.before_gap
          (slow_consumer_gap account g.lost ∷ keep (subscriber_matches account) g.after) more
      ∙ ap (λ xs. g.before_gap ++ (slow_consumer_gap account g.lost ∷ xs))
          (ap (λ xs. keep (subscriber_matches account) g.after ++ xs) (sym m)
            ∙ sym (keep-append (subscriber_matches account) g.after (e ∷ [])));
}

Told-lost :
    (account : String) (events read : List Event) (e : Event)
    → Told account (events ++ (e ∷ [])) (read ++ (slow_consumer_gap account e ∷ []))
Told-lost account events read e = inr record {
  before = events;
  lost = e;
  after = [];
  before_gap = read;
  happened = refl;
  was_given = refl;
}

offer-Follows :
    (account : String) (buffer : ℕ) (events read : List Event) (e : Event) (sub : Subscriber)
    → 1 ≤ buffer
    → Follows account buffer events read sub
    → Follows account buffer (events ++ (e ∷ [])) read (offer e sub)
unfolding offer
offer-Follows account buffer events read e sub b f =
    elim (Bool-cases (subscriber_matches sub.account_id e)) [
      | inl matches ↦
          let ours = ap (λ a. subscriber_matches a e) (sym f.same_account) ∙ matches in
          elim (Bool-cases (ltb (length sub.channel) sub.buffer)) [
            | inl room ↦ rw matches (
                rw room record {
                  same_account = f.same_account;
                  same_buffer = f.same_buffer;
                  bounded =
                      omega
                        (arith, ltb→lt _ _ room, f.same_buffer, length-append sub.channel (e ∷ []));
                  told =
                      subst (Told account (events ++ (e ∷ [])))
                        (append_assoc read sub.channel (e ∷ []))
                        (Told-append account events (read ++ sub.channel) (e ∷ []) e
                          (keep_one (subscriber_matches account) e ours) f.told);
                })
            | inr full ↦ rw matches (
                rw full record {
                  same_account = f.same_account;
                  same_buffer = f.same_buffer;
                  bounded = b;
                  told =
                      subst
                        (λ a.
                          Told account (events ++ (e ∷ [])) (read ++ (slow_consumer_gap a e ∷ [])))
                        (sym f.same_account) (Told-lost account events read e);
                })
          ]
      | inr other ↦
          let theirs = ap (λ a. subscriber_matches a e) (sym f.same_account) ∙ other in
          rw other record {
            same_account = f.same_account;
            same_buffer = f.same_buffer;
            bounded = f.bounded;
            told = subst (Told account (events ++ (e ∷ []))) (append-nil _) (
                Told-append account events (read ++ sub.channel) [] e
                  (keep_none (subscriber_matches account) e theirs) f.told);
          }
    ]

receive-Follows :
    (account : String) (buffer : ℕ) (events read : List Event) (sub : Subscriber)
    (channel : List Event)
    → channel ≡ sub.channel
    → Follows account buffer events read sub
    → Follows account buffer events (read ++ (receive sub channel).0) (receive sub channel).1
receive-Follows account buffer events read sub [] p f =
    subst (λ r. Follows account buffer events r sub) (sym (append-nil read)) f
receive-Follows account buffer events read sub (e ∷ rest) p f = record {
  same_account = f.same_account;
  same_buffer = f.same_buffer;
  bounded = omega (arith, f.bounded, ap length p);
  told =
      subst (Told account events)
        (ap (λ c. read ++ c) (sym p) ∙ sym (append_assoc read (e ∷ []) rest)) f.told;
}

follow-Follows_from :
    (account : String) (buffer : ℕ) (events read : List Event) (turns : List Turn)
    (sub : Subscriber)
    → 1 ≤ buffer
    → Follows account buffer events read sub
    → Follows account buffer
        (events ++ offered turns)
        (read ++ (follow turns sub).0)
        (follow turns sub).1
unfolding follow
follow-Follows_from account buffer events read [] sub b f =
    subst (λ es. Follows account buffer es (read ++ []) sub) (sym (append-nil events))
      (subst (λ r. Follows account buffer events r sub) (sym (append-nil read)) f)
follow-Follows_from account buffer events read (offering e ∷ turns) sub b f =
    subst
      (λ es.
        Follows account buffer es (read ++ (follow turns (offer e sub)).0)
          (follow turns (offer e sub)).1)
      (append_assoc events (e ∷ []) (offered turns))
      (follow-Follows_from account buffer (events ++ (e ∷ [])) read turns (offer e sub) b
        (offer-Follows account buffer events read e sub b f))
follow-Follows_from account buffer events read (reading ∷ turns) sub b f =
    let got = receive sub sub.channel in
    subst (λ r. Follows account buffer (events ++ offered turns) r (follow turns got.1).1)
      (append_assoc read got.0 (follow turns got.1).0)
      (follow-Follows_from account buffer events (read ++ got.0) turns got.1 b
        (receive-Follows account buffer events read sub sub.channel refl f))

-- However a new subscriber's reads fall between the events, what it has read and what waits in its
-- channel are all the events that match its account, in order, or end with a gap that has the cursor
-- of a lost event, behind which stand all the events that match; and no more than the buffer, which is
-- not 0, waits in the channel.
pub follow-Follows :
    (account : String) (buffer : ℕ) (turns : List Turn)
    → 1 ≤ buffer
    → let sub : Subscriber = record { account_id = account; buffer = buffer; channel = [] } in
      Follows account buffer (offered turns) (follow turns sub).0 (follow turns sub).1
follow-Follows account buffer turns b =
    follow-Follows_from account buffer [] [] turns
      record { account_id = account; buffer = buffer; channel = [] } b
      record { same_account = refl; same_buffer = refl; bounded = omega arith; told = inl refl }
