-- ===== src/Orderflow/AutoRefresh/Cooldown.antt =====
-- The times of the runs of internal/orderflow/auto_refresh.go, where a run takes the mutex as soon as
-- its timer fires.
use mathlib.Core.Bool.{true≢false}
use ti_relay_trader.Prelude.{
  ℕ, ◌+◌, ◌≤◌, String, ◌≡◌, ◌≢◌, ◌⊎◌, inl, inr, refl, sym, ap, ◌∙◌, subst, Bool, true, false, not,
  Option, none, some, List, [], ◌∷◌, ◌==◌, All, All-map, All-keep, find_first-All, Bool-cases,
  arith, str_eq, eq_refl, eq_iff, ==_iff,
}
use ti_relay_trader.Prelude.Int.{ℤ, pos_part}
use ti_relay_trader.Text.{trim_space, is_empty}
use ti_relay_trader.Orderflow.AutoRefresh.{
  AutoRefreshScheduler, Timer, RefreshRun, Refreshing, begin, new_auto_refresh_scheduler, request,
  stop, run, timer_of, stop_timer, put, delete, delay_until, is_registered,
}
use ti_relay_trader.Orderflow.AutoRefresh.Steps.{without, request-stopped, run-stopped}

pub data Prompt : Refreshing → Refreshing → Type 0 where
  passing : (n : ℕ) (w : Refreshing) → Prompt w (record w { now = w.now + n })
  requesting : (account reason : String) (w : Refreshing) → Prompt w (request account reason w)
  stopping : (w : Refreshing) → Prompt w (stop w)
  firing :
      (i : ℕ) (t : Timer) (w : Refreshing)
      → timer_of i w.waiting ≡ some t
      → t.due ≤ w.now
      → Prompt w (run t (record w { waiting = without i w.waiting }))

pub data Prompts : Refreshing → Refreshing → Type 0 where
  done : (w : Refreshing) → Prompts w w
  further : {u v w : Refreshing} → Prompt u v → Prompts v w → Prompts u w

-- A next time allowed, if there is one, is no later than the time given.
abbrev pub Passed : Option ℕ → ℕ → Type 0
Passed none due = Unit
Passed (some n) due = n ≤ due

-- There is a next time allowed, no sooner than the time given.
abbrev pub Held : Option ℕ → ℕ → Type 0
Held none until = ⊥
Held (some n) until = until ≤ n

-- The timer is the one registered for its account, and does not fire before it is allowed.
abbrev pub Waits : AutoRefreshScheduler → Timer → Type 0
Waits s t = (s.timers t.account_id ≡ some t.id) × Passed (s.next_allowed t.account_id) t.due

-- Runs, the last one first: two of one account begin a cooldown apart.
abbrev pub Spaced : ℕ → List RefreshRun → Type 0
Spaced cooldown [] = Unit
Spaced cooldown (r ∷ rs) =
    All (λ q. (q.account_id ≢ r.account_id) ⊎ (q.started_at + cooldown ≤ r.started_at)) rs
    × Spaced cooldown rs

pub record IsPaced (cooldown : ℕ) (w : Refreshing) : Type 0 where
  pub cooldown_kept : w.scheduler.cooldown ≡ cooldown
  pub wait : All (Waits w.scheduler) w.waiting
  pub held :
      All (λ r. Held (w.scheduler.next_allowed r.account_id) (r.started_at + cooldown)) w.runs
  pub spaced : Spaced cooldown w.runs

put_same :
    (k : String) (v : ℕ) (m : String → Option ℕ) (x : String)
    → str_eq x k ≡ true
    → put k v m x ≡ some v
put_same k v m x h = rw h refl

put_other :
    (k : String) (v : ℕ) (m : String → Option ℕ) (x : String)
    → str_eq x k ≡ false
    → put k v m x ≡ m x
put_other k v m x h = rw h refl

delete_other :
    (k : String) (m : String → Option ℕ) (x : String) → str_eq x k ≡ false → delete k m x ≡ m x
delete_other k m x h = rw h refl

-- A timer that is registered, and is not the one registered for an account, is for another account.
of_another :
    (m : String → Option ℕ) (account : String) (i : ℕ) (t : Timer)
    → m account ≡ some i
    → not (t.id == i) ≡ true
    → m t.account_id ≡ some t.id
    → str_eq t.account_id account ≡ false
of_another m account i t registered other own = elim (Bool-cases (str_eq t.account_id account)) [
  | inr e ↦ e
  | inl e ↦
      let same : some t.id ≡ some i =
        sym own ∙ ap m ((eq_iff t.account_id account).0 e) ∙ registered in
      absurd (ground (arith, other, same))
]

of_none :
    (m : String → Option ℕ) (account : String) (t : Timer)
    → m account ≡ none
    → m t.account_id ≡ some t.id
    → str_eq t.account_id account ≡ false
of_none m account t missing own = elim (Bool-cases (str_eq t.account_id account)) [
  | inr e ↦ e
  | inl e ↦
      let same : some t.id ≡ none = sym own ∙ ap m ((eq_iff t.account_id account).0 e) ∙ missing in
      absurd (ground (arith, same))
]

-- Another timer still waits when an account is given a timer.
put-Waits :
    (s : AutoRefreshScheduler) (account : String) (id : ℕ) (t : Timer)
    → str_eq t.account_id account ≡ false
    → Waits s t
    → Waits (record s { timers = put account id s.timers }) t
put-Waits s account id t other h = (put_other account id s.timers t.account_id other ∙ h.0, h.1)

stop_timer-Waits :
    (s : AutoRefreshScheduler) (account : String) (id : ℕ) (timers : List Timer) (o : Option ℕ)
    → s.timers account ≡ o
    → All (Waits s) timers
    → All (Waits (record s { timers = put account id s.timers })) (stop_timer o timers)
stop_timer-Waits s account id timers none registered h =
    All-map (Waits s) (Waits (record s { timers = put account id s.timers })) timers
      (λ t w. put-Waits s account id t (of_none s.timers account t registered w.0) w) h
stop_timer-Waits s account id timers (some i) registered h =
    All-keep (Waits s) (Waits (record s { timers = put account id s.timers }))
      (λ t. not (t.id == i)) timers
      (λ t kept w. put-Waits s account id t (of_another s.timers account i t registered kept w.0) w)
      h

Passed-delay : (debounce now : ℕ) (o : Option ℕ) → Passed o (now + delay_until debounce now o)
Passed-delay debounce now none = tt
Passed-delay debounce now (some n) = ground arith

request-IsPaced :
    (cooldown : ℕ) (account reason : String) (w : Refreshing)
    → IsPaced cooldown w
    → IsPaced cooldown (request account reason w)
unfolding request
request-IsPaced cooldown given reason w p =
    let s = w.scheduler in
    let account = trim_space given in
    elim (Bool-cases (is_empty account)) [
      | inl blank ↦ rw blank p
      | inr named ↦ elim (Bool-cases s.stopped) [
        | inl stopped ↦ (subst (IsPaced cooldown) (sym (request-stopped given reason w stopped)) p)
        | inr active ↦ rw named (
            rw active record {
              cooldown_kept = p.cooldown_kept;
              wait = (
                (
                  put_same account w.next_id s.timers account (eq_refl account),
                  Passed-delay s.debounce w.now (s.next_allowed account),
                ),
                stop_timer-Waits s account w.next_id w.waiting (s.timers account) refl p.wait,
              );
              held = p.held;
              spaced = p.spaced;
            })
      ]
    ]

is_registered-own :
    (s : AutoRefreshScheduler) (t : Timer) (o : Option ℕ)
    → o ≡ some t.id
    → is_registered s t o ≡ true
is_registered-own s t none h = absurd (ground (arith, h))
is_registered-own s t (some i) h = ground (arith, h)

stop-IsPaced : (cooldown : ℕ) (w : Refreshing) → IsPaced cooldown w → IsPaced cooldown (stop w)
unfolding stop
stop-IsPaced cooldown w p = record {
  cooldown_kept = p.cooldown_kept;
  wait =
      All-keep (Waits w.scheduler) (Waits (stop w).scheduler)
        (λ t. not (is_registered w.scheduler t (w.scheduler.timers t.account_id))) w.waiting
        (λ t kept h. absurd (
          ground
            (arith, kept, is_registered-own w.scheduler t (w.scheduler.timers t.account_id) h.0)))
        p.wait;
  held = p.held;
  spaced = p.spaced;
}

-- Another timer still waits when a run for an account begins.
run-Waits :
    (s : AutoRefreshScheduler) (account : String) (now : ℕ) (t : Timer)
    → str_eq t.account_id account ≡ false
    → Waits s t
    → Waits
        (record s {
          timers = delete account s.timers;
          next_allowed = put account now s.next_allowed;
        })
        t
run-Waits s account now t other h = (
  delete_other account s.timers t.account_id other ∙ h.0,
  subst (λ o. Passed o t.due) (sym (put_other account now s.next_allowed t.account_id other)) h.1,
)

Held-Passed : (o : Option ℕ) (until now : ℕ) → Passed o now → Held o until → until ≤ now
Held-Passed none until now allowed h = absurd h
Held-Passed (some n) until now allowed h = omega arith

-- What was held stays so when the run of an account begins that was allowed to.
put-Held :
    (m : String → Option ℕ) (account x : String) (until now cooldown : ℕ)
    → Passed (m account) now
    → Held (m x) until
    → Held (put account (now + cooldown) m x) until
put-Held m account x until now cooldown allowed h = elim (Bool-cases (str_eq x account)) [
  | inl e ↦
      let own = subst (λ y. Held (m y) until) ((eq_iff x account).0 e) h in
      subst (λ o. Held o until) (sym (put_same account (now + cooldown) m x e))
        (omega (arith, Held-Passed (m account) until now allowed own))
  | inr e ↦ subst (λ o. Held o until) (sym (put_other account (now + cooldown) m x e)) h
]

-- A run that was held is of another account, or a cooldown before what is allowed.
Held-apart :
    (m : String → Option ℕ) (account x : String) (until now : ℕ)
    → Passed (m account) now
    → Held (m x) until
    → (x ≢ account) ⊎ (until ≤ now)
Held-apart m account x until now allowed h = elim (Bool-cases (str_eq x account)) [
  | inl e ↦ inr (
      Held-Passed (m account) until now allowed
        (subst (λ y. Held (m y) until) ((eq_iff x account).0 e) h))
  | inr e ↦ inl (λ q. true≢false (sym ((eq_iff x account).1 q) ∙ e))
]

Passed-later : (o : Option ℕ) (due now : ℕ) → due ≤ now → Passed o due → Passed o now
Passed-later none due now l h = tt
Passed-later (some n) due now l h = omega arith

fire-IsPaced :
    (cooldown i : ℕ) (t : Timer) (w : Refreshing)
    → timer_of i w.waiting ≡ some t
    → t.due ≤ w.now
    → IsPaced cooldown w
    → IsPaced cooldown (run t (record w { waiting = without i w.waiting }))
unfolding run
fire-IsPaced cooldown i t w found due p =
    let s = w.scheduler in
    let account = t.account_id in
    let ((registered, allowed_then), same_id) =
      find_first-All (Waits s) (λ u. u.id == i) w.waiting t found p.wait in
    let allowed = Passed-later (s.next_allowed account) t.due w.now due allowed_then in
    let registered_i : s.timers account ≡ some i =
      registered ∙ ap some ((==_iff t.id i).0 same_id) in
    let s' : AutoRefreshScheduler = record s {
      timers = delete account s.timers;
      next_allowed = put account (w.now + s.cooldown) s.next_allowed;
    } in
    elim (Bool-cases s.stopped) [
      | inl stopped ↦
          subst (IsPaced cooldown)
            (sym (run-stopped t (record w { waiting = without i w.waiting }) stopped))
            record {
              cooldown_kept = p.cooldown_kept;
              wait =
                  All-keep (Waits s) (Waits s) (λ u. not (u.id == i)) w.waiting (λ u kept h. h)
                    p.wait;
              held = p.held;
              spaced = p.spaced;
            }
      | inr active ↦ rw active record {
        cooldown_kept = p.cooldown_kept;
        wait =
            All-keep (Waits s) (Waits s') (λ u. not (u.id == i)) w.waiting
              (λ u kept h.
                run-Waits s account (w.now + s.cooldown) u
                  (of_another s.timers account i u registered_i kept h.0) h)
              p.wait;
        held = (
          subst (λ o. Held o (w.now + cooldown))
              (sym (put_same account (w.now + s.cooldown) s.next_allowed account (eq_refl account)))
              (omega (arith, p.cooldown_kept)),
          All-map _ _ w.runs
              (λ r.
                put-Held s.next_allowed account r.account_id (r.started_at + cooldown) w.now
                  s.cooldown allowed)
              p.held,
        );
        spaced = (
          All-map _ _ w.runs
              (λ r.
                Held-apart s.next_allowed account r.account_id (r.started_at + cooldown) w.now
                  allowed)
              p.held,
          p.spaced,
        );
      }
    ]

Prompt-IsPaced :
    (cooldown : ℕ) {v w : Refreshing} → Prompt v w → IsPaced cooldown v → IsPaced cooldown w
Prompt-IsPaced cooldown (passing n v) p = record {
  cooldown_kept = p.cooldown_kept;
  wait = p.wait;
  held = p.held;
  spaced = p.spaced;
}
Prompt-IsPaced cooldown (requesting account reason v) p =
    request-IsPaced cooldown account reason v p
Prompt-IsPaced cooldown (stopping v) p = stop-IsPaced cooldown v p
Prompt-IsPaced cooldown (firing i t v found due) p = fire-IsPaced cooldown i t v found due p

Prompts-IsPaced :
    (cooldown : ℕ) {v w : Refreshing} → Prompts v w → IsPaced cooldown v → IsPaced cooldown w
Prompts-IsPaced cooldown (done v) p = p
Prompts-IsPaced cooldown (further step steps) p =
    Prompts-IsPaced cooldown steps (Prompt-IsPaced cooldown step p)

-- Where a run takes the mutex as soon as its timer fires, a new scheduler reaches only states in which
-- the runs of one account begin at least its cooldown apart, each timer that waits is the one registered for
-- its account, and it is not due before the account's next allowed time.
pub begin-IsPaced :
    (has_refresher : Bool) (debounce cooldown : ℤ) (now : ℕ) (w : Refreshing)
    → Prompts (begin (new_auto_refresh_scheduler has_refresher debounce cooldown) now) w
    → IsPaced (pos_part cooldown) w
unfolding new_auto_refresh_scheduler
begin-IsPaced has_refresher debounce cooldown now w steps =
    Prompts-IsPaced (pos_part cooldown) steps
      record { cooldown_kept = refl; wait = tt; held = tt; spaced = tt }
