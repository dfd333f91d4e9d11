-- ===== src/Orderflow/AutoRefresh/Steps.antt =====
-- The steps of the scheduler of internal/orderflow/auto_refresh.go and of Go's timers, and what
-- follows a stop.
use ti_relay_trader.Prelude.{
  ℕ, ◌+◌, ◌≤◌, String, ◌≡◌, refl, ap, ◌∙◌, true, not, arith, some, List, ◌∷◌, ◌==◌, keep,
}
use ti_relay_trader.Orderflow.AutoRefresh.{Timer, Refreshing, request, stop, run, timer_of}

abbrev pub without : ℕ → List Timer → List Timer
without i timers = keep (λ t. not (t.id == i)) timers

-- Time passes, a timer that is due starts a run, a run takes the mutex, and clients request and stop.
pub data Step : Refreshing → Refreshing → Type 0 where
  passing : (n : ℕ) (w : Refreshing) → Step w (record w { now = w.now + n })
  requesting : (account reason : String) (w : Refreshing) → Step w (request account reason w)
  stopping : (w : Refreshing) → Step w (stop w)
  firing :
      (i : ℕ) (t : Timer) (w : Refreshing)
      → timer_of i w.waiting ≡ some t
      → t.due ≤ w.now
      → Step w (record w { waiting = without i w.waiting; started = t ∷ w.started })
  running :
      (i : ℕ) (t : Timer) (w : Refreshing)
      → timer_of i w.started ≡ some t
      → Step w (run t (record w { started = without i w.started }))

pub data Steps : Refreshing → Refreshing → Type 0 where
  done : (w : Refreshing) → Steps w w
  further : {u v w : Refreshing} → Step u v → Steps v w → Steps u w

pub request-stopped :
    (account reason : String) (w : Refreshing)
    → w.scheduler.stopped ≡ true
    → request account reason w ≡ w
unfolding request
request-stopped account reason w h = rw h (ground arith)

pub run-stopped : (t : Timer) (w : Refreshing) → w.scheduler.stopped ≡ true → run t w ≡ w
unfolding run
run-stopped t w h = rw h refl

Step-stopped :
    {v w : Refreshing}
    → Step v w
    → v.scheduler.stopped ≡ true
    → (w.scheduler.stopped ≡ true) × (w.runs ≡ v.runs)
unfolding stop
Step-stopped (passing n v) h = (h, refl)
Step-stopped (requesting account reason v) h =
    let p = request-stopped account reason v h in
    (ap (λ u. u.scheduler.stopped) p ∙ h, ap (λ u. u.runs) p)
Step-stopped (stopping v) h = (refl, refl)
Step-stopped (firing i t v found due) h = (h, refl)
Step-stopped (running i t v found) h =
    let p = run-stopped t (record v { started = without i v.started }) h in
    (ap (λ u. u.scheduler.stopped) p ∙ h, ap (λ u. u.runs) p)

Steps-stopped :
    {v w : Refreshing}
    → Steps v w
    → v.scheduler.stopped ≡ true
    → (w.scheduler.stopped ≡ true) × (w.runs ≡ v.runs)
Steps-stopped (done v) h = (h, refl)
Steps-stopped (further step steps) h =
    let (stopped, none_run) = Step-stopped step h in
    let (still, later) = Steps-stopped steps stopped in (still, later ∙ none_run)

-- After a stop no run begins, whatever timers fire, whatever runs had been started and whatever is
-- requested: in every state that the stopped scheduler reaches, it is stopped and its runs are those
-- it had.
pub stop-Steps :
    (v w : Refreshing) → Steps (stop v) w → (w.scheduler.stopped ≡ true) × (w.runs ≡ v.runs)
unfolding stop
stop-Steps v w steps = Steps-stopped steps refl
