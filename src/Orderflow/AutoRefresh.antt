-- ===== src/Orderflow/AutoRefresh.antt =====
-- AutoRefreshScheduler of internal/orderflow/auto_refresh.go, with the timers that Go's runtime keeps
-- for it. Times and durations are nanoseconds. The scheduler's mutex makes a request, a stop and the
-- first part of a run one step each; what the scheduler logs is left out.
pub mod Steps
pub mod Cooldown
use Prim.Native.String.{◌++◌}
use ti_relay_trader.Prelude.{
  ℕ, suc, ◌+◌, ◌-◌, String, Bool, true, false, not, Option, none, some, List, [], ◌∷◌, ltb, ◌==◌,
  keep, find_first, if◌then◌else◌, str_eq,
}
use ti_relay_trader.Prelude.Int.{ℤ, pos, pos_part}
use ti_relay_trader.Text.{trim_space, is_empty}
use ti_relay_trader.Text.Decimal.{itoa}

-- A map from account ids.
abbrev pub put {ℓ} : {A : Type ℓ} → String → A → (String → Option A) → String → Option A
put k v m x = if str_eq x k then some v else m x

abbrev pub delete {ℓ} : {A : Type ℓ} → String → (String → Option A) → String → Option A
delete k m x = if str_eq x k then none else m x

-- The timers have the ids of the runtime's timers; a next_allowed that is missing is the zero time.
pub record AutoRefreshScheduler : Type 0 where
  pub has_refresher : Bool
  pub debounce : ℕ
  pub cooldown : ℕ
  pub timers : String → Option ℕ
  pub next_allowed : String → Option ℕ
  pub stopped : Bool

-- NewAutoRefreshScheduler
unfoldable pub new_auto_refresh_scheduler : Bool → ℤ → ℤ → AutoRefreshScheduler
new_auto_refresh_scheduler has_refresher debounce cooldown = record {
  has_refresher = has_refresher;
  debounce = pos_part debounce;
  cooldown = pos_part cooldown;
  timers = λ account. none;
  next_allowed = λ account. none;
  stopped = false;
}

-- What time.AfterFunc makes: a call of run, due at a time.
pub record Timer : Type 0 where
  pub id : ℕ
  pub due : ℕ
  pub account_id : String
  pub reason : String

pub data RefreshKind : Type 0 where
  asset : RefreshKind
  positions : RefreshKind

pub record RefreshCall : Type 0 where
  pub kind : RefreshKind
  pub account_id : String
  pub request_id : String

-- A run that was not turned away: its time, and what it asks of the refresher.
pub record RefreshRun : Type 0 where
  pub account_id : String
  pub started_at : ℕ
  pub calls : List RefreshCall

-- The scheduler, the time, the timers that wait, the runs that their timers have started and that
-- have not taken the mutex yet, and the runs that did, the last one first.
pub record Refreshing : Type 0 where
  pub scheduler : AutoRefreshScheduler
  pub now : ℕ
  pub next_id : ℕ
  pub waiting : List Timer
  pub started : List Timer
  pub runs : List RefreshRun

abbrev pub begin : AutoRefreshScheduler → ℕ → Refreshing
begin scheduler now = record {
  scheduler = scheduler;
  now = now;
  next_id = 0;
  waiting = [];
  started = [];
  runs = [];
}

-- Timer.Stop, which takes a timer that still waits from the runtime.
abbrev pub stop_timer : Option ℕ → List Timer → List Timer
stop_timer none timers = timers
stop_timer (some i) timers = keep (λ t. not (t.id == i)) timers

-- The delay of a request: the debounce, or what is left of the cooldown if that is longer.
abbrev pub delay_until : ℕ → ℕ → Option ℕ → ℕ
delay_until debounce now none = debounce
delay_until debounce now (some next) = if ltb debounce (next - now) then next - now else debounce

-- AutoRefreshScheduler.Request
unfoldable pub request : String → String → Refreshing → Refreshing
request given_account given_reason world =
    let scheduler = world.scheduler in
    let account = trim_space given_account in
    let reason = trim_space given_reason in
    let timer : Timer = record {
      id = world.next_id;
      due = world.now + delay_until scheduler.debounce world.now (scheduler.next_allowed account);
      account_id = account;
      reason = if is_empty reason then "trade-change" else reason;
    } in
    if is_empty account then world else if scheduler.stopped then world else record world {
      scheduler = record scheduler { timers = put account world.next_id scheduler.timers };
      next_id = suc world.next_id;
      waiting = timer ∷ stop_timer (scheduler.timers account) world.waiting;
    }

-- AutoRefreshScheduler.RequestAccounts
unfoldable pub request_accounts : List String → String → Refreshing → Refreshing
request_accounts [] reason world = world
request_accounts (account ∷ accounts) reason world =
    request_accounts accounts reason (request account reason world)

abbrev is_registered : AutoRefreshScheduler → Timer → Option ℕ → Bool
is_registered scheduler t none = false
is_registered scheduler t (some i) = t.id == i

-- AutoRefreshScheduler.Stop: the timers of the map are stopped, and the map is emptied.
unfoldable pub stop : Refreshing → Refreshing
stop world =
    let scheduler = world.scheduler in
    record world {
      scheduler = record scheduler { stopped = true; timers = λ account. none };
      waiting =
          keep (λ t. not (is_registered scheduler t (scheduler.timers t.account_id))) world.waiting;
    }

abbrev pub refresh_calls : String → ℕ → List RefreshCall
refresh_calls account now =
    let base = "auto-refresh-" ++ itoa (pos now) in
    record { kind = asset; account_id = account; request_id = base ++ "-asset" }
    ∷ record { kind = positions; account_id = account; request_id = base ++ "-positions" }
    ∷ []

-- AutoRefreshScheduler.run
unfoldable pub run : Timer → Refreshing → Refreshing
run timer world =
    let scheduler = world.scheduler in
    let account = timer.account_id in
    let calls = if scheduler.has_refresher then refresh_calls account world.now else [] in
    if scheduler.stopped then world else record world {
      scheduler = record scheduler {
        timers = delete account scheduler.timers;
        next_allowed = put account (world.now + scheduler.cooldown) scheduler.next_allowed;
      };
      runs = record { account_id = account; started_at = world.now; calls = calls } ∷ world.runs;
    }

abbrev pub timer_of : ℕ → List Timer → Option Timer
timer_of i timers = find_first (λ t. t.id == i) timers
