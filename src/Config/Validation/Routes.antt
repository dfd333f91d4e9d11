-- ===== src/Config/Validation/Routes.antt =====
-- The account routes of a configuration that Config.Validate of internal/config/config.go accepts.
use mathlib.Core.Bool.{true≢false}
use ti_relay_trader.Prelude.{
  ℕ, suc, String, ◌≡◌, refl, sym, ap, ◌∙◌, Bool, true, false, not, ◌&&◌, ◌||◌, ◌⊎◌, Option, none,
  some, List, [], ◌∷◌, find_first, All, All-map, map, ◌≢◌, str_eq, eq_refl, eq_iff, Bool-cases, inl,
  inr, arith,
}
use ti_relay_trader.Text.{is_empty, trim_space, one_of}
use ti_relay_trader.Trading.Validation.Laws.{AreDistinct}
use ti_relay_trader.Config.Schedule.{ScheduleError, OrderEntryScheduleConfig}
use ti_relay_trader.Config.Schedule.Windows.{IsSchedule, validate_iff}
use ti_relay_trader.Config.Types.{Environment, AccountRouteConfig, Config}
use ti_relay_trader.Config.Validation.{
  Libraries, AccountError, unless, ◌or_else◌, at_index, is_production, is_test, schedule_error,
  schedule_outside_test, check_schedule, check_account, check_accounts, check_service,
  check_database, check_settings, stream_prefix_for_account, validate, find_account_route,
}

-- There is no schedule, or one for the test environment with a counter mode, a known timezone and windows
-- in order.
abbrev IsScheduled : Libraries → Environment → Option OrderEntryScheduleConfig → Type 0
IsScheduled libraries env none = Unit
IsScheduled libraries env (some schedule) =
    (env ≡ Environment.test) × IsSchedule libraries.load_location schedule

-- What an account has to have.
pub record IsRoute (libraries : Libraries) (env : Environment) (redis_env : String)
    (a : AccountRouteConfig) : Type 0 where
  pub named : is_empty (trim_space a.account_id) ≡ false
  pub brokered : is_empty (trim_space a.broker_id) ≡ false
  pub gated : is_empty (trim_space a.gateway_id) ≡ false
  pub prefixed : is_empty (trim_space a.stream_prefix) ≡ false
  pub trades_enabled : (a.trading_enabled ≡ false) ⊎ (a.enabled ≡ true)
  pub trades_for_real :
      (env ≢ Environment.production) ⊎ (a.trading_enabled ≡ false) ⊎ (a.simulated ≡ false)
  pub scheduled : IsScheduled libraries env a.order_entry_schedule
  pub expected_prefix :
      (stream_prefix_for_account redis_env a ≡ "")
      ⊎ (a.stream_prefix ≡ stream_prefix_for_account redis_env a)

enabled_if_trading :
    (trading enabled : Bool)
    → (trading && not enabled) ≡ false
    → (trading ≡ false) ⊎ (enabled ≡ true)
enabled_if_trading trading enabled h = ground (arith, h)

real_if_trading :
    (env : Environment) (trading simulated : Bool)
    → (is_production env && trading && simulated) ≡ false
    → (env ≢ Environment.production) ⊎ (trading ≡ false) ⊎ (simulated ≡ false)
real_if_trading Environment.production trading simulated h = ground (arith, h)
real_if_trading env trading simulated h = inl (λ same. cc)

expected_text :
    (prefix expected : String)
    → (is_empty expected || str_eq prefix expected) ≡ true
    → (expected ≡ "") ⊎ (prefix ≡ expected)
expected_text prefix expected h = ground (arith, h, eq_iff prefix expected)

unless-not : {E : Type 0} (b : Bool) (e : E) → unless (not b) e ≡ none → b ≡ false
unless-not true e h = absurd (ground (arith, h))
unless-not false e h = refl

unless-none : {E : Type 0} (b : Bool) (e : E) → unless b e ≡ none → b ≡ true
unless-none true e h = refl
unless-none false e h = absurd (ground (arith, h))

or_else-none :
    {E : Type 0} (first rest : Option E)
    → (first or_else rest) ≡ none
    → (first ≡ none) × (rest ≡ none)
or_else-none none rest h = (refl, h)
or_else-none (some e) rest h = absurd (ground (arith, h))

at_index-none : (i : ℕ) (o : Option AccountError) → at_index i o ≡ none → o ≡ none
at_index-none i none h = refl
at_index-none i (some e) h = absurd (ground (arith, h))

is_test-test : (env : Environment) → is_test env ≡ true → env ≡ Environment.test
is_test-test env h = ground arith

schedule_error-none : (o : Option ScheduleError) → schedule_error o ≡ none → o ≡ none
schedule_error-none none h = refl
schedule_error-none (some e) h = absurd (ground (arith, h))

check_schedule-IsScheduled :
    (libraries : Libraries) (env : Environment) (schedule : Option OrderEntryScheduleConfig)
    → check_schedule libraries env schedule ≡ none
    → IsScheduled libraries env schedule
check_schedule-IsScheduled libraries env none h = tt
check_schedule-IsScheduled libraries env (some schedule) h =
    let (test, valid) = or_else-none (unless (is_test env) schedule_outside_test) _ h in
    (
      is_test-test env (unless-none (is_test env) _ test),
      (validate_iff libraries.load_location schedule).0 (schedule_error-none _ valid),
    )

check_account-IsRoute :
    (libraries : Libraries) (env : Environment) (redis_env : String) (seen : List String)
    (a : AccountRouteConfig)
    → check_account libraries env redis_env seen a ≡ none
    → IsRoute libraries env redis_env a × (one_of a.account_id seen ≡ false)
unfolding check_account
check_account-IsRoute libraries env redis_env seen a h =
    let (h1, r1) = or_else-none _ _ h in
    let (h2, r2) = or_else-none _ _ r1 in
    let (h3, r3) = or_else-none _ _ r2 in
    let (h4, r4) = or_else-none _ _ r3 in
    let (h5, r5) = or_else-none _ _ r4 in
    let (h6, r6) = or_else-none _ _ r5 in
    let (h7, r7) = or_else-none _ _ r6 in
    let (h8, h9) = or_else-none _ _ r7 in
    (
      record {
        named = unless-not _ _ h1;
        brokered = unless-not _ _ h3;
        gated = unless-not _ _ h4;
        prefixed = unless-not _ _ h5;
        trades_enabled = enabled_if_trading a.trading_enabled a.enabled (unless-not _ _ h6);
        trades_for_real = real_if_trading env a.trading_enabled a.simulated (unless-not _ _ h7);
        scheduled = check_schedule-IsScheduled libraries env a.order_entry_schedule h8;
        expected_prefix =
            expected_text a.stream_prefix (stream_prefix_for_account redis_env a)
              (unless-none _ _ h9);
      },
      unless-not _ _ h2,
    )

abbrev pub account_id_of : AccountRouteConfig → String
account_id_of a = a.account_id

-- The account of the id is found among accounts, of which those in front were seen.
abbrev FoundBehind : List AccountRouteConfig → AccountRouteConfig → Type 0
FoundBehind accounts a = find_first (λ b. str_eq b.account_id a.account_id) accounts ≡ some a

FoundBehind-first :
    (a : AccountRouteConfig) (accounts : List AccountRouteConfig) → FoundBehind (a ∷ accounts) a
FoundBehind-first a accounts = rw (find_first, eq_refl a.account_id) refl

one_of-cons :
    (x y : String) (ys : List String)
    → one_of x (y ∷ ys) ≡ false
    → (str_eq x y ≡ false) × (one_of x ys ≡ false)
one_of-cons x y ys h = (ground (arith, h), ground (arith, h))

str_eq-false : (x y : String) → str_eq x y ≡ false → str_eq y x ≡ false
str_eq-false x y h = elim (Bool-cases (str_eq y x)) [
  | inr e ↦ e
  | inl e ↦ absurd (true≢false (sym (eq_refl x) ∙ ap (str_eq x) (sym ((eq_iff y x).0 e)) ∙ h))
]

FoundBehind-cons :
    (a b : AccountRouteConfig) (accounts : List AccountRouteConfig)
    → str_eq b.account_id a.account_id ≡ false
    → FoundBehind accounts b
    → FoundBehind (a ∷ accounts) b
FoundBehind-cons a b accounts other found =
    rw (find_first, str_eq-false b.account_id a.account_id other) found

check_accounts-All :
    (libraries : Libraries) (env : Environment) (redis_env : String) (i : ℕ) (seen : List String)
    (accounts : List AccountRouteConfig)
    → check_accounts libraries env redis_env i seen accounts ≡ none
    → All
        (λ a.
          IsRoute libraries env redis_env a
          × (one_of a.account_id seen ≡ false)
          × FoundBehind accounts a)
        accounts
unfolding check_accounts
check_accounts-All libraries env redis_env i seen [] h = tt
check_accounts-All libraries env redis_env i seen (a ∷ accounts) h =
    let (first, rest) = or_else-none _ _ h in
    let (route, new) =
      check_account-IsRoute libraries env redis_env seen a (at_index-none i _ first) in
    let ih =
      check_accounts-All libraries env redis_env (suc i) (a.account_id ∷ seen) accounts rest in
    (
      (route, new, FoundBehind-first a accounts),
      All-map
          (λ b.
            IsRoute libraries env redis_env b
            × (one_of b.account_id (a.account_id ∷ seen) ≡ false)
            × FoundBehind accounts b)
          (λ b.
            IsRoute libraries env redis_env b
            × (one_of b.account_id seen ≡ false)
            × FoundBehind (a ∷ accounts) b)
          accounts
          (λ b (r, n, f).
            let (other, unseen) = one_of-cons b.account_id a.account_id seen n in
            (r, unseen, FoundBehind-cons a b accounts other f))
          ih,
    )

-- An id that was seen is not that of an account behind it.
others-apart :
    (libraries : Libraries) (env : Environment) (redis_env : String) (a : AccountRouteConfig)
    (seen : List String) (accounts rest : List AccountRouteConfig)
    → All
        (λ b.
          IsRoute libraries env redis_env b
          × (one_of b.account_id (a.account_id ∷ seen) ≡ false)
          × FoundBehind accounts b)
        rest
    → All (λ id. id ≢ a.account_id) (map account_id_of rest)
others-apart libraries env redis_env a seen accounts [] h = tt
others-apart libraries env redis_env a seen accounts (b ∷ rest) ((route, new, f), h) =
    let (other, unseen) = one_of-cons b.account_id a.account_id seen new in
    (
      λ same. true≢false (sym ((eq_iff b.account_id a.account_id).1 same) ∙ other),
      others-apart libraries env redis_env a seen accounts rest h,
    )

check_accounts-AreDistinct :
    (libraries : Libraries) (env : Environment) (redis_env : String) (i : ℕ) (seen : List String)
    (accounts : List AccountRouteConfig)
    → check_accounts libraries env redis_env i seen accounts ≡ none
    → AreDistinct (map account_id_of accounts)
unfolding check_accounts
check_accounts-AreDistinct libraries env redis_env i seen [] h = tt
check_accounts-AreDistinct libraries env redis_env i seen (a ∷ accounts) h =
    let rest = (or_else-none _ _ h).1 in
    (
      others-apart libraries env redis_env a seen accounts accounts
          (check_accounts-All libraries env redis_env (suc i) (a.account_id ∷ seen) accounts rest),
      check_accounts-AreDistinct libraries env redis_env (suc i) (a.account_id ∷ seen) accounts
          rest,
    )

accounts-none :
    (libraries : Libraries) (cfg : Config)
    → validate libraries cfg ≡ none
    → check_accounts libraries cfg.service.environment cfg.redis.env 0 [] cfg.accounts ≡ none
unfolding validate
accounts-none libraries cfg h =
    let accounts =
      check_accounts libraries cfg.service.environment cfg.redis.env 0 [] cfg.accounts in
    let settings = check_settings libraries cfg or_else accounts in
    let (ok_service, r1) =
      or_else-none (check_service libraries cfg) (check_database libraries cfg or_else settings)
        h in
    let (ok_database, r2) = or_else-none (check_database libraries cfg) settings r1 in
    let (ok_settings, r3) = or_else-none (check_settings libraries cfg) accounts r2 in r3

-- In a configuration that is accepted, no two of the accounts have the same id, and AccountRoute finds each
-- of them by its id. Each account has an id, a broker and a gateway that are not blank, and a stream prefix
-- that is not blank and that is the expected one where one is expected; it trades only if it is enabled,
-- and in production only if it is not simulated; and an order entry schedule is there only in the test
-- environment, with a counter mode, a known timezone and windows in order, each of which is not empty.
pub validate-IsRoute :
    (libraries : Libraries) (cfg : Config)
    → validate libraries cfg ≡ none
    → AreDistinct (map account_id_of cfg.accounts)
      × All
          (λ a.
            IsRoute libraries cfg.service.environment cfg.redis.env a
            × (find_account_route cfg a.account_id ≡ some a))
          cfg.accounts
unfolding find_account_route
validate-IsRoute libraries cfg h = (
  check_accounts-AreDistinct libraries cfg.service.environment cfg.redis.env 0 [] cfg.accounts
      (accounts-none libraries cfg h),
  All-map
      (λ a.
        IsRoute libraries cfg.service.environment cfg.redis.env a
        × (one_of a.account_id [] ≡ false)
        × FoundBehind cfg.accounts a)
      (λ a.
        IsRoute libraries cfg.service.environment cfg.redis.env a
        × (find_account_route cfg a.account_id ≡ some a))
      cfg.accounts (λ a (r, n, f). (r, f))
      (check_accounts-All libraries cfg.service.environment cfg.redis.env 0 [] cfg.accounts
        (accounts-none libraries cfg h)),
)
