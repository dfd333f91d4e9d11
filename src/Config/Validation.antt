-- ===== src/Config/Validation.antt =====
-- Config.Validate of internal/config/config.go, with the libraries that it asks as parameters.
pub mod Routes
use Prim.Native.Char.{Char, code}
use Prim.Native.String.{◌++◌}
use ti_relay_trader.Prelude.{
  ℕ, zero, suc, ◌+◌, ◌*◌, ◌^◌, String, Bool, true, false, not, ◌&&◌, ◌||◌, Option, none, some, List,
  [], ◌∷◌, find_first, ◌⊎◌, inl, inr, leb, ◌==◌, str_eq, if◌then◌else◌,
}
use ti_relay_trader.Prelude.Int.{ℤ, pos, ltb_ℤ, leb_ℤ}
use ti_relay_trader.Text.{is_empty, trim_space, lower_is, one_of, equal_fold}
use ti_relay_trader.Float64.{Float64, finite, lt}
use ti_relay_trader.Config.Schedule.{
  ScheduleError, Locations, Location, validate_order_entry_schedule, OrderEntryScheduleConfig,
}
use ti_relay_trader.Config.Defaults.{apply_defaults}
use ti_relay_trader.Config.Types.{Mode, Environment, AccountRouteConfig, Config}

pub record Url : Type 0 where
  pub scheme : String
  pub host : String
  pub hostname : String
  pub path : String

-- time.LoadLocation, the database that pgx.ParseConfig reads, the host of net.SplitHostPort, url.Parse,
-- and whether net.ParseIP reads a loopback address.
pub record Libraries : Type 0 where
  pub load_location : Locations
  pub parse_dsn : String → Option String
  pub split_host : String → Option String
  pub parse_url : String → Option Url
  pub is_loopback_ip : String → Bool

-- What is wrong with an account.
pub data AccountError : Type 0 where
  account_id_required duplicate_account broker_id_required gateway_id_required
        stream_prefix_required :
      AccountError
  trading_requires_enabled simulated_in_production schedule_outside_test : AccountError
  bad_schedule : ScheduleError → AccountError
  prefix_mismatch : String → AccountError

-- What is wrong with a configuration, by the setting; an account by its index.
pub data ConfigError : Type 0 where
  mode environment timezone log_level log_format idle_conns : ConfigError
  expected_name_required dsn_invalid dsn_of_another : ConfigError
  market_base_url market_timeout formula_version friction_rate auto_tolerances warning_tolerances :
      ConfigError
  heartbeat lag_thresholds lag_critical snapshot_cache : ConfigError
  health_addr_required health_addr health_url_required health_url health_url_host health_url_path :
      ConfigError
  debounce cooldown refresh_timeout : ConfigError
  at_account : ℕ → AccountError → ConfigError

-- The error of a test that fails.
abbrev pub unless : {E : Type 0} → Bool → E → Option E
unless true e = none
unless false e = some e

-- The errors of tests one behind another: the first is returned.
infixr 5 ◌or_else◌
abbrev pub ◌or_else◌ : {E : Type 0} → Option E → Option E → Option E
none or_else rest = rest
some e or_else rest = some e

-- Mode.Valid, Environment.Valid, validLogLevel and validLogFormat
unfoldable pub mode_valid : Mode → Bool
mode_valid (Mode.other s) = false
mode_valid m = true

unfoldable pub environment_valid : Environment → Bool
environment_valid (Environment.other s) = false
environment_valid e = true

abbrev lower_is_one_of : String → List String → Bool
lower_is_one_of s [] = false
lower_is_one_of s (t ∷ ts) = lower_is s t || lower_is_one_of s ts

unfoldable pub valid_log_level : String → Bool
valid_log_level level =
    lower_is_one_of (trim_space level) ("debug" ∷ "info" ∷ "warn" ∷ "warning" ∷ "error" ∷ [])

unfoldable pub valid_log_format : String → Bool
valid_log_format format = lower_is_one_of (trim_space format) ("json" ∷ "text" ∷ [])

abbrev is_bracket : Char → Bool
is_bracket c = code c == b'[' || code c == b']'

trim_brackets_left : String → String
trim_brackets_left String.[] = String.[]
trim_brackets_left (String.◌∷◌ c s) =
    let rest = trim_brackets_left s in if is_bracket c then rest else String.◌∷◌ c s

trim_brackets_right : String → String
trim_brackets_right String.[] = String.[]
trim_brackets_right (String.◌∷◌ c s) =
    let rest = trim_brackets_right s in
    if is_bracket c && is_empty rest then String.[] else String.◌∷◌ c rest

-- isLoopbackHost
unfoldable pub is_loopback_host : Libraries → String → Bool
unfolding trim_brackets_left trim_brackets_right
is_loopback_host libraries given =
    let host = trim_brackets_right (trim_brackets_left (trim_space given)) in
    equal_fold host "localhost" || libraries.is_loopback_ip host

abbrev zero_float : Float64
zero_float = finite (pos 0)

-- streamPrefixForAccount
unfoldable pub stream_prefix_for_account : String → AccountRouteConfig → String
stream_prefix_for_account given account =
    let env = trim_space given in
    let broker = trim_space account.broker_id in
    let gateway = trim_space account.gateway_id in
    if is_empty env || is_empty broker || is_empty gateway
    then ""
    else "relay:" ++ env ++ ":v1:" ++ broker ++ ":" ++ gateway

abbrev pub is_test : Environment → Bool
is_test Environment.test = true
is_test e = false

abbrev pub is_production : Environment → Bool
is_production Environment.production = true
is_production e = false

abbrev pub schedule_error : Option ScheduleError → Option AccountError
schedule_error none = none
schedule_error (some e) = some (bad_schedule e)

abbrev pub check_schedule :
    Libraries → Environment → Option OrderEntryScheduleConfig → Option AccountError
check_schedule libraries env none = none
check_schedule libraries env (some schedule) =
    unless (is_test env) schedule_outside_test
    or_else schedule_error (validate_order_entry_schedule libraries.load_location schedule)

-- One round of Validate's loop over the accounts, with the ids that were seen.
unfoldable pub check_account :
    Libraries → Environment → String → List String → AccountRouteConfig → Option AccountError
check_account libraries env redis_env seen account =
    let expected = stream_prefix_for_account redis_env account in
    unless (not (is_empty (trim_space account.account_id))) account_id_required
    or_else unless (not (one_of account.account_id seen)) duplicate_account
    or_else unless (not (is_empty (trim_space account.broker_id))) broker_id_required
    or_else unless (not (is_empty (trim_space account.gateway_id))) gateway_id_required
    or_else unless (not (is_empty (trim_space account.stream_prefix))) stream_prefix_required
    or_else unless (not (account.trading_enabled && not account.enabled)) trading_requires_enabled
    or_else unless (not (is_production env && account.trading_enabled && account.simulated))
        simulated_in_production
    or_else check_schedule libraries env account.order_entry_schedule
    or_else unless (is_empty expected || str_eq account.stream_prefix expected)
        (prefix_mismatch expected)

abbrev at_index : ℕ → Option AccountError → Option ConfigError
at_index i none = none
at_index i (some e) = some (at_account i e)

unfoldable pub check_accounts :
    Libraries
    → Environment
    → String
    → ℕ
    → List String
    → List AccountRouteConfig
    → Option ConfigError
check_accounts libraries env redis_env i seen [] = none
check_accounts libraries env redis_env i seen (a ∷ accounts) =
    at_index i (check_account libraries env redis_env seen a)
    or_else check_accounts libraries env redis_env (suc i) (a.account_id ∷ seen) accounts

abbrev is_known : Option Location → Bool
is_known none = false
is_known (some location) = true

abbrev check_dsn_name : String → Option String → Option ConfigError
check_dsn_name expected none = some dsn_invalid
check_dsn_name expected (some name) = unless (str_eq (trim_space name) expected) dsn_of_another

unfoldable pub check_database : Libraries → Config → Option ConfigError
check_database libraries cfg =
    let expected = trim_space cfg.database.expected_name in
    let named = check_dsn_name expected (libraries.parse_dsn cfg.database.dsn) in
    unless (not (ltb_ℤ cfg.database.max_open_conns cfg.database.max_idle_conns)) idle_conns
    or_else (if is_empty (trim_space cfg.database.dsn)
        then none
        else unless (not (is_empty expected)) expected_name_required or_else named)

abbrev is_loopback : Libraries → Option String → Bool
is_loopback libraries none = false
is_loopback libraries (some host) = is_loopback_host libraries host

abbrev check_health_url : Libraries → Option Url → Option ConfigError
check_health_url libraries none = some health_url
check_health_url libraries (some url) =
    unless (str_eq url.scheme "http" && not (is_empty url.host)) health_url
    or_else unless (is_loopback_host libraries url.hostname) health_url_host
    or_else unless (str_eq url.path "/readyz") health_url_path

unfoldable pub check_settings : Libraries → Config → Option ConfigError
check_settings libraries cfg =
    let p = cfg.performance in
    let o = cfg.operations in
    unless (not (is_empty (trim_space cfg.market.base_url))) market_base_url
    or_else unless (leb_ℤ (pos 0) cfg.market.timeout_seconds) market_timeout
    or_else unless (not (is_empty (trim_space p.formula_version))) formula_version
    or_else unless
        (not (
          lt p.etf_t0_friction_rate zero_float
          || lt (finite (pos (2 ^ 1074))) p.etf_t0_friction_rate))
        friction_rate
    or_else unless (not (lt p.auto_tolerance_cny zero_float || lt p.auto_tolerance_bp zero_float))
        auto_tolerances
    or_else unless
        (not (
          lt p.warning_tolerance_cny p.auto_tolerance_cny
          || lt p.warning_tolerance_bp p.auto_tolerance_bp))
        warning_tolerances
    or_else unless (leb_ℤ (pos 1) o.heartbeat_stale_seconds) heartbeat
    or_else unless
        (not (ltb_ℤ o.lag_warning_entries (pos 0) || ltb_ℤ o.lag_critical_entries (pos 0)))
        lag_thresholds
    or_else unless (not (ltb_ℤ o.lag_critical_entries o.lag_warning_entries)) lag_critical
    or_else unless (leb_ℤ (pos 1) o.snapshot_cache_seconds) snapshot_cache
    or_else unless (not (is_empty (trim_space cfg.worker.health_addr))) health_addr_required
    or_else unless (is_loopback libraries (libraries.split_host cfg.worker.health_addr)) health_addr
    or_else unless (not (is_empty (trim_space cfg.worker.health_url))) health_url_required
    or_else check_health_url libraries (libraries.parse_url (trim_space cfg.worker.health_url))
    or_else unless (leb_ℤ (pos 0) cfg.auto_refresh.debounce_seconds) debounce
    or_else unless (leb_ℤ (pos 0) cfg.auto_refresh.cooldown_seconds) cooldown
    or_else unless (leb_ℤ (pos 0) cfg.auto_refresh.timeout_seconds) refresh_timeout

unfoldable pub check_service : Libraries → Config → Option ConfigError
check_service libraries cfg =
    unless (mode_valid cfg.service.mode) mode
    or_else unless (environment_valid cfg.service.environment) environment
    or_else unless (is_known (libraries.load_location cfg.service.timezone)) timezone
    or_else unless (valid_log_level cfg.service.log_level) log_level
    or_else unless (valid_log_format cfg.service.log_format) log_format

-- Config.Validate: its error, if there is one.
unfoldable pub validate : Libraries → Config → Option ConfigError
validate libraries cfg =
    check_service libraries cfg
    or_else check_database libraries cfg
    or_else check_settings libraries cfg
    or_else check_accounts libraries cfg.service.environment cfg.redis.env 0 [] cfg.accounts

-- Config.AccountRoute
unfoldable pub find_account_route : Config → String → Option AccountRouteConfig
find_account_route cfg account = find_first (λ a. str_eq a.account_id account) cfg.accounts

abbrev decoded : Config → Option ConfigError → ConfigError ⊎ Config
decoded cfg none = inr cfg
decoded cfg (some e) = inl e

-- Decode, behind the YAML decoder.
unfoldable pub decode : Libraries → Config → ConfigError ⊎ Config
decode libraries given = let cfg = apply_defaults given in decoded cfg (validate libraries cfg)
