-- ===== src/Config/Defaults.antt =====
-- Config.ApplyDefaults of internal/config/config.go.
use mathlib.Core.Option.{map as map_option}
use ti_relay_trader.Prelude.{
  ℕ, zero, ◌*◌, ◌^◌, String, Option, none, some, List, [], map, if◌then◌else◌,
}
use ti_relay_trader.Prelude.Int.{ℤ, pos}
use ti_relay_trader.Text.{is_empty, trim_space}
use ti_relay_trader.Float64.{Float64, finite, eq}
use ti_relay_trader.Config.Schedule.{OrderEntryScheduleConfig}
use ti_relay_trader.Config.Types.{
  Mode, Environment, ServiceConfig, DatabaseConfig, MarketConfig, PerformanceConfig,
  OperationsConfig, WorkerConfig, AutoRefreshConfig, AccountRouteConfig, JobConfig, Config,
}

-- A text, a number or a float that is given, or the default.
abbrev text_or : String → String → String
text_or usual String.[] = usual
text_or usual (String.◌∷◌ c s) = String.◌∷◌ c s

abbrev int_or : ℕ → ℤ → ℤ
int_or usual (pos zero) = pos usual
int_or usual n = n

abbrev float_or : ℕ → Float64 → Float64
float_or usual x = if eq x (finite (pos 0)) then finite (pos usual) else x

abbrev mode_or_docs : Mode → Mode
mode_or_docs (Mode.other String.[]) = Mode.docs
mode_or_docs m = m

abbrev environment_or_test : Environment → Environment
environment_or_test (Environment.other String.[]) = Environment.test
environment_or_test e = e

-- A schedule without a timezone takes the service's.
abbrev default_timezone : String → OrderEntryScheduleConfig → OrderEntryScheduleConfig
default_timezone timezone schedule =
    if is_empty (trim_space schedule.timezone)
    then record schedule { timezone = timezone }
    else schedule

abbrev default_schedule : String → AccountRouteConfig → AccountRouteConfig
default_schedule timezone account = record account {
  order_entry_schedule = map_option (default_timezone timezone) account.order_entry_schedule;
}

abbrev default_service : ServiceConfig → ServiceConfig
default_service s = record s {
  public_url = text_or "http://relay-trader.quantstage.com" s.public_url;
  docs_addr = text_or "0.0.0.0:9092" s.docs_addr;
  api_addr = text_or "0.0.0.0:9092" s.api_addr;
  mode = mode_or_docs s.mode;
  environment = environment_or_test s.environment;
  timezone = text_or "Asia/Shanghai" (trim_space s.timezone);
  log_level = text_or "info" s.log_level;
  log_format = text_or "json" s.log_format;
}

abbrev default_database : DatabaseConfig → DatabaseConfig
default_database d = record d {
  driver = text_or "postgres" d.driver;
  max_open_conns = int_or 16 d.max_open_conns;
  max_idle_conns = int_or 4 d.max_idle_conns;
}

abbrev default_market : MarketConfig → MarketConfig
default_market m = record m {
  base_url = text_or "http://meridian-data.quantstage.com" m.base_url;
  timeout_seconds = int_or 15 m.timeout_seconds;
  snapshot_market_level = text_or "level1" m.snapshot_market_level;
  snapshot_data_scope = text_or "realtime" m.snapshot_data_scope;
}

-- 0.0015 and 0.1 are the doubles that Go makes of these literals.
abbrev default_performance : PerformanceConfig → PerformanceConfig
default_performance p = record p {
  formula_version = text_or "performance_economic_nav.v2.7" p.formula_version;
  etf_t0_friction_rate = float_or (3_458_764_513_820_541 * 2 ^ 1013) p.etf_t0_friction_rate;
  auto_tolerance_cny = float_or (50 * 2 ^ 1074) p.auto_tolerance_cny;
  auto_tolerance_bp = float_or (3_602_879_701_896_397 * 2 ^ 1019) p.auto_tolerance_bp;
  warning_tolerance_cny = float_or (500 * 2 ^ 1074) p.warning_tolerance_cny;
  warning_tolerance_bp = float_or (2 ^ 1074) p.warning_tolerance_bp;
}

abbrev default_operations : OperationsConfig → OperationsConfig
default_operations o = record o {
  heartbeat_stale_seconds = int_or 30 o.heartbeat_stale_seconds;
  lag_warning_entries = int_or 500 o.lag_warning_entries;
  lag_critical_entries = int_or 5000 o.lag_critical_entries;
  snapshot_cache_seconds = int_or 5 o.snapshot_cache_seconds;
}

abbrev default_worker : WorkerConfig → WorkerConfig
default_worker w = record w {
  health_addr = text_or "127.0.0.1:19092" w.health_addr;
  health_url = text_or "http://127.0.0.1:19092/readyz" w.health_url;
}

abbrev default_auto_refresh : AutoRefreshConfig → AutoRefreshConfig
default_auto_refresh a = record a {
  debounce_seconds = int_or 2 a.debounce_seconds;
  cooldown_seconds = int_or 20 a.cooldown_seconds;
  timeout_seconds = int_or 10 a.timeout_seconds;
}

abbrev jobs_or_none : Option (List (String × JobConfig)) → Option (List (String × JobConfig))
jobs_or_none none = some []
jobs_or_none (some jobs) = some jobs

-- Config.ApplyDefaults
unfoldable pub apply_defaults : Config → Config
apply_defaults cfg =
    let service = default_service cfg.service in
    record cfg {
      service = service;
      database = default_database cfg.database;
      market = default_market cfg.market;
      performance = default_performance cfg.performance;
      operations = default_operations cfg.operations;
      worker = default_worker cfg.worker;
      auto_refresh = default_auto_refresh cfg.auto_refresh;
      accounts = map (default_schedule service.timezone) cfg.accounts;
      jobs = jobs_or_none cfg.jobs;
    }
