-- ===== src/Config/Types.antt =====
-- The types of internal/config/config.go.
use ti_relay_trader.Prelude.{String, Bool, Option, List}
use ti_relay_trader.Prelude.Int.{ℤ}
use ti_relay_trader.Float64.{Float64}
use ti_relay_trader.Config.Schedule.{OrderEntryScheduleConfig}

pub data Mode : Type 0 where
  docs api worker : Mode
  other : String → Mode

pub data Environment : Type 0 where
  test production : Environment
  other : String → Environment

pub record ServiceConfig : Type 0 where
  pub public_url : String
  pub docs_addr : String
  pub api_addr : String
  pub mode : Mode
  pub environment : Environment
  pub timezone : String
  pub log_level : String
  pub log_format : String

pub record DatabaseConfig : Type 0 where
  pub driver : String
  pub dsn : String
  pub expected_name : String
  pub max_open_conns : ℤ
  pub max_idle_conns : ℤ

pub record RedisConfig : Type 0 where
  pub url : String
  pub env : String
  pub broker_id : String
  pub gateway_id : String

pub record MarketConfig : Type 0 where
  pub base_url : String
  pub timeout_seconds : ℤ
  pub snapshot_market_level : String
  pub snapshot_data_scope : String

pub record PerformanceConfig : Type 0 where
  pub settings_write_enabled : Bool
  pub formula_version : String
  pub etf_t0_friction_rate : Float64
  pub auto_tolerance_cny : Float64
  pub auto_tolerance_bp : Float64
  pub warning_tolerance_cny : Float64
  pub warning_tolerance_bp : Float64

pub record OperationsConfig : Type 0 where
  pub actions_write_enabled : Bool
  pub credential_admin_enabled : Bool
  pub heartbeat_stale_seconds : ℤ
  pub lag_warning_entries : ℤ
  pub lag_critical_entries : ℤ
  pub snapshot_cache_seconds : ℤ

pub record WorkerConfig : Type 0 where
  pub embedded_ledger_sync : Option Bool
  pub health_addr : String
  pub health_url : String

pub record AutoRefreshConfig : Type 0 where
  pub enabled : Option Bool
  pub debounce_seconds : ℤ
  pub cooldown_seconds : ℤ
  pub timeout_seconds : ℤ

pub record AccountRouteConfig : Type 0 where
  pub account_id : String
  pub alias : String
  pub broker_id : String
  pub gateway_id : String
  pub stream_prefix : String
  pub enabled : Bool
  pub trading_enabled : Bool
  pub simulated : Bool
  pub order_entry_schedule : Option OrderEntryScheduleConfig

pub record JobConfig : Type 0 where
  pub enabled : Bool
  pub schedule : String
  pub trigger : String
  pub depends_on : String
  pub upstream_schedule : String
  pub ready_deadline : String
  pub retry_until : String

-- The jobs are a map, or nil.
pub record Config : Type 0 where
  pub service : ServiceConfig
  pub database : DatabaseConfig
  pub redis : RedisConfig
  pub market : MarketConfig
  pub performance : PerformanceConfig
  pub operations : OperationsConfig
  pub worker : WorkerConfig
  pub auto_refresh : AutoRefreshConfig
  pub accounts : List AccountRouteConfig
  pub jobs : Option (List (String × JobConfig))
