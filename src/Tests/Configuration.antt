-- ===== src/Tests/Configuration.antt =====
-- Tests of the configuration.
use ti_relay_trader.Prelude.{
  String, ◌≡◌, refl, true, false, none, some, [], ◌∷◌, map, All, inr, str_eq,
}
use ti_relay_trader.Prelude.Int.{pos}
use ti_relay_trader.Text.{trim_space, lower_is, equal_fold}
use ti_relay_trader.Float64.{finite, eq, lt}
use ti_relay_trader.Config.Types.{Mode, Environment, AccountRouteConfig, Config}
use ti_relay_trader.Config.Defaults.{apply_defaults}
use ti_relay_trader.Config.Validation.{
  Libraries, validate, check_service, check_database, check_settings, check_accounts, check_account,
  mode_valid, environment_valid, valid_log_level, valid_log_format, is_loopback_host,
  stream_prefix_for_account, find_account_route, decode,
}
use ti_relay_trader.Config.Validation.Routes.{account_id_of, IsRoute, validate-IsRoute}
use ti_relay_trader.Trading.Validation.Laws.{AreDistinct}
use ti_relay_trader.Samples.{shanghai}

-- Libraries that read the default texts.
abbrev libraries : Libraries
libraries = record {
  load_location = λ name. some shanghai;
  parse_dsn = λ dsn. none;
  split_host = λ addr. some "127.0.0.1";
  parse_url = λ url. some record {
    scheme = "http";
    host = "127.0.0.1:19092";
    hostname = "127.0.0.1";
    path = "/readyz";
  };
  is_loopback_ip = λ host. str_eq host "127.0.0.1";
}

abbrev account : String → AccountRouteConfig
account id = record {
  account_id = id;
  alias = "";
  broker_id = "huaxin";
  gateway_id = "gw-1";
  stream_prefix = "relay:prod:v1:huaxin:gw-1";
  enabled = true;
  trading_enabled = true;
  simulated = false;
  order_entry_schedule = none;
}

-- A file that leaves everything but the accounts out.
abbrev given : Config
given = record {
  service = record {
    public_url = "";
    docs_addr = "";
    api_addr = "";
    mode = Mode.api;
    environment = Environment.production;
    timezone = "";
    log_level = "";
    log_format = "";
  };
  database = record {
    driver = "";
    dsn = "";
    expected_name = "";
    max_open_conns = pos 0;
    max_idle_conns = pos 0;
  };
  redis = record { url = ""; env = "prod"; broker_id = ""; gateway_id = "" };
  market = record {
    base_url = "";
    timeout_seconds = pos 0;
    snapshot_market_level = "";
    snapshot_data_scope = "";
  };
  performance = record {
    settings_write_enabled = false;
    formula_version = "";
    etf_t0_friction_rate = finite (pos 0);
    auto_tolerance_cny = finite (pos 0);
    auto_tolerance_bp = finite (pos 0);
    warning_tolerance_cny = finite (pos 0);
    warning_tolerance_bp = finite (pos 0);
  };
  operations = record {
    actions_write_enabled = false;
    credential_admin_enabled = false;
    heartbeat_stale_seconds = pos 0;
    lag_warning_entries = pos 0;
    lag_critical_entries = pos 0;
    snapshot_cache_seconds = pos 0;
  };
  worker = record { embedded_ledger_sync = none; health_addr = ""; health_url = "" };
  auto_refresh = record {
    enabled = none;
    debounce_seconds = pos 0;
    cooldown_seconds = pos 0;
    timeout_seconds = pos 0;
  };
  accounts = account "acct" ∷ account "other" ∷ [];
  jobs = none;
}

given-valid : validate libraries (apply_defaults given) ≡ none
unfolding validate check_service check_database check_settings check_accounts check_account
    mode_valid environment_valid valid_log_level valid_log_format is_loopback_host lt
    stream_prefix_for_account apply_defaults eq trim_space lower_is equal_fold
given-valid = refl

validate-IsRoute_example :
    AreDistinct (map account_id_of (apply_defaults given).accounts)
    × All
        (λ a.
          IsRoute libraries
            (apply_defaults given).service.environment
            (apply_defaults given).redis.env
            a
          × (find_account_route (apply_defaults given) a.account_id ≡ some a))
        (apply_defaults given).accounts
validate-IsRoute_example = validate-IsRoute libraries (apply_defaults given) given-valid

given-decoded : decode libraries given ≡ inr (apply_defaults given)
unfolding decode
given-decoded = rw given-valid refl
