-- ===== src/Config.antt =====
-- internal/shared/infrastructure/config/config.go and internal/apiserver/infrastructure/config/config.go, with the
-- choice of the configuration in cmd/apiserver/main.go. The reading of YAML, strings.Split and the
-- environment are parameters; an environment variable that is not set is the empty text.
pub mod Sources
use dispatchhub.Prelude.{
  ℕ, ◌*◌, Text, Bool, true, false, Option, none, some, List, [], ◌∷◌, codes, is_empty,
  if◌then◌else◌,
}
use dispatchhub.Prelude.Int.{ℤ, pos}
use dispatchhub.RateLimit.{Float, RateLimitConfig}
use dispatchhub.Scheduler.App.{second, hour}

pub record ServerConfig : Type 0 where
  pub grpc_addr : Text
  pub http_addr : Text

pub record EtcdConfig : Type 0 where
  pub endpoints : List Text
  pub dial_timeout : ℕ
  pub username : Text
  pub password : Text
  pub tls_cert : Text
  pub tls_key : Text
  pub tls_ca : Text

pub record RedisConfig : Type 0 where
  pub addr : Text
  pub password : Text
  pub db : ℤ
  pub pool_size : ℤ
  pub min_idle_conns : ℤ
  pub dial_timeout : ℕ
  pub read_timeout : ℕ
  pub write_timeout : ℕ
  pub cluster_mode : Bool
  pub cluster_addrs : List Text

pub record MysqlConfig : Type 0 where
  pub dsn : Text
  pub max_open_conns : ℤ
  pub max_idle_conns : ℤ
  pub conn_max_lifetime : ℕ
  pub conn_max_idle_time : ℕ

pub record MetricsConfig : Type 0 where
  pub enabled : Bool
  pub addr : Text
  pub path : Text

pub record LogConfig : Type 0 where
  pub level : Text
  pub format : Text
  pub output : Text

abbrev pub default_etcd_config : EtcdConfig
default_etcd_config = record {
  endpoints = codes "localhost:2379" ∷ [];
  dial_timeout = 5 * second;
  username = [];
  password = [];
  tls_cert = [];
  tls_key = [];
  tls_ca = [];
}

abbrev pub default_redis_config : RedisConfig
default_redis_config = record {
  addr = codes "localhost:6379";
  password = [];
  db = pos 0;
  pool_size = pos 100;
  min_idle_conns = pos 10;
  dial_timeout = 5 * second;
  read_timeout = 3 * second;
  write_timeout = 3 * second;
  cluster_mode = false;
  cluster_addrs = [];
}

abbrev pub default_mysql_config : MysqlConfig
default_mysql_config = record {
  dsn = codes "root:@tcp(localhost:3306)/dispatchhub?charset=utf8mb4&parseTime=true&loc=Local";
  max_open_conns = pos 50;
  max_idle_conns = pos 10;
  conn_max_lifetime = hour;
  conn_max_idle_time = 0;
}

abbrev pub default_metrics_config : MetricsConfig
default_metrics_config = record { enabled = true; addr = codes ":9091"; path = codes "/metrics" }

abbrev pub default_log_config : LogConfig
default_log_config = record { level = codes "info"; format = codes "json"; output = codes "stdout" }

-- os.Getenv, if it is not empty
abbrev pub or_value : Text → Text → Text
or_value v old = if is_empty v then old else v

module _ (env : Text → Text) (split : Text → List Text) where
  unfoldable pub apply_server_env : ServerConfig → ServerConfig
  apply_server_env cfg = record {
    grpc_addr = or_value (env (codes "DISPATCH_GRPC_ADDR")) cfg.grpc_addr;
    http_addr = or_value (env (codes "DISPATCH_HTTP_ADDR")) cfg.http_addr;
  }

  unfoldable pub apply_redis_env : RedisConfig → RedisConfig
  apply_redis_env cfg = record cfg {
    addr = or_value (env (codes "DISPATCH_REDIS_ADDR")) cfg.addr;
    password = or_value (env (codes "DISPATCH_REDIS_PASSWORD")) cfg.password;
  }

  unfoldable pub apply_mysql_env : MysqlConfig → MysqlConfig
  apply_mysql_env cfg = record cfg { dsn = or_value (env (codes "DISPATCH_MYSQL_DSN")) cfg.dsn }

  -- At the commas.
  unfoldable pub apply_etcd_env : EtcdConfig → EtcdConfig
  apply_etcd_env cfg =
      let v = env (codes "DISPATCH_ETCD_ENDPOINTS") in
      record cfg { endpoints = if is_empty v then cfg.endpoints else split v }

  unfoldable pub apply_log_env : LogConfig → LogConfig
  apply_log_env cfg = record cfg { level = or_value (env (codes "DISPATCH_LOG_LEVEL")) cfg.level }

module _ (f : Float) where
  abbrev pub default_rate_limit_config : RateLimitConfig f
  default_rate_limit_config = record {
    enabled = true;
    default_rate = f.of_int (pos 1000);
    default_burst = pos 1000;
    per_queue = [];
  }

  pub record Config : Type 0 where
    pub server : ServerConfig
    pub etcd : EtcdConfig
    pub redis : RedisConfig
    pub mysql : MysqlConfig
    pub metrics : MetricsConfig
    pub log : LogConfig
    pub rate_limit : RateLimitConfig f

  abbrev pub default_config : Config
  default_config = record {
    server = record { grpc_addr = codes ":9090"; http_addr = codes ":8080" };
    etcd = default_etcd_config;
    redis = default_redis_config;
    mysql = default_mysql_config;
    metrics = default_metrics_config;
    log = default_log_config;
    rate_limit = default_rate_limit_config;
  }

  module _ (env : Text → Text) (split : Text → List Text)
      (load_yaml : Text → Config → Option Config) where
    unfoldable pub overridden : Config → Config
    unfolding apply_server_env apply_redis_env apply_mysql_env apply_etcd_env apply_log_env
    overridden cfg = record cfg {
      server = apply_server_env env split cfg.server;
      etcd = apply_etcd_env env split cfg.etcd;
      redis = apply_redis_env env split cfg.redis;
      mysql = apply_mysql_env env split cfg.mysql;
      log = apply_log_env env split cfg.log;
    }

    abbrev overridden_if : Option Config → Option Config
    overridden_if none = none
    overridden_if (some cfg) = some (overridden cfg)

    -- Load; `none` is an error.
    unfoldable pub load : Text → Option Config
    unfolding overridden
    load path = overridden_if (load_yaml path default_config)

    -- The configuration of main, by the flag -config.
    unfoldable pub chosen_config : Text → Option Config
    unfolding load
    chosen_config path = if is_empty path then some default_config else load path
