-- ===== src/Config/Processes.antt =====
-- internal/config/config.go: the configuration of each process.
use call_it.Prelude.{ℤ, pos, Str, bytes, List, Result, ok, ◌>>=◌}
use call_it.Config.{
  ConfigError, LookupFunc, Parsers, load_number, load_choice, load_text, load_required,
  load_brokers, load_jwt_secret, load_jwt_ttl, load_allowed_origins, load_trusted_proxies,
  load_metrics_addr, valid_env, valid_log_level,
}

pub record Config (Prefix : Type 0) : Type 0 where
  pub port : ℤ
  pub env : Str
  pub log_level : Str
  pub redis_addr : Str
  pub redis_db : ℤ
  pub jwt_secret : Str
  pub jwt_ttl : ℤ
  pub allowed_origins : List Str
  pub metrics_addr : Str
  pub trusted_proxies : List Prefix

pub record MigrateConfig : Type 0 where
  pub postgres_dsn : Str
  pub log_level : Str

pub record RelayConfig : Type 0 where
  pub redis_addr : Str
  pub redis_db : ℤ
  pub kafka_brokers : List Str
  pub log_level : Str
  pub env : Str

pub record LedgerConfig : Type 0 where
  pub postgres_dsn : Str
  pub kafka_brokers : List Str
  pub consumer_group : Str
  pub log_level : Str
  pub env : Str

module _ (lookup : LookupFunc) where
  unfoldable pub load_env : Result ConfigError Str
  load_env = load_choice lookup (bytes "ENV") valid_env (bytes "development")

  unfoldable pub load_log_level : Result ConfigError Str
  load_log_level = load_choice lookup (bytes "LOG_LEVEL") valid_log_level (bytes "info")

  unfoldable pub load_redis_addr : Result ConfigError Str
  load_redis_addr = load_text lookup (bytes "REDIS_ADDR") (bytes "localhost:6379")

  unfoldable pub load_redis_db : Result ConfigError ℤ
  load_redis_db = load_number lookup (bytes "REDIS_DB") (pos 0) (pos 15) (pos 0)

  unfoldable pub load : (parsers : Parsers) → Result ConfigError (Config parsers.Prefix)
  load parsers = do
    port ← load_number lookup (bytes "PORT") (pos 1) (pos 65535) (pos 8080)
    env ← load_env
    log_level ← load_log_level
    redis_addr ← load_redis_addr
    redis_db ← load_redis_db
    allowed_origins ← load_allowed_origins lookup parsers env
    trusted_proxies ← load_trusted_proxies lookup parsers
    jwt_secret ← load_jwt_secret lookup
    jwt_ttl ← load_jwt_ttl lookup parsers
    metrics_addr ← load_metrics_addr lookup parsers env
    ok (record {
      port = port;
      env = env;
      log_level = log_level;
      redis_addr = redis_addr;
      redis_db = redis_db;
      jwt_secret = jwt_secret;
      jwt_ttl = jwt_ttl;
      allowed_origins = allowed_origins;
      metrics_addr = metrics_addr;
      trusted_proxies = trusted_proxies;
    })

  unfoldable pub load_migrate : Result ConfigError MigrateConfig
  load_migrate = do
    postgres_dsn ← load_required lookup (bytes "POSTGRES_DSN")
    log_level ← load_log_level
    ok (record { postgres_dsn = postgres_dsn; log_level = log_level })

  unfoldable pub load_relay : Result ConfigError RelayConfig
  load_relay = do
    redis_addr ← load_redis_addr
    redis_db ← load_redis_db
    kafka_brokers ← load_brokers lookup
    log_level ← load_log_level
    env ← load_env
    ok (record {
      redis_addr = redis_addr;
      redis_db = redis_db;
      kafka_brokers = kafka_brokers;
      log_level = log_level;
      env = env;
    })

  unfoldable pub load_ledger : Result ConfigError LedgerConfig
  load_ledger = do
    postgres_dsn ← load_required lookup (bytes "POSTGRES_DSN")
    kafka_brokers ← load_brokers lookup
    consumer_group ← load_text lookup (bytes "LEDGER_GROUP") (bytes "ledger-writer")
    log_level ← load_log_level
    env ← load_env
    ok (record {
      postgres_dsn = postgres_dsn;
      kafka_brokers = kafka_brokers;
      consumer_group = consumer_group;
      log_level = log_level;
      env = env;
    })
