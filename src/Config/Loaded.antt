-- ===== src/Config/Loaded.antt =====
-- internal/config/config.go: the guarantees of `Load`.
use mathlib.Core.Path.{subst}
use call_it.Prelude.{
  [], bytes, str_eq, length, All, true, false, ok, ◌≡◌, ◌≤◌, refl, arith, bind-eq-ok, Result,
}
use call_it.Config.{
  LookupFunc, Parsers, ConfigError, valid_env, valid_log_level, load_number, load_allowed_origins,
  load_trusted_proxies, load_jwt_secret, load_jwt_ttl, load_metrics_addr,
}
use call_it.Config.Processes.{
  Config, load, load_env, load_log_level, load_redis_addr, load_redis_db,
}
use call_it.Config.Safe.{
  Within, Allowlist, Trusted, Listens, load_number-Within, load_choice-valid, load_text-filled,
  load_jwt_secret-long, load_jwt_ttl-Within, load_allowed_origins-Allowlist,
  load_trusted_proxies-Trusted, load_metrics_addr-Listens,
}

ok-injective {ℓ} : {A : Type ℓ} {a b : A} → Path (Result ConfigError A) (ok a) (ok b) → a ≡ b
ok-injective h = ground arith

-- What the API process relies on.
pub record IsSafe (lookup : LookupFunc) (parsers : Parsers) (cfg : Config parsers.Prefix)
    : Type 0 where
  pub port : Within 1 65535 cfg.port
  pub env : valid_env cfg.env ≡ true
  pub log_level : valid_log_level cfg.log_level ≡ true
  pub redis_addr : str_eq cfg.redis_addr [] ≡ false
  pub redis_db : Within 0 15 cfg.redis_db
  pub jwt_secret : 32 ≤ length cfg.jwt_secret
  pub jwt_ttl : Within 60000000000 86400000000000 cfg.jwt_ttl
  pub allowed_origins : Allowlist lookup parsers cfg.env cfg.allowed_origins
  pub trusted_proxies : All (Trusted lookup parsers) cfg.trusted_proxies
  pub metrics_addr : Listens lookup parsers cfg.env cfg.metrics_addr

module _ (lookup : LookupFunc) (parsers : Parsers) where
  -- When `Load` returns a configuration, its port is in 1 to 65535, its environment and its log level
  -- are known, its Redis address is not empty and its Redis database in 0 to 15, its secret has at
  -- least 32 bytes and its tokens live for one minute to 24 hours; its origins are absolute URLs and no
  -- wildcard, or the default, and that only outside production; each proxy it trusts is the masked
  -- form of a prefix that is not of zero length; and its metrics address is empty or a host and a
  -- port in 1 to 65535, in production with a host that is localhost or loopback.
  pub load-IsSafe :
      {cfg : Config parsers.Prefix} → load lookup parsers ≡ ok cfg → IsSafe lookup parsers cfg
  unfolding load load_env load_log_level load_redis_addr load_redis_db valid_env valid_log_level
      str_eq
  load-IsSafe h =
      let (port, p, h1) = bind-eq-ok (load_number lookup (bytes "PORT") _ _ _) _ h in
      let (env, e, h2) = bind-eq-ok (load_env lookup) _ h1 in
      let (log_level, l, h3) = bind-eq-ok (load_log_level lookup) _ h2 in
      let (redis_addr, a, h4) = bind-eq-ok (load_redis_addr lookup) _ h3 in
      let (redis_db, d, h5) = bind-eq-ok (load_redis_db lookup) _ h4 in
      let (origins, o, h6) = bind-eq-ok (load_allowed_origins lookup parsers env) _ h5 in
      let (proxies, t, h7) = bind-eq-ok (load_trusted_proxies lookup parsers) _ h6 in
      let (secret, s, h8) = bind-eq-ok (load_jwt_secret lookup) _ h7 in
      let (ttl, j, h9) = bind-eq-ok (load_jwt_ttl lookup parsers) _ h8 in
      let (metrics, m, h10) = bind-eq-ok (load_metrics_addr lookup parsers env) _ h9 in
      subst (IsSafe lookup parsers) (ok-injective h10) (record {
        port =
            load_number-Within lookup (bytes "PORT") 1 65535 8080 (ground arith) (ground arith) p;
        env = load_choice-valid lookup (bytes "ENV") valid_env (bytes "development") refl e;
        log_level =
            load_choice-valid lookup (bytes "LOG_LEVEL") valid_log_level (bytes "info") refl l;
        redis_addr = load_text-filled lookup (bytes "REDIS_ADDR") (bytes "localhost:6379") refl a;
        redis_db =
            load_number-Within lookup (bytes "REDIS_DB") 0 15 0 (ground arith) (ground arith) d;
        jwt_secret = load_jwt_secret-long lookup s;
        jwt_ttl = load_jwt_ttl-Within lookup parsers j;
        allowed_origins = load_allowed_origins-Allowlist lookup parsers env o;
        trusted_proxies = load_trusted_proxies-Trusted lookup parsers t;
        metrics_addr = load_metrics_addr-Listens lookup parsers env m;
      })
