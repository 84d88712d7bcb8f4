-- ===== src/Tests/Configuring.antt =====
-- The configuration of a process in production.
use call_it.Prelude.{
  ℕ, pos, Str, bytes, str_eq, split_on, List, [], ◌∷◌, Option, none, some, ok, ◌≡◌, refl,
  if◌then◌else◌, Bool, true, false, ◌==◌, ◌&&◌, ◌-◌,
}
use call_it.Config.{
  LookupFunc, Parsers, atoi, digits, unsigned, atoi_of, load_number, load_choice, load_text,
  load_required, load_jwt_secret, load_jwt_ttl, collect_origins, present, load_allowed_origins,
  collect_prefixes, load_trusted_proxies, loopback_host, metrics_addr_ok, load_metrics_addr,
  valid_env, valid_log_level,
}
use call_it.Config.Processes.{
  Config, load, load_env, load_log_level, load_redis_addr, load_redis_db,
}
use call_it.Config.Loaded.{IsSafe, load-IsSafe}

abbrev starts_with : Str → Str → Bool
starts_with s [] = true
starts_with [] (b ∷ t) = false
starts_with (a ∷ s) (b ∷ t) = let rest = starts_with s t in (a == b) && rest

abbrev host_port : List Str → Option (Str × Str)
host_port (host ∷ port ∷ []) = some (host, port)
host_port _ = none

abbrev count_of : Str → Option ℕ
count_of [] = none
count_of (b ∷ s) = some (b - b'0')

abbrev plain : Parsers
plain = record {
  Prefix = ℕ;
  trim_space = λ s. s;
  parse_duration = λ s. some (pos 3600000000000);
  absolute = λ s. starts_with s (bytes "http");
  split_host_port = λ s. host_port (split_on b':' s);
  is_loopback = λ s. starts_with s (bytes "127.");
  parse_prefix = count_of;
  bits = λ n. n;
  masked = λ n. n;
}

abbrev find_in : List (Str × Str) → LookupFunc
find_in [] name = none
find_in ((key, v) ∷ rest) name =
    let later = find_in rest name in if str_eq key name then some v else later

abbrev production : LookupFunc
production = find_in (
    (bytes "ENV", bytes "production")
    ∷ (bytes "PORT", bytes "80")
    ∷ (bytes "CORS_ALLOWED_ORIGINS", bytes "https://a.io,https://b.io")
    ∷ (bytes "TRUSTED_PROXIES", bytes "8")
    ∷ (bytes "JWT_SECRET", bytes "0123456789abcdef0123456789abcdef")
    ∷ (bytes "METRICS_ADDR", bytes "localhost:9090")
    ∷ [])

abbrev loaded : Config ℕ
loaded = record {
  port = pos 80;
  env = bytes "production";
  log_level = bytes "info";
  redis_addr = bytes "localhost:6379";
  redis_db = pos 0;
  jwt_secret = bytes "0123456789abcdef0123456789abcdef";
  jwt_ttl = pos 7200000000000;
  allowed_origins = bytes "https://a.io" ∷ bytes "https://b.io" ∷ [];
  metrics_addr = bytes "localhost:9090";
  trusted_proxies = 8 ∷ [];
}

production-loads : load production plain ≡ ok loaded
unfolding load load_env load_log_level load_redis_addr load_redis_db load_number load_choice
    load_text load_required load_jwt_secret load_jwt_ttl collect_origins present
    load_allowed_origins collect_prefixes load_trusted_proxies loopback_host metrics_addr_ok
    load_metrics_addr valid_env valid_log_level atoi digits unsigned atoi_of str_eq split_on
production-loads = refl

load-IsSafe_example : IsSafe production plain loaded
load-IsSafe_example = load-IsSafe production plain production-loads

-- A list of commas passes in production, and no origin is then allowed.
commas_pass :
    load_allowed_origins
      (find_in ((bytes "CORS_ALLOWED_ORIGINS", bytes ",") ∷ []))
      plain
      (bytes "production")
    ≡ ok []
unfolding load_allowed_origins present collect_origins split_on str_eq
commas_pass = refl
