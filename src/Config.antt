-- ===== src/Config.antt =====
-- internal/config/config.go: the configuration of the processes from their environment.
pub mod Processes
pub mod Safe
pub mod Loaded
use call_it.Prelude.{
  ℕ, suc, ◌+◌, ◌*◌, ◌-◌, ltb, leb, ◌==◌, ◌^◌, ℤ, pos, negsuc, pos_part, neg_part, ltb_ℤ, sub_ℕ, Str,
  bytes, str_eq, split_on, List, [], ◌∷◌, length, Bool, true, false, not, ◌&&◌, ◌||◌, Option, none,
  some, Result, Done, ok, err, fail_if, ◌>>=◌, ◌>>◌, if◌then◌else◌,
}

-- A variable that is missing, or whose value is refused.
pub data ConfigError : Type 0 where
  required : Str → ConfigError
  invalid : Str → ConfigError

-- `os.LookupEnv`
abbrev pub LookupFunc : Type 0
LookupFunc = Str → Option Str

-- Durations, URLs, hosts and addresses, which the standard library reads. `absolute` says whether an URL
-- parses and has a scheme and a host.
pub record Parsers : Type 1 where
  pub Prefix : Type 0
  pub trim_space : Str → Str
  pub parse_duration : Str → Option ℤ
  pub absolute : Str → Bool
  pub split_host_port : Str → Option (Str × Str)
  pub is_loopback : Str → Bool
  pub parse_prefix : Str → Option Prefix
  pub bits : Prefix → ℕ
  pub masked : Prefix → Prefix

-- `strconv.Atoi`: a sign, and then digits, in the range of an int64.
unfoldable pub digits : ℕ → Str → Option ℕ
digits n [] = some n
digits n (c ∷ s) =
    let rest = digits (n * 10 + (c - b'0')) s in if leb b'0' c && leb c b'9' then rest else none

unfoldable pub unsigned : Str → Option ℕ
unfolding digits
unsigned [] = none
unsigned (c ∷ s) = digits 0 (c ∷ s)

unfoldable pub atoi_of : Bool → Option ℕ → Option ℤ
atoi_of negative none = none
atoi_of true (some n) = if leb n (2 ^ 63) then some (sub_ℕ 0 n) else none
atoi_of false (some n) = if ltb n (2 ^ 63) then some (pos n) else none

unfoldable pub atoi : Str → Option ℤ
unfolding unsigned atoi_of
atoi [] = none
atoi (c ∷ s) =
    if c == b'-'
    then atoi_of true (unsigned s)
    else if c == b'+'
    then atoi_of false (unsigned s)
    else atoi_of false (unsigned (c ∷ s))

abbrev pub min_jwt_secret_len : ℕ
min_jwt_secret_len = 32

-- One minute and 24 hours, in nanoseconds.
abbrev pub min_jwt_ttl : ℤ
min_jwt_ttl = pos 60000000000

abbrev pub max_jwt_ttl : ℤ
max_jwt_ttl = pos 86400000000000

abbrev pub default_jwt_ttl : ℤ
default_jwt_ttl = pos 7200000000000

unfoldable pub valid_env : Str → Bool
valid_env v =
    str_eq v (bytes "development") || (str_eq v (bytes "production") || str_eq v (bytes "test"))

unfoldable pub valid_log_level : Str → Bool
valid_log_level v =
    str_eq v (bytes "debug")
    || (str_eq v (bytes "info") || (str_eq v (bytes "warn") || str_eq v (bytes "error")))

abbrev pub out_of : ℤ → ℤ → ℤ → Bool
out_of lo hi z = ltb_ℤ z lo || ltb_ℤ hi z

module _ (lookup : LookupFunc) where
  -- A number in a range.
  unfoldable pub load_number : Str → ℤ → ℤ → ℤ → Result ConfigError ℤ
  unfolding atoi
  load_number name lo hi default = elim (lookup name) [
    | none ↦ ok default
    | some v ↦ elim (atoi v) [
      | none ↦ err (invalid name)
      | some z ↦ if out_of lo hi z then err (invalid name) else ok z
    ]
  ]

  unfoldable pub load_choice : Str → (Str → Bool) → Str → Result ConfigError Str
  load_choice name valid default = elim (lookup name) [
    | none ↦ ok default
    | some v ↦ if valid v then ok v else err (invalid name)
  ]

  -- A text that must not be empty.
  unfoldable pub load_text : Str → Str → Result ConfigError Str
  load_text name default = elim (lookup name) [
    | none ↦ ok default
    | some v ↦ if str_eq v [] then err (invalid name) else ok v
  ]

  unfoldable pub load_required : Str → Result ConfigError Str
  load_required name = elim (lookup name) [
    | none ↦ err (required name)
    | some v ↦ if str_eq v [] then err (required name) else ok v
  ]

  -- The loop over the brokers.
  unfoldable pub any_broker_empty : List Str → Bool
  any_broker_empty [] = false
  any_broker_empty (b ∷ bs) = str_eq b [] || any_broker_empty bs

  unfoldable pub load_brokers : Result ConfigError (List Str)
  unfolding any_broker_empty split_on
  load_brokers = elim (lookup (bytes "KAFKA_BROKERS")) [
    | none ↦ ok (bytes "localhost:9092" ∷ [])
    | some v ↦
        if str_eq v [] || any_broker_empty (split_on b',' v)
        then err (invalid (bytes "KAFKA_BROKERS"))
        else ok (split_on b',' v)
  ]

  unfoldable pub load_jwt_secret : Result ConfigError Str
  unfolding load_required
  load_jwt_secret = do
    v ← load_required (bytes "JWT_SECRET")
    fail_if (ltb (length v) min_jwt_secret_len) (invalid (bytes "JWT_SECRET"))
    ok v

  module _ (parsers : Parsers) where
    open parsers use {trim_space, parse_duration, absolute, split_host_port, is_loopback}

    unfoldable pub load_jwt_ttl : Result ConfigError ℤ
    load_jwt_ttl = elim (lookup (bytes "JWT_TTL")) [
      | none ↦ ok default_jwt_ttl
      | some v ↦ elim (parse_duration v) [
        | none ↦ err (invalid (bytes "JWT_TTL"))
        | some ttl ↦
            if out_of min_jwt_ttl max_jwt_ttl ttl then err (invalid (bytes "JWT_TTL")) else ok ttl
      ]
    ]

    unfoldable pub collect_origins : List Str → Result ConfigError (List Str)
    collect_origins [] = ok []
    collect_origins (p ∷ ps) =
        let rest = collect_origins ps in
        let origin = trim_space p in
        if str_eq origin []
        then rest
        else if str_eq origin (bytes "*")
        then err (invalid (bytes "CORS_ALLOWED_ORIGINS"))
        else if absolute origin
        then elim rest [ ok origins ↦ ok (origin ∷ origins) | err e ↦ err e ]
        else err (invalid (bytes "CORS_ALLOWED_ORIGINS"))

    -- A variable that is unset or blank.
    unfoldable pub present : Str → Option Str
    present name = elim (lookup name) [
      | none ↦ none
      | some raw ↦ if str_eq (trim_space raw) [] then none else some raw
    ]

    unfoldable pub load_allowed_origins : Str → Result ConfigError (List Str)
    unfolding present collect_origins split_on
    load_allowed_origins env = elim (present (bytes "CORS_ALLOWED_ORIGINS")) [
      | none ↦
          if str_eq env (bytes "production")
          then err (required (bytes "CORS_ALLOWED_ORIGINS"))
          else ok (bytes "http://localhost:3000" ∷ [])
      | some raw ↦ collect_origins (split_on b',' raw)
    ]

    unfoldable pub collect_prefixes : List Str → Result ConfigError (List parsers.Prefix)
    collect_prefixes [] = ok []
    collect_prefixes (p ∷ ps) =
        let rest = collect_prefixes ps in
        let entry = trim_space p in
        if str_eq entry [] then rest else elim (parsers.parse_prefix entry) [
          | none ↦ err (invalid (bytes "TRUSTED_PROXIES"))
          | some prefix ↦
              if parsers.bits prefix == 0
              then err (invalid (bytes "TRUSTED_PROXIES"))
              else elim rest [ ok prefixes ↦ ok (parsers.masked prefix ∷ prefixes) | err e ↦ err e ]
        ]

    unfoldable pub load_trusted_proxies : Result ConfigError (List parsers.Prefix)
    unfolding present collect_prefixes split_on
    load_trusted_proxies = elim (present (bytes "TRUSTED_PROXIES")) [
      | none ↦ ok []
      | some raw ↦ collect_prefixes (split_on b',' raw)
    ]

    unfoldable pub loopback_host : Str → Bool
    loopback_host host = str_eq host (bytes "localhost") || is_loopback host

    -- Whether the address can be listened on.
    unfoldable pub metrics_addr_ok : Str → Str → Bool
    unfolding atoi loopback_host
    metrics_addr_ok env raw = elim (split_host_port raw) [
      | none ↦ false
      | some (host, port) ↦ elim (atoi port) [
        | none ↦ false
        | some n ↦
            if out_of (pos 1) (pos 65535) n
            then false
            else if str_eq env (bytes "production")
            then loopback_host host
            else true
      ]
    ]

    unfoldable pub load_metrics_addr : Str → Result ConfigError Str
    unfolding metrics_addr_ok
    load_metrics_addr env = elim (lookup (bytes "METRICS_ADDR")) [
      | none ↦ ok []
      | some raw ↦
          if str_eq raw []
          then ok []
          else if metrics_addr_ok env raw
          then ok raw
          else err (invalid (bytes "METRICS_ADDR"))
    ]
