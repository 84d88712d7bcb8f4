-- ===== src/Config/Safe.antt =====
-- internal/config/config.go: what the variables that load keep.
use mathlib.Core.Path.{subst}
use call_it.Prelude.{
  ℕ, ℤ, pos, negsuc, Str, bytes, str_eq, split_on, List, [], ◌∷◌, length, All, Bool, true, false,
  some, ok, ◌≡◌, Result, ◌≤◌, ◌⊎◌, inl, inr, refl, arith, ◌==◌, Bool-cases, Option-cases,
  Result-cases,
}
use call_it.Config.{
  LookupFunc, Parsers, ConfigError, out_of, atoi, load_number, load_choice, load_text,
  load_required, load_jwt_secret, load_jwt_ttl, collect_origins, present, load_allowed_origins,
  collect_prefixes, load_trusted_proxies, loopback_host, metrics_addr_ok, load_metrics_addr,
}

abbrev pub Within : ℕ → ℕ → ℤ → Type 0
Within lo hi z = (n : ℕ) × (z ≡ pos n) × (lo ≤ n) × (n ≤ hi)

out_of-Within : (lo hi : ℕ) (z : ℤ) → out_of (pos lo) (pos hi) z ≡ false → Within lo hi z
out_of-Within lo hi (pos n) h = (n, refl, ground arith, ground arith)
out_of-Within lo hi (negsuc n) h = absurd (ground arith)

nothing-kept {ℓ} :
    {A : Type ℓ} {xs : List A} → Path (Result ConfigError (List A)) (ok []) (ok xs) → [] ≡ xs
nothing-kept h = ground arith

module _ (lookup : LookupFunc) where
  -- The default or a number that passed the test of the range.
  pub load_number-Within :
      (name : Str) (lo hi default : ℕ)
      → lo ≤ default
      → default ≤ hi
      → {z : ℤ} → load_number lookup name (pos lo) (pos hi) (pos default) ≡ ok z
      → Within lo hi z
  unfolding load_number
  load_number-Within name lo hi default l u {z} h = out_of-Within lo hi z (ground arith)

  pub load_choice-valid :
      (name : Str) (valid : Str → Bool) (default : Str)
      → valid default ≡ true
      → {s : Str} → load_choice lookup name valid default ≡ ok s
      → valid s ≡ true
  unfolding load_choice
  load_choice-valid name valid default d h = ground arith

  pub load_text-filled :
      (name default : Str)
      → str_eq default [] ≡ false
      → {s : Str} → load_text lookup name default ≡ ok s
      → str_eq s [] ≡ false
  unfolding load_text
  load_text-filled name default d h = ground arith

  pub load_jwt_secret-long : {s : Str} → load_jwt_secret lookup ≡ ok s → 32 ≤ length s
  unfolding load_jwt_secret load_required
  load_jwt_secret-long h = ground arith

  module _ (parsers : Parsers) where
    pub load_jwt_ttl-Within :
        {z : ℤ} → load_jwt_ttl lookup parsers ≡ ok z → Within 60000000000 86400000000000 z
    unfolding load_jwt_ttl
    load_jwt_ttl-Within {z} h = out_of-Within 60000000000 86400000000000 z (ground arith)

    -- An entry of the allowlist: neither blank nor the wildcard, and an absolute URL.
    abbrev pub Origin : Str → Type 0
    Origin o = (str_eq o [] ≡ false) × (str_eq o (bytes "*") ≡ false) × (parsers.absolute o ≡ true)

    pub collect_origins-Origin :
        (entries : List Str) {origins : List Str}
        → collect_origins lookup parsers entries ≡ ok origins
        → All Origin origins
    unfolding collect_origins
    collect_origins-Origin [] h = subst (All Origin) (nothing-kept h) tt
    collect_origins-Origin (p ∷ ps) {origins} h =
        elim (Bool-cases (str_eq (parsers.trim_space p) [])) [
          | inl blank ↦ collect_origins-Origin ps (ground arith)
          | inr filled ↦ elim (Result-cases (collect_origins lookup parsers ps)) [
            | inr (e, bad) ↦ absurd (ground arith)
            | inl (rest, good) ↦
                let e : parsers.trim_space p ∷ rest ≡ origins = ground arith in
                subst (All Origin) e
                  ((filled, ground arith, ground arith), collect_origins-Origin ps good)
          ]
        ]

    -- The allowlist of an environment: only outside production a variable that is unset or blank stands
    -- for the default.
    abbrev pub Allowlist : Str → List Str → Type 0
    Allowlist env origins =
        ((str_eq env (bytes "production") ≡ false) × (origins ≡ bytes "http://localhost:3000" ∷ []))
        ⊎ All Origin origins

    pub load_allowed_origins-Allowlist :
        (env : Str) {origins : List Str}
        → load_allowed_origins lookup parsers env ≡ ok origins
        → Allowlist env origins
    unfolding load_allowed_origins
    load_allowed_origins-Allowlist env {origins} h =
        elim (Option-cases (present lookup parsers (bytes "CORS_ALLOWED_ORIGINS"))) [
          | inl unset ↦ inl (ground arith, ground arith)
          | inr (raw, set) ↦ inr (collect_origins-Origin (split_on b',' raw) (ground arith))
        ]

    -- The network of a proxy that is trusted.
    abbrev pub Trusted : parsers.Prefix → Type 0
    Trusted q = (p : parsers.Prefix) × ((parsers.bits p == 0) ≡ false) × (q ≡ parsers.masked p)

    pub collect_prefixes-Trusted :
        (entries : List Str) {prefixes : List parsers.Prefix}
        → collect_prefixes lookup parsers entries ≡ ok prefixes
        → All Trusted prefixes
    unfolding collect_prefixes
    collect_prefixes-Trusted [] h = subst (All Trusted) (nothing-kept h) tt
    collect_prefixes-Trusted (p ∷ ps) {prefixes} h =
        elim (Bool-cases (str_eq (parsers.trim_space p) [])) [
          | inl blank ↦ collect_prefixes-Trusted ps (ground arith)
          | inr filled ↦ elim (Option-cases (parsers.parse_prefix (parsers.trim_space p))) [
            | inl bad ↦ absurd (ground arith)
            | inr (prefix, read) ↦ elim (Result-cases (collect_prefixes lookup parsers ps)) [
              | inr (e, bad) ↦ absurd (ground arith)
              | inl (rest, good) ↦
                  let e : parsers.masked prefix ∷ rest ≡ prefixes = ground arith in
                  subst (All Trusted) e
                    ((prefix, ground arith, refl), collect_prefixes-Trusted ps good)
            ]
          ]
        ]

    pub load_trusted_proxies-Trusted :
        {prefixes : List parsers.Prefix}
        → load_trusted_proxies lookup parsers ≡ ok prefixes
        → All Trusted prefixes
    unfolding load_trusted_proxies
    load_trusted_proxies-Trusted h =
        elim (Option-cases (present lookup parsers (bytes "TRUSTED_PROXIES"))) [
          | inl unset ↦ subst (All Trusted) (nothing-kept (ground arith)) tt
          | inr (raw, set) ↦ collect_prefixes-Trusted (split_on b',' raw) (ground arith)
        ]

    -- An address to listen on: none, or a host and a port, in production of this machine only.
    abbrev pub Listens : Str → Str → Type 0
    Listens env addr =
        (addr ≡ [])
        ⊎ ((host port : Str) × (n : ℤ) × (parsers.split_host_port addr ≡ some (host, port))
            × (atoi port ≡ some n)
            × Within 1 65535 n
            × (str_eq env (bytes "production") ≡ true
                → (str_eq host (bytes "localhost") ≡ true) ⊎ (parsers.is_loopback host ≡ true)))

    pub metrics_addr_ok-Listens :
        (env raw : Str) → metrics_addr_ok lookup parsers env raw ≡ true → Listens env raw
    unfolding metrics_addr_ok loopback_host
    metrics_addr_ok-Listens env raw h = elim (Option-cases (parsers.split_host_port raw)) [
      | inl bad ↦ absurd (ground arith)
      | inr ((host, port), split) ↦ elim (Option-cases (atoi port)) [
        | inl bad ↦ absurd (ground arith)
        | inr (n, read) ↦ inr (
          host,
          port,
          n,
          split,
          read,
          out_of-Within 1 65535 n (ground arith),
          λ production. ground arith,
        )
      ]
    ]

    pub load_metrics_addr-Listens :
        (env : Str) {addr : Str} → load_metrics_addr lookup parsers env ≡ ok addr → Listens env addr
    unfolding load_metrics_addr
    load_metrics_addr-Listens env {addr} h = elim (Option-cases (lookup (bytes "METRICS_ADDR"))) [
      | inl unset ↦ inl (ground arith)
      | inr (raw, set) ↦ elim (Bool-cases (str_eq raw [])) [
        | inl blank ↦ inl (ground arith)
        | inr filled ↦
            let e : raw ≡ addr = ground arith in
            subst (Listens env) e (metrics_addr_ok-Listens env raw (ground arith))
      ]
    ]
