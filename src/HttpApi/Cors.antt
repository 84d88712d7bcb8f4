-- ===== src/HttpApi/Cors.antt =====
-- httpapi/cors.go: the headers for a browser, on the allowlist of the configuration.
use mathlib.Core.Path.{subst}
use call_it.Prelude.{
  Str, bytes, str_eq, str_eq_iff, List, [], ◌∷◌, All, Bool, true, false, not, ◌&&◌, ◌||◌, Option,
  none, some, ok, ◌≡◌, sym, ◌⊎◌, inl, inr, refl, arith, if◌then◌else◌, Bool-cases,
}
use call_it.Config.{LookupFunc, Parsers, load_allowed_origins}
use call_it.Config.Safe.{Origin, load_allowed_origins-Allowlist}

-- `allow_origin` comes with Access-Control-Allow-Credentials.
pub record CorsHeaders : Type 0 where
  pub allow_origin : Option Str
  pub preflight : Bool

-- The lookup in the map of the allowlist.
unfoldable pub is_allowed : List Str → Str → Bool
is_allowed [] origin = false
is_allowed (o ∷ os) origin = let rest = is_allowed os origin in str_eq o origin || rest

-- `CORS`: the headers, and whether the request ends here, with status 204; else it goes on.
-- The arguments after the allowlist are the method, and the headers Origin and
-- Access-Control-Request-Method.
unfoldable pub cors : List Str → Str → Str → Str → CorsHeaders
unfolding is_allowed
cors origins method origin requested = record {
  allow_origin = if not (str_eq origin []) && is_allowed origins origin then some origin else none;
  preflight = str_eq method (bytes "OPTIONS") && not (str_eq requested []);
}

is_allowed-All {ℓ} :
    (P : Str → Type ℓ) (origins : List Str) (origin : Str)
    → is_allowed origins origin ≡ true
    → All P origins
    → P origin
unfolding is_allowed
is_allowed-All P [] origin h all = absurd (ground arith)
is_allowed-All P (o ∷ os) origin h (p, all) = elim (Bool-cases (str_eq o origin)) [
  | inl same ↦ subst P ((str_eq_iff o origin).0 same) p
  | inr other ↦ is_allowed-All P os origin (ground arith) all
]

-- An origin that a response names is the one of the request. Under an allowlist that the configuration
-- loaded it is an absolute URL and not the wildcard, or, outside production, the default.
pub cors-Origin :
    (lookup : LookupFunc) (parsers : Parsers) (env : Str) {origins : List Str}
    (method origin requested named : Str)
    → load_allowed_origins lookup parsers env ≡ ok origins
    → (cors origins method origin requested).allow_origin ≡ some named
    → (named ≡ origin)
      × (Origin lookup parsers named
          ⊎ ((str_eq env (bytes "production") ≡ false) × (named ≡ bytes "http://localhost:3000")))
unfolding cors
cors-Origin lookup parsers env {origins} method origin requested named loaded h =
    let e : origin ≡ named = ground arith in
    let listed : is_allowed origins origin ≡ true = ground arith in
    (
      sym e,
      elim (load_allowed_origins-Allowlist lookup parsers env loaded) [
        | inl (dev, default) ↦
            let IsDefault : Str → Type 0 = λ o. o ≡ bytes "http://localhost:3000" in
            inr (
              dev,
              subst IsDefault e (
                  is_allowed-All IsDefault origins origin listed
                    (subst (All IsDefault) (sym default) (refl, tt))),
            )
        | inr all ↦ inl (
            subst (Origin lookup parsers) e
              (is_allowed-All (Origin lookup parsers) origins origin listed all))
      ],
    )
