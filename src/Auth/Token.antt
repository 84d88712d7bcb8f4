-- ===== src/Auth/Token.antt =====
-- auth/token.go: tokens with claims. Signing and parsing are those of golang-jwt, a parameter.
use call_it.Prelude.{
  ℕ, ltb, ◌+◌, ◌<◌, ◌≤◌, Str, str_eq, bytes, [], length, Bool, false, Bool-cases, Option, none,
  some, Result, ok, err, ◌≡◌, refl, arith, if◌then◌else◌, inl, inr,
}
use call_it.Auth.Credentials.{AuthError, weak_secret, bad_ttl, invalid_token, token_expired}

abbrev pub min_secret_len : ℕ
min_secret_len = 32

abbrev pub issuer_name : Str
issuer_name = bytes "callit"

pub record Claims : Type 0 where
  pub user_id : Str
  pub display_name : Str
  pub room_id : Str
  pub guest : Bool
  pub host : Bool

-- `jwt.MapClaims`: a claim is none where it is missing or of another type.
pub record MapClaims : Type 0 where
  pub sub : Option Str
  pub name : Option Str
  pub room_id : Option Str
  pub guest : Option Bool
  pub host : Option Bool
  pub iss : Option Str
  pub iat : ℕ
  pub exp : ℕ

pub data JwtError : Type 0 where
  expired other : JwtError

-- HS256 with a secret. A signed token parses to its claims under the secret that signed it until it expires, which
-- the time of the parser decides, and is refused as expired from then on.
pub record Jwt : Type 0 where
  pub sign : Str → MapClaims → Str
  pub parse : Str → ℕ → Str → Result JwtError MapClaims
  pub parse-sign :
      (secret : Str) (now : ℕ) (m : MapClaims)
      → now < m.exp
      → parse secret now (sign secret m) ≡ ok m
  pub parse_expired :
      (secret : Str) (now : ℕ) (m : MapClaims)
      → m.exp ≤ now
      → parse secret now (sign secret m) ≡ err expired

pub record Issuer : Type 0 where
  pub secret : Str
  pub ttl : ℕ

-- A `ttl` of 0 stands for one that is not positive.
unfoldable pub new_issuer : Str → ℕ → Result AuthError Issuer
new_issuer secret ttl =
    if ltb (length secret) min_secret_len
    then err weak_secret
    else if ltb ttl 1
    then err bad_ttl
    else ok (record { secret = secret; ttl = ttl })

-- A claim that is missing is the zero value.
abbrev pub or_empty : Option Str → Str
or_empty none = []
or_empty (some s) = s

abbrev pub or_false : Option Bool → Bool
or_false none = false
or_false (some b) = b

unfoldable pub claims_of : MapClaims → Claims
claims_of m = record {
  user_id = or_empty m.sub;
  display_name = or_empty m.name;
  room_id = or_empty m.room_id;
  guest = or_false m.guest;
  host = or_false m.host;
}

unfoldable pub check_issuer : MapClaims → Result AuthError Claims
unfolding claims_of
check_issuer m = elim m.iss [
  | none ↦ err invalid_token
  | some iss ↦ if str_eq iss issuer_name then ok (claims_of m) else err invalid_token
]

module _ (jwt : Jwt) where
  -- `now` is the clock of the issuer, in seconds.
  unfoldable pub issue : Issuer → ℕ → Claims → Str
  issue i now c = jwt.sign i.secret (record {
    sub = some c.user_id;
    name = some c.display_name;
    room_id = some c.room_id;
    guest = some c.guest;
    host = some c.host;
    iss = some issuer_name;
    iat = now;
    exp = now + i.ttl;
  })

  unfoldable pub verify : Issuer → ℕ → Str → Result AuthError Claims
  unfolding check_issuer
  verify i now token = elim (jwt.parse i.secret now token) [
    | err expired ↦ err token_expired
    | err other ↦ err invalid_token
    | ok m ↦ check_issuer m
  ]

  abbrev issued_claims : Issuer → ℕ → Claims → MapClaims
  issued_claims i issued c = record {
    sub = some c.user_id;
    name = some c.display_name;
    room_id = some c.room_id;
    guest = some c.guest;
    host = some c.host;
    iss = some issuer_name;
    iat = issued;
    exp = issued + i.ttl;
  }

  -- A token that is issued gives back its claims until its time to live is over, and is refused as expired
  -- from then on.
  pub verify-issue :
      (i : Issuer) (c : Claims) (issued now : ℕ)
      → verify i now (issue i issued c)
        ≡ (if ltb now (issued + i.ttl) then ok c else err token_expired)
  unfolding verify issue str_eq
  verify-issue i c issued now = elim (Bool-cases (ltb now (issued + i.ttl))) [
    | inl fresh ↦
        rw (jwt.parse-sign i.secret now (issued_claims i issued c) (ground arith), verify, fresh)
          refl
    | inr old ↦
        rw (jwt.parse_expired i.secret now (issued_claims i issued c) (ground arith), verify, old)
          refl
  ]
