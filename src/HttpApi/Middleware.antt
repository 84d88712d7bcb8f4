-- ===== src/HttpApi/Middleware.antt =====
-- httpapi/middleware.go and httpapi/respond.go: bearer tokens, the rate limit, and the table of errors.
use call_it.Prelude.{
  ℕ, ◌+◌, ◌/◌, ltb, ℤ, pos, pos_part, Str, str_eq, bytes, [], Option, none, some, Result, ok, err,
  if◌then◌else◌,
}
use call_it.Auth.Credentials.{
  AuthError, invalid_email, weak_password, invalid_display_name, invalid_token, token_expired,
  password_mismatch, malformed_hash, weak_secret, bad_ttl,
}
use call_it.Auth.Token.{Claims, Jwt, Issuer, verify}
use call_it.Ws.Protocol.{cut_prefix}
use call_it.Domain.Economy
use call_it.Redis.Server.{Redis, Db}
use call_it.Store.Errors.{StoreError, not_found}
use call_it.Store.RateLimit.{Decision, allow}
use call_it.Services.{
  ServiceError, store_error, domain_error, not_joinable, email_taken, invalid_credentials,
}

-- What an error is made of: one of auth, of a service, or one that a handler raises with its own status.
pub record ApiError : Type 0 where
  pub status : ℕ
  pub code : Str

pub data RequestError : Type 0 where
  auth_error : AuthError → RequestError
  service_error : ServiceError → RequestError
  api_error : ApiError → RequestError

abbrev row : ℕ → Str → ApiError
row status code = record { status = status; code = code }

abbrev internal_error : ApiError
internal_error = record { status = 500; code = bytes "internal_error" }

-- `errorTable`, for each package.
unfoldable pub auth_row : AuthError → ApiError
auth_row invalid_email = row 400 (bytes "validation_error")
auth_row weak_password = row 400 (bytes "validation_error")
auth_row invalid_display_name = row 400 (bytes "validation_error")
auth_row invalid_token = row 401 (bytes "unauthorized")
auth_row token_expired = row 401 (bytes "unauthorized")
auth_row password_mismatch = internal_error
auth_row malformed_hash = internal_error
auth_row weak_secret = internal_error
auth_row bad_ttl = internal_error

unfoldable pub service_row : ServiceError → ApiError
service_row (domain_error Economy.Error.invalid_buy_in) = row 400 (bytes "validation_error")
service_row invalid_credentials = row 401 (bytes "invalid_credentials")
service_row (store_error not_found) = row 404 (bytes "not_found")
service_row email_taken = row 409 (bytes "email_taken")
service_row not_joinable = row 409 (bytes "room_not_joinable")
service_row (domain_error Economy.Error.refill_not_eligible) = row 409 (bytes "refill_not_eligible")
service_row (domain_error Economy.Error.refill_quota_exhausted) =
    row 429 (bytes "refill_quota_exhausted")
service_row (ServiceError.quota _) = row 429 (bytes "refill_quota_exhausted")
service_row _ = internal_error

unfoldable pub api_error_for : RequestError → ApiError
unfolding auth_row service_row
api_error_for (api_error e) = e
api_error_for (auth_error e) = auth_row e
api_error_for (service_error e) = service_row e

-- What reaches the next handler: the claims, if there are any.
pub data Gate : Type 0 where
  passes : Option Claims → Gate
  rejects : AuthError → Gate

-- A token that is there, and what it says; an empty header is none.
unfoldable pub verify_bearer : Jwt → Issuer → ℕ → Str → Option (Result AuthError Claims)
unfolding cut_prefix verify
verify_bearer jwt issuer now header =
    if str_eq header [] then none else elim (cut_prefix (bytes "Bearer ") header) [
      | none ↦ some (err invalid_token)
      | some token ↦ some (verify jwt issuer now token)
    ]

unfoldable pub require_auth : Jwt → Issuer → ℕ → Str → Gate
unfolding verify_bearer
require_auth jwt issuer now header = elim (verify_bearer jwt issuer now header) [
  | none ↦ rejects invalid_token
  | some (err e) ↦ rejects e
  | some (ok claims) ↦ passes (some claims)
]

unfoldable pub optional_auth : Jwt → Issuer → ℕ → Str → Gate
unfolding verify_bearer
optional_auth jwt issuer now header = elim (verify_bearer jwt issuer now header) [
  | none ↦ passes none
  | some (err e) ↦ rejects e
  | some (ok claims) ↦ passes (some claims)
]

pub record LimitPolicy : Type 0 where
  pub scope : Str
  pub limit : ℤ
  pub window_ms : ℕ

abbrev pub auth_policy : LimitPolicy
auth_policy = record { scope = bytes "auth"; limit = pos 10; window_ms = 60000 }

abbrev pub api_policy : LimitPolicy
api_policy = record { scope = bytes "api"; limit = pos 60; window_ms = 60000 }

-- The headers of X-RateLimit, with the reset in seconds, and whether the request goes on. A denied one has the
-- seconds of Retry-After.
pub record LimitHeaders : Type 0 where
  pub limit : ℤ
  pub remaining : ℤ
  pub reset : ℕ

pub data Limited : Type 0 where
  served : LimitHeaders → Limited
  denied : LimitHeaders → ℕ → Limited
  failed : StoreError → Limited

-- The whole seconds of a time in milliseconds, rounded up, at least one.
unfoldable pub retry_after_sec : ℤ → ℕ
retry_after_sec ms =
    let seconds = (pos_part ms + 999) / 1000 in if ltb seconds 1 then 1 else seconds

unfoldable pub limit_headers : LimitPolicy → Decision → LimitHeaders
limit_headers p d = record {
  limit = p.limit;
  remaining = d.remaining;
  reset = pos_part d.reset_at_ms / 1000;
}

-- `RateLimit`, with the clock, the fresh UUID and the key of the request.
unfoldable pub rate_limited_request :
    (redis : Redis) → LimitPolicy → ℕ → Str → Str → Db redis → Limited × Db redis
unfolding allow limit_headers retry_after_sec
rate_limited_request redis p now member key db =
    let (r, db') = allow redis now member p.scope key p.limit p.window_ms db in
    elim r [
      | err e ↦ (failed e, db')
      | ok d ↦
          if d.allowed
          then (served (limit_headers p d), db')
          else (denied (limit_headers p d) (retry_after_sec d.retry_after_ms), db')
    ]
