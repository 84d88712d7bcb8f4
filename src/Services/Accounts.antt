-- ===== src/Services/Accounts.antt =====
-- account/service.go: registration, login and the weekly refill.
use call_it.Prelude.{
  ℕ, ℤ, pos, eqb_ℤ, Str, bytes, Bool, Result, Done, ok, err, map_err, if◌then◌else◌,
}
use call_it.Domain.Economy.{
  Tokens, starting_balance, refill_target, refill_quota, refill_not_eligible,
}
use call_it.Domain.Refill.{can_refill}
use call_it.Redis.Server.{Redis}
use call_it.Store.Errors.{not_found, already_exists}
use call_it.Store.Users.{User, create_user, user_by_email, read_user, top_up_balance}
use call_it.Store.RateLimit.{Decision, allow, revoke}
use call_it.Services.{
  ServiceError, store_error, domain_error, quota, email_taken, invalid_credentials, Act, ◌>>=◌,
  ◌>>◌, pure, fail, require, lift, store, try,
}

pub record Account : Type 0 where
  pub id : Str
  pub email : Str
  pub display_name : Str
  pub balance : Tokens

pub record RefillResult : Type 0 where
  pub credited : Tokens
  pub balance : Tokens
  pub remaining : ℤ
  pub reset_at_ms : ℤ

abbrev pub refill_scope : Str
refill_scope = bytes "refill"

-- Seven days in milliseconds.
abbrev pub refill_window_ms : ℕ
refill_window_ms = 604800000

-- What the package auth does for the service: normal forms, checks, hashes and tokens.
pub record Auth : Type 0 where
  pub normalize_email : Str → Str
  pub normalize_display_name : Str → Str
  pub validate_email : Str → Result ServiceError Done
  pub validate_password : Str → Result ServiceError Done
  pub validate_display_name : Str → Result ServiceError Done
  pub hash_password : Str → Result ServiceError Str
  pub verify_password : Str → Str → Bool
  pub issue : Str → Str → Result ServiceError Str

module _ {ℓ} (redis : Redis) (Float : Type ℓ) (auth : Auth) where
  -- `now` is the clock of the process, `user_id` the fresh UUID.
  unfoldable pub register : ℤ → Str → Str → Str → Str → Act redis Float (Account × Str)
  register now user_id email password display_name = do
    let normalized = auth.normalize_email email
    lift (auth.validate_email normalized)
    lift (auth.validate_password password)
    let normal_name = auth.normalize_display_name display_name
    lift (auth.validate_display_name normal_name)
    hash ← lift (auth.hash_password password)
    created ← try (
        create_user redis now (record {
          id = user_id;
          email = normalized;
          display_name = normal_name;
          password_hash = hash;
          balance = starting_balance;
          created_at_ms = now;
        }))
    elim created as (λ r. Act redis Float Done) [
      | ok _ ↦ pure tt
      | err already_exists ↦ fail email_taken
      | err e ↦ fail (store_error e)
    ]
    token ← lift (auth.issue user_id normal_name)
    pure (
      record {
        id = user_id;
        email = normalized;
        display_name = normal_name;
        balance = starting_balance;
      },
      token,
    )

  unfoldable pub login : Str → Str → Act redis Float (Account × Str)
  login email password = do
    found ← try (user_by_email redis (auth.normalize_email email))
    user ← elim found as (λ r. Act redis Float User) [
      | ok u ↦ pure u
      | err not_found ↦ fail invalid_credentials
      | err e ↦ fail (store_error e)
    ]
    require (auth.verify_password user.password_hash password) invalid_credentials
    token ← lift (auth.issue user.id user.display_name)
    pure (
      record {
        id = user.id;
        email = user.email;
        display_name = user.display_name;
        balance = user.balance;
      },
      token,
    )

  -- A claim that credited nothing gives its place in the window back; the error of `Revoke` is dropped.
  unfoldable pub finish_refill : Str → Decision → Tokens × Tokens → Act redis Float RefillResult
  finish_refill user_id decision (credited, balance) =
      if eqb_ℤ credited (pos 0)
      then (try (revoke redis refill_scope user_id decision.member)
          >> fail (domain_error refill_not_eligible))
      else pure (record {
        credited = credited;
        balance = balance;
        remaining = decision.remaining;
        reset_at_ms = decision.reset_at_ms;
      })

  -- `now` is the clock of the server, `member` the fresh UUID of the limiter.
  unfoldable pub claim_refill : ℕ → Str → Str → Act redis Float RefillResult
  unfolding finish_refill
  claim_refill now member user_id = do
    user ← store (read_user redis user_id)
    lift (map_err domain_error (can_refill user.balance (pos 0)))
    decision ← store (allow redis now member refill_scope user_id refill_quota refill_window_ms)
    require (decision.allowed) (quota decision.retry_after_ms)
    topped ← store (top_up_balance redis user_id refill_target)
    finish_refill user_id decision topped
