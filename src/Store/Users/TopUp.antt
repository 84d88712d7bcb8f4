-- ===== src/Store/Users/TopUp.antt =====
-- A refill brings a balance to its target, never below what it was.
use call_it.Prelude.{
  pos, ◌-ℤ◌, ◌+ℤ◌, ◌≤ℤ◌, int_laws, Str, ◌≡◌, arith, ok, some, Bool-cases, inl, inr, leb_ℤ, str_eq,
  str_eq_iff,
}
use call_it.Redis.Keys.{user, int, key_eq, field_eq}
use call_it.Redis.Server.{Redis, Db}
use call_it.Domain.Economy.{Tokens}
use call_it.Store.Users.{balance_field, top_up_balance}

module _ (redis : Redis) where
  open redis use {hashes.{hget}}

  -- On a stored balance, a top-up returns what it credits and the new balance, which differ by the old
  -- one; the new balance is stored, and is the larger of the old one and the target.
  pub top_up_balance-reaches :
      (user_id : Str) (target balance : Tokens) (db : Db redis)
      → hget (user user_id) balance_field db.hashes ≡ some (int balance)
      → (credited : Tokens) × (next : Tokens) × ((top_up_balance redis user_id target db).0
          ≡ ok (credited, next))
        × (balance +ℤ credited ≡ next)
        × (balance ≤ℤ next)
        × (target ≤ℤ next)
        × (hget (user user_id) balance_field (top_up_balance redis user_id target db).1.hashes
            ≡ some (int next))
  unfolding top_up_balance str_eq key_eq field_eq
  top_up_balance-reaches user_id target balance db h = elim (Bool-cases (leb_ℤ target balance)) [
    | inl rich ↦ (
      pos 0,
      balance,
      ground (arith, h),
      omega int_laws,
      ground arith,
      ground arith,
      ground (arith, h),
    )
    | inr poor ↦ (
      target -ℤ balance,
      target,
      ground (arith, h),
      omega int_laws,
      ground arith,
      ground arith,
      ground (
        arith,
        h,
        redis.hashes.hget-hset (user user_id) (user user_id) balance_field balance_field
            (int target) db.hashes,
        str_eq_iff user_id user_id,
      ),
    )
  ]
