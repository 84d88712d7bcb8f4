-- ===== src/Services/Sessions.antt =====
-- round/session.go: what a player's session comes to when it ends.
pub mod Once
use call_it.Prelude.{ℤ, pos, Str, Bool, true, false, Result, Done, ok, err, if◌then◌else◌}
use call_it.Domain.Economy.{Tokens}
use call_it.Domain.Wallet.{apply_session_result}
use call_it.Redis.Server.{Redis}
use call_it.Store.Errors.{StoreError, not_found}
use call_it.Store.Op.{Op, ◌>>=◌, ◌>>◌, pure, fail}
use call_it.Store.Users.{User, read_user, set_balance}
use call_it.Store.Rooms.{opening_stake, balance, clear_session}

module _ (redis : Redis) where
  -- A number that may be missing, which ends the session with nothing to do.
  abbrev pub or_zero : Op redis Tokens → (Tokens → Op redis Tokens) → Op redis Tokens
  or_zero m f db =
      let (r, db') = m db in
      elim r [ ok a ↦ f a db' | err not_found ↦ (ok (pos 0), db') | err e ↦ (err e, db') ]

  -- From the claim on.
  unfoldable pub apply_session : Str → Str → Tokens → Tokens → Tokens → Op redis Tokens
  apply_session room_id user_id account opening current =
      clear_session redis room_id user_id >>= λ claimed.
      if claimed
      then (set_balance redis user_id (apply_session_result account opening current)
          >> pure (apply_session_result account opening current))
      else pure (pos 0)

  -- `EndSession`; all its errors are the store's.
  unfoldable pub end_session : Str → Str → Bool → Op redis Tokens
  unfolding apply_session
  end_session room_id user_id guest =
      if guest
      then pure (pos 0)
      else (read_user redis user_id >>= λ account.
          or_zero (opening_stake redis room_id user_id) λ opening.
            or_zero (balance redis room_id user_id)
              λ current. apply_session room_id user_id account.balance opening current)
