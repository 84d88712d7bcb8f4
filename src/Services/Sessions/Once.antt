-- ===== src/Services/Sessions/Once.antt =====
-- A session is paid out once, however often its end is run.
use call_it.Prelude.{
  ℤ, pos, Str, str_eq, str_eq_iff, false, ◌≡◌, refl, arith, ok, some, none, if◌then◌else◌, ◌&&◌,
}
use call_it.Domain.Economy.{Tokens}
use call_it.Domain.Wallet.{apply_session_result}
use call_it.Redis.Keys.{Key, Field, name, user, room_wallets, room_opening, int, key_eq, field_eq}
use call_it.Redis.Server.{Redis, Db}
use call_it.Redis.Fields.{hgetall-∷}
use call_it.Store.Users.{
  User, read_user, email_field, display_name_field, password_hash_field, balance_field,
  created_at_field, set_balance,
}
use call_it.Store.Rooms.{opening_stake, balance, clear_session}
use call_it.Store.Op.{field_str}
use call_it.Services.Sessions.{end_session}

module _ (redis : Redis) where
  open redis use {hashes.{hget, hset, hdel, hgetall}}

  read_user-ok :
      (user_id : Str) (account created_at : ℤ) (db : Db redis)
      → hget (user user_id) balance_field db.hashes ≡ some (int account)
      → hget (user user_id) created_at_field db.hashes ≡ some (int created_at)
      → (u : User) × (u.balance ≡ account) × (read_user redis user_id db ≡ (ok u, db))
  unfolding read_user
  read_user-ok user_id account created_at db b c =
      let (p, rest, e) = hgetall-∷ redis (user user_id) balance_field (int account) db.hashes b in
      let field = λ (f : Field). field_str (hget (user user_id) f db.hashes) in
      (
        record {
          id = user_id;
          email = field email_field;
          display_name = field display_name_field;
          password_hash = field password_hash_field;
          balance = account;
          created_at_ms = created_at;
        },
        refl,
        ground (arith, e, b, c),
      )

  -- A player's account and session: the balance of the account, and the opening and the current
  -- balance in the room.
  pub record Playing (room_id user_id : Str) (account opening current : Tokens) (t : redis.hashes.T)
      : Type 0 where
    pub created_at : ℤ
    pub account_is : hget (user user_id) balance_field t ≡ some (int account)
    pub created_is : hget (user user_id) created_at_field t ≡ some (int created_at)
    pub opening_is : hget (room_opening room_id) (name user_id) t ≡ some (int opening)
    pub current_is : hget (room_wallets room_id) (name user_id) t ≡ some (int current)

  module _ (room_id user_id : Str) (next : Tokens) where
    ended : redis.hashes.T → redis.hashes.T
    ended t =
        hset (user user_id) balance_field (int next) (
          hdel (room_wallets room_id) (name user_id) (hdel (room_opening room_id) (name user_id) t))

    hget-ended :
        (t : redis.hashes.T) (j : Key) (g : Field)
        → hget j g (ended t) ≡ (
            if key_eq (user user_id) j && field_eq balance_field g
            then some (int next)
            else if key_eq (room_wallets room_id) j && field_eq (name user_id) g
            then none
            else if key_eq (room_opening room_id) j && field_eq (name user_id) g
            then none
            else hget j g t)
    unfolding ended
    hget-ended t j g = simp (redis.hashes.hget-hset, redis.hashes.hget-hdel) refl

  end_session-pays :
      (room_id user_id : Str) (account opening current : Tokens) (db : Db redis)
      → Playing room_id user_id account opening current db.hashes
      → end_session redis room_id user_id false db ≡ (
        ok (apply_session_result account opening current),
        record db {
          hashes = ended room_id user_id (apply_session_result account opening current) db.hashes;
        },
      )
  unfolding end_session opening_stake balance clear_session set_balance ended key_eq
  end_session-pays room_id user_id account opening current db p =
      let (u, same, found) =
        read_user-ok user_id account p.created_at db p.account_is p.created_is in
      let kept : hget (user user_id) balance_field (
            hdel (room_wallets room_id) (name user_id)
              (hdel (room_opening room_id) (name user_id) db.hashes))
          ≡ some (int account) =
        simp redis.hashes.hget-hdel p.account_is in
      ground (arith, found, same, kept, p.opening_is, p.current_is)

  end_session-nothing :
      (room_id user_id : Str) (account created_at : ℤ) (db : Db redis)
      → hget (user user_id) balance_field db.hashes ≡ some (int account)
      → hget (user user_id) created_at_field db.hashes ≡ some (int created_at)
      → hget (room_opening room_id) (name user_id) db.hashes ≡ none
      → end_session redis room_id user_id false db ≡ (ok (pos 0), db)
  unfolding end_session opening_stake
  end_session-nothing room_id user_id account created_at db b c o =
      let (u, same, found) = read_user-ok user_id account created_at db b c in
      ground (arith, found, o)

  -- Ending the session of a player stores and returns the balance that the session leaves the account
  -- with, and removes the opening stake and the wallet; ending it again returns 0 and changes nothing.
  pub end_session-once :
      (room_id user_id : Str) (account opening current : Tokens) (db : Db redis)
      → Playing room_id user_id account opening current db.hashes
      → ((end_session redis room_id user_id false db).0
          ≡ ok (apply_session_result account opening current))
        × (hget (user user_id) balance_field (end_session redis room_id user_id false db).1.hashes
            ≡ some (int (apply_session_result account opening current)))
        × (hget
              (room_wallets room_id)
              (name user_id)
              (end_session redis room_id user_id false db).1.hashes
            ≡ none)
        × (hget
              (room_opening room_id)
              (name user_id)
              (end_session redis room_id user_id false db).1.hashes
            ≡ none)
        × (end_session redis room_id user_id false (end_session redis room_id user_id false db).1
            ≡ (ok (pos 0), (end_session redis room_id user_id false db).1))
  unfolding key_eq field_eq str_eq
  end_session-once room_id user_id account opening current db p =
      let next = apply_session_result account opening current in
      let after : Db redis = record db { hashes = ended room_id user_id next db.hashes } in
      let fields = hget-ended room_id user_id next db.hashes in
      let one = str_eq_iff user_id user_id in
      let two = str_eq_iff room_id room_id in
      let stored : hget (user user_id) balance_field after.hashes ≡ some (int next) =
        rw fields (ground (arith, one)) in
      let created : hget (user user_id) created_at_field after.hashes ≡ some (int p.created_at) =
        rw fields (ground (arith, p.created_is)) in
      let closed : hget (room_opening room_id) (name user_id) after.hashes ≡ none =
        rw fields (ground (arith, one, two)) in
      let gone : hget (room_wallets room_id) (name user_id) after.hashes ≡ none =
        rw fields (ground (arith, one, two)) in
      rw (end_session-pays room_id user_id account opening current db p) (
        refl,
        stored,
        gone,
        closed,
        end_session-nothing room_id user_id next p.created_at after stored created closed,
      )
