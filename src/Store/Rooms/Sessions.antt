-- ===== src/Store/Rooms/Sessions.antt =====
-- The session of a player in a room: it is opened once and claimed once.
use call_it.Prelude.{pos, ◌<ℤ◌, Str, str_eq_iff, true, false, ◌≡◌, refl, arith, ok, some, none}
use call_it.Redis.Keys.{name, room_wallets, room_opening, int, key_eq, field_eq}
use call_it.Redis.Server.{Redis, Db}
use call_it.Domain.Economy.{Tokens}
use call_it.Store.Rooms.{join_room, clear_session, balance, opening_stake}

module _ (redis : Redis) where
  open redis use {hashes.{hget, hset, hdel}}

  -- A wallet and an opening stake that are there are kept.
  join_room-present :
      (room_id user_id : Str) (offered wallet stake : Tokens) (db : Db redis)
      → pos 0 <ℤ offered
      → hget (room_wallets room_id) (name user_id) db.hashes ≡ some (int wallet)
      → hget (room_opening room_id) (name user_id) db.hashes ≡ some (int stake)
      → join_room redis room_id user_id offered db ≡ (ok wallet, db)
  unfolding join_room
  join_room-present room_id user_id offered wallet stake db p w o = ground (arith, w, o)

  joined : Str → Str → Tokens → Db redis → redis.hashes.T
  joined room_id user_id offered db =
      hset (room_opening room_id) (name user_id) (int offered)
        (hset (room_wallets room_id) (name user_id) (int offered) db.hashes)

  hget-joined :
      (room_id user_id : Str) (offered : Tokens) (db : Db redis)
      → (hget (room_wallets room_id) (name user_id) (joined room_id user_id offered db)
          ≡ some (int offered))
        × (hget (room_opening room_id) (name user_id) (joined room_id user_id offered db)
            ≡ some (int offered))
  unfolding joined key_eq field_eq
  hget-joined room_id user_id offered db = (
    simp redis.hashes.hget-hset
        (ground (arith, str_eq_iff room_id room_id, str_eq_iff user_id user_id)),
    simp redis.hashes.hget-hset
        (ground (arith, str_eq_iff room_id room_id, str_eq_iff user_id user_id)),
  )

  join_room-new :
      (room_id user_id : Str) (offered : Tokens) (db : Db redis)
      → pos 0 <ℤ offered
      → hget (room_wallets room_id) (name user_id) db.hashes ≡ none
      → hget (room_opening room_id) (name user_id) db.hashes ≡ none
      → join_room redis room_id user_id offered db
        ≡ (ok offered, record db { hashes = joined room_id user_id offered db })
  unfolding join_room joined key_eq
  join_room-new room_id user_id offered db p w o = ground (
    arith,
    w,
    o,
    (hget-joined room_id user_id offered db).0,
    redis.hashes.hget-hset (room_wallets room_id) (room_opening room_id) (name user_id)
        (name user_id) (int offered) db.hashes,
  )

  -- A player without a wallet or an opening stake joins with the balance that is offered, which becomes
  -- both; joining again with any other balance returns the first one and changes nothing.
  pub join_room-again :
      (room_id user_id : Str) (offered later : Tokens) (db : Db redis)
      → pos 0 <ℤ offered
      → pos 0 <ℤ later
      → hget (room_wallets room_id) (name user_id) db.hashes ≡ none
      → hget (room_opening room_id) (name user_id) db.hashes ≡ none
      → ((join_room redis room_id user_id offered db).0 ≡ ok offered)
        × ((balance redis room_id user_id (join_room redis room_id user_id offered db).1).0
            ≡ ok offered)
        × ((opening_stake redis room_id user_id (join_room redis room_id user_id offered db).1).0
            ≡ ok offered)
        × (join_room redis room_id user_id later (join_room redis room_id user_id offered db).1
            ≡ (ok offered, (join_room redis room_id user_id offered db).1))
  unfolding balance opening_stake
  join_room-again room_id user_id offered later db p q w o =
      let there = hget-joined room_id user_id offered db in
      rw (join_room-new room_id user_id offered db p w o) (
        refl,
        ground (arith, there.0),
        ground (arith, there.1),
        join_room-present room_id user_id later offered offered
            (record db { hashes = joined room_id user_id offered db }) q there.0 there.1,
      )

  -- A session is claimed by one caller: the first claim of an opening stake says so, it removes the
  -- stake and the wallet, and a second claim is told that there was nothing to claim.
  pub clear_session-once :
      (room_id user_id : Str) (stake : Tokens) (db : Db redis)
      → hget (room_opening room_id) (name user_id) db.hashes ≡ some (int stake)
      → ((clear_session redis room_id user_id db).0 ≡ ok true)
        × (hget
              (room_opening room_id)
              (name user_id)
              (clear_session redis room_id user_id db).1.hashes
            ≡ none)
        × (hget
              (room_wallets room_id)
              (name user_id)
              (clear_session redis room_id user_id db).1.hashes
            ≡ none)
        × ((clear_session redis room_id user_id (clear_session redis room_id user_id db).1).0
            ≡ ok false)
  unfolding clear_session key_eq field_eq
  clear_session-once room_id user_id stake db h =
      let same = str_eq_iff room_id room_id in
      let one = str_eq_iff user_id user_id in
      (
        ground (arith, h),
        simp redis.hashes.hget-hdel (ground (arith, same, one)),
        simp redis.hashes.hget-hdel (ground (arith, same, one)),
        simp redis.hashes.hget-hdel (ground (arith, same, one)),
      )
