-- ===== src/Store/Rooms.antt =====
-- redisstore/room.go: rooms, their codes, and the wallets of their players.
pub mod Sessions
use call_it.Prelude.{
  ℕ, ◌-◌, ℤ, pos, leb_ℤ, Str, bytes, List, [], ◌∷◌, length, Bool, true, false, ◌≡◌, Option, none,
  some, Result, Done, ok, err, map_err, if◌then◌else◌,
}
use call_it.Domain.Economy.{Tokens, invalid_stake}
use call_it.Domain.Wallet.{validate_buy_in}
use call_it.Redis.Keys.{
  Key, Field, name, room, room_code, room_wallets, room_opening, Text, int, str, is_str,
}
use call_it.Redis.Server.{Redis, Db, Stored, text}
use call_it.Store.Errors.{StoreError, not_found, already_exists, malformed, domain}
use call_it.Store.PlaceWager.{status_field, host_field}
use call_it.Store.Users.{claim_unique, claim_reply, created_at_field}
use call_it.Store.Op.{Op, ◌>>=◌, ◌>>◌, pure, fail, lift, run, gets, require_int, field_str}

pub record Room : Type 0 where
  pub id : Str
  pub host_id : Str
  pub buy_in : Tokens
  pub status : Str
  pub created_at_ms : ℤ

abbrev pub buy_in_field : Field
buy_in_field = name (bytes "buy_in")

module _ (redis : Redis) where
  open redis use {strings.{get}, hashes.{hget, hset, hdel, hgetall}}

  -- `now` is the clock of the process.
  unfoldable pub create_room : ℤ → Str → Str → Str → Tokens → Op redis Done
  create_room now room_id code host_id buy_in =
      lift (map_err domain (validate_buy_in buy_in))
      >> (run (
            claim_unique redis (room_code code) (room room_id) room_id (
              (host_field, str host_id)
              ∷ (buy_in_field, int buy_in)
              ∷ (status_field, str (bytes "open"))
              ∷ (created_at_field, int now)
              ∷ []))
          >>= λ reply. lift (claim_reply redis reply))

  unfoldable pub room_by_code : Str → Op redis Str
  room_by_code code db = elim (get (room_code code) db.strings) [
    | some (text (str room_id)) ↦ (ok room_id, db)
    | some _ ↦ (err malformed, db)
    | none ↦ (err not_found, db)
  ]

  unfoldable pub read_room : Str → Op redis Room
  read_room room_id db =
      let field = λ (f : Field). hget (room room_id) f db.hashes in
      elim (hgetall (room room_id) db.hashes) [
        | [] ↦ (err not_found, db)
        | _ ∷ _ ↦
            (do
              buy_in ← lift (require_int (field buy_in_field))
              created_at ← lift (require_int (field created_at_field))
              pure (record {
                id = room_id;
                host_id = field_str (field host_field);
                buy_in = buy_in;
                status = field_str (field status_field);
                created_at_ms = created_at;
              }))
              db
      ]

  -- HSETNX
  unfoldable pub set_if_missing : Key → Field → Text → redis.hashes.T → redis.hashes.T
  set_if_missing key f v t = elim (hget key f t) [ none ↦ hset key f v t | some _ ↦ t ]

  -- The transaction of `JoinRoom`.
  unfoldable pub open_wallet : Str → Str → Tokens → Op redis Done
  unfolding set_if_missing
  open_wallet room_id user_id balance db = (
    ok tt,
    record db {
      hashes =
          set_if_missing (room_opening room_id) (name user_id) (int balance)
            (set_if_missing (room_wallets room_id) (name user_id) (int balance) db.hashes);
    },
  )

  unfoldable pub join_room : Str → Str → Tokens → Op redis Tokens
  unfolding open_wallet
  join_room room_id user_id balance =
      if leb_ℤ balance (pos 0) then fail (domain invalid_stake) else (do
        open_wallet room_id user_id balance
        wallet ← gets (λ db. hget (room_wallets room_id) (name user_id) db.hashes)
        lift (require_int wallet))

  -- Whether this call removed the opening stake: HDEL counts what it removes.
  unfoldable pub clear_session : Str → Str → Op redis Bool
  clear_session room_id user_id db = (
    ok (elim (hget (room_opening room_id) (name user_id) db.hashes) [
      | none ↦ false
      | some _ ↦ true
    ]),
    record db {
      hashes =
          hdel (room_wallets room_id) (name user_id)
            (hdel (room_opening room_id) (name user_id) db.hashes);
    },
  )

  -- A number in a hash; a missing one is not found.
  abbrev pub read_number : Key → Str → Op redis Tokens
  read_number key user_id db = elim (hget key (name user_id) db.hashes) [
    | none ↦ (err not_found, db)
    | some (int z) ↦ (ok z, db)
    | some _ ↦ (err malformed, db)
  ]

  unfoldable pub balance : Str → Str → Op redis Tokens
  balance room_id user_id = read_number (room_wallets room_id) user_id

  unfoldable pub opening_stake : Str → Str → Op redis Tokens
  opening_stake room_id user_id = read_number (room_opening room_id) user_id

  -- HLEN less the host, at least 0.
  unfoldable pub player_count : Str → Op redis ℕ
  player_count room_id db = (ok (length (hgetall (room_wallets room_id) db.hashes) - 1), db)
