-- ===== src/Store/Rounds/Locking.antt =====
-- lock_round.lua as a transition: out of `open`, once.
use call_it.Prelude.{
  Str, str_eq, str_eq_iff, bytes, ◌≡◌, ◌≢◌, refl, arith, ok, err, some, none, List, [], ◌∷◌, ◌&&◌,
  if◌then◌else◌,
}
use call_it.Redis.Keys.{Key, Field, Text, round, str, key_eq, field_eq}
use call_it.Redis.Server.{Redis, Db}
use call_it.Store.Errors.{round_terminal}
use call_it.Store.PlaceWager.{status_field}
use call_it.Store.PlaceWager.Guards.{holds_iff}
use call_it.Store.Op.{run-ok, lift}
use call_it.Store.Rounds.{lock_round_script, lock_reply, lock_round}

module _ (redis : Redis) where
  open redis use {hashes.{hget, hset}}

  lock_round_script-open :
      (round_id : Str) (db : Db redis)
      → hget (round round_id) status_field db.hashes ≡ some (str (bytes "open"))
      → lock_round_script redis round_id db ≡ (
        ok (str (bytes "OK") ∷ []),
        record db { hashes = hset (round round_id) status_field (str (bytes "locked")) db.hashes },
      )
  unfolding lock_round_script str_eq
  lock_round_script-open round_id db h = ground (arith, h)

  lock_round-open :
      (round_id : Str) (db : Db redis)
      → hget (round round_id) status_field db.hashes ≡ some (str (bytes "open"))
      → lock_round redis round_id db ≡ (
        ok tt,
        record db { hashes = hset (round round_id) status_field (str (bytes "locked")) db.hashes },
      )
  unfolding lock_round str_eq
  lock_round-open round_id db h =
      run-ok (lock_round_script redis round_id) (λ reply. lift (lock_reply redis reply)) db _ _
        (lock_round_script-open round_id db h)

  lock_round_script-locked :
      (round_id : Str) (db : Db redis)
      → hget (round round_id) status_field db.hashes ≡ some (str (bytes "locked"))
      → lock_round_script redis round_id db ≡ (ok (str (bytes "ALREADY_LOCKED") ∷ []), db)
  unfolding lock_round_script str_eq
  lock_round_script-locked round_id db h = ground (arith, h)

  lock_round-locked :
      (round_id : Str) (db : Db redis)
      → hget (round round_id) status_field db.hashes ≡ some (str (bytes "locked"))
      → lock_round redis round_id db ≡ (ok tt, db)
  unfolding lock_round str_eq
  lock_round-locked round_id db h =
      run-ok (lock_round_script redis round_id) (λ reply. lift (lock_reply redis reply)) db _ _
        (lock_round_script-locked round_id db h)

  lock_round_script-other :
      (round_id : Str) (db : Db redis)
      → hget (round round_id) status_field db.hashes ≢ some (str (bytes "open"))
      → hget (round round_id) status_field db.hashes ≢ some (str (bytes "locked"))
      → (rest : List Text) × (lock_round_script redis round_id db
          ≡ (ok (str (bytes "ROUND_TERMINAL") ∷ rest), db))
  unfolding lock_round_script
  lock_round_script-other round_id db o l =
      let stored = hget (round round_id) status_field db.hashes in
      (
        elim stored [ none ↦ [] | some s ↦ s ∷ [] ],
        ground (arith, holds_iff stored (bytes "open"), holds_iff stored (bytes "locked")),
      )

  -- A round that is neither open nor locked, or is not there, is refused as terminal, and nothing
  -- changes.
  pub lock_round-terminal :
      (round_id : Str) (db : Db redis)
      → hget (round round_id) status_field db.hashes ≢ some (str (bytes "open"))
      → hget (round round_id) status_field db.hashes ≢ some (str (bytes "locked"))
      → lock_round redis round_id db ≡ (err round_terminal, db)
  unfolding lock_round str_eq
  lock_round-terminal round_id db o l =
      let (rest, e) = lock_round_script-other round_id db o l in
      run-ok (lock_round_script redis round_id) (λ reply. lift (lock_reply redis reply)) db _ _ e

  -- Locking an open round succeeds, sets its status to locked and changes no other field of any hash;
  -- locking it again succeeds and changes nothing.
  pub lock_round-once :
      (round_id : Str) (db : Db redis)
      → hget (round round_id) status_field db.hashes ≡ some (str (bytes "open"))
      → ((lock_round redis round_id db).0 ≡ ok tt)
        × ((j : Key) (g : Field)
            → hget j g (lock_round redis round_id db).1.hashes ≡ (
                if key_eq (round round_id) j && field_eq status_field g
                then some (str (bytes "locked"))
                else hget j g db.hashes))
        × (lock_round redis round_id (lock_round redis round_id db).1
            ≡ (ok tt, (lock_round redis round_id db).1))
  unfolding key_eq field_eq str_eq
  lock_round-once round_id db h =
      let after : Db redis = record db {
        hashes = hset (round round_id) status_field (str (bytes "locked")) db.hashes;
      } in
      let set : hget (round round_id) status_field after.hashes ≡ some (str (bytes "locked")) =
        rw redis.hashes.hget-hset (ground (arith, str_eq_iff round_id round_id)) in
      rw (lock_round-open round_id db h) (
        refl,
        λ j g. redis.hashes.hget-hset (round round_id) j status_field g _ db.hashes,
        lock_round-locked round_id after set,
      )
