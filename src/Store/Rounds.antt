-- ===== src/Store/Rounds.antt =====
-- redisstore/round.go and scripts/lua/lock_round.lua: a round's hash, its pools and its lock.
pub mod Locking
pub mod Creation
use call_it.Prelude.{
  ℕ, zero, suc, ◌+◌, ℤ, pos, negsuc, pos_part, ◌+ℤ◌, Str, bytes, List, [], ◌∷◌, length, Bool, true,
  false, ◌||◌, Option, none, some, Result, Done, ok, err, map_err, if◌then◌else◌,
}
use call_it.Domain.Economy.{Tokens}
use call_it.Domain.Round.{
  RoundStatus, open_, locked, resolved, refunded, other, validate_outcome_count,
}
use call_it.Redis.Keys.{
  Key, Field, name, index, round, round_pools, room_round, Text, int, str, json_labels, is_str,
}
use call_it.Redis.Server.{Redis, Db, Stored, text}
use call_it.Redis.Script.{Script, hash_set, set_string}
use call_it.Store.Errors.{StoreError, not_found, malformed, round_terminal, domain}
use call_it.Store.PlaceWager.{status_field, lock_at_field, outcome_count_field, total_field, holds}
use call_it.Store.Op.{
  Op, ◌>>=◌, ◌>>◌, pure, fail, lift, run, gets, require_int, field_str, require_labels,
}

pub record Round : Type 0 where
  pub id : Str
  pub room_id : Str
  pub question : Str
  pub outcomes : List Str
  pub status : RoundStatus
  pub lock_at_ms : ℤ
  pub outcome_count : ℤ
  pub resolved_outcome : ℤ

abbrev pub room_id_field : Field
room_id_field = name (bytes "room_id")

abbrev pub question_field : Field
question_field = name (bytes "question")

abbrev pub outcomes_field : Field
outcomes_field = name (bytes "outcomes")

abbrev pub resolved_outcome_field : Field
resolved_outcome_field = name (bytes "resolved_outcome")

-- `domain.RoundStatus(fields["status"])`: the stored words are the statuses.
unfoldable pub status_of : Option Text → RoundStatus
status_of stored =
    if holds stored (bytes "open")
    then open_
    else if holds stored (bytes "locked")
    then locked
    else if holds stored (bytes "resolved")
    then resolved
    else if holds stored (bytes "refunded")
    then refunded
    else other

module _ (redis : Redis) where
  open redis use {strings.{get, put, del}, hashes.{hget, hset, hgetall}}

  -- The loop that pre-zeroes the pools, from outcome `i` on.
  unfoldable pub zero_pools : Str → List Str → ℤ → redis.hashes.T → redis.hashes.T
  zero_pools round_id [] i t = t
  zero_pools round_id (o ∷ os) i t =
      zero_pools round_id os (i +ℤ pos 1) (hset (round_pools round_id) (index i) (int (pos 0)) t)

  -- The transaction of `CreateRound`.
  unfoldable pub write_round : Str → Str → Str → List Str → ℤ → Op redis Done
  unfolding zero_pools
  write_round round_id room_id question outcomes lock_at db =
      let set = λ (f : Field) (v : Text) (t : redis.hashes.T). hset (round round_id) f v t in
      let hash = set lock_at_field (int lock_at) (
        set outcome_count_field (int (pos (length outcomes))) (
          set status_field (str (bytes "open")) (
            set outcomes_field (json_labels outcomes)
              (set question_field (str question) (set room_id_field (str room_id) db.hashes))))) in
      (
        ok tt,
        record db {
          hashes =
              hset (round_pools round_id) total_field (int (pos 0))
                (zero_pools round_id outcomes (pos 0) hash);
          strings = put (room_round room_id) (text (str round_id)) db.strings;
        },
      )

  unfoldable pub create_round : Str → Str → Str → List Str → ℤ → Op redis Done
  unfolding write_round
  create_round round_id room_id question outcomes lock_at =
      lift (map_err domain (validate_outcome_count (pos (length outcomes))))
      >> write_round round_id room_id question outcomes lock_at

  unfoldable pub current_round : Str → Op redis Str
  current_round room_id db = elim (get (room_round room_id) db.strings) [
    | some (text (str round_id)) ↦ (ok round_id, db)
    | some _ ↦ (err malformed, db)
    | none ↦ (err not_found, db)
  ]

  unfoldable pub clear_current_round : Str → Op redis Done
  clear_current_round room_id db =
      (ok tt, record db { strings = del (room_round room_id) db.strings })

  -- `resolved_outcome` is -1 unless the field is there.
  abbrev pub resolved_of : Option Text → Result StoreError ℤ
  resolved_of none = ok (negsuc 0)
  resolved_of (some (int z)) = ok z
  resolved_of (some _) = err malformed

  unfoldable pub read_round : Str → Op redis Round
  unfolding status_of
  read_round round_id db =
      let field = λ (f : Field). hget (round round_id) f db.hashes in
      elim (hgetall (round round_id) db.hashes) [
        | [] ↦ (err not_found, db)
        | _ ∷ _ ↦
            (do
              count ← lift (require_int (field outcome_count_field))
              lock_at ← lift (require_int (field lock_at_field))
              resolved_outcome ← lift (resolved_of (field resolved_outcome_field))
              labels ← lift (require_labels (field outcomes_field))
              pure (record {
                id = round_id;
                room_id = field_str (field room_id_field);
                question = field_str (field question_field);
                outcomes = labels;
                status = status_of (field status_field);
                lock_at_ms = lock_at;
                outcome_count = count;
                resolved_outcome = resolved_outcome;
              }))
              db
      ]

  -- The loop of `Pools`, over at most as many indices as the hash has fields.
  unfoldable pub collect_pools : Str → ℕ → ℤ → redis.hashes.T → Result StoreError (List Tokens)
  collect_pools round_id zero i t = ok []
  collect_pools round_id (suc n) i t =
      let rest = collect_pools round_id n (i +ℤ pos 1) t in
      elim (hget (round_pools round_id) (index i) t) [
        | none ↦ ok []
        | some (int amount) ↦ elim rest [ ok pools ↦ ok (amount ∷ pools) | err e ↦ err e ]
        | some _ ↦ err malformed
      ]

  unfoldable pub read_pools : Str → Op redis (List Tokens × Tokens)
  unfolding collect_pools
  read_pools round_id db = elim (hgetall (round_pools round_id) db.hashes) [
    | [] ↦ (err not_found, db)
    | f ∷ fs ↦
        (do
          total ← lift (require_int (hget (round_pools round_id) total_field db.hashes))
          pools ← lift (collect_pools round_id (length (f ∷ fs)) (pos 0) db.hashes)
          pure (pools, total))
          db
  ]

  -- lock_round.lua. A missing status would be a nil, which ends the reply.
  unfoldable pub lock_round_script : Str → Script redis (List Text)
  lock_round_script round_id db =
      let status = hget (round round_id) status_field db.hashes in
      if holds status (bytes "locked")
      then (ok (str (bytes "ALREADY_LOCKED") ∷ []), db)
      else if holds status (bytes "open")
      then (
        ok (str (bytes "OK") ∷ []),
        record db { hashes = hset (round round_id) status_field (str (bytes "locked")) db.hashes },
      )
      else (ok (str (bytes "ROUND_TERMINAL") ∷ elim status [ none ↦ [] | some s ↦ s ∷ [] ]), db)

  unfoldable pub lock_reply : List Text → Result StoreError Done
  lock_reply [] = err malformed
  lock_reply (code ∷ _) =
      if is_str code (bytes "OK") || is_str code (bytes "ALREADY_LOCKED")
      then ok tt
      else if is_str code (bytes "ROUND_TERMINAL")
      then err round_terminal
      else err malformed

  unfoldable pub lock_round : Str → Op redis Done
  unfolding lock_round_script lock_reply
  lock_round round_id = run (lock_round_script round_id) >>= λ reply. lift (lock_reply reply)
