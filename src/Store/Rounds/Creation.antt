-- ===== src/Store/Rounds/Creation.antt =====
-- A round that was created reads back as it was asked for.
use call_it.Prelude.{
  ℤ, pos, negsuc, ◌+ℤ◌, ◌≤ℤ◌, Str, str_eq, str_eq_iff, bytes, List, [], ◌∷◌, length, ◌≡◌, refl, ◌∙◌,
  arith, ok, some, none, if◌then◌else◌,
}
use call_it.Domain.Round.{open_, min_outcomes, max_outcomes, validate_outcome_count-ok}
use call_it.Redis.Keys.{
  Field, round, round_pools, room_round, str, int, json_labels, key_eq, field_eq, key_eq_refl,
}
use call_it.Redis.Fields.{hgetall-∷}
use call_it.Redis.Server.{Redis, Db, text}
use call_it.Store.PlaceWager.{status_field, lock_at_field, outcome_count_field}
use call_it.Store.Rounds.{
  Round, zero_pools, write_round, create_round, current_round, read_round, resolved_outcome_field,
  room_id_field, question_field, outcomes_field,
}

module _ (redis : Redis) where
  open redis use {hashes.{hget, hset, hgetall}}

  hget-zero_pools :
      (round_id : Str) (os : List Str) (i : ℤ) (t : redis.hashes.T) (f : Field)
      → hget (round round_id) f (zero_pools redis round_id os i t) ≡ hget (round round_id) f t
  unfolding zero_pools key_eq
  hget-zero_pools round_id [] i t f = refl
  hget-zero_pools round_id (o ∷ os) i t f =
      hget-zero_pools round_id os (i +ℤ pos 1) (hset (round_pools round_id) _ (int (pos 0)) t) f
      ∙ redis.hashes.hget-hset _ _ _ f _ t

  module _ (round_id room_id question : Str) (outcomes : List Str) (lock_at : ℤ)
      (db : Db redis) where
    created : Db redis
    created = (write_round redis round_id room_id question outcomes lock_at db).1

    -- The fields of the round that was written.
    hget-created :
        (f : Field)
        → hget (round round_id) f created.hashes ≡ (
            if field_eq lock_at_field f
            then some (int lock_at)
            else if field_eq outcome_count_field f
            then some (int (pos (length outcomes)))
            else if field_eq status_field f
            then some (str (bytes "open"))
            else if field_eq outcomes_field f
            then some (json_labels outcomes)
            else if field_eq question_field f
            then some (str question)
            else if field_eq room_id_field f
            then some (str room_id)
            else hget (round round_id) f db.hashes)
    unfolding created write_round key_eq
    hget-created f =
        redis.hashes.hget-hset _ _ _ f _ _
        ∙ hget-zero_pools round_id outcomes (pos 0) _ f
        ∙ simp redis.hashes.hget-hset (ground (arith, str_eq_iff round_id round_id))

    create_round-created :
        min_outcomes ≤ℤ pos (length outcomes)
        → pos (length outcomes) ≤ℤ max_outcomes
        → create_round redis round_id room_id question outcomes lock_at db ≡ (ok tt, created)
    unfolding create_round created
    create_round-created lo hi =
        ground (arith, (validate_outcome_count-ok (pos (length outcomes))).1 (lo, hi))

    current_round-created : current_round redis room_id created ≡ (ok round_id, created)
    unfolding current_round created write_round
    current_round-created = ground (
      arith,
      redis.strings.get-put (room_round room_id) (room_round room_id) (text (str round_id))
          db.strings,
      key_eq_refl (room_round room_id),
    )

    asked : Round
    asked = record {
      id = round_id;
      room_id = room_id;
      question = question;
      outcomes = outcomes;
      status = open_;
      lock_at_ms = lock_at;
      outcome_count = pos (length outcomes);
      resolved_outcome = negsuc 0;
    }

    read_round-created :
        hget (round round_id) resolved_outcome_field db.hashes ≡ none
        → read_round redis round_id created ≡ (ok asked, created)
    unfolding read_round asked field_eq str_eq
    read_round-created new =
        let status : hget (round round_id) status_field created.hashes ≡ some (str (bytes "open")) =
          hget-created status_field in
        let (p, rest, fields) =
          hgetall-∷ redis (round round_id) status_field _ created.hashes status in
        ground (
          arith,
          fields,
          status,
          new,
          hget-created lock_at_field,
          hget-created outcome_count_field,
          hget-created outcomes_field,
          hget-created question_field,
          hget-created room_id_field,
          hget-created resolved_outcome_field,
        )

  -- A round with two to four outcomes, under an ID that no round has used, is created; it becomes the
  -- room's current round, and it reads back open, with its question, its labels, their number and its
  -- lock instant, and without a resolved outcome.
  pub create_round-read_round :
      (round_id room_id question : Str) (outcomes : List Str) (lock_at : ℤ) (db : Db redis)
      → min_outcomes ≤ℤ pos (length outcomes)
      → pos (length outcomes) ≤ℤ max_outcomes
      → hget (round round_id) resolved_outcome_field db.hashes ≡ none
      → ((create_round redis round_id room_id question outcomes lock_at db).0 ≡ ok tt)
        × (let after = (create_round redis round_id room_id question outcomes lock_at db).1 in
            (current_round redis room_id after ≡ (ok round_id, after))
            × (read_round redis round_id after ≡ (
              ok (record {
                id = round_id;
                room_id = room_id;
                question = question;
                outcomes = outcomes;
                status = open_;
                lock_at_ms = lock_at;
                outcome_count = pos (length outcomes);
                resolved_outcome = negsuc 0;
              }),
              after,
            )))
  unfolding asked
  create_round-read_round round_id room_id question outcomes lock_at db lo hi new =
      rw (create_round-created round_id room_id question outcomes lock_at db lo hi) (
        refl,
        (
          current_round-created round_id room_id question outcomes lock_at db,
          read_round-created round_id room_id question outcomes lock_at db new,
        ),
      )
