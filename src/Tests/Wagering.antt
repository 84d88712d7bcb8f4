-- ===== src/Tests/Wagering.antt =====
-- redisstore: wagers and round transitions on a server in memory.
use call_it.Prelude.{
  pos, ◌+ℤ◌, ◌-ℤ◌, Str, bytes, str_eq, List, [], ◌∷◌, some, none, ◌≡◌, ◌≢◌, ◌↔◌, refl, arith, ok,
  ◌&&◌, if◌then◌else◌,
}
use call_it.Redis.Keys.{
  Key, Field, name, index, room, round, room_wallets, round_pools, Text, int, str, key_eq, field_eq,
}
use call_it.Redis.Server.{Db}
use call_it.Redis.Script.{incremented}
use call_it.Redis.Reference.{reference, fresh}
use call_it.Store.PlaceWager.{
  WagerRequest, Time, status_field, lock_at_field, outcome_count_field, host_field, total_field,
  accept, check_wager, apply_wager, move_tokens, record_wager, read_pools, place_wager,
}
use call_it.Store.PlaceWager.Guards.{Admissible, check_wager-Admissible}
use call_it.Store.PlaceWager.Effects.{
  Counters, PoolsFrom, grown, joined, Wagered, place_wager_effects,
}
use call_it.Store.PlaceWager.Replay.{after_wagers, place_wager-replay}
use call_it.Store.Rounds.{lock_round}
use call_it.Store.Rounds.Locking.{lock_round-once}

abbrev set : Key → Field → Text → reference.hashes.T → reference.hashes.T
set = reference.hashes.hset

-- A room whose host is hal, with an open round of two outcomes and a player with 100 tokens.
abbrev pub open_hashes : reference.hashes.T
open_hashes = set (room (bytes "r")) host_field (str (bytes "hal")) (
    set (room_wallets (bytes "r")) (name (bytes "ann")) (int (pos 100)) (
      set (round (bytes "q")) status_field (str (bytes "open")) (
        set (round (bytes "q")) lock_at_field (int (pos 9000)) (
          set (round (bytes "q")) outcome_count_field (int (pos 2)) (
            set (round_pools (bytes "q")) (index (pos 0)) (int (pos 0)) (
              set (round_pools (bytes "q")) (index (pos 1)) (int (pos 5))
                (set (round_pools (bytes "q")) total_field (int (pos 5)) fresh.hashes)))))))

abbrev pub open_db : Db reference
open_db = record fresh { hashes = open_hashes }

abbrev ann_wager : WagerRequest
ann_wager = record {
  room_id = bytes "r";
  round_id = bytes "q";
  user_id = bytes "ann";
  outcome = pos 1;
  amount = pos 40;
  idempotency_key = bytes "k1";
}

abbrev early : Time
early = (8, 500000)

ann_counters : Counters reference ann_wager open_db
unfolding key_eq field_eq str_eq incremented ◌+ℤ◌ ◌-ℤ◌
ann_counters = record {
  balance = pos 100;
  pool = pos 5;
  total = pos 5;
  staked = pos 0;
  wallet_is = refl;
  pool_is = refl;
  total_is = refl;
  staked_is = refl;
  balance_fits = refl;
  pool_fits = refl;
  total_fits = refl;
}

ann-Admissible : Admissible reference ann_wager early open_db (pos 2)
unfolding key_eq field_eq str_eq
ann-Admissible = record {
  lock_at = pos 9000;
  balance = pos 100;
  is_new = refl;
  is_positive = omega arith;
  is_open = refl;
  has_lock = refl;
  is_early = omega arith;
  has_count = refl;
  is_outcome = (omega arith, omega arith);
  is_not_host = λ e. ground arith;
  has_wallet = refl;
  is_covered = omega arith;
}

ann_pools : PoolsFrom reference (bytes "q") open_hashes (pos 0) (pos 0 ∷ pos 5 ∷ [])
unfolding key_eq field_eq str_eq ◌+ℤ◌
ann_pools = (refl, (refl, tt))

place_wager_effects_example :
    ((place_wager reference ann_wager early open_db).0
      ≡ ok (
          str (bytes "OK")
          ∷ int (ann_counters.balance -ℤ pos 40)
          ∷ int (pos (joined reference (bytes "q") (bytes "ann") open_db))
          ∷ int (ann_counters.total +ℤ pos 40)
          ∷ grown reference (pos 1) (pos 40) (pos 0) (pos 0 ∷ pos 5 ∷ [])))
    × Wagered reference ann_wager open_db ann_counters
        (place_wager reference ann_wager early open_db).1
place_wager_effects_example =
    place_wager_effects reference ann_wager early open_db (pos 0 ∷ pos 5 ∷ []) ann_counters
      ann-Admissible ann_pools

check_wager-Admissible_example :
    (check_wager reference ann_wager early open_db ≡ accept (pos 2))
    ↔ Admissible reference ann_wager early open_db (pos 2)
check_wager-Admissible_example = check_wager-Admissible reference ann_wager early open_db (pos 2)

ann_accepted :
    (place_wager reference ann_wager early open_db).0
    ≡ ok (
        str (bytes "OK")
        ∷ int (pos 60)
        ∷ int (pos 1)
        ∷ int (pos 45)
        ∷ int (pos 0)
        ∷ int (pos 45)
        ∷ [])
unfolding place_wager check_wager apply_wager move_tokens record_wager read_pools incremented key_eq
    field_eq str_eq ◌+ℤ◌ ◌-ℤ◌
ann_accepted = refl

-- In between Ann wagers again under another key, and tries this one once more.
abbrev between : List (WagerRequest × Time)
between = (record ann_wager { idempotency_key = bytes "k2" }, (2, 0)) ∷ (ann_wager, (3, 0)) ∷ []

abbrev first_reply : List Text
first_reply = int (pos 60) ∷ int (pos 1) ∷ int (pos 45) ∷ int (pos 0) ∷ int (pos 45) ∷ []

abbrev later_db : Db reference
later_db = after_wagers reference between (place_wager reference ann_wager early open_db).1

place_wager-replay_example :
    place_wager reference (record ann_wager { amount = pos 99 }) (9, 0) later_db
    ≡ (ok (str (bytes "OK") ∷ first_reply), later_db)
place_wager-replay_example =
    place_wager-replay reference ann_wager (record ann_wager { amount = pos 99 }) early (9, 0)
      between open_db first_reply refl ann_accepted refl (refl, (refl, tt)) refl

abbrev late : Time
late = (9, 0)

ann_late : (place_wager reference ann_wager late open_db).0 ≡ ok (str (bytes "POOL_LOCKED") ∷ [])
unfolding place_wager check_wager key_eq field_eq str_eq
ann_late = refl

is_open_round :
    reference.hashes.hget (round (bytes "q")) status_field open_db.hashes
    ≡ some (str (bytes "open"))
unfolding key_eq field_eq str_eq
is_open_round = refl

lock_round-once_example :
    ((lock_round reference (bytes "q") open_db).0 ≡ ok tt)
    × ((j : Key) (g : Field)
        → reference.hashes.hget j g (lock_round reference (bytes "q") open_db).1.hashes ≡ (
            if key_eq (round (bytes "q")) j && field_eq status_field g
            then some (str (bytes "locked"))
            else reference.hashes.hget j g open_db.hashes))
    × (lock_round reference (bytes "q") (lock_round reference (bytes "q") open_db).1
        ≡ (ok tt, (lock_round reference (bytes "q") open_db).1))
lock_round-once_example = lock_round-once reference (bytes "q") open_db is_open_round

missing : reference.hashes.hget (round (bytes "x")) status_field open_db.hashes ≡ none
unfolding key_eq field_eq str_eq
missing = refl

missing-text :
    (s : Str) → reference.hashes.hget (round (bytes "x")) status_field open_db.hashes ≢ some (str s)
missing-text s e = ground (arith, missing, e)
