-- ===== src/Tests/Rounds.antt =====
-- redisstore: a whole settlement and a refund's sums at concrete inputs.
use call_it.Prelude.{
  ◌+◌, ◌<◌, ◌^◌, pos, negsuc, Str, bytes, str_eq, str_eq_iff, str_lt, List, [], ◌∷◌, All, some,
  none, Bool, true, false, ◌≡◌, refl, arith, ok, if◌then◌else◌,
}
use call_it.Domain.Round.{locked}
use call_it.Domain.Payout.{Stake}
use call_it.Domain.Payout.Exact.{IsValidStake}
use call_it.Domain.Payout.Conservation.{exact_settlement}
use call_it.Redis.Keys.{
  Key, Field, name, wager, round, round_wagers, room_wallets, Text, int, str, json_labels, key_eq,
  field_eq,
}
use call_it.Redis.Server.{Db}
use call_it.Redis.Reference.{reference, fresh}
use call_it.Store.PlaceWager.{status_field, lock_at_field, outcome_count_field}
use call_it.Store.Rounds.{Round, read_round, room_id_field, question_field, outcomes_field}
use call_it.Store.Settle.{
  read_stakes, parse_stakes, parse_stake, sort_stakes, insert_stake, stake_lt, settle_round,
}
use call_it.Store.Settle.Closing.{CanCredit, IsWallet, wallet_of}
use call_it.Store.Settle.Terminal.{Closed}
use call_it.Store.Settle.Whole.{exact_kind, exact_args, settle_round-Closed}

abbrev set : Key → Field → Text → reference.hashes.T → reference.hashes.T
set = reference.hashes.hset

-- A locked round with two wagers, and the wallet of one of the players.
abbrev two_db : Db reference
two_db = record fresh {
  hashes = set (round (bytes "q")) room_id_field (str (bytes "r")) (
      set (round (bytes "q")) question_field (str (bytes "who")) (
        set (round (bytes "q")) outcomes_field (json_labels (bytes "a" ∷ bytes "b" ∷ [])) (
          set (round (bytes "q")) status_field (str (bytes "locked")) (
            set (round (bytes "q")) lock_at_field (int (pos 9000)) (
              set (round (bytes "q")) outcome_count_field (int (pos 2)) (
                set (round_wagers (bytes "q")) (wager (bytes "bob") (pos 1)) (int (pos 7)) (
                  set (round_wagers (bytes "q")) (wager (bytes "ann") (pos 0)) (int (pos 10)) (
                    set (room_wallets (bytes "r")) (name (bytes "ann")) (int (pos 5))
                      fresh.hashes))))))));
}

abbrev two_round : Round
two_round = record {
  id = bytes "q";
  room_id = bytes "r";
  question = bytes "who";
  outcomes = bytes "a" ∷ bytes "b" ∷ [];
  status = locked;
  lock_at_ms = pos 9000;
  outcome_count = pos 2;
  resolved_outcome = negsuc 0;
}

abbrev two_stakes : List Stake
two_stakes =
    record { user_id = bytes "ann"; outcome = pos 0; amount = pos 10 }
    ∷ record { user_id = bytes "bob"; outcome = pos 1; amount = pos 7 }
    ∷ []

two_read : read_round reference (bytes "q") two_db ≡ (ok two_round, two_db)
unfolding read_round key_eq field_eq str_eq
two_read = refl

two_wagers : read_stakes reference (bytes "q") two_db ≡ (ok two_stakes, two_db)
unfolding read_stakes parse_stakes parse_stake sort_stakes insert_stake stake_lt str_lt key_eq
    field_eq str_eq
two_wagers = refl

two_stakes-All : All (IsValidStake (pos 2)) two_stakes
two_stakes-All =
    ((omega arith, omega arith, omega arith), ((omega arith, omega arith, omega arith), tt))

two_wallets :
    (u : Str)
    → reference.hashes.hget (room_wallets (bytes "r")) (name u) two_db.hashes
      ≡ (if str_eq u (bytes "ann") then some (int (pos 5)) else none)
unfolding key_eq field_eq
two_wallets u = ground (
  arith,
  str_eq_iff (bytes "r") (bytes "r"),
  str_eq_iff u (bytes "ann"),
  str_eq_iff (bytes "ann") u,
)

two_wallets-IsWallet : (b : Bool) → IsWallet reference (if b then some (int (pos 5)) else none)
two_wallets-IsWallet true = omega arith
two_wallets-IsWallet false = tt

two_room :
    (b c : Bool)
    → wallet_of reference (if b then some (int (pos 5)) else none) + (if c then 17 else 0) < 2 ^ 63
two_room true true = omega arith
two_room true false = omega arith
two_room false true = omega arith
two_room false false = omega arith

two_credit :
    CanCredit reference (bytes "r") (exact_settlement (pos 0) two_stakes).payouts two_db.hashes
two_credit = record {
  amounts = (omega arith, tt);
  wallets = λ u. rw (two_wallets u) (two_wallets-IsWallet (str_eq u (bytes "ann")));
  room_left = λ u. rw (two_wallets u) (two_room (str_eq u (bytes "ann")) (str_eq (bytes "ann") u));
}

settle_round-Closed_example :
    ((settle_round reference (bytes "q") (pos 0) (bytes "k") two_db).0
      ≡ ok (exact_settlement (pos 0) two_stakes))
    × Closed reference
        (exact_kind reference two_stakes (pos 0))
        (exact_args reference two_round two_stakes (pos 0) (bytes "k"))
        two_db
        (settle_round reference (bytes "q") (pos 0) (bytes "k") two_db).1
settle_round-Closed_example =
    settle_round-Closed reference (bytes "q") (bytes "k") (pos 0) two_round two_stakes two_db
      two_read refl two_wagers two_stakes-All (omega arith) (omega arith) (omega arith) two_credit
