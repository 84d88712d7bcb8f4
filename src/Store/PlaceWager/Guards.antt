-- ===== src/Store/PlaceWager/Guards.antt =====
-- When place_wager.lua accepts, and that a rejection writes nothing.
use call_it.Prelude.{
  ℤ, pos, pos_part, ◌≤ℤ◌, ◌<ℤ◌, Str, bytes, str_eq_iff, Option, none, some, ◌≡◌, ◌≢◌, ◌↔◌, arith,
  true, Option-cases, inl, inr,
}
use call_it.Redis.Keys.{name, room, room_wallets, round, idem, Text, int, str}
use call_it.Redis.Server.{Redis, Db, live}
use call_it.Store.PlaceWager.{
  WagerRequest, Time, now_ms, accept, status_field, lock_at_field, outcome_count_field, host_field,
  number, holds, check_wager, check_lock, check_outcome, check_host, check_funds,
}

pub holds_iff : (o : Option Text) (s : Str) → (holds o s ≡ true) ↔ (o ≡ some (str s))
holds_iff none s = ground arith
holds_iff (some (str t)) s = ground (arith, str_eq_iff t s)
holds_iff (some (int z)) s = ground arith
holds_iff (some _) s = ground arith

number_iff : (o : Option Text) (z : ℤ) → (number o ≡ some z) ↔ (o ≡ some (int z))
number_iff none z = ground arith
number_iff (some (int y)) z = ground arith
number_iff (some _) z = ground arith

module _ (redis : Redis) where
  open redis use {strings.{get}, hashes.{hget}}

  -- What a wager must meet, on a round of `count` outcomes.
  pub record Admissible (req : WagerRequest) (time : Time) (db : Db redis) (count : ℤ)
      : Type 0 where
    pub lock_at : ℤ
    pub balance : ℤ
    pub is_new : live (pos_part (now_ms time)) (get (idem req.idempotency_key) db.strings) ≡ none
    pub is_positive : pos 1 ≤ℤ req.amount
    pub is_open : hget (round req.round_id) status_field db.hashes ≡ some (str (bytes "open"))
    pub has_lock : hget (round req.round_id) lock_at_field db.hashes ≡ some (int lock_at)
    pub is_early : now_ms time <ℤ lock_at
    pub has_count : hget (round req.round_id) outcome_count_field db.hashes ≡ some (int count)
    pub is_outcome : (pos 0 ≤ℤ req.outcome) × (req.outcome <ℤ count)
    pub is_not_host : hget (room req.room_id) host_field db.hashes ≢ some (str req.user_id)
    pub has_wallet :
        hget (room_wallets req.room_id) (name req.user_id) db.hashes ≡ some (int balance)
    pub is_covered : req.amount ≤ℤ balance

  module _ (req : WagerRequest) (time : Time) (db : Db redis) (count : ℤ) where
    check_funds-accept :
        (n : ℤ)
        → check_funds redis req n db ≡ accept count
        → (n ≡ count)
          × ((balance : ℤ) × (hget (room_wallets req.room_id) (name req.user_id) db.hashes
                ≡ some (int balance))
              × (req.amount ≤ℤ balance))
    unfolding check_funds
    check_funds-accept n h =
        let wallet = hget (room_wallets req.room_id) (name req.user_id) db.hashes in
        elim (Option-cases (number wallet)) [
          | inl missing ↦ absurd (ground arith)
          | inr (b, e) ↦ let f = (number_iff wallet b).0 e in (ground arith, (b, f, ground arith))
        ]

    check_host-accept :
        (n : ℤ)
        → check_host redis req n db ≡ accept count
        → (hget (room req.room_id) host_field db.hashes ≢ some (str req.user_id))
          × (check_funds redis req n db ≡ accept count)
    unfolding check_host
    check_host-accept n h =
        let host = hget (room req.room_id) host_field db.hashes in
        ground (arith, holds_iff host req.user_id)

    -- The number of outcomes that the guards hand on.
    check_outcome-accept :
        check_outcome redis req db ≡ accept count
        → (n : ℤ) × (hget (round req.round_id) outcome_count_field db.hashes ≡ some (int n))
          × (pos 0 ≤ℤ req.outcome)
          × (req.outcome <ℤ n)
          × (check_host redis req n db ≡ accept count)
    unfolding check_outcome
    check_outcome-accept h =
        let stored = hget (round req.round_id) outcome_count_field db.hashes in
        elim (Option-cases (number stored)) [
          | inl missing ↦ absurd (ground arith)
          | inr (n, e) ↦ (n, (number_iff stored n).0 e, ground arith, ground arith, ground arith)
        ]

    check_lock-accept :
        check_lock redis req time db ≡ accept count
        → (lock_at : ℤ) × (hget (round req.round_id) lock_at_field db.hashes ≡ some (int lock_at))
          × (now_ms time <ℤ lock_at)
          × (check_outcome redis req db ≡ accept count)
    unfolding check_lock
    check_lock-accept h =
        let stored = hget (round req.round_id) lock_at_field db.hashes in
        elim (Option-cases (number stored)) [
          | inl missing ↦ absurd (ground arith)
          | inr (l, e) ↦ (l, (number_iff stored l).0 e, ground arith, ground arith)
        ]

    check_wager-accept :
        check_wager redis req time db ≡ accept count
        → (live (pos_part (now_ms time)) (get (idem req.idempotency_key) db.strings) ≡ none)
          × (pos 1 ≤ℤ req.amount)
          × (hget (round req.round_id) status_field db.hashes ≡ some (str (bytes "open")))
          × (check_lock redis req time db ≡ accept count)
    unfolding check_wager
    check_wager-accept h =
        ground (arith, holds_iff (hget (round req.round_id) status_field db.hashes) (bytes "open"))

    accept-Admissible : check_wager redis req time db ≡ accept count → Admissible req time db count
    accept-Admissible h =
        let guard = check_wager-accept h in
        let lock = check_lock-accept guard.3 in
        let outcome = check_outcome-accept lock.3 in
        let host = check_host-accept outcome.0 outcome.4 in
        let funds = check_funds-accept outcome.0 host.1 in
        record {
          lock_at = lock.0;
          balance = funds.1.0;
          is_new = guard.0;
          is_positive = guard.1;
          is_open = guard.2;
          has_lock = lock.1;
          is_early = lock.2;
          has_count = rw (← funds.0) outcome.1;
          is_outcome = (outcome.2, rw (← funds.0) outcome.3);
          is_not_host = host.0;
          has_wallet = funds.1.1;
          is_covered = funds.1.2;
        }

    Admissible-accept : Admissible req time db count → check_wager redis req time db ≡ accept count
    unfolding check_wager check_lock check_outcome check_host check_funds
    Admissible-accept a = ground (
      arith,
      a.is_new,
      a.is_open,
      a.has_lock,
      a.is_early,
      a.has_count,
      a.has_wallet,
      a.is_not_host,
      holds_iff (hget (round req.round_id) status_field db.hashes) (bytes "open"),
      holds_iff (hget (room req.room_id) host_field db.hashes) req.user_id,
    )

    -- The guards let a wager through exactly when its key is new, its amount positive, the round
    -- open and its lock instant ahead of the server's clock, the outcome one of the round's, the
    -- bettor not the host, and the bettor's wallet there and large enough.
    pub check_wager-Admissible :
        (check_wager redis req time db ≡ accept count) ↔ Admissible req time db count
    check_wager-Admissible = (accept-Admissible, Admissible-accept)
