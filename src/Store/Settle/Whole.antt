-- ===== src/Store/Settle/Whole.antt =====
-- `SettleRound` as a whole: what is read, what the rules make of it, and what the script does.
use call_it.Prelude.{
  ℕ, ◌+◌, ◌<◌, ◌≤◌, ◌^◌, pos_part, ◌≤ℤ◌, ◌<ℤ◌, All, Bool-cases, inl, inr, if◌then◌else◌, ℤ, pos,
  Str, str_eq, bytes, List, [], ◌∷◌, length, Option, some, ◌≡◌, refl, sym, ◌∙◌, arith, ok, ap,
  map_err,
}
use call_it.Domain.Round.{locked}
use call_it.Domain.Payout.{Stake, Settlement, settle}
use call_it.Domain.Payout.Exact.{IsValidStake, total_staked, max_total, add64_amount}
use call_it.Domain.Payout.Conservation.{exact_settlement, settle_exact}
use call_it.Redis.Keys.{Text, round, str, int}
use call_it.Redis.Server.{Redis, Db}
use call_it.Store.PlaceWager.{status_field}
use call_it.Store.PlaceWager.Guards.{holds_iff}
use call_it.Store.Errors.{domain}
use call_it.Store.Op.{Op, run-ok, >>=-ok, lift, pure, ◌>>=◌, ◌>>◌, run}
use call_it.Store.Rounds.{Round, read_round, status_of}
use call_it.Store.Settle.{
  SettleArgs, sum_stakes, read_stakes, settle_args, settle_kind, settle_script, settle_reply,
  settle_round, require_locked,
}
use call_it.Store.Settle.Closing.{CanCredit}
use call_it.Store.Settle.Terminal.{Closed, settle_script_effects}

module _ (redis : Redis) where
  open redis use {hashes.{hget}}

  read_round-id :
      (round_id : Str) (rd : Round) (db : Db redis)
      → read_round redis round_id db ≡ (ok rd, db)
      → (rd.id ≡ round_id) × (rd.status ≡ status_of (hget (round round_id) status_field db.hashes))
  unfolding read_round
  read_round-id round_id rd db h = ground arith

  module _ (rd : Round) (winning : ℤ) (key : Str) where
    abbrev after_settle : List Stake → Settlement → Op redis Settlement
    after_settle ss r =
        run (settle_script redis (settle_args redis rd ss winning key r)) >>= λ reply.
        lift (settle_reply redis reply) >> pure r

    abbrev after_stakes : List Stake → Op redis Settlement
    after_stakes ss = lift (map_err domain (settle ss winning rd.outcome_count)) >>= after_settle ss

    abbrev after_guard : Str → Op redis Settlement
    after_guard round_id = read_stakes redis round_id >>= after_stakes

    settled_args :
        (ss : List Stake) (r : Settlement)
        → ((settle_args redis rd ss winning key r).round_id ≡ rd.id)
          × ((settle_args redis rd ss winning key r).room_id ≡ rd.room_id)
          × ((settle_args redis rd ss winning key r).payouts ≡ r.payouts)
    unfolding settle_args
    settled_args ss r = (refl, refl, refl)

    after_settle-ok :
        (ss : List Stake) (r : Settlement) (db : Db redis)
        → hget (round rd.id) status_field db.hashes ≡ some (str (bytes "locked"))
        → CanCredit redis rd.room_id r.payouts db.hashes
        → after_settle ss r db
          ≡ (ok r, (settle_script redis (settle_args redis rd ss winning key r) db).1)
    unfolding settle_args settle_reply str_eq
    after_settle-ok ss r db locked_is c =
        let args = settle_args redis rd ss winning key r in
        let (replied, closed) = settle_script_effects redis args db locked_is c in
        run-ok (settle_script redis args) (λ reply. lift (settle_reply redis reply) >> pure r) db
          (settle_script redis args db).1 (str (bytes "OK") ∷ int (pos (length r.payouts)) ∷ [])
          (ap (λ answer. (answer, (settle_script redis args db).1)) replied)

  status_of-locked : (o : Option Text) → status_of o ≡ locked → o ≡ some (str (bytes "locked"))
  unfolding status_of
  status_of-locked o h = ground (arith, holds_iff o (bytes "locked"))

  settle_round-chain :
      (round_id key : Str) (winning : ℤ) (rd : Round) (ss : List Stake) (r : Settlement)
      (db : Db redis)
      → read_round redis round_id db ≡ (ok rd, db)
      → rd.status ≡ locked
      → read_stakes redis round_id db ≡ (ok ss, db)
      → settle ss winning rd.outcome_count ≡ ok r
      → settle_round redis round_id winning key db ≡ after_settle rd winning key ss r db
  unfolding settle_round require_locked
  settle_round-chain round_id key winning rd ss r db read is_locked stakes settled =
      >>=-ok (read_round redis round_id)
        (λ rd. lift (require_locked redis rd.status) >> after_guard rd winning key round_id) db db
        rd read
      ∙ >>=-ok (lift (require_locked redis rd.status)) (λ _. after_guard rd winning key round_id) db
          db tt (ap (λ s. (require_locked redis s, db)) is_locked)
      ∙ >>=-ok (read_stakes redis round_id) (after_stakes rd winning key) db db ss stakes
      ∙ >>=-ok (lift (map_err domain (settle ss winning rd.outcome_count)))
          (after_settle rd winning key ss) db db r (ap (λ x. (map_err domain x, db)) settled)

  pub sum_stakes_exact :
      (count : ℤ) (ss : List Stake) (a : ℕ)
      → All (IsValidStake count) ss
      → a + total_staked ss < 2 ^ 63
      → sum_stakes redis ss (pos a) ≡ pos (a + total_staked ss)
  unfolding sum_stakes
  sum_stakes_exact count [] a v h = ground arith
  sum_stakes_exact count (s ∷ ss) a (v, vs) h =
      ground
        (arith, add64_amount a s.amount v.0, sum_stakes_exact count ss (a + pos_part s.amount) vs)

  -- What the settlement of exact arithmetic asks of the store.
  abbrev pub exact_args : Round → List Stake → ℤ → Str → SettleArgs
  exact_args rd ss winning key =
      let r = exact_settlement winning ss in
      record {
        terminal_status = if r.was_refunded then bytes "refunded" else bytes "resolved";
        resolved_outcome = if r.was_refunded then str [] else int winning;
        dust = r.dust;
        idempotency_key = key;
        round_id = rd.id;
        room_id = rd.room_id;
        total = pos (total_staked ss);
        payouts = r.payouts;
      }

  abbrev pub exact_kind : List Stake → ℤ → Str
  exact_kind ss winning =
      if (exact_settlement winning ss).was_refunded
      then bytes "round_refunded"
      else bytes "round_settled"

  settle_args-exact :
      (rd : Round) (ss : List Stake) (winning : ℤ) (key : Str)
      → All (IsValidStake rd.outcome_count) ss
      → total_staked ss ≤ max_total
      → settle_args redis rd ss winning key (exact_settlement winning ss)
        ≡ exact_args rd ss winning key
  unfolding settle_args
  settle_args-exact rd ss winning key v h =
      let summed = sum_stakes_exact rd.outcome_count ss 0 v (ground arith) in
      let total : sum_stakes redis ss (pos 0) ≡ pos (total_staked ss) = ground arith in
      ap (λ t. record (exact_args rd ss winning key) { total = t }) total

  settle_kind-exact :
      (rd : Round) (ss : List Stake) (winning : ℤ) (key : Str)
      → settle_kind redis (exact_args rd ss winning key) ≡ exact_kind ss winning
  unfolding settle_kind str_eq
  settle_kind-exact rd ss winning key =
      elim (Bool-cases (exact_settlement winning ss).was_refunded) [
        | inl refund ↦ rw refund refl
        | inr paid ↦ rw paid refl
      ]

  -- A round is locked, its stakes are valid with a total of at most 3037000499, the outcome is one of the
  -- round's, and the payouts of exact arithmetic can be credited. Then SettleRound returns the
  -- settlement of exact arithmetic; every wallet of the room has grown by what that pays to its player;
  -- the round is resolved, with its outcome, or refunded, without one, if nobody backed the outcome;
  -- and one event was appended, with the sum of the stakes, the dust and the payouts. Nothing outside
  -- the room's wallets and the round changes.
  pub settle_round-Closed :
      (round_id key : Str) (winning : ℤ) (rd : Round) (ss : List Stake) (db : Db redis)
      → read_round redis round_id db ≡ (ok rd, db)
      → rd.status ≡ locked
      → read_stakes redis round_id db ≡ (ok ss, db)
      → All (IsValidStake rd.outcome_count) ss
      → total_staked ss ≤ max_total
      → pos 0 ≤ℤ winning
      → winning <ℤ rd.outcome_count
      → CanCredit redis rd.room_id (exact_settlement winning ss).payouts db.hashes
      → ((settle_round redis round_id winning key db).0 ≡ ok (exact_settlement winning ss))
        × Closed redis
            (exact_kind ss winning)
            (exact_args rd ss winning key)
            db
            (settle_round redis round_id winning key db).1
  unfolding settle_args
  settle_round-Closed round_id key winning rd ss db read is_locked stakes v h lo hi credit =
      let r = exact_settlement winning ss in
      let (same, status) = read_round-id round_id rd db read in
      let locked_is : hget (round rd.id) status_field db.hashes ≡ some (str (bytes "locked")) =
        rw same (
          status_of-locked (hget (round round_id) status_field db.hashes)
            (sym status ∙ is_locked)) in
      let whole =
        settle_round-chain round_id key winning rd ss r db read is_locked stakes
          (settle_exact ss winning rd.outcome_count lo hi v h)
        ∙ after_settle-ok rd winning key ss r db locked_is credit in
      let args = settle_args-exact rd ss winning key v h in
      let effects =
        (settle_script_effects redis (exact_args rd ss winning key) db locked_is credit).1 in
      rw whole (refl, rw args (rw (← settle_kind-exact rd ss winning key) effects))
