-- ===== src/Store/Settle.antt =====
-- redisstore/settle.go with settle_round.lua and refund_round.lua: reading the stakes of a round,
-- settling it and refunding it.
pub mod Closing
pub mod Terminal
pub mod Whole
pub mod Refunds
use call_it.Prelude.{
  ℕ, zero, suc, ◌+◌, ℤ, pos, negsuc, pos_part, ◌+ℤ◌, eqb_ℤ, ltb_ℤ, add64, Str, bytes, str_eq,
  str_lt, List, [], ◌∷◌, length, map, Bool, true, false, ◌||◌, ◌&&◌, Option, none, some, Result,
  Done, ok, err, map_err, if◌then◌else◌,
}
use call_it.Domain.Economy.{Tokens}
use call_it.Domain.Round.{RoundStatus, open_, locked, resolved, refunded, other}
use call_it.Domain.Payout.{Stake, Payout, Settlement, settle}
use call_it.Redis.Keys.{
  Key, Field, name, index, wager, round, round_wagers, room_wallets, Text, int, str, json_payouts,
  is_str,
}
use call_it.Redis.Server.{Redis, Db, Entry}
use call_it.Redis.Script.{Script, hash_set, hash_incr, hash_get, emit}
use call_it.Redis.Script
use call_it.Store.Errors.{
  StoreError, not_found, malformed, already_settled, not_locked, domain, map_settle_status,
}
use call_it.Store.PlaceWager.{status_field, holds}
use call_it.Store.Rounds.{Round, read_round, resolved_outcome_field}
use call_it.Store.Op.{Op, ◌>>=◌, ◌>>◌, pure, fail, lift, run, gets, text_int}

-- `aggregateStakes`: the `index` map is the place of the user's payout, which is searched here.
unfoldable pub add_payout : Str → Tokens → List Payout → List Payout
add_payout user amount [] = record { user_id = user; amount = add64 (pos 0) amount } ∷ []
add_payout user amount (p ∷ ps) =
    if str_eq p.user_id user
    then record p { amount = add64 p.amount amount } ∷ ps
    else p ∷ add_payout user amount ps

unfoldable pub aggregate_from : List Stake → List Payout → Tokens → List Payout × Tokens
aggregate_from [] payouts total = (payouts, total)
aggregate_from (s ∷ ss) payouts total =
    aggregate_from ss (add_payout s.user_id s.amount payouts) (add64 total s.amount)

unfoldable pub aggregate_stakes : List Stake → List Payout × Tokens
unfolding aggregate_from add_payout
aggregate_stakes stakes = aggregate_from stakes [] (pos 0)

-- `marshalPayouts`: the JSON of the payouts, in order.
abbrev pub marshal_payouts : List Payout → Text
marshal_payouts payouts = json_payouts (map (λ p. (p.user_id, p.amount)) payouts)

-- `ParseWagerField` on a field name, and the amount beside it.
unfoldable pub parse_stake : Field × Text → Result StoreError Stake
parse_stake (wager user outcome, int amount) =
    ok (record { user_id = user; outcome = outcome; amount = amount })
parse_stake _ = err malformed

unfoldable pub parse_stakes : List (Field × Text) → Result StoreError (List Stake)
parse_stakes [] = ok []
parse_stakes (f ∷ fs) =
    let rest = parse_stakes fs in
    elim (parse_stake f) [
      | err e ↦ err e
      | ok s ↦ elim rest [ ok ss ↦ ok (s ∷ ss) | err e ↦ err e ]
    ]

-- The order of `sort.Slice`: by user, then by outcome.
unfoldable pub stake_lt : Stake → Stake → Bool
stake_lt a b =
    if str_eq a.user_id b.user_id then ltb_ℤ a.outcome b.outcome else str_lt a.user_id b.user_id

unfoldable pub insert_stake : Stake → List Stake → List Stake
insert_stake s [] = s ∷ []
insert_stake s (t ∷ ts) = if stake_lt t s then t ∷ insert_stake s ts else s ∷ t ∷ ts

-- What `sort.Slice` leaves; no two stakes of a hash are equal in this order.
unfoldable pub sort_stakes : List Stake → List Stake
sort_stakes [] = []
sort_stakes (s ∷ ss) = insert_stake s (sort_stakes ss)

-- The arguments of settle_round.lua.
pub record SettleArgs : Type 0 where
  pub terminal_status : Str
  pub resolved_outcome : Text
  pub dust : Tokens
  pub idempotency_key : Str
  pub round_id : Str
  pub room_id : Str
  pub total : Tokens
  pub payouts : List Payout

-- What refund_round.lua writes: its status, outcome and dust are fixed.
abbrev pub refund_args : Str → Str → Str → Tokens → List Payout → SettleArgs
refund_args idempotency_key round_id room_id total payouts = record {
  terminal_status = bytes "refunded";
  resolved_outcome = str [];
  dust = pos 0;
  idempotency_key = idempotency_key;
  round_id = round_id;
  room_id = room_id;
  total = total;
  payouts = payouts;
}

abbrev pub settle_entry : Str → SettleArgs → Entry
settle_entry kind args =
    (bytes "type", str kind)
    ∷ (bytes "round_id", str args.round_id)
    ∷ (bytes "room_id", str args.room_id)
    ∷ (bytes "total", int args.total)
    ∷ (bytes "dust", int args.dust)
    ∷ (bytes "winning_outcome", args.resolved_outcome)
    ∷ (bytes "payouts", marshal_payouts args.payouts)
    ∷ (bytes "idempotency_key", str args.idempotency_key)
    ∷ []

-- The status in a reply; a missing one would be a nil, which ends the reply.
abbrev pub status_reply : Option Text → List Text
status_reply none = []
status_reply (some s) = s ∷ []

module _ (redis : Redis) where
  open redis use {hashes.{hget, hset, hgetall}}

  unfoldable pub read_stakes : Str → Op redis (List Stake)
  unfolding sort_stakes parse_stakes
  read_stakes round_id db = elim (parse_stakes (hgetall (round_wagers round_id) db.hashes)) [
    | ok stakes ↦ (ok (sort_stakes stakes), db)
    | err e ↦ (err e, db)
  ]

  -- The loop over ARGV: one HINCRBY for each payout.
  unfoldable pub credit_all : Str → List Payout → Script redis Done
  credit_all room_id [] = Script.pure tt
  credit_all room_id (p ∷ ps) =
      let rest = credit_all room_id ps in
      Script.◌>>=◌ (hash_incr redis (room_wallets room_id) (name p.user_id) p.amount) (λ _. rest)

  -- The writes of a terminal script: the credits, the status, the outcome if it is not '', the event.
  unfoldable pub close_round : Str → SettleArgs → Script redis Done
  close_round kind args = Script.◌>>=◌ (credit_all args.room_id args.payouts) λ _.
      Script.◌>>=◌ (hash_set redis (round args.round_id) status_field (str args.terminal_status))
        λ _.
          Script.◌>>=◌
            (λ db.
              if is_str args.resolved_outcome []
              then (ok tt, db)
              else hash_set redis (round args.round_id) resolved_outcome_field args.resolved_outcome
                  db)
            λ _. emit redis (settle_entry kind args)

  -- The guard on the status that both scripts begin with.
  unfoldable pub with_locked : Str → Script redis (List Text) → Script redis (List Text)
  with_locked round_id body db =
      let status = hget (round round_id) status_field db.hashes in
      if holds status (bytes "resolved") || holds status (bytes "refunded")
      then (ok (str (bytes "ALREADY_RESOLVED") ∷ status_reply status), db)
      else if holds status (bytes "locked")
      then body db
      else (ok (str (bytes "NOT_LOCKED") ∷ status_reply status), db)

  unfoldable pub settle_kind : SettleArgs → Str
  settle_kind args =
      if str_eq args.terminal_status (bytes "refunded")
      then bytes "round_refunded"
      else bytes "round_settled"

  -- settle_round.lua
  unfoldable pub settle_script : SettleArgs → Script redis (List Text)
  settle_script args = with_locked args.round_id (
      Script.◌>>=◌ (close_round (settle_kind args) args)
        λ _. Script.pure (str (bytes "OK") ∷ int (pos (length args.payouts)) ∷ []))

  -- refund_round.lua
  unfoldable pub refund_script : Str → Str → Str → Tokens → List Payout → Script redis (List Text)
  refund_script idempotency_key round_id room_id total payouts =
      let args = refund_args idempotency_key round_id room_id total payouts in
      with_locked round_id (
        Script.◌>>=◌ (close_round (bytes "round_refunded") args)
          λ _. Script.pure (str (bytes "OK") ∷ int total ∷ []))

  -- The switch on the status that both methods make before they read the stakes.
  unfoldable pub require_locked : RoundStatus → Result StoreError Done
  require_locked locked = ok tt
  require_locked resolved = err already_settled
  require_locked refunded = err already_settled
  require_locked _ = err not_locked

  unfoldable pub settle_reply : List Text → Result StoreError Done
  settle_reply [] = err malformed
  settle_reply (code ∷ _) = if is_str code (bytes "OK") then ok tt else err (map_settle_status code)

  -- `var total`, the sum of the stakes.
  unfoldable pub sum_stakes : List Stake → Tokens → Tokens
  sum_stakes [] total = total
  sum_stakes (s ∷ ss) total = sum_stakes ss (add64 total s.amount)

  -- What `SettleRound` hands to the script.
  unfoldable pub settle_args : Round → List Stake → ℤ → Str → Settlement → SettleArgs
  unfolding sum_stakes
  settle_args rd stakes winning idempotency_key s = record {
    terminal_status = if s.was_refunded then bytes "refunded" else bytes "resolved";
    resolved_outcome = if s.was_refunded then str [] else int winning;
    dust = s.dust;
    idempotency_key = idempotency_key;
    round_id = rd.id;
    room_id = rd.room_id;
    total = sum_stakes stakes (pos 0);
    payouts = s.payouts;
  }

  unfoldable pub settle_round : Str → ℤ → Str → Op redis Settlement
  settle_round round_id winning idempotency_key = do
    rd ← read_round redis round_id
    lift (require_locked rd.status)
    stakes ← read_stakes round_id
    settlement ← lift (map_err domain (settle stakes winning rd.outcome_count))
    reply ← run (settle_script (settle_args rd stakes winning idempotency_key settlement))
    lift (settle_reply reply)
    pure settlement

  unfoldable pub refund_round : Str → Str → Op redis Tokens
  refund_round round_id idempotency_key = do
    rd ← read_round redis round_id
    lift (require_locked rd.status)
    stakes ← read_stakes round_id
    let sums = aggregate_stakes stakes
    reply ← run (refund_script idempotency_key round_id rd.room_id sums.1 sums.0)
    lift (settle_reply reply)
    pure sums.1
