-- ===== src/Services/Rounds.antt =====
-- round/service.go and round/timer.go: opening, locking, resolving and refunding a room's round.
pub mod Opening
use call_it.Prelude.{
  ℕ, ◌+◌, ◌/◌, ltb_ℤ, pos_part, ℤ, pos, Str, str_eq, List, [], ◌∷◌, length, map, Bool, true, false,
  ◌||◌, Result, Done, ok, err, map_err, if◌then◌else◌,
}
use call_it.Domain.Round.{is_terminal, validate_outcome_count, validate_outcome_index}
use call_it.Domain.Payout.{Settlement}
use call_it.Redis.Server.{Redis}
use call_it.Store.Errors.{not_found}
use call_it.Store.Rooms.{read_room}
use call_it.Store.Rounds.{create_round, current_round, clear_current_round, read_round, lock_round}
use call_it.Store.Settle.{settle_round, refund_round}
use call_it.Services.{
  ServiceError, store_error, domain_error, not_host, invalid_spec, round_in_progress,
  no_current_round, round_opened, round_locked, round_resolved, round_refunded, Act, ◌>>=◌, ◌>>◌,
  pure, fail, require, lift, store, try, broadcast,
}

-- In nanoseconds: three seconds and two minutes.
abbrev pub min_lock_in : ℤ
min_lock_in = pos 3000000000

abbrev pub max_lock_in : ℤ
max_lock_in = pos 120000000000

pub record RoundSpec : Type 0 where
  pub question : Str
  pub outcomes : List Str
  pub lock_in : ℤ

pub record Opened : Type 0 where
  pub round_id : Str
  pub question : Str
  pub outcomes : List Str
  pub lock_at_ms : ℕ

-- The loop over the outcomes, trimmed: whether one is empty.
unfoldable pub any_empty : List Str → Bool
any_empty [] = false
any_empty (o ∷ os) = str_eq o [] || any_empty os

-- `trim_space` is `strings.TrimSpace`.
module _ (trim_space : Str → Str) where
  -- The checks of the spec, which is trimmed.
  unfoldable pub check_spec : RoundSpec → Result ServiceError RoundSpec
  unfolding any_empty
  check_spec spec =
      let question = trim_space spec.question in
      let outcomes = map trim_space spec.outcomes in
      if str_eq question []
      then err invalid_spec
      else elim (validate_outcome_count (pos (length spec.outcomes))) [
        | err _ ↦ err invalid_spec
        | ok _ ↦
            if any_empty outcomes
            then err invalid_spec
            else if ltb_ℤ spec.lock_in min_lock_in || ltb_ℤ max_lock_in spec.lock_in
            then err invalid_spec
            else ok (record { question = question; outcomes = outcomes; lock_in = spec.lock_in })
      ]

module _ {ℓ} (redis : Redis) (Float : Type ℓ) where
  -- Only the host may go on.
  unfoldable pub require_host : Str → Str → Act redis Float Done
  require_host room_id caller = do
    room ← store (read_room redis room_id)
    require (str_eq room.host_id caller) not_host

  -- A room takes a round when it has none, or one that has ended.
  unfoldable pub require_free : Str → Act redis Float Done
  require_free room_id = do
    current ← try (current_round redis room_id)
    elim current [
      | err not_found ↦ pure tt
      | err e ↦ fail (store_error e)
      | ok round_id ↦ do
        round ← store (read_round redis round_id)
        if is_terminal round.status then pure tt else fail round_in_progress
    ]

  -- `Open`, up to the watcher that it starts, which is `lock_and_announce` and then
  -- `refund_abandoned`. `now` is the clock of the process in nanoseconds, `round_id` the fresh UUID.
  unfoldable pub open_round : (Str → Str) → ℕ → Str → Str → Str → RoundSpec → Act redis Float Opened
  unfolding require_host require_free check_spec
  open_round trim_space now round_id room_id caller spec = do
    require_host room_id caller
    checked ← lift (check_spec trim_space spec)
    require_free room_id
    let lock_at = (now + pos_part checked.lock_in) / 1000000
    store (create_round redis round_id room_id checked.question checked.outcomes (pos lock_at))
    broadcast room_id (round_opened round_id checked.question checked.outcomes (pos lock_at))
    pure (record {
      round_id = round_id;
      question = checked.question;
      outcomes = checked.outcomes;
      lock_at_ms = lock_at;
    })

  -- The part of `watch` at the lock instant: whether it goes on. An error is logged, and ends it.
  unfoldable pub lock_and_announce : Str → Str → Act redis Float Bool
  lock_and_announce room_id round_id = do
    outcome ← try (lock_round redis round_id)
    elim outcome [
      | err _ ↦ pure false
      | ok _ ↦ broadcast room_id (round_locked round_id) >> pure true
    ]

  -- The part of `watch` after the grace period.
  unfoldable pub refund_abandoned : Str → Str → Str → Act redis Float Done
  refund_abandoned room_id round_id idempotency_key = do
    read ← try (read_round redis round_id)
    elim read [
      | err _ ↦ pure tt
      | ok round ↦ if is_terminal round.status then pure tt else (do
        refunded ← try (refund_round redis round_id idempotency_key)
        elim refunded [
          | err _ ↦ pure tt
          | ok total ↦ do
            cleared ← try (clear_current_round redis room_id)
            elim cleared [
              | err _ ↦ pure tt
              | ok _ ↦ broadcast room_id (round_refunded round_id total)
            ]
        ])
    ]

  unfoldable pub current_or_none : Str → Act redis Float Str
  current_or_none room_id = do
    current ← try (current_round redis room_id)
    elim current [
      | ok round_id ↦ pure round_id
      | err not_found ↦ fail no_current_round
      | err e ↦ fail (store_error e)
    ]

  -- `Resolve`; the names that the event adds to the results are the hub's.
  unfoldable pub resolve : Str → Str → ℤ → Str → Act redis Float Settlement
  unfolding require_host current_or_none
  resolve room_id caller winning idempotency_key = do
    require_host room_id caller
    round_id ← current_or_none room_id
    round ← store (read_round redis round_id)
    lift (map_err domain_error (validate_outcome_index winning round.outcome_count))
    settlement ← store (settle_round redis round_id winning idempotency_key)
    store (clear_current_round redis room_id)
    broadcast room_id
        (round_resolved round_id winning settlement.results settlement.dust settlement.was_refunded)
    pure settlement
