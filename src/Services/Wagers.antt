-- ===== src/Services/Wagers.antt =====
-- wager/service.go: placing one wager.
use call_it.Prelude.{
  ℕ, ℤ, pos, pos_part, Str, bytes, List, [], Bool, Result, ok, err, map_err, if◌then◌else◌, str_eq,
}
use call_it.Domain.Economy.{Tokens}
use call_it.Domain.Wallet.{validate_stake_amount}
use call_it.Domain.Odds.{Float64, multipliers}
use call_it.Redis.Server.{Redis}
use call_it.Store.PlaceWager.{WagerRequest, Time, now_ms}
use call_it.Store.Wagers.{send_wager, wager_preflight}
use call_it.Services.{
  ServiceError, domain_error, rate_limited, bad_idempotency, no_active_round, odds_updated, Act,
  ◌>>=◌, ◌>>◌, pure, require, lift, store, broadcast,
}

abbrev pub wager_scope : Str
wager_scope = bytes "wager"

abbrev pub wager_limit : ℤ
wager_limit = pos 20

-- Ten seconds.
abbrev pub wager_window_ms : ℕ
wager_window_ms = 10000

pub record Accepted {ℓ} (Float : Type ℓ) : Type ℓ where
  pub round_id : Str
  pub balance : Tokens
  pub pools : List Tokens
  pub total : Tokens
  pub multipliers : List Float
  pub bettors : ℤ
  pub players : ℕ

-- The latencies that `Place` observes are left out, since they return nothing to it. `is_uuid4` is
-- the test of `uuid.Parse` and the version, `member` the fresh UUID of the limiter.
module _ (redis : Redis) (float : Float64) (is_uuid4 : Str → Bool) where
  -- The round that the request names, or else the room's.
  unfoldable pub choose_round : Str → Str → Result ServiceError Str
  choose_round requested current =
      if str_eq requested []
      then (if str_eq current [] then err no_active_round else ok current)
      else ok requested

  unfoldable pub place : WagerRequest → Time → Str → Act redis float.Float (Accepted float.Float)
  unfolding choose_round
  place req time member = do
    pre ← store (
        wager_preflight redis (pos_part (now_ms time)) member wager_scope req.user_id req.room_id
          wager_limit wager_window_ms)
    require (pre.decision.allowed) (rate_limited pre.decision.retry_after_ms)
    require (is_uuid4 req.idempotency_key) bad_idempotency
    lift (map_err domain_error (validate_stake_amount req.amount))
    round_id ← lift (choose_round req.round_id pre.round_id)
    result ← store (send_wager redis (record req { round_id = round_id }) time)
    let odds = multipliers float result.total result.pools
    broadcast req.room_id (odds_updated round_id result.pools result.total odds)
    pure (record {
      round_id = round_id;
      balance = result.balance;
      pools = result.pools;
      total = result.total;
      multipliers = odds;
      bettors = result.bettor_count;
      players = pre.players;
    })
