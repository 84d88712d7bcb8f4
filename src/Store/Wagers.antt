-- ===== src/Store/Wagers.antt =====
-- redisstore/wager.go: `PlaceWager`, the reply of its script, and `WagerPreflight`.
use call_it.Prelude.{ℕ, ℤ, Str, bytes, List, [], ◌∷◌, none, some, Result, ok, err, if◌then◌else◌}
use call_it.Domain.Economy.{Tokens}
use call_it.Redis.Keys.{room_round, Text, int, str, is_str}
use call_it.Redis.Server.{Redis, text}
use call_it.Store.Errors.{StoreError, malformed, map_wager_status}
use call_it.Store.PlaceWager.{WagerRequest, Time, place_wager}
use call_it.Store.RateLimit.{Decision, allow}
use call_it.Store.Rooms.{player_count}
use call_it.Store.Op.{Op, ◌>>=◌, pure, lift, run}

pub record WagerResult : Type 0 where
  pub balance : Tokens
  pub pools : List Tokens
  pub total : Tokens
  pub bettor_count : ℤ

-- The loop of `parseWagerReply` over the pools.
unfoldable pub parse_pools : List Text → Result StoreError (List Tokens)
parse_pools [] = ok []
parse_pools (int z ∷ ts) =
    let rest = parse_pools ts in elim rest [ ok zs ↦ ok (z ∷ zs) | err e ↦ err e ]
parse_pools (_ ∷ ts) = err malformed

unfoldable pub parse_wager_reply : List Text → Result StoreError WagerResult
unfolding parse_pools
parse_wager_reply (_ ∷ int balance ∷ int bettors ∷ int total ∷ rest) = elim (parse_pools rest) [
  | err e ↦ err e
  | ok pools ↦
      ok (record { balance = balance; pools = pools; total = total; bettor_count = bettors })
]
parse_wager_reply _ = err malformed

unfoldable pub read_wager_reply : List Text → Result StoreError WagerResult
unfolding parse_wager_reply
read_wager_reply [] = err malformed
read_wager_reply (code ∷ rest) =
    if is_str code (bytes "OK")
    then parse_wager_reply (code ∷ rest)
    else err (map_wager_status code)

pub record Preflight : Type 0 where
  pub decision : Decision
  pub round_id : Str
  pub players : ℕ

module _ (redis : Redis) where
  open redis use {strings.{get}}

  -- The method `PlaceWager`; `time` is the clock of the server.
  unfoldable pub send_wager : WagerRequest → Time → Op redis WagerResult
  send_wager req time = run (place_wager redis req time) >>= λ reply. lift (read_wager_reply reply)

  -- GET of the room's current round; a missing one is ''.
  unfoldable pub round_or_none : Str → Op redis Str
  round_or_none room_id db = elim (get (room_round room_id) db.strings) [
    | none ↦ (ok [], db)
    | some (text (str round_id)) ↦ (ok round_id, db)
    | some _ ↦ (err malformed, db)
  ]

  -- The pipeline of the three commands. (The reload of an evicted script is the server's matter.)
  unfoldable pub wager_preflight : ℕ → Str → Str → Str → Str → ℤ → ℕ → Op redis Preflight
  unfolding round_or_none
  wager_preflight now member scope user_id room_id limit window = do
    decision ← allow redis now member scope user_id limit window
    round_id ← round_or_none room_id
    players ← player_count redis room_id
    pure (record { decision = decision; round_id = round_id; players = players })
