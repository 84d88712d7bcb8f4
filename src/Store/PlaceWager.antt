-- ===== src/Store/PlaceWager.antt =====
-- scripts/lua/place_wager.lua, which accepts or rejects one wager, and the request and the reply in
-- redisstore/wager.go.
pub mod Guards
pub mod Effects
pub mod Replay
use call_it.Prelude.{
  ℕ, zero, suc, ◌+◌, ◌*◌, ◌/◌, ℤ, pos, pos_part, ◌-ℤ◌, ◌+ℤ◌, leb_ℤ, ltb_ℤ, Str, bytes, List, [],
  ◌∷◌, Bool, true, false, ◌||◌, Option, none, some, Result, ok, err, if◌then◌else◌,
}
use call_it.Domain.Economy.{Tokens}
use call_it.Redis.Keys.{
  Key, Field, name, index, wager, room, room_wallets, round, round_pools, round_wagers,
  round_bettors, idem, Text, int, str, is_str, parse_int,
}
use call_it.Redis.Server.{Redis, Db, Stored, text, json_reply, live, Entry}
use call_it.Redis.Script.{
  Fault, not_a_number, nil_value, Script, ◌>>=◌, ◌>>◌, pure, raise, set_string, hash_incr, set_add,
  emit,
}

pub record WagerRequest : Type 0 where
  pub room_id : Str
  pub round_id : Str
  pub user_id : Str
  pub outcome : ℤ
  pub amount : Tokens
  pub idempotency_key : Str

-- The fields of `HGET round:{roundID}` and `HGET room:{roomID}` that the script reads.
abbrev pub status_field : Field
status_field = name (bytes "status")

abbrev pub lock_at_field : Field
lock_at_field = name (bytes "lock_at_ms")

abbrev pub outcome_count_field : Field
outcome_count_field = name (bytes "outcome_count")

abbrev pub host_field : Field
host_field = name (bytes "host_id")

-- `PoolTotalField`
abbrev pub total_field : Field
total_field = name (bytes "total")

-- TIME gives seconds and microseconds.
abbrev pub Time : Type 0
Time = ℕ × ℕ

abbrev pub now_ms : Time → ℤ
now_ms (seconds, micros) = pos (seconds * 1000 + micros / 1000)

-- The instant at which a reply that is stored now expires: 86,400 seconds later.
abbrev pub expiry : Time → ℕ
expiry time = pos_part (now_ms time) + 86400000

-- `HGET ... == text`; a missing field is `false`, which equals no text.
abbrev pub holds : Option Text → Str → Bool
holds none s = false
holds (some t) s = is_str t s

-- `tonumber(HGET ...)`
abbrev pub number : Option Text → Option ℤ
number none = none
number (some t) = parse_int t

-- How the guards of the script end: with the cached reply, a status code, a Lua error, or the number
-- of outcomes of a round that takes the wager.
pub data Verdict : Type 0 where
  cached : List Text → Verdict
  reject : Str → Verdict
  stop : Fault → Verdict
  accept : ℤ → Verdict

module _ (redis : Redis) where
  open redis use {strings.{get}, hashes.{hget}, sets.{scard}}

  -- From `existingBalance` on.
  unfoldable pub check_funds : WagerRequest → ℤ → Db redis → Verdict
  check_funds req count db = elim (hget (room_wallets req.room_id) (name req.user_id) db.hashes) [
    | none ↦ reject (bytes "NOT_IN_ROOM")
    | some (int balance) ↦
        if ltb_ℤ balance req.amount then reject (bytes "INSUFFICIENT_FUNDS") else accept count
    | some _ ↦ stop nil_value
  ]

  unfoldable pub check_host : WagerRequest → ℤ → Db redis → Verdict
  unfolding check_funds
  check_host req count db =
      if holds (hget (room req.room_id) host_field db.hashes) req.user_id
      then reject (bytes "HOST_CANNOT_BET")
      else check_funds req count db

  -- `outcomeNum < 0 or outcomeNum >= outcomeCount`: a missing count is met only by the second test.
  unfoldable pub check_outcome : WagerRequest → Db redis → Verdict
  unfolding check_host
  check_outcome req db =
      if ltb_ℤ req.outcome (pos 0)
      then reject (bytes "INVALID_OUTCOME")
      else elim (number (hget (round req.round_id) outcome_count_field db.hashes)) [
        | none ↦ stop nil_value
        | some count ↦
            if leb_ℤ count req.outcome
            then reject (bytes "INVALID_OUTCOME")
            else check_host req count db
      ]

  -- The lock instant against the clock of the server.
  unfoldable pub check_lock : WagerRequest → Time → Db redis → Verdict
  unfolding check_outcome
  check_lock req time db = elim (number (hget (round req.round_id) lock_at_field db.hashes)) [
    | none ↦ stop nil_value
    | some lock_at ↦
        if leb_ℤ lock_at (now_ms time) then reject (bytes "POOL_LOCKED") else check_outcome req db
  ]

  unfoldable pub check_wager : WagerRequest → Time → Db redis → Verdict
  unfolding check_lock
  check_wager req time db =
      elim (live (pos_part (now_ms time)) (get (idem req.idempotency_key) db.strings)) [
        | some (json_reply _ reply) ↦ cached reply
        | some (text _) ↦ stop not_a_number
        | none ↦
            if leb_ℤ req.amount (pos 0)
            then reject (bytes "INVALID_STAKE")
            else if holds (hget (round req.round_id) status_field db.hashes) (bytes "open")
            then check_lock req time db
            else reject (bytes "POOL_LOCKED")
      ]

  -- The pools of the reply, from outcome `i` on. A missing pool would be a nil, which cuts the reply.
  unfoldable pub read_pools : Str → ℕ → ℤ → Db redis → List Text
  read_pools round_id zero i db = []
  read_pools round_id (suc n) i db =
      let rest = read_pools round_id n (i +ℤ pos 1) db in
      elim (hget (round_pools round_id) (index i) db.hashes) [ none ↦ [] | some t ↦ t ∷ rest ]

  abbrev pub wager_entry : WagerRequest → ℤ → Entry
  wager_entry req balance =
      (bytes "type", str (bytes "wager_placed"))
      ∷ (bytes "user", str req.user_id)
      ∷ (bytes "outcome", int req.outcome)
      ∷ (bytes "amount", redis.lua.tostring req.amount)
      ∷ (bytes "balance", redis.lua.tostring balance)
      ∷ (bytes "idempotency_key", str req.idempotency_key)
      ∷ (bytes "room_id", str req.room_id)
      ∷ (bytes "round_id", str req.round_id)
      ∷ []

  -- The four HINCRBY commands: the new balance and the new total.
  unfoldable pub move_tokens : WagerRequest → Script redis (ℤ × ℤ)
  move_tokens req = do
    balance ← hash_incr redis (room_wallets req.room_id) (name req.user_id) (pos 0 -ℤ req.amount)
    hash_incr redis (round_pools req.round_id) (index req.outcome) req.amount
    total ← hash_incr redis (round_pools req.round_id) total_field req.amount
    hash_incr redis (round_wagers req.round_id) (wager req.user_id req.outcome) req.amount
    pure (balance, total)

  -- The rest of the writes, and the reply.
  unfoldable pub record_wager : WagerRequest → Time → ℤ → ℤ × ℤ → Script redis (List Text)
  record_wager req time count (balance, total) = do
    set_add redis (round_bettors req.round_id) req.user_id
    bettors ← λ db. (ok (scard (round_bettors req.round_id) db.sets), db)
    emit redis (wager_entry req balance)
    pools ← λ db. (ok (read_pools req.round_id (pos_part count) (pos 0) db), db)
    let reply =
        str (bytes "OK")
        ∷ redis.lua.tostring balance
        ∷ redis.lua.tostring (pos bettors)
        ∷ redis.lua.tostring total
        ∷ pools
    set_string redis (idem req.idempotency_key) (json_reply (expiry time) reply)
    pure reply

  -- The writes of an accepted wager and its reply.
  unfoldable pub apply_wager : WagerRequest → Time → ℤ → Script redis (List Text)
  apply_wager req time count = move_tokens req >>= record_wager req time count

  unfoldable pub act_on : WagerRequest → Time → Verdict → Script redis (List Text)
  act_on req time (cached reply) db = (ok reply, db)
  act_on req time (reject code) db = (ok (str code ∷ []), db)
  act_on req time (stop fault) db = (err fault, db)
  act_on req time (accept count) db = apply_wager req time count db

  unfoldable pub place_wager : WagerRequest → Time → Script redis (List Text)
  unfolding act_on
  place_wager req time db = act_on req time (check_wager req time db) db
