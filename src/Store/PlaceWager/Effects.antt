-- ===== src/Store/PlaceWager/Effects.antt =====
-- What an accepted wager writes: all of it, and nothing else.
use call_it.Store.PlaceWager.Guards.{Admissible, check_wager-Admissible}
use call_it.Prelude.{
  ℕ, ℤ, Bool-cases, inl, inr, ◌+◌, length, eqb_ℤ, eqb_ℤ_iff, ap, pos, pos_part, ◌+ℤ◌, ◌-ℤ◌, Str,
  bytes, str_eq, str_eq_iff, some, ◌≡◌, arith, ok, List, [], ◌∷◌, ◌++◌, true, if◌then◌else◌, ◌&&◌,
  ◌||◌, refl, int_laws,
}
use call_it.Redis.Keys.{
  Key, Field, name, index, wager, room_wallets, round_pools, round_wagers, round_bettors, idem,
  Text, int, str, key_eq_refl, key_eq, field_eq,
}
use call_it.Redis.Server.{Redis, Db, fits, json_reply}
use call_it.Redis.Script.{incremented}
use call_it.Store.PlaceWager.{
  WagerRequest, Time, expiry, total_field, apply_wager, place_wager, wager_entry, read_pools,
  move_tokens, record_wager,
}

module _ (redis : Redis) where
  open redis use {strings.{get}, hashes.{hget, hset}, sets.{scard}, stream.{entries}}

  -- Amounts that the counters of the round hold before the wager, and that leave room for it.
  pub record Counters (req : WagerRequest) (db : Db redis) : Type 0 where
    pub balance : ℤ
    pub pool : ℤ
    pub total : ℤ
    pub staked : ℤ
    pub wallet_is :
        hget (room_wallets req.room_id) (name req.user_id) db.hashes ≡ some (int balance)
    pub pool_is : hget (round_pools req.round_id) (index req.outcome) db.hashes ≡ some (int pool)
    pub total_is : hget (round_pools req.round_id) total_field db.hashes ≡ some (int total)
    pub staked_is :
        incremented redis
          (hget (round_wagers req.round_id) (wager req.user_id req.outcome) db.hashes)
          req.amount
        ≡ ok (staked +ℤ req.amount)
    pub balance_fits : fits (balance +ℤ (pos 0 -ℤ req.amount)) ≡ true
    pub pool_fits : fits (pool +ℤ req.amount) ≡ true
    pub total_fits : fits (total +ℤ req.amount) ≡ true

  module _ (req : WagerRequest) (db : Db redis) (c : Counters req db) where
    after_wallet : redis.hashes.T
    after_wallet =
        hset (room_wallets req.room_id) (name req.user_id)
          (int (c.balance +ℤ (pos 0 -ℤ req.amount))) db.hashes

    after_pool : redis.hashes.T
    after_pool =
        hset (round_pools req.round_id) (index req.outcome) (int (c.pool +ℤ req.amount))
          after_wallet

    after_total : redis.hashes.T
    after_total =
        hset (round_pools req.round_id) total_field (int (c.total +ℤ req.amount)) after_pool

    after_stake : redis.hashes.T
    after_stake =
        hset (round_wagers req.round_id) (wager req.user_id req.outcome)
          (int (c.staked +ℤ req.amount)) after_total

    step_wallet :
        incremented redis
          (hget (room_wallets req.room_id) (name req.user_id) db.hashes)
          (pos 0 -ℤ req.amount)
        ≡ ok (c.balance +ℤ (pos 0 -ℤ req.amount))
    unfolding incremented
    step_wallet = ground (arith, c.wallet_is, c.balance_fits)

    step_pool :
        incremented redis
          (hget (round_pools req.round_id) (index req.outcome) after_wallet)
          req.amount
        ≡ ok (c.pool +ℤ req.amount)
    unfolding incremented after_wallet key_eq
    step_pool = rw redis.hashes.hget-hset (ground (arith, c.pool_is, c.pool_fits))

    step_total :
        incremented redis (hget (round_pools req.round_id) total_field after_pool) req.amount
        ≡ ok (c.total +ℤ req.amount)
    unfolding incremented after_pool after_wallet key_eq field_eq
    step_total =
        simp redis.hashes.hget-hset
          (ground (arith, str_eq_iff req.round_id req.round_id, c.total_is, c.total_fits))

    step_stake :
        incremented redis
          (hget (round_wagers req.round_id) (wager req.user_id req.outcome) after_total)
          req.amount
        ≡ ok (c.staked +ℤ req.amount)
    unfolding after_total after_pool after_wallet key_eq field_eq
    step_stake = simp redis.hashes.hget-hset c.staked_is

    after_bettors : redis.sets.T
    after_bettors = redis.sets.sadd (round_bettors req.round_id) req.user_id db.sets

    accepted_reply : ℤ → List Text
    unfolding read_pools
    accepted_reply count =
        str (bytes "OK")
        ∷ redis.lua.tostring (c.balance +ℤ (pos 0 -ℤ req.amount))
        ∷ redis.lua.tostring (pos (scard (round_bettors req.round_id) after_bettors))
        ∷ redis.lua.tostring (c.total +ℤ req.amount)
        ∷ read_pools redis req.round_id (pos_part count) (pos 0) (record db {
          hashes = after_stake;
          sets = after_bettors;
          stream =
              redis.stream.xadd (wager_entry redis req (c.balance +ℤ (pos 0 -ℤ req.amount)))
                db.stream;
        })

    after_wager : Time → ℤ → Db redis
    after_wager time count = record {
      strings =
          redis.strings.put (idem req.idempotency_key)
            (json_reply (expiry time) (accepted_reply count)) db.strings;
      hashes = after_stake;
      sets = after_bettors;
      stream =
          redis.stream.xadd (wager_entry redis req (c.balance +ℤ (pos 0 -ℤ req.amount))) db.stream;
      zsets = db.zsets;
    }

    apply_wager_lem :
        (time : Time) (count : ℤ)
        → apply_wager redis req time count db ≡ (ok (accepted_reply count), after_wager time count)
    unfolding apply_wager move_tokens record_wager after_wager accepted_reply after_stake
        after_total after_pool after_wallet after_bettors
    apply_wager_lem time count = ground (arith, step_wallet, step_pool, step_total, step_stake)

    hget-after_stake :
        (j : Key) (g : Field)
        → hget j g after_stake ≡ (
            if key_eq (round_wagers req.round_id) j && field_eq (wager req.user_id req.outcome) g
            then some (int (c.staked +ℤ req.amount))
            else if key_eq (round_pools req.round_id) j && field_eq total_field g
            then some (int (c.total +ℤ req.amount))
            else if key_eq (round_pools req.round_id) j && field_eq (index req.outcome) g
            then some (int (c.pool +ℤ req.amount))
            else if key_eq (room_wallets req.room_id) j && field_eq (name req.user_id) g
            then some (int (c.balance +ℤ (pos 0 -ℤ req.amount)))
            else hget j g db.hashes)
    unfolding after_stake after_total after_pool after_wallet
    hget-after_stake j g = simp redis.hashes.hget-hset

    minus_amount : c.balance +ℤ (pos 0 -ℤ req.amount) ≡ c.balance -ℤ req.amount
    minus_amount = omega int_laws

  -- What a wager has done to the database: every counter, and everything else as it was.
  pub record Wagered (req : WagerRequest) (db : Db redis) (c : Counters req db) (db' : Db redis)
      : Type 0 where
    pub hashes :
        (j : Key) (g : Field)
        → hget j g db'.hashes ≡ (
            if key_eq (round_wagers req.round_id) j && field_eq (wager req.user_id req.outcome) g
            then some (int (c.staked +ℤ req.amount))
            else if key_eq (round_pools req.round_id) j && field_eq total_field g
            then some (int (c.total +ℤ req.amount))
            else if key_eq (round_pools req.round_id) j && field_eq (index req.outcome) g
            then some (int (c.pool +ℤ req.amount))
            else if key_eq (room_wallets req.room_id) j && field_eq (name req.user_id) g
            then some (int (c.balance -ℤ req.amount))
            else hget j g db.hashes)
    pub outbox :
        entries db'.stream
        ≡ entries db.stream ++ (wager_entry redis req (c.balance -ℤ req.amount) ∷ [])
    pub bettors :
        (j : Key) (u : Str)
        → redis.sets.smember j u db'.sets ≡ (
            (key_eq (round_bettors req.round_id) j && str_eq req.user_id u)
            || redis.sets.smember j u db.sets)
    pub zsets : db'.zsets ≡ db.zsets

  Wagered-after :
      (req : WagerRequest) (db : Db redis) (c : Counters req db) (time : Time) (count : ℤ)
      → Wagered req db c (after_wager req db c time count)
  unfolding after_wager after_bettors
  Wagered-after req db c time count = record {
    hashes = λ j g. rw (← minus_amount req db c) (hget-after_stake req db c j g);
    outbox = rw (← minus_amount req db c) (redis.stream.entries-xadd _ db.stream);
    bettors = λ j u. redis.sets.smember-sadd (round_bettors req.round_id) j req.user_id u db.sets;
    zsets = refl;
  }

  place_wager-accepted :
      (req : WagerRequest) (time : Time) (db : Db redis) (count : ℤ) (c : Counters req db)
      → Admissible redis req time db count
      → place_wager redis req time db
        ≡ (ok (accepted_reply req db c count), after_wager req db c time count)
  unfolding place_wager
  place_wager-accepted req time db count c a = ground (
    arith,
    (check_wager-Admissible redis req time db count).1 a,
    apply_wager_lem req db c time count,
  )

  -- The pools of a round from outcome `i` on.
  abbrev pub PoolsFrom : Str → redis.hashes.T → ℤ → List ℤ → Type 0
  PoolsFrom round_id t i [] = Unit
  PoolsFrom round_id t i (p ∷ ps) =
      (hget (round_pools round_id) (index i) t ≡ some (int p))
      × PoolsFrom round_id t (i +ℤ pos 1) ps

  -- The stored numbers after the pool of `outcome` has grown by `amount`.
  abbrev pub grown : ℤ → ℤ → ℤ → List ℤ → List Text
  grown outcome amount i [] = []
  grown outcome amount i (p ∷ ps) =
      let rest = grown outcome amount (i +ℤ pos 1) ps in
      (if eqb_ℤ outcome i then int (p +ℤ amount) else int p) ∷ rest

  hget-pool :
      (req : WagerRequest) (db : Db redis) (c : Counters req db) (i p : ℤ)
      → hget (round_pools req.round_id) (index i) db.hashes ≡ some (int p)
      → hget (round_pools req.round_id) (index i) (after_stake req db c)
        ≡ some (if eqb_ℤ req.outcome i then int (p +ℤ req.amount) else int p)
  unfolding key_eq field_eq
  hget-pool req db c i p h = elim (Bool-cases (eqb_ℤ req.outcome i)) [
    | inl same ↦
        let at : hget (round_pools req.round_id) (index req.outcome) db.hashes ≡ some (int p) =
          rw ((eqb_ℤ_iff req.outcome i).0 same) h in
        let pool : c.pool ≡ p = ground (arith, c.pool_is) in
        rw (hget-after_stake req db c) (ground (arith, str_eq_iff req.round_id req.round_id))
    | inr other ↦ rw (hget-after_stake req db c) (ground arith)
  ]

  read_pools-grown :
      (req : WagerRequest) (db db' : Db redis) (c : Counters req db) (i : ℤ) (ps : List ℤ)
      → PoolsFrom req.round_id db.hashes i ps
      → db'.hashes ≡ after_stake req db c
      → read_pools redis req.round_id (length ps) i db' ≡ grown req.outcome req.amount i ps
  unfolding read_pools
  read_pools-grown req db db' c i [] h e = refl
  read_pools-grown req db db' c i (p ∷ ps) (h, hs) e =
      let pool = hget-pool req db c i p h in
      let rest = read_pools-grown req db db' c (i +ℤ pos 1) ps hs e in ground arith

  abbrev pub joined : Str → Str → Db redis → ℕ
  joined round_id user_id db =
      let before = scard (round_bettors round_id) db.sets in
      if redis.sets.smember (round_bettors round_id) user_id db.sets then before else before + 1

  scard-after_bettors :
      (req : WagerRequest) (db : Db redis) (c : Counters req db)
      → scard (round_bettors req.round_id) (after_bettors req db c)
        ≡ joined req.round_id req.user_id db
  unfolding after_bettors
  scard-after_bettors req db c =
      let key = round_bettors req.round_id in
      ground (arith, redis.sets.scard-sadd key key req.user_id db.sets, key_eq_refl key)

  accepted_reply_lem :
      (req : WagerRequest) (db : Db redis) (c : Counters req db) (ps : List ℤ)
      → PoolsFrom req.round_id db.hashes (pos 0) ps
      → accepted_reply req db c (pos (length ps))
        ≡ str (bytes "OK")
          ∷ redis.lua.tostring (c.balance +ℤ (pos 0 -ℤ req.amount))
          ∷ redis.lua.tostring (pos (joined req.round_id req.user_id db))
          ∷ redis.lua.tostring (c.total +ℤ req.amount)
          ∷ grown req.outcome req.amount (pos 0) ps
  unfolding accepted_reply
  accepted_reply_lem req db c ps pools =
      let counted = scard-after_bettors req db c in
      let written : Db redis = record db {
        hashes = after_stake req db c;
        sets = after_bettors req db c;
        stream =
            redis.stream.xadd (wager_entry redis req (c.balance +ℤ (pos 0 -ℤ req.amount)))
              db.stream;
      } in
      let listed = read_pools-grown req db written c (pos 0) ps pools refl in
      rw counted (rw listed refl)

  -- A wager that passes the guards, on counters that have room for it and in a round whose pools are
  -- `ps`, is accepted: the reply is OK, the new balance, the number of bettors with this one, the new
  -- total, and the pools with the amount added to the outcome's, in order; the wallet falls by the
  -- amount, the outcome's pool, the total and the bettor's stake on the outcome grow by it, the
  -- bettor joins the round's set, one event with these values is appended to the outbox, and no
  -- other field of any hash changes. The new numbers are written as Lua's `tostring` writes them.
  pub place_wager_effects :
      (req : WagerRequest) (time : Time) (db : Db redis) (ps : List ℤ) (c : Counters req db)
      → Admissible redis req time db (pos (length ps))
      → PoolsFrom req.round_id db.hashes (pos 0) ps
      → ((place_wager redis req time db).0
          ≡ ok (
              str (bytes "OK")
              ∷ redis.lua.tostring (c.balance -ℤ req.amount)
              ∷ redis.lua.tostring (pos (joined req.round_id req.user_id db))
              ∷ redis.lua.tostring (c.total +ℤ req.amount)
              ∷ grown req.outcome req.amount (pos 0) ps))
        × Wagered req db c (place_wager redis req time db).1
  place_wager_effects req time db ps c a pools =
      let placed = place_wager-accepted req time db (pos (length ps)) c a in
      let reply = accepted_reply_lem req db c ps pools in
      (
        rw placed (rw (← minus_amount req db c) (ap (λ l. ok l) reply)),
        rw placed (Wagered-after req db c time (pos (length ps))),
      )
