-- ===== src/Store/Settle/Terminal.antt =====
-- settle_round.lua and refund_round.lua as transitions: only out of `locked`, and only once.
use call_it.Prelude.{
  All, Option, Result, ◌+◌, pos, Str, bytes, str_eq, str_eq_iff, some, ◌≡◌, ◌≢◌, ◌⊎◌, inl, inr,
  arith, ok, List, [], ◌∷◌, ◌++◌, length, false, if◌then◌else◌, refl, Bool-cases, ◌∙◌,
}
use call_it.Domain.Payout.{Payout}
use call_it.Domain.Payout.Results.{paid_to}
use call_it.Domain.Economy.{Tokens}
use call_it.Redis.Keys.{
  Key, Field, name, round, room_wallets, Text, int, str, key_eq, field_eq, is_str,
}
use call_it.Redis.Server.{Redis, Db}
use call_it.Redis.Script.{Script, Fault, >>=-ok}
use call_it.Redis.Script
use call_it.Store.PlaceWager.{status_field}
use call_it.Store.PlaceWager.Guards.{holds_iff}
use call_it.Store.Settle.{
  SettleArgs, resolved_outcome_field, settle_kind, settle_entry, refund_args, close_round,
  with_locked, settle_script, refund_script,
}
use call_it.Store.Settle.Closing.{
  wallet_of, CanCredit, credited, closed, close_round_lem, wallet_of-credited, hget-credited,
}

-- A run of one of the two scripts on a round.
pub data Attempt : Type 0 where
  settling : SettleArgs → Attempt
  refunding : Str → Str → Tokens → List Payout → Attempt

abbrev pub args_of : Str → Attempt → SettleArgs
args_of round_id (settling args) = record args { round_id = round_id }
args_of round_id (refunding key room_id total payouts) =
    refund_args key round_id room_id total payouts

module _ (redis : Redis) where
  open redis use {hashes.{hget, hset}, stream.{entries}}

  -- A status that ends a round.
  abbrev pub IsEnd : Str → Type 0
  IsEnd s = (s ≡ bytes "resolved") ⊎ (s ≡ bytes "refunded")

  with_locked-locked :
      (round_id : Str) (body : Script redis (List Text)) (db : Db redis)
      → hget (round round_id) status_field db.hashes ≡ some (str (bytes "locked"))
      → with_locked redis round_id body db ≡ body db
  unfolding with_locked str_eq
  with_locked-locked round_id body db h = ground (arith, h)

  with_locked-end :
      (round_id : Str) (body : Script redis (List Text)) (db : Db redis) (s : Str)
      → IsEnd s
      → hget (round round_id) status_field db.hashes ≡ some (str s)
      → with_locked redis round_id body db ≡ (ok (str (bytes "ALREADY_RESOLVED") ∷ str s ∷ []), db)
  unfolding with_locked
  with_locked-end round_id body db s e h =
      ground (arith, h, str_eq_iff s (bytes "resolved"), str_eq_iff s (bytes "refunded"))

  -- Any other status, or none, is refused.
  with_locked-refused :
      (round_id : Str) (body : Script redis (List Text)) (db : Db redis)
      → hget (round round_id) status_field db.hashes ≢ some (str (bytes "locked"))
      → (with_locked redis round_id body db).1 ≡ db
  unfolding with_locked
  with_locked-refused round_id body db h =
      ground (arith, holds_iff (hget (round round_id) status_field db.hashes) (bytes "locked"))

  wallet-ne-round : (a b : Str) → key_eq (room_wallets a) (round b) ≡ false
  unfolding key_eq
  wallet-ne-round a b = refl

  -- What a terminal script has done.
  pub record Closed (kind : Str) (args : SettleArgs) (db db' : Db redis) : Type 0 where
    pub wallets :
        (u : Str)
        → wallet_of redis (hget (room_wallets args.room_id) (name u) db'.hashes)
          ≡ wallet_of redis (hget (room_wallets args.room_id) (name u) db.hashes)
            + paid_to u args.payouts
    pub status :
        hget (round args.round_id) status_field db'.hashes ≡ some (str args.terminal_status)
    pub outcome : hget (round args.round_id) resolved_outcome_field db'.hashes ≡ (
        if is_str args.resolved_outcome []
        then hget (round args.round_id) resolved_outcome_field db.hashes
        else some args.resolved_outcome)
    pub outbox : entries db'.stream ≡ entries db.stream ++ (settle_entry kind args ∷ [])
    pub others :
        (j : Key) (g : Field)
        → key_eq (room_wallets args.room_id) j ≡ false
        → key_eq (round args.round_id) j ≡ false
        → hget j g db'.hashes ≡ hget j g db.hashes
    pub strings : db'.strings ≡ db.strings
    pub sets : db'.sets ≡ db.sets
    pub zsets : db'.zsets ≡ db.zsets

  closed-wallet :
      (args : SettleArgs) (t : redis.hashes.T) (u : Str)
      → hget (room_wallets args.room_id) (name u) (closed redis args t)
        ≡ hget (room_wallets args.room_id) (name u) (credited redis args.room_id args.payouts t)
  unfolding closed key_eq
  closed-wallet args t u = elim (Bool-cases (is_str args.resolved_outcome [])) [
    | inl empty ↦ rw empty (simp redis.hashes.hget-hset)
    | inr given ↦ rw given (simp redis.hashes.hget-hset)
  ]

  closed-status :
      (args : SettleArgs) (t : redis.hashes.T)
      → hget (round args.round_id) status_field (closed redis args t)
        ≡ some (str args.terminal_status)
  unfolding closed key_eq field_eq
  closed-status args t = elim (Bool-cases (is_str args.resolved_outcome [])) [
    | inl empty ↦ rw empty (
        simp redis.hashes.hget-hset (
          ground (
            arith,
            str_eq_iff args.round_id args.round_id,
            str_eq_iff (bytes "status") (bytes "status"),
          )))
    | inr given ↦ rw given (
        simp redis.hashes.hget-hset (
          ground (
            arith,
            str_eq_iff args.round_id args.round_id,
            str_eq_iff (bytes "status") (bytes "status"),
            str_eq_iff (bytes "resolved_outcome") (bytes "status"),
          )))
  ]

  closed-outcome :
      (args : SettleArgs) (t : redis.hashes.T)
      → hget (round args.round_id) resolved_outcome_field (closed redis args t) ≡ (
          if is_str args.resolved_outcome []
          then hget (round args.round_id) resolved_outcome_field t
          else some args.resolved_outcome)
  unfolding closed key_eq field_eq str_eq
  closed-outcome args t =
      let round_is = str_eq_iff args.round_id args.round_id in
      let credits =
        hget-credited redis args.room_id args.payouts t (round args.round_id) resolved_outcome_field
          refl in
      elim (Bool-cases (is_str args.resolved_outcome [])) [
        | inl empty ↦ rw empty (simp redis.hashes.hget-hset (ground (arith, credits)))
        | inr given ↦ rw given (simp redis.hashes.hget-hset (ground arith))
      ]

  closed-others :
      (args : SettleArgs) (t : redis.hashes.T) (j : Key) (g : Field)
      → key_eq (room_wallets args.room_id) j ≡ false
      → key_eq (round args.round_id) j ≡ false
      → hget j g (closed redis args t) ≡ hget j g t
  unfolding closed
  closed-others args t j g w r = elim (Bool-cases (is_str args.resolved_outcome [])) [
    | inl empty ↦
        rw empty
          (simp (redis.hashes.hget-hset, r) (hget-credited redis args.room_id args.payouts t j g w))
    | inr given ↦
        rw given
          (simp (redis.hashes.hget-hset, r) (hget-credited redis args.room_id args.payouts t j g w))
  ]

  Closed-after :
      (kind : Str) (args : SettleArgs) (db : Db redis)
      → Closed kind args db (record db {
        hashes = closed redis args db.hashes;
        stream = redis.stream.xadd (settle_entry kind args) db.stream;
      })
  Closed-after kind args db = record {
    wallets = λ u.
        rw (closed-wallet args db.hashes u)
          (wallet_of-credited redis args.room_id args.payouts db.hashes u);
    status = closed-status args db.hashes;
    outcome = closed-outcome args db.hashes;
    outbox = redis.stream.entries-xadd (settle_entry kind args) db.stream;
    others = closed-others args db.hashes;
    strings = refl;
    sets = refl;
    zsets = refl;
  }

  -- What both scripts do on a locked round.
  abbrev terminal_body : Str → SettleArgs → Text → Script redis (List Text)
  terminal_body kind args count =
      Script.◌>>=◌ (close_round redis kind args) λ _. Script.pure (str (bytes "OK") ∷ count ∷ [])

  terminal_body_lem :
      (kind : Str) (args : SettleArgs) (count : Text) (db : Db redis)
      → hget (round args.round_id) status_field db.hashes ≡ some (str (bytes "locked"))
      → CanCredit redis args.room_id args.payouts db.hashes
      → with_locked redis args.round_id (terminal_body kind args count) db ≡ (
        ok (str (bytes "OK") ∷ count ∷ []),
        record db {
          hashes = closed redis args db.hashes;
          stream = redis.stream.xadd (settle_entry kind args) db.stream;
        },
      )
  terminal_body_lem kind args count db h c =
      with_locked-locked args.round_id (terminal_body kind args count) db h
      ∙ >>=-ok (close_round redis kind args)
          (λ x. Script.pure {redis = redis} {A = List Text} (str (bytes "OK") ∷ count ∷ [])) db _ tt
          (close_round_lem redis kind args db c)

  settle_script_lem :
      (args : SettleArgs) (db : Db redis)
      → hget (round args.round_id) status_field db.hashes ≡ some (str (bytes "locked"))
      → CanCredit redis args.room_id args.payouts db.hashes
      → settle_script redis args db ≡ (
        ok (str (bytes "OK") ∷ int (pos (length args.payouts)) ∷ []),
        record db {
          hashes = closed redis args db.hashes;
          stream = redis.stream.xadd (settle_entry (settle_kind redis args) args) db.stream;
        },
      )
  unfolding settle_script
  settle_script_lem args db h c =
      terminal_body_lem (settle_kind redis args) args (int (pos (length args.payouts))) db h c

  -- On a locked round whose payouts can be credited, settle_round.lua answers OK and the number of
  -- payouts; every wallet of the room grows by what is paid to its player, the round gets the
  -- terminal status, one event is appended to the outbox, and nothing outside the room's wallets and
  -- the round changes.
  pub settle_script_effects :
      (args : SettleArgs) (db : Db redis)
      → hget (round args.round_id) status_field db.hashes ≡ some (str (bytes "locked"))
      → CanCredit redis args.room_id args.payouts db.hashes
      → ((settle_script redis args db).0
          ≡ ok (str (bytes "OK") ∷ int (pos (length args.payouts)) ∷ []))
        × Closed (settle_kind redis args) args db (settle_script redis args db).1
  settle_script_effects args db h c =
      rw (settle_script_lem args db h c) (refl, Closed-after (settle_kind redis args) args db)

  refund_script_lem :
      (key round_id room_id : Str) (total : Tokens) (payouts : List Payout) (db : Db redis)
      → hget (round round_id) status_field db.hashes ≡ some (str (bytes "locked"))
      → CanCredit redis room_id payouts db.hashes
      → refund_script redis key round_id room_id total payouts db ≡ (
        ok (str (bytes "OK") ∷ int total ∷ []),
        record db {
          hashes = closed redis (refund_args key round_id room_id total payouts) db.hashes;
          stream =
              redis.stream.xadd
                (settle_entry
                  (bytes "round_refunded")
                  (refund_args key round_id room_id total payouts))
                db.stream;
        },
      )
  unfolding refund_script
  refund_script_lem key round_id room_id total payouts db h c =
      terminal_body_lem (bytes "round_refunded") (refund_args key round_id room_id total payouts)
        (int total) db h c

  -- The same for refund_round.lua, which answers OK and the total.
  pub refund_script_effects :
      (key round_id room_id : Str) (total : Tokens) (payouts : List Payout) (db : Db redis)
      → hget (round round_id) status_field db.hashes ≡ some (str (bytes "locked"))
      → CanCredit redis room_id payouts db.hashes
      → ((refund_script redis key round_id room_id total payouts db).0
          ≡ ok (str (bytes "OK") ∷ int total ∷ []))
        × Closed
            (bytes "round_refunded")
            (refund_args key round_id room_id total payouts)
            db
            (refund_script redis key round_id room_id total payouts db).1
  refund_script_effects key round_id room_id total payouts db h c =
      rw (refund_script_lem key round_id room_id total payouts db h c) (
        refl,
        Closed-after (bytes "round_refunded") (refund_args key round_id room_id total payouts) db,
      )

  abbrev pub kind_of : Str → Attempt → Str
  kind_of round_id (settling args) = settle_kind redis (record args { round_id = round_id })
  kind_of round_id (refunding key room_id total payouts) = bytes "round_refunded"

  abbrev pub attempt : Str → Attempt → Script redis (List Text)
  attempt round_id (settling args) = settle_script redis (record args { round_id = round_id })
  attempt round_id (refunding key room_id total payouts) =
      refund_script redis key round_id room_id total payouts

  -- The replies of some attempts, one after the other, and the database after them.
  abbrev pub attempts : Str → List Attempt → Db redis → List (Result Fault (List Text)) × Db redis
  attempts round_id [] db = ([], db)
  attempts round_id (a ∷ rest) db =
      let (reply, db') = attempt round_id a db in
      let (replies, end) = attempts round_id rest db' in (reply ∷ replies, end)

  attempt-end :
      (round_id : Str) (a : Attempt) (db : Db redis) (s : Str)
      → IsEnd s
      → hget (round round_id) status_field db.hashes ≡ some (str s)
      → attempt round_id a db ≡ (ok (str (bytes "ALREADY_RESOLVED") ∷ str s ∷ []), db)
  unfolding settle_script refund_script
  attempt-end round_id (settling args) db s e h =
      let at : SettleArgs = record args { round_id = round_id } in
      with_locked-end round_id
        (terminal_body (settle_kind redis at) at (int (pos (length args.payouts)))) db s e h
  attempt-end round_id (refunding key room_id total payouts) db s e h =
      with_locked-end round_id
        (terminal_body (bytes "round_refunded") (refund_args key round_id room_id total payouts)
          (int total))
        db s e h

  attempts-end :
      (round_id : Str) (later : List Attempt) (db : Db redis) (s : Str)
      → IsEnd s
      → hget (round round_id) status_field db.hashes ≡ some (str s)
      → ((attempts round_id later db).1 ≡ db)
        × All
            (λ r. r ≡ ok (str (bytes "ALREADY_RESOLVED") ∷ str s ∷ []))
            (attempts round_id later db).0
  attempts-end round_id [] db s e h = (refl, tt)
  attempts-end round_id (a ∷ later) db s e h =
      let (same, replies) = attempts-end round_id later db s e h in
      rw (attempt-end round_id a db s e h) (same, (refl, replies))

  attempt-Closed :
      (round_id : Str) (a : Attempt) (db : Db redis)
      → hget (round round_id) status_field db.hashes ≡ some (str (bytes "locked"))
      → CanCredit redis (args_of round_id a).room_id (args_of round_id a).payouts db.hashes
      → Closed (kind_of round_id a) (args_of round_id a) db (attempt round_id a db).1
  attempt-Closed round_id (settling args) db h c =
      (settle_script_effects (record args { round_id = round_id }) db h c).1
  attempt-Closed round_id (refunding key room_id total payouts) db h c =
      (refund_script_effects key round_id room_id total payouts db h c).1

  at_round :
      (round_id : Str) (a : Attempt) {t : redis.hashes.T} {v : Option Text}
      → hget (round (args_of round_id a).round_id) status_field t ≡ v
      → hget (round round_id) status_field t ≡ v
  at_round round_id (settling args) h = h
  at_round round_id (refunding key room_id total payouts) h = h

  -- A locked round is closed once. Let the first run of settle_round.lua or refund_round.lua on it be one
  -- whose payouts can be credited and whose terminal status is resolved or refunded. Then after it and
  -- any further runs of the two scripts on the round, whatever their arguments, the database differs
  -- from the one before by what the first run does, once: each player was paid once, and one event was
  -- appended. Every further run is answered with ALREADY_RESOLVED and the first one's status.
  pub terminal_scripts-once :
      (round_id : Str) (first : Attempt) (later : List Attempt) (db : Db redis)
      → IsEnd (args_of round_id first).terminal_status
      → hget (round round_id) status_field db.hashes ≡ some (str (bytes "locked"))
      → CanCredit redis (args_of round_id first).room_id (args_of round_id first).payouts db.hashes
      → let out = attempts round_id later (attempt round_id first db).1 in
        Closed (kind_of round_id first) (args_of round_id first) db out.1
        × All
            (λ r.
              r
              ≡ ok (
                  str (bytes "ALREADY_RESOLVED")
                  ∷ str (args_of round_id first).terminal_status
                  ∷ []))
            out.0
  terminal_scripts-once round_id first later db e h c =
      let done = attempt-Closed round_id first db h c in
      let status : hget (round round_id) status_field (attempt round_id first db).1.hashes
          ≡ some (str (args_of round_id first).terminal_status) =
        at_round round_id first done.status in
      let (same, replies) =
        attempts-end round_id later (attempt round_id first db).1
          (args_of round_id first).terminal_status e status in
      (rw same done, replies)

  -- On a round whose status is not locked, or that is not there, neither script writes anything.
  pub terminal_scripts-refused :
      (args : SettleArgs) (key room_id : Str) (total : Tokens) (payouts : List Payout)
      (db : Db redis)
      → hget (round args.round_id) status_field db.hashes ≢ some (str (bytes "locked"))
      → ((settle_script redis args db).1 ≡ db)
        × ((refund_script redis key args.round_id room_id total payouts db).1 ≡ db)
  unfolding settle_script refund_script
  terminal_scripts-refused args key room_id total payouts db h = (
    with_locked-refused args.round_id
        (terminal_body (settle_kind redis args) args (int (pos (length args.payouts)))) db h,
    with_locked-refused args.round_id
        (terminal_body (bytes "round_refunded")
          (refund_args key args.round_id room_id total payouts) (int total))
        db h,
  )
