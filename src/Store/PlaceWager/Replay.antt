-- ===== src/Store/PlaceWager/Replay.antt =====
-- Replays of a wager's key, and what a rejection leaves.
use mathlib.Core.Path.{subst}
use call_it.Prelude.{
  ℕ, ℤ, pos_part, ltb, All, Bool-cases, Option-cases, str_eq, str_eq_iff, none, true, false, ◌∙◌,
  Str, bytes, some, ◌≡◌, ◌≢◌, arith, ok, err, List, [], ◌∷◌, Result, Result-cases, inl, inr, sym,
  refl, ap,
}
use call_it.Redis.Keys.{Key, idem, Text, str, key_eq, key_eq_refl}
use call_it.Redis.Server.{Redis, Db, text, json_reply, live}
use call_it.Redis.Script.{Fault, >>=-eq-ok}
use call_it.Store.PlaceWager.{
  WagerRequest, Time, now_ms, expiry, Verdict, cached, reject, stop, accept, check_wager,
  apply_wager, place_wager, move_tokens, record_wager, check_lock, check_outcome, check_host,
  check_funds, act_on,
}

module _ (redis : Redis) where
  open redis use {strings.{get, get-put}}

  -- The replies of the writing half: they begin with OK and are in the cache.
  IsCached : WagerRequest → Time → Result Fault (List Text) × Db redis → Type 0
  IsCached req time (r, db) =
      (rest : List Text) × (r ≡ ok (str (bytes "OK") ∷ rest))
      × (get (idem req.idempotency_key) db.strings
          ≡ some (json_reply (expiry time) (str (bytes "OK") ∷ rest)))

  record_wager-IsCached :
      (req : WagerRequest) (time : Time) (count : ℤ) (sums : ℤ × ℤ) (db : Db redis)
      → IsCached req time (record_wager redis req time count sums db)
  unfolding record_wager IsCached
  record_wager-IsCached req time count (balance, total) db = (_, refl, rw get-put (rw key_eq_refl))

  apply_wager-IsCached :
      (req : WagerRequest) (time : Time) (count : ℤ) (db : Db redis) (reply : List Text)
      → (apply_wager redis req time count db).0 ≡ ok reply
      → IsCached req time (apply_wager redis req time count db)
  unfolding apply_wager
  apply_wager-IsCached req time count db reply h =
      let inner =
        >>=-eq-ok (move_tokens redis req) (record_wager redis req time count) db reply h in
      subst (IsCached req time) (sym inner.3) (record_wager-IsCached req time count inner.0 inner.1)

  check_wager-cached :
      (req : WagerRequest) (time : Time) (db : Db redis) (reply : List Text)
      → check_wager redis req time db ≡ cached reply
      → (deadline : ℕ) × (live (pos_part (now_ms time)) (get (idem req.idempotency_key) db.strings)
          ≡ some (json_reply deadline reply))
  unfolding check_wager check_lock check_outcome check_host check_funds
  check_wager-cached req time db reply h =
      let held = live (pos_part (now_ms time)) (get (idem req.idempotency_key) db.strings) in
      elim (Option-cases held) [
        | inl fresh ↦ absurd (ground arith)
        | inr (text t, e) ↦ absurd (ground arith)
        | inr (json_reply deadline old, e) ↦ (deadline, ground arith)
      ]

  check_wager-reject :
      (req : WagerRequest) (time : Time) (db : Db redis) (code : Str)
      → check_wager redis req time db ≡ reject code
      → code ≢ bytes "OK"
  unfolding check_wager check_lock check_outcome check_host check_funds
  check_wager-reject req time db code h = ground arith

  -- What an answer of the script is, and what it leaves.
  data Answered (req : WagerRequest) (time : Time) (db : Db redis)
      (out : Result Fault (List Text) × Db redis) : Type 0 where
    written : IsCached req time out → Answered req time db out
    repeated :
        (reply : List Text)
        → out ≡ (ok reply, db)
        → (deadline : ℕ) × (live
              (pos_part (now_ms time))
              (get (idem req.idempotency_key) db.strings)
            ≡ some (json_reply deadline reply))
        → Answered req time db out
    rejected :
        (code : Str) → out ≡ (ok (str code ∷ []), db) → code ≢ bytes "OK" → Answered req time db out
    failed : (fault : Fault) → out.0 ≡ err fault → Answered req time db out

  act_on-Answered :
      (req : WagerRequest) (time : Time) (db : Db redis) (v : Verdict)
      → check_wager redis req time db ≡ v
      → Answered req time db (act_on redis req time v db)
  unfolding act_on
  act_on-Answered req time db (cached reply) h =
      repeated reply refl (check_wager-cached req time db reply h)
  act_on-Answered req time db (reject code) h =
      rejected code refl (check_wager-reject req time db code h)
  act_on-Answered req time db (stop fault) h = failed fault refl
  act_on-Answered req time db (accept count) h =
      elim (Result-cases (apply_wager redis req time count db).0) [
        | inl (reply, e) ↦ written (apply_wager-IsCached req time count db reply e)
        | inr (fault, e) ↦ failed fault e
      ]

  place_wager-Answered :
      (req : WagerRequest) (time : Time) (db : Db redis)
      → Answered req time db (place_wager redis req time db)
  unfolding place_wager
  place_wager-Answered req time db =
      act_on-Answered req time db (check_wager redis req time db) refl

  -- After an OK to a key that is new the reply is in the cache.
  Answered-ok :
      (req : WagerRequest) (time : Time) (db : Db redis) (out : Result Fault (List Text) × Db redis)
      (reply : List Text)
      → Answered req time db out
      → live (pos_part (now_ms time)) (get (idem req.idempotency_key) db.strings) ≡ none
      → out.0 ≡ ok (str (bytes "OK") ∷ reply)
      → get (idem req.idempotency_key) out.1.strings
        ≡ some (json_reply (expiry time) (str (bytes "OK") ∷ reply))
  unfolding IsCached
  Answered-ok req time db (r, db') reply (written (rest, e, c)) fresh h = cc
  Answered-ok req time db (r, db') reply (repeated old e (deadline, c)) fresh h =
      absurd (ground arith)
  Answered-ok req time db (r, db') reply (rejected code e n) fresh h = absurd (ground arith)
  Answered-ok req time db (r, db') reply (failed fault e) fresh h = absurd (ground arith)

  -- After another reply the database is as it was.
  Answered-other :
      (req : WagerRequest) (time : Time) (db : Db redis) (out : Result Fault (List Text) × Db redis)
      (code : Text) (rest : List Text)
      → Answered req time db out
      → out.0 ≡ ok (code ∷ rest)
      → code ≢ str (bytes "OK")
      → out.1 ≡ db
  unfolding IsCached
  Answered-other req time db (r, db') code rest (written (more, e, c)) h n = absurd (ground arith)
  Answered-other req time db (r, db') code rest (repeated old e c) h n = ap (λ p. p.1) e
  Answered-other req time db (r, db') code rest (rejected other e m) h n = ap (λ p. p.1) e
  Answered-other req time db (r, db') code rest (failed fault e) h n = absurd (ground arith)

  read_cache :
      (req : WagerRequest) (time : Time) (db : Db redis) (deadline : ℕ) (reply : List Text)
      → get (idem req.idempotency_key) db.strings ≡ some (json_reply deadline reply)
      → ltb (pos_part (now_ms time)) deadline ≡ true
      → place_wager redis req time db ≡ (ok reply, db)
  unfolding place_wager check_wager
  read_cache req time db deadline reply h early = ground (arith, h)

  move_tokens_strings :
      (req : WagerRequest) (db : Db redis) → (move_tokens redis req db).1.strings ≡ db.strings
  unfolding move_tokens
  move_tokens_strings req db = ground arith

  record_wager-get :
      (req : WagerRequest) (time : Time) (count : ℤ) (sums : ℤ × ℤ) (db : Db redis) (k : Key)
      → key_eq (idem req.idempotency_key) k ≡ false
      → get k (record_wager redis req time count sums db).1.strings ≡ get k db.strings
  unfolding record_wager
  record_wager-get req time count (balance, total) db k other = rw get-put (rw other refl)

  -- The strings that the writing half leaves.
  apply_wager-get :
      (req : WagerRequest) (time : Time) (count : ℤ) (db : Db redis) (k : Key)
      → key_eq (idem req.idempotency_key) k ≡ false
      → get k (apply_wager redis req time count db).1.strings ≡ get k db.strings
  unfolding apply_wager
  apply_wager-get req time count db k other =
      let moved = move_tokens redis req db in
      let same = move_tokens_strings req db in
      elim (Result-cases moved.0) [
        | inl (sums, done) ↦
            let recorded = record_wager-get req time count sums moved.1 k other in ground arith
        | inr (fault, bad) ↦ ground arith
      ]

  place_wager-get :
      (req : WagerRequest) (time : Time) (db : Db redis) (k : Key)
      → key_eq (idem req.idempotency_key) k ≡ false
      → get k (place_wager redis req time db).1.strings ≡ get k db.strings
  unfolding place_wager act_on
  place_wager-get req time db k other = go (check_wager redis req time db)
    where
      go : (v : Verdict) → get k (act_on redis req time v db).1.strings ≡ get k db.strings
      go (cached reply) = refl
      go (reject code) = refl
      go (stop fault) = refl
      go (accept count) = apply_wager-get req time count db k other

  -- The database after some wagers, one after the other.
  abbrev pub after_wagers : List (WagerRequest × Time) → Db redis → Db redis
  after_wagers [] db = db
  after_wagers ((req, time) ∷ rest) db = after_wagers rest (place_wager redis req time db).1

  abbrev pub Before : ℕ → WagerRequest × Time → Type 0
  Before deadline (req, time) = ltb (pos_part (now_ms time)) deadline ≡ true

  place_wager-keeps :
      (key : Str) (deadline : ℕ) (reply : List Text) (req : WagerRequest) (time : Time)
      (db : Db redis)
      → Before deadline (req, time)
      → get (idem key) db.strings ≡ some (json_reply deadline reply)
      → get (idem key) (place_wager redis req time db).1.strings ≡ some (json_reply deadline reply)
  unfolding key_eq
  place_wager-keeps key deadline reply req time db early h =
      elim (Bool-cases (str_eq req.idempotency_key key)) [
        | inl same ↦
            rw
              (read_cache req time db deadline reply
                (rw ((str_eq_iff req.idempotency_key key).0 same) h) early)
              h
        | inr other ↦ place_wager-get req time db (idem key) other ∙ h
      ]

  after_wagers-keeps :
      (key : Str) (deadline : ℕ) (reply : List Text) (others : List (WagerRequest × Time))
      (db : Db redis)
      → All (Before deadline) others
      → get (idem key) db.strings ≡ some (json_reply deadline reply)
      → get (idem key) (after_wagers others db).strings ≡ some (json_reply deadline reply)
  after_wagers-keeps key deadline reply [] db early h = h
  after_wagers-keeps key deadline reply ((req, time) ∷ rest) db (now, early) h =
      after_wagers-keeps key deadline reply rest (place_wager redis req time db).1 early
        (place_wager-keeps key deadline reply req time db now h)

  -- A wager under a key that is new, that was answered with OK, is answered in the same words when its
  -- key comes again within 86,400 seconds, whatever else the later request holds and whatever wagers,
  -- under this key or others, came in between, and nothing is written then.
  pub place_wager-replay :
      (req later : WagerRequest) (time then_ : Time) (others : List (WagerRequest × Time))
      (db : Db redis) (reply : List Text)
      → live (pos_part (now_ms time)) (get (idem req.idempotency_key) db.strings) ≡ none
      → (place_wager redis req time db).0 ≡ ok (str (bytes "OK") ∷ reply)
      → later.idempotency_key ≡ req.idempotency_key
      → All (Before (expiry time)) others
      → Before (expiry time) (later, then_)
      → let db' = after_wagers others (place_wager redis req time db).1 in
        place_wager redis later then_ db' ≡ (ok (str (bytes "OK") ∷ reply), db')
  place_wager-replay req later time then_ others db reply fresh h same early now =
      let out = place_wager redis req time db in
      let stored = Answered-ok req time db out reply (place_wager-Answered req time db) fresh h in
      let kept =
        after_wagers-keeps req.idempotency_key (expiry time) (str (bytes "OK") ∷ reply) others out.1
          early stored in
      read_cache later then_ (after_wagers others out.1) (expiry time) (str (bytes "OK") ∷ reply)
        (rw same kept) now

  -- A wager that is answered with anything but OK has written nothing.
  pub place_wager-rejected :
      (req : WagerRequest) (time : Time) (db : Db redis) (code : Text) (rest : List Text)
      → (place_wager redis req time db).0 ≡ ok (code ∷ rest)
      → code ≢ str (bytes "OK")
      → (place_wager redis req time db).1 ≡ db
  place_wager-rejected req time db code rest h other =
      Answered-other req time db (place_wager redis req time db) code rest
        (place_wager-Answered req time db) h other
