-- ===== src/Services/Rounds/Opening.antt =====
-- round/service.go: when a round opens.
use call_it.Prelude.{
  ℕ, ◌+◌, ◌/◌, ℤ, pos, pos_part, ltb_ℤ, negsuc, ◌||◌, Str, str_eq, [], ◌∷◌, ◌++◌, length, map, ◌≤◌,
  sym, ◌∙◌, true, false, Result, ok, err, ◌≡◌, ◌⊎◌, inl, inr, refl, arith, Bool-cases, Result-cases,
}
use call_it.Domain.Round.{is_terminal, validate_outcome_count}
use call_it.Redis.Server.{Redis, Db}
use call_it.Store.Errors.{not_found}
use call_it.Store.Rooms.{Room, read_room}
use call_it.Store.Rounds.{Round, create_round, current_round, read_round}
use call_it.Services.{World, ServiceError, round_opened}
use call_it.Services.Rounds.{
  RoundSpec, Opened, any_empty, check_spec, require_host, require_free, open_round, min_lock_in,
  max_lock_in,
}

module _ (redis : Redis) where
  -- The room has no round, or one that ended.
  abbrev pub IsFree : Str → Db redis → Type 0
  IsFree room_id db =
      ((current_round redis room_id db).0 ≡ err not_found)
      ⊎ ((id : Str) × (r : Round) × ((current_round redis room_id db).0 ≡ ok id)
          × ((read_round redis id (current_round redis room_id db).1).0 ≡ ok r)
          × (is_terminal r.status ≡ true))

  read_room_db : (room_id : Str) (db : Db redis) → (read_room redis room_id db).1 ≡ db
  unfolding read_room
  read_room_db room_id db = ground arith

  current_round_db : (room_id : Str) (db : Db redis) → (current_round redis room_id db).1 ≡ db
  unfolding current_round
  current_round_db room_id db = ground arith

  read_round_db : (id : Str) (db : Db redis) → (read_round redis id db).1 ≡ db
  unfolding read_round
  read_round_db id db = ground arith

module _ {ℓ} {redis : Redis} {Float : Type ℓ} where
  require_free-IsFree :
      (room_id : Str) (w : World redis Float) {u : Unit {0}} {w' : World redis Float}
      → require_free redis Float room_id w ≡ (ok u, w')
      → IsFree redis room_id w.db
  unfolding require_free
  require_free-IsFree room_id w h =
      let m = current_round redis room_id w.db in
      elim (Result-cases m.0) [
        | inr (e, failed) ↦ inl (ground arith)
        | inl (id, there) ↦ elim (Result-cases (read_round redis id m.1).0) [
          | inr (e, failed) ↦ absurd (ground arith)
          | inl (r, found) ↦ elim (Bool-cases (is_terminal r.status)) [
            | inl ended ↦ inr (id, r, there, found, ended)
            | inr runs ↦ absurd (ground arith)
          ]
        ]
      ]

  require_host-Host :
      (room_id caller : Str) (w : World redis Float) {u : Unit {0}} {w' : World redis Float}
      → require_host redis Float room_id caller w ≡ (ok u, w')
      → (r : Room) × ((read_room redis room_id w.db).0 ≡ ok r) × (str_eq r.host_id caller ≡ true)
  unfolding require_host
  require_host-Host room_id caller w h = elim (Result-cases (read_room redis room_id w.db).0) [
    | inr (e, failed) ↦ absurd (ground arith)
    | inl (r, found) ↦ elim (Bool-cases (str_eq r.host_id caller)) [
      | inl host ↦ (r, found, host)
      | inr other ↦ absurd (ground arith)
    ]
  ]

  require_host_world :
      (room_id caller : Str) (w : World redis Float)
      → (require_host redis Float room_id caller w).1 ≡ w
  unfolding require_host
  require_host_world room_id caller w = ground (arith, read_room_db redis room_id w.db)

  require_free_world :
      (room_id : Str) (w : World redis Float) → (require_free redis Float room_id w).1 ≡ w
  unfolding require_free
  require_free_world room_id w =
      let m = current_round redis room_id w.db in
      elim (Result-cases m.0) [
        | inr (e, failed) ↦ ground (arith, current_round_db redis room_id w.db)
        | inl (id, there) ↦
            ground (arith, current_round_db redis room_id w.db, read_round_db redis id m.1)
      ]

lock_in-Window :
    (z : ℤ)
    → (ltb_ℤ z min_lock_in || ltb_ℤ max_lock_in z) ≡ false
    → (n : ℕ) × (z ≡ pos n) × (3000000000 ≤ n) × (n ≤ 120000000000)
lock_in-Window (pos n) h = (n, refl, ground arith, ground arith)
lock_in-Window (negsuc n) h = absurd (ground arith)

module _ {ℓ} (redis : Redis) (Float : Type ℓ) (trim_space : Str → Str) (now : ℕ) (round_id : Str)
    (room_id caller : Str) (spec : RoundSpec) (w : World redis Float) where
  check_spec-question :
      {checked : RoundSpec}
      → check_spec trim_space spec ≡ ok checked
      → (checked.question ≡ trim_space spec.question) × (str_eq checked.question [] ≡ false)
  unfolding check_spec
  check_spec-question h = (ground arith, ground arith)

  check_spec-outcomes :
      {checked : RoundSpec}
      → check_spec trim_space spec ≡ ok checked
      → (checked.outcomes ≡ map trim_space spec.outcomes)
        × (any_empty checked.outcomes ≡ false)
        × (validate_outcome_count (pos (length spec.outcomes)) ≡ ok tt)
  unfolding check_spec
  check_spec-outcomes h = (ground arith, ground arith, ground arith)

  check_spec-window :
      {checked : RoundSpec}
      → check_spec trim_space spec ≡ ok checked
      → (n : ℕ) × (spec.lock_in ≡ pos n)
        × (3000000000 ≤ n)
        × (n ≤ 120000000000)
        × (checked.lock_in ≡ pos n)
  unfolding check_spec
  check_spec-window {checked} h =
      let (n, is, lo, hi) = lock_in-Window spec.lock_in (ground arith) in
      let kept : checked.lock_in ≡ spec.lock_in = ground arith in (n, is, lo, hi, kept ∙ is)

  -- The round that `Open` returns and the world that it leaves.
  pub record Opening (o : Opened) (w' : World redis Float) : Type ℓ where
    pub host :
        (r : Room) × ((read_room redis room_id w.db).0 ≡ ok r) × (str_eq r.host_id caller ≡ true)
    pub free : IsFree redis room_id w.db
    pub id : o.round_id ≡ round_id
    pub question : (o.question ≡ trim_space spec.question) × (str_eq o.question [] ≡ false)
    pub outcomes : (o.outcomes ≡ map trim_space spec.outcomes) × (any_empty o.outcomes ≡ false)
    pub count : validate_outcome_count (pos (length spec.outcomes)) ≡ ok tt
    pub window :
        (n : ℕ) × (spec.lock_in ≡ pos n)
        × (3000000000 ≤ n)
        × (n ≤ 120000000000)
        × (o.lock_at_ms ≡ (now + n) / 1000000)
    pub stored :
        create_round redis round_id room_id o.question o.outcomes (pos o.lock_at_ms) w.db
        ≡ (ok tt, w'.db)
    pub announced :
        w'.sent
        ≡ w.sent ++ ((room_id, round_opened round_id o.question o.outcomes (pos o.lock_at_ms)) ∷ [])

  abbrev the_opened : RoundSpec → ℕ → Result ServiceError Opened
  the_opened checked lock_at = ok (record {
    round_id = round_id;
    question = checked.question;
    outcomes = checked.outcomes;
    lock_at_ms = lock_at;
  })

  -- What `Open` does for a host with a spec that passes and a room that is free.
  open_round_run :
      (checked : RoundSpec)
      → require_host redis Float room_id caller w ≡ (ok tt, w)
      → check_spec trim_space spec ≡ ok checked
      → require_free redis Float room_id w ≡ (ok tt, w)
      → {db' : Db redis}
      → let lock_at = (now + pos_part checked.lock_in) / 1000000 in
        create_round redis round_id room_id checked.question checked.outcomes (pos lock_at) w.db
          ≡ (ok tt, db')
        → open_round redis Float trim_space now round_id room_id caller spec w ≡ (
          the_opened checked lock_at,
          record {
            db = db';
            sent =
                w.sent
                ++ ((room_id, round_opened round_id checked.question checked.outcomes (pos lock_at))
                    ∷ []);
          },
        )
  unfolding open_round
  open_round_run checked h1 h2 h3 h4 = ground arith

  open_round_run-Opening :
      (checked : RoundSpec) {db' : Db redis} {o : Opened} {w' : World redis Float}
      → require_host redis Float room_id caller w ≡ (ok tt, w)
      → check_spec trim_space spec ≡ ok checked
      → require_free redis Float room_id w ≡ (ok tt, w)
      → let lock_at = (now + pos_part checked.lock_in) / 1000000 in
        create_round redis round_id room_id checked.question checked.outcomes (pos lock_at) w.db
          ≡ (ok tt, db')
        → let end : World redis Float = record {
          db = db';
          sent =
              w.sent
              ++ ((room_id, round_opened round_id checked.question checked.outcomes (pos lock_at))
                  ∷ []);
        } in
          Path
            (Result ServiceError Opened × World redis Float)
            (the_opened checked lock_at, end)
            (ok o, w')
          → Opening o w'
  open_round_run-Opening checked host passed free wrote e =
      let (question, filled) = check_spec-question passed in
      let (outcomes, each, count) = check_spec-outcomes passed in
      let (n, is, lo, hi, kept) = check_spec-window passed in
      record {
        host = require_host-Host room_id caller w host;
        free = require_free-IsFree room_id w free;
        id = ground arith;
        question = (ground arith, ground arith);
        outcomes = (ground arith, ground arith);
        count = count;
        window = (n, is, lo, hi, ground arith);
        stored = ground arith;
        announced = ground arith;
      }

  -- When `Open` returns a round, the caller is the host of the room; the room had no current round, or
  -- one that ended; the trimmed question and outcomes are not empty, there are two to four outcomes,
  -- and the lock window is 3 to 120 seconds, at whose end the round locks. The round was written as
  -- `CreateRound` writes it, nothing else was, and one message, with the round, went to the room.
  pub open_round-Opening :
      {o : Opened} {w' : World redis Float}
      → open_round redis Float trim_space now round_id room_id caller spec w ≡ (ok o, w')
      → Opening o w'
  unfolding open_round
  open_round-Opening {o} {w'} h =
      let e1 = require_host_world room_id caller w in
      let e3 = require_free_world room_id w in
      elim (Result-cases (require_host redis Float room_id caller w).0) [
        | inr (e, failed) ↦ absurd (ground arith)
        | inl (u1, h1) ↦ elim (Result-cases (check_spec trim_space spec)) [
          | inr (e, failed) ↦ absurd (ground arith)
          | inl (checked, h2) ↦ elim (Result-cases (require_free redis Float room_id w).0) [
            | inr (e, failed) ↦ absurd (ground arith)
            | inl (u3, h3) ↦
                let lock_at = (now + pos_part checked.lock_in) / 1000000 in
                let made =
                  create_round redis round_id room_id checked.question checked.outcomes
                    (pos lock_at) w.db in
                elim (Result-cases made.0) [
                  | inr (e, failed) ↦ absurd (ground arith)
                  | inl (u4, h4) ↦
                      let host : require_host redis Float room_id caller w ≡ (ok tt, w) =
                        ground arith in
                      let free : require_free redis Float room_id w ≡ (ok tt, w) = ground arith in
                      let wrote : made ≡ (ok tt, made.1) = ground arith in
                      open_round_run-Opening checked host h2 free wrote
                        (sym (open_round_run checked host h2 free wrote) ∙ h)
                ]
          ]
        ]
      ]
