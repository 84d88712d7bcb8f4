-- ===== src/Store/RateLimit/Window.antt =====
-- The limiter never holds more than its limit.
use call_it.Prelude.{
  ℕ, ltb, leb, Bool, ◌||◌, if◌then◌else◌, ◌+◌, ◌-◌, ◌≤◌, ℤ, pos, ◌+ℤ◌, ◌-ℤ◌, leb_ℤ, int_laws, Str,
  str_eq, [], ◌∷◌, length, true, false, ◌≡◌, refl, arith, ok, Bool-cases, inl, inr,
}
use call_it.Redis.Keys.{Key, rate_limit, key_eq, key_eq_refl}
use call_it.Redis.Server.{Redis, Db, Scores, add_member, drop_member, drop_up_to}
use call_it.Store.RateLimit.{
  Decision, allow, denied_reply, allowed_reply, decode_rate_limit_reply, drop_old,
}

-- The calls that count against the limit: those of less than a window ago.
abbrev pub recent : ℕ → ℕ → Scores → Scores
recent now window [] = []
recent now window ((m, s) ∷ l) =
    let rest = recent now window l in if ltb now (s + window) then (m, s) ∷ rest else rest

abbrev pub has_member : Str → Scores → Bool
has_member m [] = false
has_member m ((n, s) ∷ l) = let rest = has_member m l in str_eq m n || rest

drop_member-absent : (m : Str) (l : Scores) → has_member m l ≡ false → drop_member m l ≡ l
drop_member-absent m [] h = refl
drop_member-absent m ((n, s) ∷ l) h =
    let rest = drop_member-absent m l (ground arith) in ground arith

has_member-recent :
    (m : Str) (now window : ℕ) (l : Scores)
    → has_member m l ≡ false
    → has_member m (recent now window l) ≡ false
has_member-recent m now window [] h = refl
has_member-recent m now window ((n, s) ∷ l) h =
    let rest = has_member-recent m now window l (ground arith) in ground arith

length-recent : (now window : ℕ) (l : Scores) → length (recent now window l) ≤ length l
length-recent now window [] = omega arith
length-recent now window ((n, s) ∷ l) = ground (arith, length-recent now window l)

drop_up_to-recent :
    (now window : ℕ) (l : Scores)
    → leb window now ≡ true
    → drop_up_to (now - window) l ≡ recent now window l
drop_up_to-recent now window [] h = refl
drop_up_to-recent now window ((n, s) ∷ l) h =
    let rest = drop_up_to-recent now window l h in
    elim (Bool-cases (leb s (now - window))) [
      | inl old ↦ let aged : ltb now (s + window) ≡ false = ground arith in ground arith
      | inr new ↦ let fresh : ltb now (s + window) ≡ true = ground arith in ground arith
    ]

recent-all : (now window : ℕ) (l : Scores) → leb window now ≡ false → recent now window l ≡ l
recent-all now window [] h = refl
recent-all now window ((n, s) ∷ l) h =
    let rest = recent-all now window l h in
    let fresh : ltb now (s + window) ≡ true = ground arith in ground arith

length-add_member : (m : Str) (s : ℕ) (l : Scores) → length (add_member m s l) ≡ length l + 1
length-add_member m s [] = refl
length-add_member m s ((n, r) ∷ l) = ground (arith, length-add_member m s l)

room_left : (k limit : ℕ) → pos (k + 1) +ℤ (pos limit -ℤ pos k -ℤ pos 1) ≡ pos limit
room_left k limit = omega (arith, int_laws)

module _ (redis : Redis) where
  open redis use {zsets.{zrange}}

  denied_decision :
      (now window : ℕ) (l : Scores)
      → (d : Decision) × (decode_rate_limit_reply redis (denied_reply now window l) ≡ ok d)
        × (d.allowed ≡ false)
  unfolding decode_rate_limit_reply denied_reply str_eq
  denied_decision now window [] = (_, refl, refl)
  denied_decision now window ((n, s) ∷ l) = (_, refl, refl)

  allowed_decision :
      (now window : ℕ) (remaining : ℤ) (member : Str) (l : Scores)
      → (d : Decision) × (decode_rate_limit_reply redis
            (allowed_reply now window remaining member l)
          ≡ ok d)
        × (d.allowed ≡ true)
        × (d.remaining ≡ remaining)
        × (d.member ≡ member)
  unfolding decode_rate_limit_reply allowed_reply str_eq
  allowed_decision now window remaining member [] = (_, refl, refl, refl, refl)
  allowed_decision now window remaining member ((n, s) ∷ l) = (_, refl, refl, refl, refl)

  zrange-drop_old :
      (k j : Key) (now window : ℕ) (t : redis.zsets.T)
      → zrange j (drop_old redis k now window t)
        ≡ (if key_eq k j then recent now window (zrange j t) else zrange j t)
  unfolding drop_old
  zrange-drop_old k j now window t = elim (Bool-cases (leb window now)) [
    | inl old ↦ ground (
      arith,
      redis.zsets.zrange-zremrangebyscore k j (now - window) t,
      drop_up_to-recent now window (zrange j t) old,
    )
    | inr new ↦ ground (arith, recent-all now window (zrange j t) new)
  ]

  -- The decision of the limiter, on the calls `kept` that count, and the sets that it leaves.
  pub record Decided (now : ℕ) (member : Str) (key : Key) (limit : ℕ) (kept : Scores)
      (db db' : Db redis) (d : Decision) : Type 0 where
    pub allowed : d.allowed ≡ ltb (length kept) limit
    pub denies : d.allowed ≡ false → zrange key db'.zsets ≡ kept
    pub records :
        d.allowed ≡ true
        → (zrange key db'.zsets ≡ add_member member now kept)
          × (d.member ≡ member)
          × (pos (length (zrange key db'.zsets)) +ℤ d.remaining ≡ pos limit)
    pub bounded : length (zrange key db'.zsets) ≤ limit
    pub others : (j : Key) → key_eq key j ≡ false → zrange j db'.zsets ≡ zrange j db.zsets

  -- On a window that holds at most its limit, and for a member that it does not hold, a call is answered.
  -- It is allowed just when fewer calls than the limit are less than a window old. Older ones are
  -- dropped. An allowed call is recorded at its instant, and what remains is what is left of the limit
  -- then; a denied one records nothing. The window still holds at most its limit, and no other window
  -- changes.
  pub allow-bounded :
      (now : ℕ) (member scope id : Str) (limit window : ℕ) (db : Db redis)
      → length (zrange (rate_limit scope id) db.zsets) ≤ limit
      → has_member member (zrange (rate_limit scope id) db.zsets) ≡ false
      → let key = rate_limit scope id in
        let out = allow redis now member scope id (pos limit) window db in
        (d : Decision) × (out.0 ≡ ok d)
        × Decided now member key limit (recent now window (zrange key db.zsets)) db out.1 d
  unfolding allow
  allow-bounded now member scope id limit window db h absent =
      let key = rate_limit scope id in
      let dropped = drop_old redis key now window db.zsets in
      let kept = recent now window (zrange key db.zsets) in
      let same = key_eq_refl key in
      let left : zrange key dropped ≡ kept =
        ground (arith, zrange-drop_old key key now window db.zsets) in
      let few = length-recent now window (zrange key db.zsets) in
      elim (Bool-cases (leb_ℤ (pos limit) (pos (length (zrange key dropped))))) [
        | inl full ↦
            let (d, decoded, denied) = denied_decision now window (zrange key dropped) in
            (
              d,
              ground arith,
              record {
                allowed = ground arith;
                denies = λ _. ground arith;
                records = λ a. absurd (ground arith);
                bounded = ground arith;
                others = λ j n. ground (arith, zrange-drop_old key j now window db.zsets);
              },
            )
        | inr free ↦
            let added = redis.zsets.zadd key now member dropped in
            let rest = pos limit -ℤ pos (length (zrange key dropped)) -ℤ pos 1 in
            let (d, decoded, allowed, remaining, named) =
              allowed_decision now window rest member (zrange key added) in
            let new : drop_member member kept ≡ kept =
              drop_member-absent member kept
                (has_member-recent member now window (zrange key db.zsets) absent) in
            let grown : zrange key added ≡ add_member member now kept =
              ground (arith, redis.zsets.zrange-zadd key key now member dropped) in
            let longer = length-add_member member now kept in
            (
              d,
              ground arith,
              record {
                allowed = ground arith;
                denies = λ a. absurd (ground arith);
                records = λ _. (ground arith, named, ground (arith, room_left (length kept) limit));
                bounded = ground arith;
                others = λ j n. ground (
                  arith,
                  zrange-drop_old key j now window db.zsets,
                  redis.zsets.zrange-zadd key j now member dropped,
                );
              },
            )
      ]
