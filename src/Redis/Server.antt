-- ===== src/Redis/Server.antt =====
-- The Redis server that go-redis and the scripts talk to: a parameter of the development, one
-- interface for each data type, with the documented behaviour of the commands that are used.
-- A key has one data type in this schema, so the types are kept apart.
use mathlib.Core.List.{Perm}
use call_it.Prelude.{
  ℕ, ◌+◌, ℤ, pos_part, neg_part, ◌^◌, ltb, leb, ◌==◌, Str, str_eq, str_lt, List, [], ◌∷◌, ◌++◌,
  Bool, true, false, ◌&&◌, ◌||◌, Option, none, some, ◌≡◌, if◌then◌else◌,
}
use call_it.Redis.Keys.{Key, Field, Text, int, key_eq, field_eq}

-- A value of the string type: a text, or the JSON of a script's reply that was stored with an EX, with
-- the instant, in milliseconds of the server's clock, from which on the server has the key no more.
pub data Stored : Type 0 where
  text : Text → Stored
  json_reply : ℕ → List Text → Stored

-- What a GET finds at an instant.
abbrev pub live : ℕ → Option Stored → Option Stored
live now none = none
live now (some (text t)) = some (text t)
live now (some (json_reply deadline reply)) =
    if ltb now deadline then some (json_reply deadline reply) else none

-- SET, GET, DEL (and SETNX, which is a SET where GET finds nothing).
pub record Strings : Type 1 where
  pub T : Type 0
  pub get : Key → T → Option Stored
  pub put : Key → Stored → T → T
  pub del : Key → T → T
  pub get-put :
      (k j : Key) (v : Stored) (t : T)
      → get j (put k v t) ≡ (if key_eq k j then some v else get j t)
  pub get-del : (k j : Key) (t : T) → get j (del k t) ≡ (if key_eq k j then none else get j t)

-- What HGETALL holds after HSET, up to the order, which is unspecified.
abbrev pub insert_field : Field → Text → List (Field × Text) → List (Field × Text)
insert_field f v [] = (f, v) ∷ []
insert_field f v ((g, w) ∷ rest) =
    if field_eq f g then (f, v) ∷ rest else (g, w) ∷ insert_field f v rest

abbrev pub lookup_field : Field → List (Field × Text) → Option Text
lookup_field f [] = none
lookup_field f ((g, w) ∷ rest) = if field_eq f g then some w else lookup_field f rest

-- The range test of HINCRBY, whose numbers are int64.
abbrev pub fits : ℤ → Bool
fits z = ltb (pos_part z) (2 ^ 63) && leb (neg_part z) (2 ^ 63)

-- HSET, HGET, HDEL, HGETALL. (HSETNX is an HSET where HGET finds nothing; HLEN counts HGETALL.)
pub record Hashes : Type 1 where
  pub T : Type 0
  pub hget : Key → Field → T → Option Text
  pub hset : Key → Field → Text → T → T
  pub hdel : Key → Field → T → T
  pub hgetall : Key → T → List (Field × Text)
  pub hget-hset :
      (k j : Key) (f g : Field) (v : Text) (t : T)
      → hget j g (hset k f v t) ≡ (if key_eq k j && field_eq f g then some v else hget j g t)
  pub hget-hdel :
      (k j : Key) (f g : Field) (t : T)
      → hget j g (hdel k f t) ≡ (if key_eq k j && field_eq f g then none else hget j g t)
  pub lookup-hgetall : (k : Key) (f : Field) (t : T) → lookup_field f (hgetall k t) ≡ hget k f t
  pub hgetall-hset_self :
      (k : Key) (f : Field) (v : Text) (t : T)
      → Perm (hgetall k (hset k f v t)) (insert_field f v (hgetall k t))
  pub hgetall-hset_ne :
      (k j : Key) (f : Field) (v : Text) (t : T)
      → key_eq k j ≡ false
      → hgetall j (hset k f v t) ≡ hgetall j t

-- SADD, SCARD.
pub record Sets : Type 1 where
  pub T : Type 0
  pub smember : Key → Str → T → Bool
  pub scard : Key → T → ℕ
  pub sadd : Key → Str → T → T
  pub smember-sadd :
      (k j : Key) (m n : Str) (t : T)
      → smember j n (sadd k m t) ≡ ((key_eq k j && str_eq m n) || smember j n t)
  pub scard-sadd :
      (k j : Key) (m : Str) (t : T)
      → scard j (sadd k m t)
        ≡ (if key_eq k j then (if smember k m t then scard j t else scard j t + 1) else scard j t)

-- One entry of a stream: its fields, in the order of the XADD.
abbrev pub Entry : Type 0
Entry = List (Str × Text)

-- XADD on the outbox stream.
pub record Stream : Type 1 where
  pub T : Type 0
  pub entries : T → List Entry
  pub xadd : Entry → T → T
  pub entries-xadd : (e : Entry) (t : T) → entries (xadd e t) ≡ entries t ++ (e ∷ [])

-- A sorted set's members with their scores, lowest first.
abbrev pub Scores : Type 0
Scores = List (Str × ℕ)

abbrev pub drop_member : Str → Scores → Scores
drop_member m [] = []
drop_member m ((n, s) ∷ rest) =
    let kept = drop_member m rest in if str_eq m n then kept else (n, s) ∷ kept

abbrev pub add_member : Str → ℕ → Scores → Scores
add_member m s [] = (m, s) ∷ []
add_member m s ((n, r) ∷ rest) =
    if ltb s r || (s == r && str_lt m n)
    then (m, s) ∷ (n, r) ∷ rest
    else (n, r) ∷ add_member m s rest

abbrev pub drop_up_to : ℕ → Scores → Scores
drop_up_to top [] = []
drop_up_to top ((n, s) ∷ rest) =
    let kept = drop_up_to top rest in if leb s top then kept else (n, s) ∷ kept

-- ZADD, ZREM, ZREMRANGEBYSCORE from 0, ZRANGE.
pub record SortedSets : Type 1 where
  pub T : Type 0
  pub zrange : Key → T → Scores
  pub zadd : Key → ℕ → Str → T → T
  pub zrem : Key → Str → T → T
  pub zremrangebyscore : Key → ℕ → T → T
  pub zrange-zadd :
      (k j : Key) (s : ℕ) (m : Str) (t : T)
      → zrange j (zadd k s m t)
        ≡ (if key_eq k j then add_member m s (drop_member m (zrange j t)) else zrange j t)
  pub zrange-zrem :
      (k j : Key) (m : Str) (t : T)
      → zrange j (zrem k m t) ≡ (if key_eq k j then drop_member m (zrange j t) else zrange j t)
  pub zrange-zremrangebyscore :
      (k j : Key) (top : ℕ) (t : T)
      → zrange j (zremrangebyscore k top t)
        ≡ (if key_eq k j then drop_up_to top (zrange j t) else zrange j t)

-- `tostring` of the scripts' Lua, whose numbers are doubles that are written with 14 digits: below
-- 10 ^ 14 that is the integer.
pub record Lua : Type 0 where
  pub tostring : ℤ → Text
  pub tostring-int : (z : ℤ) → ltb (pos_part z + neg_part z) (10 ^ 14) ≡ true → tostring z ≡ int z

pub record Redis : Type 1 where
  pub lua : Lua
  pub strings : Strings
  pub hashes : Hashes
  pub sets : Sets
  pub stream : Stream
  pub zsets : SortedSets

-- The contents of the server.
pub record Db (redis : Redis) : Type 0 where
  pub strings : redis.strings.T
  pub hashes : redis.hashes.T
  pub sets : redis.sets.T
  pub stream : redis.stream.T
  pub zsets : redis.zsets.T
