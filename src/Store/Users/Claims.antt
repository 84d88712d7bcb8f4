-- ===== src/Store/Users/Claims.antt =====
-- claim_unique.lua gives an index key to one claimer.
use call_it.Prelude.{
  Bool-cases, inl, inr, Str, bytes, List, [], ◌∷◌, false, ◌≡◌, refl, arith, ok, some, none,
}
use call_it.Redis.Keys.{Key, Field, Text, str, key_eq, key_eq_refl, key_eq_sound}
use call_it.Redis.Server.{Redis, Db, text}
use call_it.Store.Users.{set_fields, claim_unique}

module _ (redis : Redis) where
  open redis use {strings.{get}, hashes.{hget}}

  hget-set_fields :
      (k j : Key) (g : Field) (fields : List (Field × Text)) (t : redis.hashes.T)
      → key_eq k j ≡ false
      → hget j g (set_fields redis k fields t) ≡ hget j g t
  unfolding set_fields
  hget-set_fields k j g [] t h = refl
  hget-set_fields k j g ((f, v) ∷ rest) t h = ground (
    arith,
    hget-set_fields k j g rest (redis.hashes.hset k f v t) h,
    redis.hashes.hget-hset k j f g v t,
  )

  -- The database after some claims, one after the other, whatever they answer.
  abbrev pub after_claims : List (Key × Key × Str × List (Field × Text)) → Db redis → Db redis
  after_claims [] db = db
  after_claims ((index, entity, id, fields) ∷ rest) db =
      after_claims rest (claim_unique redis index entity id fields db).1

  claim_unique-taken :
      (index entity : Key) (id first : Str) (fields : List (Field × Text)) (db : Db redis)
      → get index db.strings ≡ some (text (str first))
      → claim_unique redis index entity id fields db
        ≡ (ok (str (bytes "TAKEN") ∷ str first ∷ []), db)
  unfolding claim_unique
  claim_unique-taken index entity id first fields db h = ground (arith, h)

  -- No claim changes a key that is there.
  claim_unique-keeps :
      (k index entity : Key) (id first : Str) (fields : List (Field × Text)) (db : Db redis)
      → get k db.strings ≡ some (text (str first))
      → get k (claim_unique redis index entity id fields db).1.strings ≡ some (text (str first))
  unfolding claim_unique
  claim_unique-keeps k index entity id first fields db h = elim (Bool-cases (key_eq index k)) [
    | inl same ↦
        rw (claim_unique-taken index entity id first fields db (rw (key_eq_sound index k same) h)) h
    | inr other ↦
        let kept = redis.strings.get-put index k (text (str id)) db.strings in ground arith
  ]

  after_claims-keeps :
      (k : Key) (first : Str) (claims : List (Key × Key × Str × List (Field × Text)))
      (db : Db redis)
      → get k db.strings ≡ some (text (str first))
      → get k (after_claims claims db).strings ≡ some (text (str first))
  after_claims-keeps k first [] db h = h
  after_claims-keeps k first ((index, entity, id, fields) ∷ rest) db h =
      after_claims-keeps k first rest (claim_unique redis index entity id fields db).1
        (claim_unique-keeps k index entity id first fields db h)

  -- The claim of a free index key, with at least one field to write, is answered with OK and points the
  -- key at the claimer, and no hash but the entity's changes. After any claims of this key and others,
  -- a claim of the key is answered with TAKEN and the first claimer, and writes nothing.
  pub claim_unique-once :
      (index entity other : Key) (id later : Str) (field : Field × Text)
      (fields more : List (Field × Text)) (claims : List (Key × Key × Str × List (Field × Text)))
      (db : Db redis)
      → get index db.strings ≡ none
      → let out = claim_unique redis index entity id (field ∷ fields) db in
        let db' = after_claims claims out.1 in
        (out.0 ≡ ok (str (bytes "OK") ∷ []))
        × (get index out.1.strings ≡ some (text (str id)))
        × ((j : Key) (g : Field)
            → key_eq entity j ≡ false
            → hget j g out.1.hashes ≡ hget j g db.hashes)
        × (claim_unique redis index other later more db'
            ≡ (ok (str (bytes "TAKEN") ∷ str id ∷ []), db'))
  unfolding claim_unique
  claim_unique-once index entity other id later field fields more claims db h =
      let claimed : claim_unique redis index entity id (field ∷ fields) db ≡ (
        ok (str (bytes "OK") ∷ []),
        record db {
          strings = redis.strings.put index (text (str id)) db.strings;
          hashes = set_fields redis entity (field ∷ fields) db.hashes;
        },
      ) =
        ground (arith, h) in
      let points : get index (redis.strings.put index (text (str id)) db.strings)
          ≡ some (text (str id)) =
        rw redis.strings.get-put (rw (key_eq_refl index) refl) in
      let db1 : Db redis = record db {
        strings = redis.strings.put index (text (str id)) db.strings;
        hashes = set_fields redis entity (field ∷ fields) db.hashes;
      } in
      rw claimed (
        refl,
        points,
        λ j g e. hget-set_fields entity j g (field ∷ fields) db.hashes e,
        claim_unique-taken index other later id more (after_claims claims db1)
            (after_claims-keeps index id claims db1 points),
      )
