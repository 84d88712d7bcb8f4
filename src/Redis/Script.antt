-- ===== src/Redis/Script.antt =====
-- A script or a pipeline on the server: it reads and writes the database, and may fail. What was
-- written before a failure stays written, since Redis does not roll a script back.
use call_it.Prelude.{
  ℤ, ◌+ℤ◌, Option, none, some, Result, Done, ok, err, if◌then◌else◌, Str, ◌≡◌, refl, sym, ap, ◌∙◌,
}
use call_it.Redis.Keys.{Key, Field, Text, int}
use call_it.Redis.Server.{Redis, Db, fits, Entry, Stored}

-- A command or a Lua operation raised an error.
pub data Fault : Type 0 where
  not_a_number out_of_range nil_value wrong_arguments : Fault

module _ (redis : Redis) where
  abbrev pub Script {ℓ} : Type ℓ → Type ℓ
  Script A = Db redis → Result Fault A × Db redis

module _ {redis : Redis} where
  infixl 5 ◌>>=◌ ◌>>◌
  abbrev pub ◌>>=◌ {ℓ κ} :
      {A : Type ℓ} {B : Type κ} → Script redis A → (A → Script redis B) → Script redis B
  ◌>>=◌ m f db = let (r, db') = m db in elim r [ ok a ↦ f a db' | err e ↦ (err e, db') ]

  abbrev pub ◌>>◌ {ℓ κ} :
      {A : Type ℓ} {B : Type κ} → Script redis A → Script redis B → Script redis B
  m >> k = m >>= λ _. k

  abbrev pub pure {ℓ} : {A : Type ℓ} → A → Script redis A
  pure a db = (ok a, db)

  abbrev pub raise {ℓ} : {A : Type ℓ} → Fault → Script redis A
  raise e db = (err e, db)

err≢ok {ℓ} : {A : Type ℓ} (e : Fault) (a : A) → err e ≡ ok a → ⊥
err≢ok e a h = cc

module _ {redis : Redis} where
  abbrev continue {ℓ κ} :
      {A : Type ℓ} {B : Type κ}
      → Result Fault A × Db redis
      → (A → Script redis B)
      → Result Fault B × Db redis
  continue (ok a, db) f = f a db
  continue (err e, db) f = (err e, db)

  continue-eq-ok {ℓ κ} :
      {A : Type ℓ} {B : Type κ} (p : Result Fault A × Db redis) (f : A → Script redis B) (b : B)
      → (continue p f).0 ≡ ok b
      → (a : A) × (db : Db redis) × (p ≡ (ok a, db)) × (continue p f ≡ f a db)
  continue-eq-ok (ok a, db) f b h = (a, db, refl, refl)
  continue-eq-ok (err e, db) f b h = absurd (err≢ok e b h)

  continue_lem {ℓ κ} :
      {A : Type ℓ} {B : Type κ} (p : Result Fault A × Db redis) (f : A → Script redis B)
      → elim p.0 as (λ r. Result Fault B × Db redis) [ ok a ↦ f a p.1 | err e ↦ (err e, p.1) ]
        ≡ continue p f
  continue_lem (ok a, db) f = refl
  continue_lem (err e, db) f = refl

  -- A block that succeeds went on from its first part.
  pub >>=-eq-ok {ℓ κ} :
      {A : Type ℓ} {B : Type κ} (m : Script redis A) (f : A → Script redis B) (db : Db redis)
      (b : B)
      → ((m >>= f) db).0 ≡ ok b
      → (a : A) × (db' : Db redis) × (m db ≡ (ok a, db')) × ((m >>= f) db ≡ f a db')
  >>=-eq-ok m f db b h =
      let same = continue_lem (m db) f in
      let inner = continue-eq-ok (m db) f b (sym (ap (λ p. p.0) same) ∙ h) in
      (inner.0, inner.1, inner.2, same ∙ inner.3)

module _ {redis : Redis} where
  -- A block goes on from a first part that succeeds.
  pub >>=-ok {ℓ κ} :
      {A : Type ℓ} {B : Type κ} (m : Script redis A) (f : A → Script redis B) (db db' : Db redis)
      (a : A)
      → m db ≡ (ok a, db')
      → (m >>= f) db ≡ f a db'
  >>=-ok m f db db' a h = continue_lem (m db) f ∙ ap (λ p. continue p f) h

module _ (redis : Redis) where
  open redis use {strings.{get, put, del}, hashes.{hget, hset, hdel}, sets.{sadd}, stream.{xadd}}

  abbrev pub set_string : Key → Stored → Script redis Done
  set_string k v db = (ok tt, record db { strings = put k v db.strings })

  abbrev pub hash_get : Key → Field → Script redis (Option Text)
  hash_get k f db = (ok (hget k f db.hashes), db)

  abbrev pub hash_set : Key → Field → Text → Script redis Done
  hash_set k f v db = (ok tt, record db { hashes = hset k f v db.hashes })

  -- HINCRBY: a missing field counts as 0; a text that is no number, or a sum that is no int64, is an
  -- error.
  unfoldable pub incremented : Option Text → ℤ → Result Fault ℤ
  incremented none d = if fits d then ok d else err out_of_range
  incremented (some (int z)) d = if fits (z +ℤ d) then ok (z +ℤ d) else err out_of_range
  incremented (some _) d = err not_a_number

  abbrev pub hash_incr : Key → Field → ℤ → Script redis ℤ
  hash_incr k f d db = elim (incremented (hget k f db.hashes) d) [
    | ok z ↦ (ok z, record db { hashes = hset k f (int z) db.hashes })
    | err e ↦ (err e, db)
  ]

  abbrev pub set_add : Key → Str → Script redis Done
  set_add k m db = (ok tt, record db { sets = sadd k m db.sets })

  abbrev pub emit : Entry → Script redis Done
  emit e db = (ok tt, record db { stream = xadd e db.stream })
