-- ===== src/Store/Op.antt =====
-- A method of redisstore.Store: it acts on the database and returns a value or an error.
use call_it.Prelude.{ap, ◌≡◌, Result, ok, err, Option, some, List, [], Str, ℤ}
use call_it.Redis.Keys.{Text, int, str, json_labels}
use call_it.Redis.Server.{Redis, Db}
use call_it.Redis.Script.{Fault, Script}
use call_it.Store.Errors.{StoreError, malformed, server}

module _ (redis : Redis) where
  abbrev pub Op {ℓ} : Type ℓ → Type ℓ
  Op A = Db redis → Result StoreError A × Db redis

module _ {redis : Redis} where
  infixl 5 ◌>>=◌ ◌>>◌
  abbrev pub ◌>>=◌ {ℓ κ} : {A : Type ℓ} {B : Type κ} → Op redis A → (A → Op redis B) → Op redis B
  ◌>>=◌ m f db = let (r, db') = m db in elim r [ ok a ↦ f a db' | err e ↦ (err e, db') ]

  abbrev pub ◌>>◌ {ℓ κ} : {A : Type ℓ} {B : Type κ} → Op redis A → Op redis B → Op redis B
  m >> k = m >>= λ _. k

  abbrev pub pure {ℓ} : {A : Type ℓ} → A → Op redis A
  pure a db = (ok a, db)

  abbrev pub fail {ℓ} : {A : Type ℓ} → StoreError → Op redis A
  fail e db = (err e, db)

  -- A result that needs no database.
  abbrev pub lift {ℓ} : {A : Type ℓ} → Result StoreError A → Op redis A
  lift r db = (r, db)

  abbrev after {ℓ κ} :
      {A : Type ℓ} {B : Type κ}
      → Result Fault A × Db redis
      → (A → Op redis B)
      → Result StoreError B × Db redis
  after {A = A} {B = B} p f =
      let q = elim p.0 as (λ r. Result StoreError A × Db redis) [
        | ok a ↦ (ok a, p.1)
        | err e ↦ (err (server e), p.1)
      ] in
      elim q.0 as (λ r. Result StoreError B × Db redis) [ ok a ↦ f a q.1 | err e ↦ (err e, q.1) ]

  -- `script.Run`: an error of the server becomes the caller's.
  abbrev pub run {ℓ} : {A : Type ℓ} → Script redis A → Op redis A
  run m db = let (r, db') = m db in elim r [ ok a ↦ (ok a, db') | err e ↦ (err (server e), db') ]

  abbrev continued {ℓ κ} :
      {A : Type ℓ} {B : Type κ}
      → Result StoreError A × Db redis
      → (A → Op redis B)
      → Result StoreError B × Db redis
  continued {A = A} {B = B} p f = elim p.0 as (λ r. Result StoreError B × Db redis) [
    | ok a ↦ f a p.1
    | err e ↦ (err e, p.1)
  ]

  -- A method goes on from a call that succeeds.
  pub >>=-ok {ℓ κ} :
      {A : Type ℓ} {B : Type κ} (m : Op redis A) (f : A → Op redis B) (db db' : Db redis) (a : A)
      → m db ≡ (ok a, db')
      → (m >>= f) db ≡ f a db'
  >>=-ok m f db db' a h = ap (λ p. continued p f) h

  -- A script that answers is gone on from.
  pub run-ok {ℓ κ} :
      {A : Type ℓ} {B : Type κ} (m : Script redis A) (f : A → Op redis B) (db db' : Db redis)
      (a : A)
      → m db ≡ (ok a, db')
      → (run m >>= f) db ≡ f a db'
  run-ok m f db db' a h = ap (λ p. after p f) h

  abbrev pub gets {ℓ} : {A : Type ℓ} → (Db redis → A) → Op redis A
  gets f db = (ok (f db), db)

-- A number in a reply or a hash; the text of a missing field is empty, and does not parse.
abbrev pub require_int : Option Text → Result StoreError ℤ
require_int (some (int z)) = ok z
require_int _ = err malformed

abbrev pub text_int : Text → Result StoreError ℤ
text_int (int z) = ok z
text_int _ = err malformed

-- A field read as a string; a missing one is the empty string.
abbrev pub field_str : Option Text → Str
field_str (some (str s)) = s
field_str _ = []

abbrev pub require_labels : Option Text → Result StoreError (List Str)
require_labels (some (json_labels l)) = ok l
require_labels _ = err malformed
