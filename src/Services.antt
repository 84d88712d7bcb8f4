-- ===== src/Services.antt =====
-- What the services share: their errors, what they broadcast, and the state they act on.
pub mod Sessions
pub mod Wagers
pub mod Rounds
pub mod Rooms
pub mod Accounts
pub mod Grace
use call_it.Prelude.{ℤ, Str, List, [], ◌∷◌, ◌++◌, Bool, true, false, Result, Done, ok, err}
use call_it.Domain.Economy
use call_it.Domain.Payout.{PlayerResult}
use call_it.Redis.Server.{Redis, Db}
use call_it.Store.Errors.{StoreError}
use call_it.Store.Op.{Op}

-- The sentinels of wager/errors.go, round/errors.go, room/errors.go and account/service.go, with the
-- store's and the domain's; `rate_limited` and `quota` carry RetryAfter, and `no_current_round` is
-- ErrNoActiveRound of the package round.
pub data ServiceError : Type 0 where
  store_error : StoreError → ServiceError
  domain_error : Economy.Error → ServiceError
  rate_limited quota : ℤ → ServiceError
  bad_idempotency no_active_round no_current_round not_host invalid_spec round_in_progress :
      ServiceError
  code_exhausted no_randomness not_joinable email_taken invalid_credentials failed : ServiceError

-- The event of an envelope, before it is encoded.
pub data Message {ℓ} (Float : Type ℓ) : Type ℓ where
  odds_updated : Str → List ℤ → ℤ → List Float → Message Float
  round_opened : Str → Str → List Str → ℤ → Message Float
  round_locked : Str → Message Float
  round_resolved : Str → ℤ → List PlayerResult → ℤ → Bool → Message Float
  round_refunded : Str → ℤ → Message Float

-- The database, and what was broadcast to each room, in order.
pub record World {ℓ} (redis : Redis) (Float : Type ℓ) : Type ℓ where
  pub db : Db redis
  pub sent : List (Str × Message Float)

module _ {ℓ} (redis : Redis) (Float : Type ℓ) where
  abbrev pub Act {κ} : Type κ → Type (ℓ ⊔ κ)
  Act A = World redis Float → Result ServiceError A × World redis Float

module _ {ℓ} {redis : Redis} {Float : Type ℓ} where
  infixl 5 ◌>>=◌ ◌>>◌
  abbrev pub ◌>>=◌ {κ μ} :
      {A : Type κ} {B : Type μ} → Act redis Float A → (A → Act redis Float B) → Act redis Float B
  ◌>>=◌ m f w = let (r, w') = m w in elim r [ ok a ↦ f a w' | err e ↦ (err e, w') ]

  abbrev pub ◌>>◌ {κ μ} :
      {A : Type κ} {B : Type μ} → Act redis Float A → Act redis Float B → Act redis Float B
  m >> k = m >>= λ _. k

  abbrev pub pure {κ} : {A : Type κ} → A → Act redis Float A
  pure a w = (ok a, w)

  abbrev pub fail {κ} : {A : Type κ} → ServiceError → Act redis Float A
  fail e w = (err e, w)

  abbrev pub lift {κ} : {A : Type κ} → Result ServiceError A → Act redis Float A
  lift r w = (r, w)

  -- A guard: its failure is the error.
  abbrev pub require : Bool → ServiceError → Act redis Float Done
  require true e w = (ok tt, w)
  require false e w = (err e, w)

  -- A call of the store whose error is handed on.
  abbrev pub store {κ} : {A : Type κ} → Op redis A → Act redis Float A
  store m w =
      let (r, db') = m w.db in
      elim r [
        | ok a ↦ (ok a, record w { db = db' })
        | err e ↦ (err (store_error e), record w { db = db' })
      ]

  -- A call of the store whose error the caller looks at.
  abbrev pub try {κ} : {A : Type κ} → Op redis A → Act redis Float (Result StoreError A)
  try m w = let (r, db') = m w.db in (ok r, record w { db = db' })

  abbrev pub broadcast : Str → Message Float → Act redis Float Done
  broadcast room_id message w = (ok tt, record w { sent = w.sent ++ ((room_id, message) ∷ []) })
