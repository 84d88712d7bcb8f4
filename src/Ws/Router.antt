-- ===== src/Ws/Router.antt =====
-- ws/router.go: which service a message of a client reaches, and the answer to the client. The services
-- are a record, as in the source; JSON is a parameter, and so are the texts of errors.
pub mod Private
pub mod Sealed
pub mod Game
pub mod Local
use call_it.Prelude.{
  ◌∷◌, drop, length, ℕ, ℤ, pos, Str, bytes, str_eq, List, [], ◌++◌, Option, none, some, Result, ok,
  err, mul64, if◌then◌else◌,
}
use call_it.Domain.Economy
use call_it.Domain.Economy.{Tokens}
use call_it.Domain.Payout.{Settlement}
use call_it.Store.Errors.{StoreError, host_cannot_bet, pool_locked, not_in_room}
use call_it.Store.PlaceWager.{WagerRequest}
use call_it.Services.{
  ServiceError, store_error, domain_error, rate_limited, bad_idempotency, no_active_round, not_host,
  invalid_spec, round_in_progress,
}
use call_it.Services.Rounds.{RoundSpec, Opened}
use call_it.Ws.Protocol.{Envelope, Payload, encoded, wager_accepted, error_reply}
use call_it.Ws.Room.{Sockets}
use call_it.Ws.Hub.{hub_broadcast}
use call_it.Ws.Client.{send}

-- What the router needs of the packages round and wager, on their state: `Open`, `Resolve`, and of
-- `Accepted` the round and the balance. `sent` is all that they have broadcast, by room and in order.
pub record GameServices (W : Type 0) : Type 0 where
  pub open_round : Str → Str → RoundSpec → W → Result ServiceError Opened × W
  pub resolve : Str → Str → ℤ → W → Result ServiceError Settlement × W
  pub place : WagerRequest → W → Result ServiceError (Str × Tokens) × W
  pub sent : W → List (Str × Str)

pub record CreateRoundPayload : Type 0 where
  pub question : Str
  pub outcomes : List Str
  pub lock_in_ms : ℤ

pub record PlaceWagerPayload : Type 0 where
  pub outcome : ℤ
  pub amount : ℤ
  pub idempotency_key : Str

-- `json.Unmarshal` into each payload, and the text of an error.
pub record Texts : Type 0 where
  pub create_round_json : Str → Option CreateRoundPayload
  pub place_wager_json : Str → Option PlaceWagerPayload
  pub resolve_round_json : Str → Option ℤ
  pub error_text : ServiceError → Str

-- The codes of the table; `none` is the default case, which logs the error.
unfoldable pub domain_code : Economy.Error → Option Str
domain_code Economy.Error.insufficient_funds = some (bytes "insufficient_funds")
domain_code Economy.Error.invalid_outcome = some (bytes "invalid_outcome")
domain_code _ = none

unfoldable pub store_code : StoreError → Option Str
unfolding domain_code
store_code host_cannot_bet = some (bytes "host_cannot_bet")
store_code pool_locked = some (bytes "pool_locked")
store_code not_in_room = some (bytes "not_in_room")
store_code (StoreError.domain e) = domain_code e
store_code _ = none

unfoldable pub service_code : ServiceError → Option Str
unfolding domain_code store_code
service_code (store_error e) = store_code e
service_code (domain_error e) = domain_code e
service_code not_host = some (bytes "not_host")
service_code invalid_spec = some (bytes "invalid_spec")
service_code round_in_progress = some (bytes "round_in_progress")
service_code no_active_round = some (bytes "no_active_round")
service_code bad_idempotency = some (bytes "bad_idempotency_key")
service_code (rate_limited _) = some (bytes "rate_limited")
service_code _ = none

unfoldable pub service_reply : Texts → ServiceError → Payload
unfolding service_code
service_reply texts e = elim (service_code e) [
  | some code ↦ error_reply (record { code = code; message = texts.error_text e })
  | none ↦
      error_reply
        (record { code = bytes "internal_error"; message = bytes "an internal error occurred" })
]

unfoldable pub malformed_reply : Str → Payload
malformed_reply kind = error_reply (record {
  code = bytes "malformed";
  message = bytes "malformed " ++ (kind ++ bytes " payload");
})

-- The broadcasts of a service, which the hub takes in order.
unfoldable pub deliver : List (Str × Str) → Sockets → Option Sockets
unfolding hub_broadcast
deliver [] s = some s
deliver ((room_id, message) ∷ rest) s = elim (hub_broadcast room_id (encoded message) s) [
  | none ↦ none
  | some s' ↦ deliver rest s'
]

-- The cases of `Handle`: what a client of a room is answered, if it is answered, and the services' state.
-- A millisecond of the lock window is a million of the nanoseconds of an int64.
module _ {W : Type 0} (services : GameServices W) (texts : Texts) (room_id user_id : Str) where
  unfoldable pub answer_create_round : Str → W → Option Payload × W
  unfolding service_reply malformed_reply
  answer_create_round content w = elim (texts.create_round_json content) [
    | none ↦ (some (malformed_reply (bytes "create_round")), w)
    | some p ↦
        let spec : RoundSpec = record {
          question = p.question;
          outcomes = p.outcomes;
          lock_in = mul64 p.lock_in_ms (pos 1000000);
        } in
        let (r, w') = services.open_round room_id user_id spec w in
        elim r [ ok _ ↦ (none, w') | err e ↦ (some (service_reply texts e), w') ]
  ]

  unfoldable pub answer_place_wager : Str → W → Option Payload × W
  unfolding service_reply malformed_reply
  answer_place_wager content w = elim (texts.place_wager_json content) [
    | none ↦ (some (malformed_reply (bytes "place_wager")), w)
    | some p ↦
        let req : WagerRequest = record {
          room_id = room_id;
          round_id = [];
          user_id = user_id;
          outcome = p.outcome;
          amount = p.amount;
          idempotency_key = p.idempotency_key;
        } in
        let (r, w') = services.place req w in
        elim r [
          | err e ↦ (some (service_reply texts e), w')
          | ok (round_id, balance) ↦ (
            some (
                wager_accepted (record {
                  round_id = round_id;
                  outcome = p.outcome;
                  amount = p.amount;
                  balance = balance;
                })),
            w',
          )
        ]
  ]

  unfoldable pub answer_resolve_round : Str → W → Option Payload × W
  unfolding service_reply malformed_reply
  answer_resolve_round content w = elim (texts.resolve_round_json content) [
    | none ↦ (some (malformed_reply (bytes "resolve_round")), w)
    | some winning ↦
        let (r, w') = services.resolve room_id user_id winning w in
        elim r [ ok _ ↦ (none, w') | err e ↦ (some (service_reply texts e), w') ]
  ]

  unfoldable pub answer : Envelope → W → Option Payload × W
  unfolding answer_create_round answer_place_wager answer_resolve_round
  answer e w =
      if str_eq e.kind (bytes "create_round")
      then answer_create_round e.content w
      else if str_eq e.kind (bytes "place_wager")
      then answer_place_wager e.content w
      else if str_eq e.kind (bytes "resolve_round")
      then answer_resolve_round e.content w
      else (
        some (
            error_reply (record {
              code = bytes "unknown_type";
              message = bytes "unsupported message type: " ++ e.kind;
            })),
        w,
      )

  -- `Handle`, for the client `c`; `none` is a panic. What the service broadcasts reaches the hub before
  -- the answer is sent.
  unfoldable pub handle : ℕ → Envelope → Sockets → W → Option (Sockets × W)
  unfolding answer deliver send
  handle c e s w =
      let (reply, w') = answer e w in
      let news = drop (length (services.sent w)) (services.sent w') in
      elim (deliver news s) [
        | none ↦ none
        | some s1 ↦ elim reply [
          | none ↦ some (s1, w')
          | some p ↦ elim (send c p s1) [ none ↦ none | some s2 ↦ some (s2, w') ]
        ]
      ]
