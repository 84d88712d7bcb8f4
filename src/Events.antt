-- ===== src/Events.antt =====
-- events/event.go and events/decode.go: the events of the outbox and how an entry of the stream is
-- decoded.
pub mod Message
pub mod Outbox
use call_it.Prelude.{
  ℤ, pos, negsuc, Str, bytes, str_eq, List, [], ◌∷◌, Bool, true, false, ◌≡◌, not, Option, none,
  some, Result, Done, ok, err, ◌>>=◌, ◌>>◌, if◌then◌else◌, fail_if,
}
use call_it.Redis.Keys.{Text, int, str, json_labels, json_payouts, is_str}
use call_it.Redis.Server.{Entry, fits}

abbrev pub topic_wagers_placed : Str
topic_wagers_placed = bytes "wagers-placed"

abbrev pub topic_rounds_settled : Str
topic_rounds_settled = bytes "rounds-settled"

pub record EventPayout : Type 0 where
  pub user_id : Str
  pub amount : ℤ

pub record WagerPlaced : Type 0 where
  pub room_id : Str
  pub round_id : Str
  pub user_id : Str
  pub idempotency_key : Str
  pub outcome : ℤ
  pub amount : ℤ
  pub balance : ℤ

pub record RoundSettled : Type 0 where
  pub room_id : Str
  pub round_id : Str
  pub idempotency_key : Str
  pub winning_outcome : ℤ
  pub total : ℤ
  pub dust : ℤ
  pub payouts : List EventPayout
  pub refunded : Bool

pub data Event : Type 0 where
  wager_placed : WagerPlaced → Event
  round_settled : RoundSettled → Event

-- `Topic`, `PartitionKey` and `Key`
unfoldable pub topic : Event → Str
topic (wager_placed e) = topic_wagers_placed
topic (round_settled e) = topic_rounds_settled

unfoldable pub partition_key : Event → Str
partition_key (wager_placed e) = e.room_id
partition_key (round_settled e) = e.room_id

unfoldable pub event_key : Event → Str
event_key (wager_placed e) = e.idempotency_key
event_key (round_settled e) = e.idempotency_key

-- `unknown_event_type` and `invalid_event` are the sentinels of the package.
pub data EventError : Type 0 where
  unknown_event_type invalid_event missing_field not_integer winner_of_refund not_json : EventError

-- The field of an entry; XADD is given each field once.
unfoldable pub field_of : Str → Entry → Option Text
field_of name [] = none
field_of name ((f, v) ∷ rest) = if str_eq f name then some v else field_of name rest

-- `json.Unmarshal` into `[]Payout`
unfoldable pub event_payouts : List (Str × ℤ) → List EventPayout
event_payouts [] = []
event_payouts ((user, amount) ∷ rest) =
    record { user_id = user; amount = amount } ∷ event_payouts rest

-- `text` gives the bytes of a value.
module _ (text : Text → Str) where
  unfoldable pub require_field : Entry → Str → Result EventError Text
  unfolding field_of
  require_field fields name = elim (field_of name fields) [
    | some v ↦ ok v
    | none ↦ err missing_field
  ]

  unfoldable pub require_text : Entry → Str → Result EventError Str
  unfolding require_field
  require_text fields name = require_field fields name >>= λ v. ok (text v)

  -- `strconv.ParseInt` into an int64.
  unfoldable pub parse_int_field : Entry → Str → Result EventError ℤ
  unfolding require_field
  parse_int_field fields name = require_field fields name >>= λ v. elim v [
    | int z ↦ if fits z then ok z else err not_integer
    | str _ ↦ err not_integer
    | json_labels _ ↦ err not_integer
    | json_payouts _ ↦ err not_integer
  ]

  unfoldable pub parse_payouts : Entry → Result EventError (List EventPayout)
  unfolding require_field event_payouts
  parse_payouts fields = require_field fields (bytes "payouts") >>= λ v. elim v [
    | json_payouts l ↦ ok (event_payouts l)
    | int _ ↦ err not_json
    | str _ ↦ err not_json
    | json_labels _ ↦ err not_json
  ]

  unfoldable pub decode_wager_placed : Entry → Result EventError Event
  unfolding require_text parse_int_field
  decode_wager_placed fields = do
    room_id ← require_text fields (bytes "room_id")
    round_id ← require_text fields (bytes "round_id")
    user_id ← require_text fields (bytes "user")
    idempotency_key ← require_text fields (bytes "idempotency_key")
    outcome ← parse_int_field fields (bytes "outcome")
    amount ← parse_int_field fields (bytes "amount")
    balance ← parse_int_field fields (bytes "balance")
    ok (
        wager_placed (record {
          room_id = room_id;
          round_id = round_id;
          user_id = user_id;
          idempotency_key = idempotency_key;
          outcome = outcome;
          amount = amount;
          balance = balance;
        }))

  -- A refund has no winner, which is -1, and its field is missing or empty.
  unfoldable pub decode_winner : Entry → Bool → Result EventError ℤ
  unfolding parse_int_field field_of
  decode_winner fields true = elim (field_of (bytes "winning_outcome") fields) [
    | none ↦ ok (negsuc 0)
    | some v ↦ if str_eq (text v) [] then ok (negsuc 0) else err winner_of_refund
  ]
  decode_winner fields false = parse_int_field fields (bytes "winning_outcome")

  unfoldable pub decode_round_settled : Entry → Bool → Result EventError Event
  unfolding require_text decode_winner parse_int_field parse_payouts
  decode_round_settled fields refunded = do
    room_id ← require_text fields (bytes "room_id")
    round_id ← require_text fields (bytes "round_id")
    idempotency_key ← require_text fields (bytes "idempotency_key")
    winning_outcome ← decode_winner fields refunded
    total ← parse_int_field fields (bytes "total")
    dust ← parse_int_field fields (bytes "dust")
    payouts ← parse_payouts fields
    ok (
        round_settled (record {
          room_id = room_id;
          round_id = round_id;
          idempotency_key = idempotency_key;
          winning_outcome = winning_outcome;
          total = total;
          dust = dust;
          payouts = payouts;
          refunded = refunded;
        }))

  -- `Decode`; a missing type is the empty string.
  unfoldable pub decode : Entry → Result EventError Event
  unfolding decode_wager_placed decode_round_settled field_of
  decode fields = elim (field_of (bytes "type") fields) [
    | none ↦ err unknown_event_type
    | some v ↦
        if str_eq (text v) (bytes "wager_placed")
        then decode_wager_placed fields
        else if str_eq (text v) (bytes "round_settled")
        then decode_round_settled fields false
        else if str_eq (text v) (bytes "round_refunded")
        then decode_round_settled fields true
        else err unknown_event_type
  ]
