-- ===== src/Events/Message.antt =====
-- events/message.go: what a consumer takes from a message of a topic.
use call_it.Prelude.{
  ℕ, ◌^◌, ltb, pos, negsuc, ltb_ℤ, leb_ℤ, eqb_ℤ, Str, str_eq, List, [], ◌∷◌, length, Bool, not,
  Option, Result, Done, ok, err, ◌>>=◌, ◌>>◌, fail_if, or_err, if◌then◌else◌,
}
use call_it.Events.{
  EventPayout, WagerPlaced, RoundSettled, Event, wager_placed, round_settled, EventError,
  invalid_event, unknown_event_type, topic_wagers_placed, topic_rounds_settled,
}

abbrev pub max_message_bytes : ℕ
max_message_bytes = 2 ^ 20

abbrev pub max_payouts : ℕ
max_payouts = 10000

abbrev pub is_empty : Str → Bool
is_empty s = str_eq s []

unfoldable pub validate_wager_placed : WagerPlaced → Result EventError Done
validate_wager_placed w =
    fail_if (is_empty w.room_id) invalid_event
    >> fail_if (is_empty w.round_id) invalid_event
    >> fail_if (is_empty w.user_id) invalid_event
    >> fail_if (is_empty w.idempotency_key) invalid_event
    >> fail_if (leb_ℤ w.amount (pos 0)) invalid_event
    >> fail_if (ltb_ℤ w.outcome (pos 0)) invalid_event
    >> fail_if (ltb_ℤ w.balance (pos 0)) invalid_event

-- The loop over the payouts.
unfoldable pub validate_payouts : List EventPayout → Result EventError Done
validate_payouts [] = ok tt
validate_payouts (p ∷ ps) =
    let rest = validate_payouts ps in
    fail_if (is_empty p.user_id) invalid_event
    >> fail_if (leb_ℤ p.amount (pos 0)) invalid_event
    >> rest

unfoldable pub validate_ending : RoundSettled → Result EventError Done
validate_ending s =
    if s.refunded
    then (fail_if (not (eqb_ℤ s.winning_outcome (negsuc 0))) invalid_event
        >> fail_if (not (eqb_ℤ s.dust (pos 0))) invalid_event)
    else fail_if (ltb_ℤ s.winning_outcome (pos 0)) invalid_event

unfoldable pub validate_round_settled : RoundSettled → Result EventError Done
unfolding validate_payouts validate_ending
validate_round_settled s =
    fail_if (is_empty s.room_id) invalid_event
    >> fail_if (is_empty s.round_id) invalid_event
    >> fail_if (is_empty s.idempotency_key) invalid_event
    >> fail_if (ltb_ℤ s.total (pos 0)) invalid_event
    >> fail_if (ltb_ℤ s.dust (pos 0)) invalid_event
    >> fail_if (ltb max_payouts (length s.payouts)) invalid_event
    >> validate_payouts s.payouts
    >> validate_ending s

-- The strict decoders of `encoding/json` for the two types are parameters.
module _ (json_wager : Str → Option WagerPlaced) (json_settled : Str → Option RoundSettled) where
  unfoldable pub decode_message : Str → Str → Result EventError Event
  unfolding validate_wager_placed validate_round_settled
  decode_message topic value =
      if ltb max_message_bytes (length value)
      then err invalid_event
      else if str_eq topic topic_wagers_placed
      then (or_err (json_wager value) invalid_event >>= λ w.
          validate_wager_placed w >> ok (wager_placed w))
      else if str_eq topic topic_rounds_settled
      then (or_err (json_settled value) invalid_event >>= λ s.
          validate_round_settled s >> ok (round_settled s))
      else err unknown_event_type
