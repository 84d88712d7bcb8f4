-- ===== src/Events/Outbox.antt =====
-- The entries that the scripts append to the outbox decode to the events they stand for.
use call_it.Prelude.{
  ℤ, pos, pos_part, neg_part, ◌+◌, ◌<◌, ◌^◌, arith, negsuc, Str, bytes, str_eq, ◌≡◌, refl, ok, true,
  false, List, [], ◌∷◌, map, ap, Bool,
}
use call_it.Redis.Keys.{Text, int, str}
use call_it.Redis.Server.{Redis, fits}
use call_it.Domain.Payout.{Payout}
use call_it.Store.PlaceWager.{WagerRequest, wager_entry}
use call_it.Store.Settle.{SettleArgs, settle_entry}
use call_it.Events.{EventPayout, Event, wager_placed, round_settled, event_payouts, decode}

-- The payouts of a settlement as the event has them.
abbrev pub sent_payouts : List Payout → List EventPayout
sent_payouts ps = map (λ p. record { user_id = p.user_id; amount = p.amount }) ps

event_payouts-map :
    (ps : List Payout) → event_payouts (map (λ p. (p.user_id, p.amount)) ps) ≡ sent_payouts ps
unfolding event_payouts
event_payouts-map [] = refl
event_payouts-map (p ∷ ps) =
    ap (λ l. record { user_id = p.user_id; amount = p.amount } ∷ l) (event_payouts-map ps)

-- Below 10 ^ 14, where Lua writes a number as an integer.
abbrev pub IsPlain : ℤ → Type 0
IsPlain z = pos_part z + neg_part z < 10 ^ 14

plain-fits : (z : ℤ) → IsPlain z → fits z ≡ true
plain-fits (pos n) h = ground arith
plain-fits (negsuc n) h = ground arith

-- The outbox entry of a wager whose amount and balance are below 10 ^ 14, and whose outcome is an int64,
-- decodes to the wager, with its balance and its key. `text` gives the bytes of a value.
pub decode-wager_entry :
    (redis : Redis) (text : Text → Str) (req : WagerRequest) (balance : ℤ)
    → ((s : Str) → text (str s) ≡ s)
    → IsPlain req.amount
    → IsPlain balance
    → fits req.outcome ≡ true
    → decode text (wager_entry redis req balance)
      ≡ ok (
          wager_placed (record {
            room_id = req.room_id;
            round_id = req.round_id;
            user_id = req.user_id;
            idempotency_key = req.idempotency_key;
            outcome = req.outcome;
            amount = req.amount;
            balance = balance;
          }))
unfolding decode str_eq
decode-wager_entry redis text req balance h small left index =
    let amount = plain-fits req.amount small in
    let rest = plain-fits balance left in
    let amount_is = redis.lua.tostring-int req.amount (ground arith) in
    let balance_is = redis.lua.tostring-int balance (ground arith) in
    simp (h, amount_is, balance_is, amount, rest, index) refl

-- The event that a terminal script's entry stands for.
abbrev pub sent_settlement : SettleArgs → ℤ → Bool → Event
sent_settlement args winning refunded = round_settled (record {
  room_id = args.room_id;
  round_id = args.round_id;
  idempotency_key = args.idempotency_key;
  winning_outcome = winning;
  total = args.total;
  dust = args.dust;
  payouts = sent_payouts args.payouts;
  refunded = refunded;
})

-- The outbox entry of a settlement decodes to the settlement with its winner, and with the payouts
-- in order. `text` gives the bytes of a value.
pub decode-settled_entry :
    (text : Text → Str) (args : SettleArgs) (winning : ℤ)
    → ((s : Str) → text (str s) ≡ s)
    → args.resolved_outcome ≡ int winning
    → fits winning ≡ true
    → fits args.total ≡ true
    → fits args.dust ≡ true
    → decode text (settle_entry (bytes "round_settled") args)
      ≡ ok (sent_settlement args winning false)
unfolding decode str_eq
decode-settled_entry text args winning h e w t d =
    rw (← event_payouts-map args.payouts) (simp (h, e, w, t, d) refl)

-- The outbox entry of a refund, whose outcome is empty, decodes to the refund with -1 for its winner.
pub decode-refunded_entry :
    (text : Text → Str) (args : SettleArgs)
    → ((s : Str) → text (str s) ≡ s)
    → args.resolved_outcome ≡ str []
    → fits args.total ≡ true
    → fits args.dust ≡ true
    → decode text (settle_entry (bytes "round_refunded") args)
      ≡ ok (sent_settlement args (negsuc 0) true)
unfolding decode str_eq
decode-refunded_entry text args h e t d =
    rw (← event_payouts-map args.payouts) (simp (h, e, t, d) refl)
