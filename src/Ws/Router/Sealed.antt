-- ===== src/Ws/Router/Sealed.antt =====
-- ws/router.go: which errors a client may learn of.
use call_it.Prelude.{
  pos, mul64, Str, bytes, str_eq, [], Bool, true, false, some, ◌≡◌, inl, inr, refl, arith,
  if◌then◌else◌, Option-cases, Result-cases,
}
use call_it.Store.PlaceWager.{WagerRequest}
use call_it.Services.{ServiceError}
use call_it.Services.Rounds.{RoundSpec}
use call_it.Ws.Protocol.{Envelope}
use call_it.Ws.Router.{
  service_code, service_reply, GameServices, Texts, answer_create_round, answer_place_wager,
  answer_resolve_round, answer,
}

abbrev pub retold : Texts → (ServiceError → Str) → Texts
retold texts other = record texts { error_text = other }

-- The two give each error that has a code the same text.
abbrev pub SameTexts : Texts → (ServiceError → Str) → Type 0
SameTexts texts other =
    (e : ServiceError) (code : Str) → service_code e ≡ some code → texts.error_text e ≡ other e

if-sealed {ℓ} :
    {A : Type ℓ} (b : Bool) {x x' y y' : A}
    → x ≡ x'
    → y ≡ y'
    → (if b then x else y) ≡ (if b then x' else y')
if-sealed true h k = h
if-sealed false h k = k

module _ {W : Type 0} (services : GameServices W) (texts : Texts) (other : ServiceError → Str)
    (same : SameTexts texts other) (room_id user_id : Str) where
  service_reply-sealed :
      (e : ServiceError) → service_reply texts e ≡ service_reply (retold texts other) e
  unfolding service_reply
  service_reply-sealed e = elim (Option-cases (service_code e)) [
    | inl unmapped ↦ ground arith
    | inr (code, mapped) ↦ let t = same e code mapped in ground arith
  ]

  answer_create_round-sealed :
      (content : Str) (w : W)
      → answer_create_round services texts room_id user_id content w
        ≡ answer_create_round services (retold texts other) room_id user_id content w
  unfolding answer_create_round
  answer_create_round-sealed content w = elim (Option-cases (texts.create_round_json content)) [
    | inl bad ↦ ground arith
    | inr (p, read) ↦
        let spec : RoundSpec = record {
          question = p.question;
          outcomes = p.outcomes;
          lock_in = mul64 p.lock_in_ms (pos 1000000);
        } in
        elim (Result-cases (services.open_round room_id user_id spec w).0) [
          | inl (done, good) ↦ ground arith
          | inr (e, bad) ↦ let t = service_reply-sealed e in ground arith
        ]
  ]

  answer_place_wager-sealed :
      (content : Str) (w : W)
      → answer_place_wager services texts room_id user_id content w
        ≡ answer_place_wager services (retold texts other) room_id user_id content w
  unfolding answer_place_wager
  answer_place_wager-sealed content w = elim (Option-cases (texts.place_wager_json content)) [
    | inl bad ↦ ground arith
    | inr (p, read) ↦
        let req : WagerRequest = record {
          room_id = room_id;
          round_id = [];
          user_id = user_id;
          outcome = p.outcome;
          amount = p.amount;
          idempotency_key = p.idempotency_key;
        } in
        elim (Result-cases (services.place req w).0) [
          | inl (done, good) ↦ ground arith
          | inr (e, bad) ↦ let t = service_reply-sealed e in ground arith
        ]
  ]

  answer_resolve_round-sealed :
      (content : Str) (w : W)
      → answer_resolve_round services texts room_id user_id content w
        ≡ answer_resolve_round services (retold texts other) room_id user_id content w
  unfolding answer_resolve_round
  answer_resolve_round-sealed content w = elim (Option-cases (texts.resolve_round_json content)) [
    | inl bad ↦ ground arith
    | inr (p, read) ↦ elim (Result-cases (services.resolve room_id user_id p w).0) [
      | inl (done, good) ↦ ground arith
      | inr (e, bad) ↦ let t = service_reply-sealed e in ground arith
    ]
  ]

  -- The answer to a message, and what the services do, are the same under any other texts of the errors
  -- that have no code: of such an error a client learns nothing. The errors that have a code keep their
  -- texts.
  pub answer-sealed :
      (e : Envelope) (w : W)
      → answer services texts room_id user_id e w
        ≡ answer services (retold texts other) room_id user_id e w
  unfolding answer
  answer-sealed e w =
      if-sealed (str_eq e.kind (bytes "create_round")) (answer_create_round-sealed e.content w) (
        if-sealed (str_eq e.kind (bytes "place_wager")) (answer_place_wager-sealed e.content w) (
          if-sealed (str_eq e.kind (bytes "resolve_round"))
            (answer_resolve_round-sealed e.content w) refl))
