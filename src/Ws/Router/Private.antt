-- ===== src/Ws/Router/Private.antt =====
-- ws/router.go: whom a message reaches.
use call_it.Prelude.{
  All, List, ◌∷◌, drop, length, sym, ap, ◌∙◌, ℕ, ℤ, Str, bytes, str_eq, [], Bool, true, false,
  Option, none, some, ◌≡◌, inl, inr, refl, arith, mul64, pos, if◌then◌else◌, Option-cases,
  Result-cases,
}
use call_it.Store.PlaceWager.{WagerRequest}
use call_it.Services.Rounds.{RoundSpec}
use call_it.Ws.Protocol.{encoded, Envelope, Payload}
use call_it.Ws.Channels.{try_send, Chan, has_space, pushed, put_at}
use call_it.Ws.Room.{Sockets, is_member}
use call_it.Ws.Client.{send}
use call_it.Ws.Hub.{room_of, hub_broadcast}
use call_it.Ws.Invariant.{Inv}
use call_it.Ws.Delivery.{broadcast-Delivers}
use call_it.Ws.Router.{
  deliver, GameServices, Texts, answer_create_round, answer_place_wager, answer_resolve_round,
  answer, handle,
}

-- The channel of a client that got its answer, if there is one; it is dropped where there is no space.
abbrev pub told : Option Payload → Chan → Chan
told none ch = ch
told (some p) ch = if has_space ch then pushed p ch else ch

module _ {W : Type 0} (services : GameServices W) (room_id user_id : Str) where
  -- At most one call of a service, in the client's room and in its name.
  pub data Acts (w w' : W) : Type 0 where
    nothing : w' ≡ w → Acts w w'
    opens : (spec : RoundSpec) → w' ≡ (services.open_round room_id user_id spec w).1 → Acts w w'
    resolves : (winning : ℤ) → w' ≡ (services.resolve room_id user_id winning w).1 → Acts w w'
    places :
        (req : WagerRequest)
        → req.room_id ≡ room_id
        → req.user_id ≡ user_id
        → w' ≡ (services.place req w).1
        → Acts w w'

  if-Acts :
      (w : W) (b : Bool) (x y : Option Payload × W)
      → Acts w x.1
      → Acts w y.1
      → Acts w (if b then x else y).1
  if-Acts w true x y h k = h
  if-Acts w false x y h k = k

  module _ (texts : Texts) where
    answer_create_round-Acts :
        (content : Str) (w : W)
        → Acts w (answer_create_round services texts room_id user_id content w).1
    unfolding answer_create_round
    answer_create_round-Acts content w = elim (Option-cases (texts.create_round_json content)) [
      | inl bad ↦ nothing (ground arith)
      | inr (p, read) ↦
          let spec : RoundSpec = record {
            question = p.question;
            outcomes = p.outcomes;
            lock_in = mul64 p.lock_in_ms (pos 1000000);
          } in
          elim (Result-cases (services.open_round room_id user_id spec w).0) [
            | inl (o, done) ↦ opens spec (ground arith)
            | inr (e, failed) ↦ opens spec (ground arith)
          ]
    ]

    answer_place_wager-Acts :
        (content : Str) (w : W)
        → Acts w (answer_place_wager services texts room_id user_id content w).1
    unfolding answer_place_wager
    answer_place_wager-Acts content w = elim (Option-cases (texts.place_wager_json content)) [
      | inl bad ↦ nothing (ground arith)
      | inr (p, read) ↦
          let req : WagerRequest = record {
            room_id = room_id;
            round_id = [];
            user_id = user_id;
            outcome = p.outcome;
            amount = p.amount;
            idempotency_key = p.idempotency_key;
          } in
          elim (Result-cases (services.place req w).0) [
            | inl (accepted, done) ↦ places req refl refl (ground arith)
            | inr (e, failed) ↦ places req refl refl (ground arith)
          ]
    ]

    answer_resolve_round-Acts :
        (content : Str) (w : W)
        → Acts w (answer_resolve_round services texts room_id user_id content w).1
    unfolding answer_resolve_round
    answer_resolve_round-Acts content w = elim (Option-cases (texts.resolve_round_json content)) [
      | inl bad ↦ nothing (ground arith)
      | inr (winning, read) ↦ elim (Result-cases (services.resolve room_id user_id winning w).0) [
        | inl (settlement, done) ↦ resolves winning (ground arith)
        | inr (e, failed) ↦ resolves winning (ground arith)
      ]
    ]

    pub answer-Acts : (e : Envelope) (w : W) → Acts w (answer services texts room_id user_id e w).1
    unfolding answer
    answer-Acts e w =
        if-Acts w (str_eq e.kind (bytes "create_round")) _ _ (answer_create_round-Acts e.content w)
          (if-Acts w (str_eq e.kind (bytes "place_wager")) _ _ (answer_place_wager-Acts e.content w)
            (if-Acts w (str_eq e.kind (bytes "resolve_round")) _ _
              (answer_resolve_round-Acts e.content w) (nothing refl)))

    -- A client that is in no room that the hub has under the ID.
    abbrev pub Outside : ℕ → Sockets → Type 0
    Outside d s =
        (r : ℕ) → room_of room_id s.registry ≡ some r → is_member d (s.rooms r).members ≡ false

    -- Broadcasts to the room do not panic, and reach nobody outside.
    deliver_lem :
        (news : List (Str × Str)) (s : Sockets)
        → Inv s
        → All (λ n. n.0 ≡ room_id) news
        → (s' : Sockets) × (deliver news s ≡ some s')
          × Inv s'
          × ((d : ℕ) → Outside d s → s'.chans d ≡ s.chans d)
    unfolding deliver hub_broadcast
    deliver_lem [] s inv here = (s, refl, inv, λ d out. refl)
    deliver_lem ((id, message) ∷ news) s inv (here, rest) =
        elim (Option-cases (room_of id s.registry)) [
          | inl absent ↦
              let (s', e, inv', kept) = deliver_lem news s inv rest in
              (s', rw (absent, deliver, hub_broadcast) e, inv', kept)
          | inr (r, found) ↦
              let (s1, e1, inv1, effect) =
                broadcast-Delivers r (encoded message) s inv (inv.live id r found).0 in
              let (s2, e2, inv2, kept) = deliver_lem news s1 inv1 rest in
              (
                s2,
                rw (found, deliver, hub_broadcast) (rw e1 e2),
                inv2,
                λ d out.
                    kept d (λ q at.
                      let before = out q (ap (room_of room_id) (sym effect.registry) ∙ at) in
                      effect.members q d ∙ rw before refl)
                    ∙ (effect.chans d
                        ∙ rw (out r (ap (λ k. room_of k s.registry) (sym here) ∙ found)) refl),
              )
        ]

    -- What is left to do for an answer after the broadcasts: a channel that they closed makes it panic.
    abbrev pub finish : ℕ → Option Payload → W → Sockets → Option (Sockets × W)
    finish c none w s = some (s, w)
    finish c (some p) w s =
        if (s.chans c).closed
        then none
        else some (record s { chans = put_at s.chans c (told (some p) (s.chans c)) }, w)

    finish_lem :
        (c : ℕ) (reply : Option Payload) (w : W) (s : Sockets)
        → elim reply [
          | none ↦ some (s, w)
          | some p ↦ elim (send c p s) [ none ↦ none | some s2 ↦ some (s2, w) ]
        ]
          ≡ finish c reply w s
    unfolding send try_send
    finish_lem c none w s = refl
    finish_lem c (some p) w s = ground arith

    -- The services broadcast to the room of the client only.
    abbrev pub IsLocal : Envelope → W → Type 0
    IsLocal e w =
        All (λ n. n.0 ≡ room_id)
          (drop (length (services.sent w))
            (services.sent (answer services texts room_id user_id e w).1))

    -- A message of a client, handled by services that broadcast to the client's room only: at most one of
    -- them is called, the channels outside the room stay, and the answer goes to the sender alone.
    pub handle-Private :
        (c : ℕ) (e : Envelope) (s : Sockets) (w : W)
        → Inv s
        → IsLocal e w
        → let out = answer services texts room_id user_id e w in
          (s1 : Sockets) × Inv s1
          × ((d : ℕ) → Outside d s → s1.chans d ≡ s.chans d)
          × (handle services texts room_id user_id c e s w ≡ finish c out.0 out.1 s1)
          × Acts w out.1
    unfolding handle
    handle-Private c e s w inv here =
        let out = answer services texts room_id user_id e w in
        let news = drop (length (services.sent w)) (services.sent out.1) in
        let (s1, done, inv1, kept) = deliver_lem news s inv here in
        (s1, inv1, kept, rw (done, handle) (finish_lem c out.0 out.1 s1), answer-Acts e w)
