-- ===== src/Ws/Newcomer.antt =====
-- What a newcomer receives, and what becomes of it in a crowded room.
use call_it.Prelude.{
  ℕ, ℤ, ◌≤◌, ==_iff, Str, List, [], ◌∷◌, length, Bool, true, false, not, Bool-cases, Option-cases,
  some, ◌≡◌, refl, ap, ◌∙◌, arith, inl, inr,
}
use call_it.Ws.Protocol.{Payload, connected}
use call_it.Ws.Channels.{Chan, put_at, has_space}
use call_it.Ws.Room.{Identity, Room, Sockets, is_member, add_member, members, count}
use call_it.Ws.Hub.{new_client, new_room, hub_join, room_of}
use call_it.Ws.Invariant.{Inv}
use call_it.Ws.Delivery.{broadcast-Delivers, got}
use call_it.Ws.Joining.{new_client-Inv, new_client-IsUnplaced}
use call_it.Ws.Registry.{hub_join-Inv}
use call_it.Auth.Token.{Claims}
use call_it.Ws.Handler.{Sessions, announce, undisturbed, welcome, connect, presence, identity_of}
use call_it.Ws.Welcome.{
  presences, offer_all, offer_all-full, send-Sent, greet-Sent, count-rooms, members-rooms,
}

-- The first message to a newcomer.
abbrev pub connected_of : Claims → ℤ → Payload
connected_of claims balance = connected (record {
  user_id = claims.user_id;
  display_name = claims.display_name;
  room_id = claims.room_id;
  guest = claims.guest;
  host = claims.host;
  balance = balance;
})

-- What is sent to it ahead of the broadcast.
abbrev pub greetings : Claims → ℤ → ℕ → Sockets → List Payload
greetings claims balance r s =
    connected_of claims balance ∷ presences claims.user_id (count r s) (members r s)

-- A channel that has just been made.
abbrev pub empty_chan : ℕ → Chan
empty_chan n = record { buffer = []; capacity = n; closed = false }

-- The channel and the membership of the newcomer after `welcome`.
welcome_lem :
    (claims : Claims) (balance : ℤ) (r c n : ℕ) (s : Sockets)
    → Inv s
    → (s.rooms r).ended ≡ false
    → is_member c (s.rooms r).members ≡ true
    → s.chans c ≡ empty_chan n
    → (s' : Sockets) × (welcome undisturbed claims balance r c s ≡ some s')
      × Inv s'
      × (s'.chans c
          ≡ got
              (presence (identity_of claims) (count r s))
              (offer_all (greetings claims balance r s) (empty_chan n)))
      × (is_member c (s'.rooms r).members
          ≡ has_space (offer_all (greetings claims balance r s) (empty_chan n)))
unfolding welcome announce
welcome_lem claims balance r c n s inv going there fresh =
    let opened : (s.chans c).closed ≡ false = ap (λ (ch : Chan). ch.closed) fresh in
    let (s1, e1, sent1, open1) = send-Sent c (connected_of claims balance) s inv opened in
    let (s2, e2, sent2) = greet-Sent 4 r c claims.user_id (members r s1) s1 sent1.inv open1 in
    let rooms : s2.rooms ≡ s.rooms = sent2.rooms ∙ sent1.rooms in
    let going2 : (s2.rooms r).ended ≡ false = ap (λ (f : ℕ → Room). (f r).ended) rooms ∙ going in
    let there2 : is_member c (s2.rooms r).members ≡ true =
      ap (λ (f : ℕ → Room). is_member c (f r).members) rooms ∙ there in
    let (s3, e3, inv3, effect) =
      broadcast-Delivers r (presence (identity_of claims) (count r s2)) s2 sent2.inv going2 in
    let lists : presences claims.user_id (count r s1) (members r s1)
        ≡ presences claims.user_id (count r s) (members r s) =
      ap (λ k. presences claims.user_id k (members r s1)) (count-rooms r s1 s sent1.rooms)
      ∙ ap (presences claims.user_id (count r s))
          (members-rooms r s1 s sent1.rooms sent1.identities) in
    let chan : s2.chans c ≡ offer_all (greetings claims balance r s) (empty_chan n) =
      sent2.chan
      ∙ (ap (offer_all (presences claims.user_id (count r s1) (members r s1))) sent1.chan
          ∙ (ap (λ l. offer_all l (offer_all (connected_of claims balance ∷ []) (s.chans c))) lists
              ∙ ap (offer_all (greetings claims balance r s)) fresh)) in
    (
      s3,
      rw (e1, e2, welcome) e3,
      inv3,
      effect.chans c
          ∙ (rw there2 refl
              ∙ (ap (λ k. got (presence (identity_of claims) k) (s2.chans c))
                    (count-rooms r s2 s rooms)
                  ∙ ap (got (presence (identity_of claims) (count r s))) chan)),
      effect.members r c
          ∙ (rw (there2, (==_iff r r).1 refl) (not-not (has_space (s2.chans c)))
              ∙ ap has_space chan),
    )
  where
    not-not : (b : Bool) → not (not b) ≡ b
    not-not true = refl
    not-not false = refl

hub_join-kept :
    (id : Str) (c : ℕ) (s : Sockets)
    → ((hub_join id c s).1.chans ≡ s.chans) × ((hub_join id c s).1.identities ≡ s.identities)
unfolding hub_join new_room add_member
hub_join-kept id c s = elim (Option-cases (room_of id s.registry)) [
  | inr (r, found) ↦ elim (Bool-cases (is_member c (s.rooms r).members)) [
    | inl there ↦ rw (found, there, hub_join, add_member) (refl, refl)
    | inr absent ↦ rw (found, absent, hub_join, add_member) (refl, refl)
  ]
  | inl absent ↦
      elim (Bool-cases (
        is_member c
          ((put_at s.rooms s.created (record { id = id; members = []; ended = false }))
            s.created).members)) [
              | inl there ↦ rw (absent, there, hub_join, add_member) (refl, refl)
              | inr new ↦ rw (absent, new, hub_join, add_member) (refl, refl)
            ]
]

new_client-chan :
    (identity : Identity) (n : ℕ) (s : Sockets)
    → (new_client identity n s).1.chans (new_client identity n s).0 ≡ empty_chan n
unfolding new_client
new_client-chan identity n s = rw ((==_iff s.clients s.clients).1 refl) refl

module _ (sessions : Sessions) (n : ℕ) (claims : Claims) (s : Sockets) (t : sessions.T) where
  -- The new client, and the room that it joins with the state in which it is a member.
  abbrev pub newcomer : ℕ
  newcomer = (new_client (identity_of claims) n s).0

  abbrev pub joined : ℕ × Sockets
  joined = hub_join claims.room_id newcomer (new_client (identity_of claims) n s).1

  abbrev pub resumed : sessions.T
  resumed = sessions.resume_session claims.room_id claims.user_id t

  abbrev pub first_messages : List Payload
  first_messages =
      greetings claims (sessions.balance claims.room_id claims.user_id resumed) joined.0 joined.1

  connect_lem :
      Inv s
      → (s' : Sockets) × (connect sessions undisturbed n claims s t
          ≡ some ((joined.0, newcomer), s', resumed))
        × (s'.chans newcomer
            ≡ got
                (presence (identity_of claims) (count joined.0 joined.1))
                (offer_all first_messages (empty_chan n)))
        × (is_member newcomer (s'.rooms joined.0).members
            ≡ has_space (offer_all first_messages (empty_chan n)))
  unfolding connect
  connect_lem inv =
      let s1 = (new_client (identity_of claims) n s).1 in
      let (inv2, found, there) =
        hub_join-Inv claims.room_id newcomer s1 (new_client-Inv (identity_of claims) n s inv)
          (new_client-IsUnplaced (identity_of claims) n s inv) in
      let fresh : joined.1.chans newcomer ≡ empty_chan n =
        ap (λ (f : ℕ → Chan). f newcomer) (hub_join-kept claims.room_id newcomer s1).0
        ∙ new_client-chan (identity_of claims) n s in
      let (s', e, _, chan, member) =
        welcome_lem claims (sessions.balance claims.room_id claims.user_id resumed) joined.0
          newcomer n joined.1 inv2 (inv2.live claims.room_id joined.0 found).0 there fresh in
      (s', rw (e, connect) refl, chan, member)

  -- If nothing comes in between, a newcomer whose channel is filled by the connected message and the
  -- messages about the other members is evicted by the broadcast of its own arrival: its channel is
  -- closed and it is not in the room.
  pub connect_crowded :
      Inv s
      → n ≤ length first_messages
      → (s' : Sockets) × (connect sessions undisturbed n claims s t
          ≡ some ((joined.0, newcomer), s', resumed))
        × ((s'.chans newcomer).closed ≡ true)
        × (is_member newcomer (s'.rooms joined.0).members ≡ false)
  connect_crowded inv full =
      let (s', e, chan, member) = connect_lem inv in
      let none_left = offer_all-full first_messages (empty_chan n) (omega arith) in
      (s', e, ap (λ (ch : Chan). ch.closed) chan ∙ rw none_left refl, member ∙ none_left)
