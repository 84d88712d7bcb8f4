-- ===== src/Ws/Steps.antt =====
-- The goroutines of the package together: what reaches the hub and the rooms, in any order.
use mathlib.Core.Path.{subst}
use call_it.Prelude.{
  ℕ, ◌==◌, ==_iff, Str, str_eq_iff, [], true, false, Bool-cases, Option, Option-cases, none, some,
  ◌≡◌, refl, sym, ap, ◌∙◌, arith, inl, inr,
}
use call_it.Ws.Protocol.{Payload}
use call_it.Ws.Channels.{Chan, put_at}
use call_it.Ws.Room.{Identity, Sockets, is_member, is_empty, leave, broadcast, close_room}
use call_it.Ws.Hub.{room_of, new_client, hub_join, hub_broadcast, reap, hub_shutdown}
use call_it.Ws.Client.{send, write_next, receive}
use call_it.Ws.Invariant.{Inv, has_notice}
use call_it.Ws.Delivery.{broadcast-Delivers, rebuffered-Inv}
use call_it.Ws.Joining.{new_client-Inv, new_client-IsUnplaced}
use call_it.Ws.Registry.{hub_join-Inv}
use call_it.Ws.Reaping.{leave-Inv, reap-Inv, room_of-unregister}
use call_it.Ws.Broadcasting.{offered, offered-open, try_send_lem}
use call_it.Ws.Shutdown.{hub_shutdown-Inv}

-- A connection that joins, a client that leaves a room, a broadcast by a room's number and by its ID, a
-- notice that the hub takes, the shutdown, a `Send` to a client, and a round of its `WritePump`.
pub data Action : Type 0 where
  connecting : Identity → ℕ → Str → Action
  leaving : ℕ → ℕ → Action
  broadcasting : ℕ → Payload → Action
  hub_broadcasting : Str → Payload → Action
  reaping : Str → Action
  shutting_down : Action
  sending : ℕ → Payload → Action
  writing : ℕ → Action

unfoldable pub join_new_client : Identity → ℕ → Str → Sockets → Sockets
unfolding new_client hub_join
join_new_client identity capacity id s =
    let (c, s') = new_client identity capacity s in (hub_join id c s').1

-- `none` is a panic.
unfoldable pub step : Action → Sockets → Option Sockets
unfolding join_new_client leave broadcast hub_broadcast reap hub_shutdown send write_next
step (connecting identity capacity id) s = some (join_new_client identity capacity id s)
step (leaving r c) s = leave r c s
step (broadcasting r p) s = broadcast r p s
step (hub_broadcasting id p) s = hub_broadcast id p s
step (reaping id) s = some (reap id s)
step shutting_down s = hub_shutdown s
step (sending c p) s = send c p s
step (writing c) s = some (write_next c s).1

-- The channel that a goroutine sends to is open.
abbrev pub Allowed : Action → Sockets → Type 0
Allowed (sending c p) s = (s.chans c).closed ≡ false
Allowed (connecting identity capacity id) s = Unit
Allowed (leaving r c) s = Unit
Allowed (broadcasting r p) s = Unit
Allowed (hub_broadcasting id p) s = Unit
Allowed (reaping id) s = Unit
Allowed shutting_down s = Unit
Allowed (writing c) s = Unit

-- The states that the actions lead to from a hub without rooms.
pub data Reached (first : Sockets) : Sockets → Type 0 where
  here : Reached first first
  next :
      {s s' : Sockets} (a : Action)
      → Allowed a s
      → Reached first s
      → step a s ≡ some s'
      → Reached first s'

-- `NewHub`: no rooms, no members, and no clients yet.
pub record IsNew (s : Sockets) : Type 0 where
  pub no_rooms : s.registry ≡ []
  pub no_members : (r : ℕ) → (s.rooms r).members ≡ []

new-Inv : (s : Sockets) → IsNew s → Inv s
unfolding room_of
new-Inv s new = record {
  opened = λ r c h. absurd (ground (arith, ap (is_member c) (new.no_members r)));
  given = λ r c h. absurd (ground (arith, ap (is_member c) (new.no_members r)));
  apart = λ r q c h k. absurd (ground (arith, ap (is_member c) (new.no_members r)));
  distinct = λ r. rw (new.no_members r) tt;
  live = λ id r h. absurd (ground (arith, ap (room_of id) new.no_rooms));
  noticed = λ id r h e. absurd (ground (arith, ap (room_of id) new.no_rooms));
}

abbrev Goes : Action → Sockets → Type 0
Goes a s = (s' : Sockets) × (step a s ≡ some s') × Inv s'

pub put_chan-Inv :
    (c : ℕ) (ch : Chan) (s : Sockets)
    → ch.closed ≡ (s.chans c).closed
    → Inv s
    → Inv (record s { chans = put_at s.chans c ch })
put_chan-Inv c ch s e inv =
    rebuffered-Inv s (put_at s.chans c ch) s.drops
      (λ x. elim (Bool-cases (c == x)) [
        | inr other ↦ rw other refl
        | inl same ↦ rw same (e ∙ ap (λ k. (s.chans k).closed) ((==_iff c x).0 same))
      ])
      inv

broadcast-Goes : (r : ℕ) (p : Payload) (s : Sockets) → Inv s → Goes (broadcasting r p) s
unfolding step
broadcast-Goes r p s inv = elim (Bool-cases (s.rooms r).ended) [
  | inl over ↦ (s, rw (over, broadcast) refl, inv)
  | inr going ↦ let (s', e, inv', _) = broadcast-Delivers r p s inv going in (s', e, inv')
]

send-Goes :
    (c : ℕ) (p : Payload) (s : Sockets) → Inv s → (s.chans c).closed ≡ false → Goes (sending c p) s
unfolding step send
send-Goes c p s inv h = (
  record s { chans = put_at s.chans c (offered p (s.chans c)) },
  rw (try_send_lem p (s.chans c) h, send) refl,
  put_chan-Inv c (offered p (s.chans c)) s (offered-open p (s.chans c) h ∙ sym h) inv,
)

receive-closed : (ch : Chan) → (receive ch).1.closed ≡ ch.closed
unfolding receive
receive-closed ch = ground arith

some-injective : (s s' : Sockets) → some s ≡ some s' → s ≡ s'
some-injective s s' e = cc

-- An empty room that the hub takes a notice of is forgotten.
reap-forgets :
    (id : Str) (r : ℕ) (s : Sockets)
    → room_of id s.registry ≡ some r
    → (s.rooms r).members ≡ []
    → room_of id (reap id s).registry ≡ none
unfolding reap close_room
reap-forgets id r s found empty =
    rw (found, ap is_empty empty, reap)
      (ground (arith, room_of-unregister id id s.registry, str_eq_iff id id))

step-Goes : (a : Action) (s : Sockets) → Inv s → Allowed a s → Goes a s
unfolding step join_new_client hub_broadcast write_next
step-Goes (connecting identity capacity id) s inv ok = (
  _,
  refl,
  (hub_join-Inv id (new_client identity capacity s).0 (new_client identity capacity s).1
      (new_client-Inv identity capacity s inv) (new_client-IsUnplaced identity capacity s inv)).0,
)
step-Goes (leaving r c) s inv ok = leave-Inv r c s inv
step-Goes (broadcasting r p) s inv ok = broadcast-Goes r p s inv
step-Goes (hub_broadcasting id p) s inv ok = elim (Option-cases (room_of id s.registry)) [
  | inl absent ↦ (s, rw (absent, hub_broadcast) refl, inv)
  | inr (r, found) ↦
      let (s', e, inv') = broadcast-Goes r p s inv in (s', rw (found, hub_broadcast) e, inv')
]
step-Goes (reaping id) s inv ok = (reap id s, refl, reap-Inv id s inv)
step-Goes shutting_down s inv ok = hub_shutdown-Inv s inv
step-Goes (sending c p) s inv ok = send-Goes c p s inv ok
step-Goes (writing c) s inv ok =
    (_, refl, put_chan-Inv c (receive (s.chans c)).1 s (receive-closed (s.chans c)) inv)

pub Reached-Inv : {first s : Sockets} → IsNew first → Reached first s → Inv s
Reached-Inv {first} new here = new-Inv first new
Reached-Inv new (next {s} a ok before e) =
    let (s', e', inv) = step-Goes a s (Reached-Inv new before) ok in
    subst Inv (some-injective s' _ (sym e' ∙ e)) inv

-- In every order of connections, departures, broadcasts, writes, notices and shutdowns, from a hub without
-- rooms, no goroutine of a room or of the hub panics: no channel is closed twice and none is sent to
-- after it was closed, as long as `Send` is called on open channels only.
pub step-safe :
    (first s : Sockets) (a : Action)
    → IsNew first
    → Reached first s
    → Allowed a s
    → (s' : Sockets) × (step a s ≡ some s')
step-safe first s a new reached ok =
    let (s', e, _) = step-Goes a s (Reached-Inv new reached) ok in (s', e)

-- In every such state, the room that the hub has under an ID has that ID and still takes commands, and a
-- member of it has an open channel and is a member of no other room.
pub registry_sound :
    (first s : Sockets) (id : Str) (r q c : ℕ)
    → IsNew first
    → Reached first s
    → room_of id s.registry ≡ some r
    → is_member c (s.rooms r).members ≡ true
    → is_member c (s.rooms q).members ≡ true
    → ((s.rooms r).ended ≡ false) × ((s.rooms r).id ≡ id) × ((s.chans c).closed ≡ false) × (q ≡ r)
registry_sound first s id r q c new reached found there too =
    let inv = Reached-Inv new reached in
    let (going, _, name) = inv.live id r found in
    (going, name, inv.opened r c there, inv.apart q r c too there)

-- In every such state, a room without members that the hub has under an ID has a notice that the hub has
-- still to take, and taking it forgets the room: no empty room stays in the registry for ever.
pub empty-reaped :
    (first s : Sockets) (id : Str) (r : ℕ)
    → IsNew first
    → Reached first s
    → room_of id s.registry ≡ some r
    → (s.rooms r).members ≡ []
    → (has_notice id s.notices ≡ true) × (room_of id (reap id s).registry ≡ none)
empty-reaped first s id r new reached found empty =
    ((Reached-Inv new reached).noticed id r found empty, reap-forgets id r s found empty)
