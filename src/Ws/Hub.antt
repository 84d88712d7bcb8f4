-- ===== src/Ws/Hub.antt =====
-- ws/hub.go: the registry of rooms.
use call_it.Prelude.{ℕ, suc, Str, str_eq, List, [], ◌∷◌, false, Option, none, some, if◌then◌else◌}
use call_it.Ws.Protocol.{Payload}
use call_it.Ws.Channels.{put_at}
use call_it.Ws.Room.{Identity, Sockets, add_member, broadcast, members, close_room, shutdown_room}

unfoldable pub room_of : Str → List (Str × ℕ) → Option ℕ
room_of id [] = none
room_of id ((k, r) ∷ rest) = if str_eq k id then some r else room_of id rest

unfoldable pub unregister : Str → List (Str × ℕ) → List (Str × ℕ)
unregister id [] = []
unregister id ((k, r) ∷ rest) =
    let kept = unregister id rest in if str_eq k id then kept else (k, r) ∷ kept

-- `NewRoom`, and the entry of the hub's map.
unfoldable pub new_room : Str → Sockets → ℕ × Sockets
new_room id s = (
  s.created,
  record s {
    rooms = put_at s.rooms s.created (record { id = id; members = []; ended = false });
    created = suc s.created;
    registry = (id, s.created) ∷ s.registry;
  },
)

-- The cases of the hub's loop. `hub_join` returns the room.
unfoldable pub hub_join : Str → ℕ → Sockets → ℕ × Sockets
unfolding room_of new_room add_member
hub_join id c s = elim (room_of id s.registry) [
  | some r ↦ (r, add_member r c s)
  | none ↦ let (r, s') = new_room id s in (r, add_member r c s')
]

unfoldable pub hub_broadcast : Str → Payload → Sockets → Option Sockets
unfolding room_of broadcast
hub_broadcast id p s = elim (room_of id s.registry) [ none ↦ some s | some r ↦ broadcast r p s ]

unfoldable pub hub_names : Str → Sockets → List Identity
unfolding room_of members
hub_names id s = elim (room_of id s.registry) [ none ↦ [] | some r ↦ members r s ]

-- A notice of an empty room that the hub takes.
unfoldable pub take_notice : Str → List Str → List Str
take_notice id [] = []
take_notice id (x ∷ rest) = if str_eq x id then rest else x ∷ take_notice id rest

unfoldable pub reap : Str → Sockets → Sockets
unfolding room_of unregister close_room take_notice
reap id s =
    let s' : Sockets = record s { notices = take_notice id s.notices } in
    elim (room_of id s.registry) [
      | none ↦ s'
      | some r ↦
          let (closed, s'') = close_room r s' in
          if closed then record s'' { registry = unregister id s.registry } else s''
    ]

unfoldable pub shutdown_rooms : List (Str × ℕ) → Sockets → Option Sockets
unfolding shutdown_room
shutdown_rooms [] s = some s
shutdown_rooms ((id, r) ∷ rest) s = elim (shutdown_room r s) [
  | none ↦ none
  | some s' ↦ shutdown_rooms rest s'
]

unfoldable pub hub_shutdown : Sockets → Option Sockets
unfolding shutdown_rooms
hub_shutdown s = elim (shutdown_rooms s.registry s) [
  | none ↦ none
  | some s' ↦ some (record s' { registry = [] })
]

-- `NewClient`
unfoldable pub new_client : Identity → ℕ → Sockets → ℕ × Sockets
new_client identity capacity s = (
  s.clients,
  record s {
    identities = put_at s.identities s.clients identity;
    chans = put_at s.chans s.clients (record { buffer = []; capacity = capacity; closed = false });
    clients = suc s.clients;
  },
)
