-- ===== src/Ws/Room.antt =====
-- ws/room.go: the commands that a room's goroutine takes one at a time. A client is a number, for its
-- pointer, and the map of members is a list, in the order of the range over it. `none` is a panic.
use call_it.Prelude.{
  ℕ, ◌+◌, ◌==◌, Str, List, [], ◌∷◌, ◌++◌, length, Bool, true, false, ◌||◌, Option, none, some,
  if◌then◌else◌,
}
use call_it.Ws.Protocol.{Payload}
use call_it.Ws.Channels.{Chan, try_send, close_chan, put_at}

pub record Identity : Type 0 where
  pub user_id : Str
  pub display_name : Str
  pub guest : Bool

-- `ended` says that the goroutine returned, after which `done` is closed.
pub record Room : Type 0 where
  pub id : Str
  pub members : List ℕ
  pub ended : Bool

-- All that the goroutines of the package share: the clients and rooms by number, those given out so far,
-- the hub's map, the calls of `notifyEmpty` that the hub has not taken yet, and the counter of drops.
pub record Sockets : Type 0 where
  pub identities : ℕ → Identity
  pub chans : ℕ → Chan
  pub clients : ℕ
  pub rooms : ℕ → Room
  pub created : ℕ
  pub registry : List (Str × ℕ)
  pub notices : List Str
  pub drops : ℕ

abbrev pub is_member : ℕ → List ℕ → Bool
is_member c [] = false
is_member c (x ∷ l) = (c == x) || is_member c l

abbrev pub erase : ℕ → List ℕ → List ℕ
erase c [] = []
erase c (x ∷ l) = let kept = erase c l in if c == x then kept else x ∷ kept

abbrev pub is_empty {ℓ} : {A : Type ℓ} → List A → Bool
is_empty [] = true
is_empty (x ∷ l) = false

abbrev pub with_members : ℕ → List ℕ → Sockets → Sockets
with_members r l s = record s { rooms = put_at s.rooms r (record (s.rooms r) { members = l }) }

-- The case of joinCmd.
unfoldable pub add_member : ℕ → ℕ → Sockets → Sockets
add_member r c s =
    if is_member c (s.rooms r).members then s else with_members r (c ∷ (s.rooms r).members) s

unfoldable pub remove_and_notify : ℕ → ℕ → Sockets → Option Sockets
unfolding close_chan
remove_and_notify r c s =
    if is_member c (s.rooms r).members
    then elim (close_chan (s.chans c)) [
      | none ↦ none
      | some ch ↦
          let left = erase c (s.rooms r).members in
          some (record (with_members r left s) {
            chans = put_at s.chans c ch;
            notices = if is_empty left then s.notices ++ ((s.rooms r).id ∷ []) else s.notices;
          })
    ]
    else some s

-- The two loops of broadcastCmd.
unfoldable pub offer : List ℕ → Payload → (ℕ → Chan) → Option (List ℕ × (ℕ → Chan))
unfolding try_send
offer [] p chans = some ([], chans)
offer (c ∷ cs) p chans = elim (try_send p (chans c)) [
  | none ↦ none
  | some (sent, ch) ↦ elim (offer cs p (put_at chans c ch)) [
    | none ↦ none
    | some (evicted, chans') ↦ some (if sent then evicted else c ∷ evicted, chans')
  ]
]

unfoldable pub evict : ℕ → List ℕ → Sockets → Option Sockets
unfolding remove_and_notify
evict r [] s = some s
evict r (c ∷ cs) s = elim (remove_and_notify r c s) [ none ↦ none | some s' ↦ evict r cs s' ]

-- `Leave` and `Broadcast`; a room that has ended takes no command.
unfoldable pub leave : ℕ → ℕ → Sockets → Option Sockets
unfolding remove_and_notify
leave r c s = if (s.rooms r).ended then some s else remove_and_notify r c s

unfoldable pub broadcast : ℕ → Payload → Sockets → Option Sockets
unfolding offer evict
broadcast r p s = if (s.rooms r).ended then some s else elim (offer (s.rooms r).members p s.chans) [
  | none ↦ none
  | some (evicted, chans) ↦
      evict r evicted (record s { chans = chans; drops = s.drops + length evicted })
]

unfoldable pub members_of : (ℕ → Identity) → List ℕ → List Identity
members_of identities [] = []
members_of identities (c ∷ cs) = identities c ∷ members_of identities cs

-- `Members` and `Count`
unfoldable pub members : ℕ → Sockets → List Identity
unfolding members_of
members r s = if (s.rooms r).ended then [] else members_of s.identities (s.rooms r).members

unfoldable pub count : ℕ → Sockets → ℕ
count r s = if (s.rooms r).ended then 0 else length (s.rooms r).members

-- `close`, which only an empty room grants.
unfoldable pub close_room : ℕ → Sockets → Bool × Sockets
close_room r s =
    if is_empty (s.rooms r).members
    then (true, record s { rooms = put_at s.rooms r (record (s.rooms r) { ended = true }) })
    else (false, s)

unfoldable pub close_all : List ℕ → (ℕ → Chan) → Option (ℕ → Chan)
unfolding close_chan
close_all [] chans = some chans
close_all (c ∷ cs) chans = elim (close_chan (chans c)) [
  | none ↦ none
  | some ch ↦ close_all cs (put_at chans c ch)
]

-- `shutdown`; the map of members goes with the goroutine.
unfoldable pub shutdown_room : ℕ → Sockets → Option Sockets
unfolding close_all
shutdown_room r s = elim (close_all (s.rooms r).members s.chans) [
  | none ↦ none
  | some chans ↦ some (record s {
    chans = chans;
    rooms = put_at s.rooms r (record (s.rooms r) { members = []; ended = true });
  })
]
