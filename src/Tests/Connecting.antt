-- ===== src/Tests/Connecting.antt =====
-- The hub, a room and two clients at concrete inputs.
use call_it.Prelude.{
  ℕ, pos, bytes, str_eq, [], ◌∷◌, length, true, false, none, some, ◌≡◌, refl, arith,
}
use call_it.Ws.Protocol.{Payload, encoded}
use call_it.Ws.Channels.{put_at, try_send}
use call_it.Ws.Room.{Identity, Sockets, is_member, broadcast, members, count}
use call_it.Ws.Hub.{room_of, new_client, hub_join, reap}
use call_it.Ws.Client.{send}
use call_it.Ws.Invariant.{Inv, has_notice}
use call_it.Ws.Delivery.{Delivers, broadcast-Delivers, send-evicted}
use call_it.Ws.Steps.{
  connecting, leaving, sending, broadcasting, step, Reached, here, next, IsNew, Reached-Inv,
  step-safe, registry_sound, empty-reaped,
}
use call_it.Auth.Token.{Claims}
use call_it.Ws.Handler.{Sessions, connect, disconnect, welcome, greet, announce, undisturbed}
use call_it.Ws.Composed.{connect-Reached}
use call_it.Ws.Newcomer.{joined, newcomer, first_messages, connect_crowded}

abbrev pub new_hub : Sockets
new_hub = record {
  identities = λ c. record { user_id = []; display_name = []; guest = false };
  chans = λ c. record { buffer = []; capacity = 0; closed = false };
  clients = 0;
  rooms = λ r. record { id = []; members = []; ended = false };
  created = 0;
  registry = [];
  notices = [];
  drops = 0;
}

new_hub-IsNew : IsNew new_hub
new_hub-IsNew = record { no_rooms = refl; no_members = λ r. refl }

abbrev ann : Identity
ann = record { user_id = bytes "ann"; display_name = bytes "Ann"; guest = false }

abbrev hello : Payload
hello = encoded (bytes "{}")

-- Ann is in the room, with a channel for one message.
abbrev pub one_client : Sockets
one_client = record new_hub {
  identities = put_at new_hub.identities 0 ann;
  chans = put_at new_hub.chans 0 (record { buffer = []; capacity = 1; closed = false });
  clients = 1;
  rooms =
      put_at (put_at new_hub.rooms 0 (record { id = bytes "r"; members = []; ended = false })) 0
        (record { id = bytes "r"; members = 0 ∷ []; ended = false });
  created = 1;
  registry = (bytes "r", 0) ∷ [];
}

reached_one : Reached new_hub one_client
unfolding step
reached_one = next (connecting ann 1 (bytes "r")) tt here refl

pub one_client-Inv : Inv one_client
one_client-Inv = Reached-Inv new_hub-IsNew reached_one

-- Ann's channel is full.
abbrev full_client : Sockets
full_client = record one_client {
  chans = put_at one_client.chans 0 (record { buffer = hello ∷ []; capacity = 1; closed = false });
}

reached_full : Reached new_hub full_client
unfolding step
reached_full = next (sending 0 hello) refl reached_one refl

-- Ann has left.
abbrev left_room : Sockets
left_room = record one_client {
  chans = put_at one_client.chans 0 (record { buffer = []; capacity = 1; closed = true });
  rooms = put_at one_client.rooms 0 (record { id = bytes "r"; members = []; ended = false });
  notices = bytes "r" ∷ [];
}

reached_left : Reached new_hub left_room
unfolding step
reached_left = next (leaving 0 0) tt reached_one refl

found_room :
    (s : Sockets) → s.registry ≡ (bytes "r", 0) ∷ [] → room_of (bytes "r") s.registry ≡ some 0
unfolding room_of str_eq
found_room s e = rw e refl

broadcast-Delivers_example :
    (s' : Sockets) × (broadcast 0 hello one_client ≡ some s')
    × Inv s'
    × Delivers 0 hello one_client s'
broadcast-Delivers_example = broadcast-Delivers 0 hello one_client one_client-Inv refl

send-evicted_example :
    (s' : Sockets) × (broadcast 0 hello full_client ≡ some s') × (send 0 hello s' ≡ none)
send-evicted_example =
    send-evicted 0 0 hello hello full_client (Reached-Inv new_hub-IsNew reached_full) refl refl refl

step-safe_example : (s' : Sockets) × (step (broadcasting 0 hello) full_client ≡ some s')
step-safe_example =
    step-safe new_hub full_client (broadcasting 0 hello) new_hub-IsNew reached_full tt

registry_sound_example :
    ((one_client.rooms 0).ended ≡ false)
    × ((one_client.rooms 0).id ≡ bytes "r")
    × ((one_client.chans 0).closed ≡ false)
    × (◌≡◌ {A = ℕ} 0 0)
registry_sound_example =
    registry_sound new_hub one_client (bytes "r") 0 0 0 new_hub-IsNew reached_one
      (found_room one_client refl) refl refl

empty-reaped_example :
    (has_notice (bytes "r") left_room.notices ≡ true)
    × (room_of (bytes "r") (reap (bytes "r") left_room).registry ≡ none)
empty-reaped_example =
    empty-reaped new_hub left_room (bytes "r") 0 new_hub-IsNew reached_left
      (found_room left_room refl) refl

-- Sessions that show a balance of 100.
abbrev steady : Sessions
steady = record {
  T = Unit {0};
  resume_session = λ room user t. t;
  schedule_end_session = λ room user guest t. t;
  balance = λ room user t. pos 100;
}

abbrev bob : Claims
bob = record {
  user_id = bytes "bob";
  display_name = bytes "Bob";
  room_id = bytes "r";
  guest = false;
  host = false;
}

bob_crowded : length (first_messages steady 2 bob one_client tt) ≡ 2
unfolding new_client hub_join members count str_eq
bob_crowded = refl

-- Bob has entered.
abbrev entered : Sockets
entered = elim (connect steady undisturbed 3 bob one_client tt) [
  | none ↦ one_client
  | some (place, s, t) ↦ s
]

bob_enters : connect steady undisturbed 3 bob one_client tt ≡ some ((0, 1), entered, tt)
unfolding connect welcome greet announce new_client hub_join members count send try_send broadcast
    str_eq
bob_enters = refl

connect-Reached_example :
    Reached new_hub entered
    × (end : Sockets) × (disconnect steady undisturbed bob 0 1 one_client tt ≡ some (end, tt))
    × Reached new_hub end
connect-Reached_example =
    connect-Reached new_hub undisturbed (λ k s reached. (s, refl, reached)) steady 3 bob one_client
      entered one_client tt tt tt 0 1 new_hub-IsNew reached_one bob_enters reached_one

connect_crowded_example :
    (s' : Sockets) × (connect steady undisturbed 2 bob one_client tt
      ≡ some (((joined steady 2 bob one_client tt).0, newcomer steady 2 bob one_client tt), s', tt))
    × ((s'.chans (newcomer steady 2 bob one_client tt)).closed ≡ true)
    × (is_member
          (newcomer steady 2 bob one_client tt)
          (s'.rooms (joined steady 2 bob one_client tt).0).members
        ≡ false)
connect_crowded_example =
    connect_crowded steady 2 bob one_client tt one_client-Inv (omega (arith, bob_crowded))
