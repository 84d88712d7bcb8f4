-- ===== src/Ws/Shutdown.antt =====
-- `Shutdown` closes the channel of every member once and keeps the invariant.
use call_it.Prelude.{
  ℕ, ◌==◌, Str, List, [], ◌∷◌, true, false, Bool-cases, some, ◌≡◌, refl, arith, if◌then◌else◌, inl,
  inr,
}
use call_it.Ws.Channels.{put_at}
use call_it.Ws.Room.{Sockets, is_member, shutdown_room}
use call_it.Ws.Hub.{room_of, shutdown_rooms, hub_shutdown}
use call_it.Ws.Invariant.{Inv}
use call_it.Ws.Delivery.{All-of}
use call_it.Ws.Reaping.{closed_at, close_all_lem}

-- The state without the registry, on which the shutdown of rooms does not depend.
abbrev forgotten : Sockets → Sockets
forgotten s = record s { registry = [] }

abbrev emptied : ℕ → Sockets → Sockets
emptied r s = record s {
  chans = closed_at (s.rooms r).members s.chans;
  rooms = put_at s.rooms r (record (s.rooms r) { members = []; ended = true });
}

forget-Inv : (s : Sockets) → Inv s → Inv (forgotten s)
unfolding room_of
forget-Inv s inv = record {
  opened = inv.opened;
  given = inv.given;
  apart = inv.apart;
  distinct = inv.distinct;
  live = λ id r h. absurd (ground arith);
  noticed = λ id r h e. absurd (ground arith);
}

members-emptied :
    (r q c : ℕ) (s : Sockets)
    → is_member c ((emptied r s).rooms q).members
      ≡ (if r == q then false else is_member c (s.rooms q).members)
members-emptied r q c s = ground arith

emptied-Inv : (r : ℕ) (s : Sockets) → Inv (forgotten s) → Inv (forgotten (emptied r s))
unfolding room_of
emptied-Inv r s inv = record {
  opened = λ q c h.
      let was : is_member c (s.rooms q).members ≡ true = ground (arith, members-emptied r q c s) in
      let elsewhere : r == q ≡ false = ground (arith, members-emptied r q c s) in
      elim (Bool-cases (is_member c (s.rooms r).members)) [
        | inl both ↦ absurd (ground (arith, inv.apart r q c both was))
        | inr out ↦ rw out (inv.opened q c was)
      ];
  given = λ q c h. inv.given q c (ground (arith, members-emptied r q c s));
  apart = λ q p c h k.
      inv.apart q p c (ground (arith, members-emptied r q c s))
        (ground (arith, members-emptied r p c s));
  distinct = λ q. elim (Bool-cases (r == q)) [
    | inl here ↦ rw here tt
    | inr other ↦ rw other (inv.distinct q)
  ];
  live = λ id q h. absurd (ground arith);
  noticed = λ id q h e. absurd (ground arith);
}

shutdown_room_lem :
    (r : ℕ) (s : Sockets) → Inv (forgotten s) → shutdown_room r s ≡ some (emptied r s)
unfolding shutdown_room
shutdown_room_lem r s inv =
    rw
      (
        close_all_lem (s.rooms r).members s.chans (All-of _ (s.rooms r).members (inv.opened r))
            (inv.distinct r),
        shutdown_room,
      )
      refl

shutdown_rooms-Inv :
    (l : List (Str × ℕ)) (s : Sockets)
    → Inv (forgotten s)
    → (s' : Sockets) × (shutdown_rooms l s ≡ some s') × Inv (forgotten s')
unfolding shutdown_rooms
shutdown_rooms-Inv [] s inv = (s, refl, inv)
shutdown_rooms-Inv ((id, r) ∷ l) s inv =
    let (s', e, inv') = shutdown_rooms-Inv l (emptied r s) (emptied-Inv r s inv) in
    (s', rw (shutdown_room_lem r s inv, shutdown_rooms) e, inv')

pub hub_shutdown-Inv : (s : Sockets) → Inv s → (s' : Sockets) × (hub_shutdown s ≡ some s') × Inv s'
unfolding hub_shutdown
hub_shutdown-Inv s inv =
    let (s', e, inv') = shutdown_rooms-Inv s.registry s (forget-Inv s inv) in
    (forgotten s', rw (e, hub_shutdown) refl, inv')
