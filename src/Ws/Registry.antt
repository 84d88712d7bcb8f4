-- ===== src/Ws/Registry.antt =====
-- The hub's commands keep the invariant: `Join`, the reaping of an empty room, and `Leave`.
use mathlib.Core.Path.{subst}
use call_it.Prelude.{
  ℕ, suc, ◌<◌, ◌==◌, ==_iff, Str, str_eq, str_eq_iff, List, [], ◌∷◌, true, false, Bool-cases,
  Option-cases, none, some, ◌≡◌, ◌≢◌, refl, sym, ap, ◌∙◌, arith, inl, inr,
}
use call_it.Ws.Channels.{put_at}
use call_it.Ws.Room.{Sockets, is_member, add_member}
use call_it.Ws.Hub.{room_of, new_room, hub_join, take_notice}
use call_it.Ws.Invariant.{Inv, has_notice}
use call_it.Ws.Joining.{IsUnplaced, add_member-Inv}

-- A notice more.
noticed_more : (id : Str) (s : Sockets) → Sockets
unfolding new_room
noticed_more id s = record (new_room id s).1 { notices = id ∷ s.notices }

-- What a new room does to the rest.
notices_back :
    (id : Str) (s : Sockets)
    → (new_room id s).1 ≡ record (noticed_more id s) { notices = s.notices }
unfolding noticed_more new_room
notices_back id s = refl

new_room-first : (id : Str) (s : Sockets) → (new_room id s).0 ≡ s.created
unfolding new_room
new_room-first id s = refl

room_of-new : (id : Str) (s : Sockets) → room_of id (noticed_more id s).registry ≡ some s.created
unfolding noticed_more new_room room_of
room_of-new id s = ground (arith, str_eq_iff id id)

new_room-Inv :
    (id : Str) (s : Sockets) → Inv s → room_of id s.registry ≡ none → Inv (noticed_more id s)
unfolding noticed_more new_room room_of
new_room-Inv id s inv absent = record {
  opened = λ r c h. elim (Bool-cases (s.created == r)) [
    | inl same ↦ absurd (ground arith)
    | inr other ↦ inv.opened r c (ground arith)
  ];
  given = λ r c h. elim (Bool-cases (s.created == r)) [
    | inl same ↦ absurd (ground arith)
    | inr other ↦ inv.given r c (ground arith)
  ];
  apart = λ r q c h k. elim (Bool-cases (s.created == r)) [
    | inl same ↦ absurd (ground arith)
    | inr other ↦ elim (Bool-cases (s.created == q)) [
      | inl same ↦ absurd (ground arith)
      | inr other' ↦ inv.apart r q c (ground arith) (ground arith)
    ]
  ];
  distinct = λ r. elim (Bool-cases (s.created == r)) [
    | inl same ↦ rw same tt
    | inr other ↦ rw other (inv.distinct r)
  ];
  live = λ k r h. elim (Bool-cases (str_eq id k)) [
    | inl same ↦
        let e : s.created ≡ r = ground arith in
        subst
          (λ q.
            ((put_at s.rooms s.created (record { id = id; members = []; ended = false }) q).ended
              ≡ false)
            × (q < suc s.created)
            × ((put_at s.rooms s.created (record { id = id; members = []; ended = false }) q).id
                ≡ k))
          e (rw ((==_iff s.created s.created).1 refl) (refl, omega arith, (str_eq_iff id k).0 same))
    | inr other ↦
        let (going, made, name) = inv.live k r (ground arith) in
        let apart : s.created == r ≡ false = ground (arith, made) in
        rw apart (going, omega (arith, made), name)
  ];
  noticed = λ k r h e. elim (Bool-cases (str_eq id k)) [
    | inl same ↦ ground arith
    | inr other ↦
        let h' : room_of k s.registry ≡ some r = ground arith in
        let (going, made, name) = inv.live k r h' in
        let seen = inv.noticed k r h' (ground (arith, made)) in ground (arith, seen)
  ];
}

-- A notice of a room with members may go.
pub fewer_notices-Inv :
    (id : Str) (s : Sockets) (l : List Str)
    → Inv s
    → ((k : Str) → str_eq id k ≡ false → has_notice k s.notices ≡ has_notice k l)
    → ((r : ℕ) → room_of id s.registry ≡ some r → (s.rooms r).members ≢ [])
    → Inv (record s { notices = l })
fewer_notices-Inv id s l inv others full = record {
  opened = inv.opened;
  given = inv.given;
  apart = inv.apart;
  distinct = inv.distinct;
  live = inv.live;
  noticed = λ k r h e. elim (Bool-cases (str_eq id k)) [
    | inr other ↦ sym (others k other) ∙ inv.noticed k r h e
    | inl same ↦ absurd (full r (ap (λ j. room_of j s.registry) ((str_eq_iff id k).0 same) ∙ h) e)
  ];
}

pub has_notice-take_notice :
    (id k : Str) (l : List Str)
    → str_eq id k ≡ false
    → has_notice k l ≡ has_notice k (take_notice id l)
unfolding take_notice
has_notice-take_notice id k [] h = refl
has_notice-take_notice id k (x ∷ l) h =
    ground
      (arith, has_notice-take_notice id k l h, str_eq_iff x id, str_eq_iff x k, str_eq_iff id k)

added :
    (r c : ℕ) (s : Sockets)
    → IsUnplaced c s
    → ((add_member r c s).registry ≡ s.registry)
      × ((add_member r c s).notices ≡ s.notices)
      × (is_member c ((add_member r c s).rooms r).members ≡ true)
unfolding add_member
added r c s free =
    rw (free.nowhere r, add_member) (refl, refl, ground (arith, ==_iff r r, ==_iff c c))

new_room-IsUnplaced :
    (id : Str) (c : ℕ) (s : Sockets) → IsUnplaced c s → IsUnplaced c (noticed_more id s)
unfolding noticed_more new_room
new_room-IsUnplaced id c s free = record {
  made = free.made;
  open_chan = free.open_chan;
  nowhere = λ r. ground (arith, free.nowhere r);
}

add_member-notices :
    (r c : ℕ) (s : Sockets) (l : List Str)
    → add_member r c (record s { notices = l }) ≡ record (add_member r c s) { notices = l }
unfolding add_member
add_member-notices r c s l = elim (Bool-cases (is_member c (s.rooms r).members)) [
  | inl there ↦ rw (there, add_member) refl
  | inr absent ↦ rw (absent, add_member) refl
]

is_member-ne : (c : ℕ) (l : List ℕ) → is_member c l ≡ true → l ≢ []
is_member-ne c l h e = ground (arith, ap (is_member c) e)

join_new :
    (id : Str) (c : ℕ) (s : Sockets)
    → Inv s
    → IsUnplaced c s
    → room_of id s.registry ≡ none
    → Inv (add_member s.created c (new_room id s).1)
      × (room_of id (add_member s.created c (new_room id s).1).registry ≡ some s.created)
      × (is_member c ((add_member s.created c (new_room id s).1).rooms s.created).members ≡ true)
unfolding noticed_more
join_new id c s inv free absent =
    let n = s.created in
    let s2 = noticed_more id s in
    let free2 = new_room-IsUnplaced id c s free in
    let t2 = add_member n c s2 in
    let (registered, notices, there) = added n c s2 free2 in
    let same : add_member n c (new_room id s).1 ≡ record t2 { notices = s.notices } =
      new_room-notices id s ∙ add_member-notices n c s2 s.notices in
    let found : room_of id t2.registry ≡ some n = ap (room_of id) registered ∙ room_of-new id s in
    let inv2 =
      fewer_notices-Inv id t2 s.notices (add_member-Inv n c s2 (new_room-Inv id s inv absent) free2)
        (λ k other. ap (has_notice k) notices ∙ ground arith)
        (λ r h.
          subst (λ q. (t2.rooms q).members ≢ []) (ground (arith, found, h))
            (is_member-ne c (t2.rooms n).members there)) in
    (
      subst Inv (sym same) inv2,
      ap (λ (t : Sockets). room_of id t.registry) same ∙ found,
      ap (λ (t : Sockets). is_member c (t.rooms n).members) same ∙ there,
    )
  where
    new_room-notices :
        (id : Str) (s : Sockets)
        → add_member s.created c (new_room id s).1
          ≡ add_member s.created c (record (noticed_more id s) { notices = s.notices })
    new_room-notices id s = ap (add_member s.created c) (notices_back id s)

-- To join a new client makes it a member of a room that the hub then has under the ID.
pub hub_join-Inv :
    (id : Str) (c : ℕ) (s : Sockets)
    → Inv s
    → IsUnplaced c s
    → Inv (hub_join id c s).1
      × (room_of id (hub_join id c s).1.registry ≡ some (hub_join id c s).0)
      × (is_member c ((hub_join id c s).1.rooms (hub_join id c s).0).members ≡ true)
unfolding hub_join
hub_join-Inv id c s inv free = elim (Option-cases (room_of id s.registry)) [
  | inr (r, found) ↦
      let (registered, _, there) = added r c s free in
      rw (found, hub_join)
        (add_member-Inv r c s inv free, ap (room_of id) registered ∙ found, there)
  | inl absent ↦ rw (absent, hub_join, new_room-first id s) (join_new id c s inv free absent)
]
