-- ===== src/Ws/Joining.antt =====
-- `Join`, `Leave`, the reaping of empty rooms and `Shutdown` keep the invariant.
use mathlib.Core.Path.{subst}
use call_it.Prelude.{
  ℕ, ◌<◌, ◌==◌, ==_iff, ◌∷◌, true, false, ◌||◌, Bool-cases, ◌≡◌, ◌⊎◌, refl, sym, ap, ◌∙◌, arith,
  if◌then◌else◌, inl, inr,
}
use call_it.Ws.Channels.{put_at}
use call_it.Ws.Room.{Identity, Room, Sockets, is_member, add_member}
use call_it.Ws.Hub.{new_client}
use call_it.Ws.Invariant.{Inv, Distinct}

-- A new client is open and in no room.
pub new_client-Inv :
    (identity : Identity) (capacity : ℕ) (s : Sockets)
    → Inv s
    → Inv (new_client identity capacity s).1
unfolding new_client
new_client-Inv identity capacity s inv = record {
  opened = λ r c h. ground (arith, inv.opened r c h, inv.given r c h);
  given = λ r c h. omega (arith, inv.given r c h);
  apart = inv.apart;
  distinct = inv.distinct;
  live = inv.live;
  noticed = inv.noticed;
}

-- A client that may join: it was made, its channel is open, and it is in no room.
pub record IsUnplaced (c : ℕ) (s : Sockets) : Type 0 where
  pub made : c < s.clients
  pub open_chan : (s.chans c).closed ≡ false
  pub nowhere : (r : ℕ) → is_member c (s.rooms r).members ≡ false

pub new_client-IsUnplaced :
    (identity : Identity) (capacity : ℕ) (s : Sockets)
    → Inv s
    → IsUnplaced (new_client identity capacity s).0 (new_client identity capacity s).1
unfolding new_client
new_client-IsUnplaced identity capacity s inv = record {
  made = omega arith;
  open_chan = ground (arith, ==_iff s.clients s.clients);
  nowhere = λ r. elim (Bool-cases (is_member s.clients (s.rooms r).members)) [
    | inr e ↦ e
    | inl e ↦ absurd (omega (arith, inv.given r s.clients e))
  ];
}

-- The state with the room `room` under the number `r`, into which `c` is put.
abbrev placed : ℕ → ℕ → Room → Sockets → Sockets
placed r c room s = record s {
  rooms = put_at s.rooms r (record room { members = c ∷ room.members });
}

members-placed :
    (r c : ℕ) (room : Room) (s : Sockets) (q x : ℕ)
    → is_member x ((placed r c room s).rooms q).members
      ≡ (if r == q then (x == c) || is_member x room.members else is_member x (s.rooms q).members)
members-placed r c room s q x = ground arith

module _ (r c : ℕ) (s : Sockets) (inv : Inv s) (free : IsUnplaced c s) where
  add_member_lem : add_member r c s ≡ placed r c (s.rooms r) s
  unfolding add_member
  add_member_lem = rw (free.nowhere r, add_member) refl

  member-placed :
      (q x : ℕ)
      → is_member x ((placed r c (s.rooms r) s).rooms q).members ≡ true
      → ((x ≡ c) × (q ≡ r)) ⊎ (is_member x (s.rooms q).members ≡ true)
  member-placed q x h = elim (Bool-cases (r == q)) [
    | inr other ↦ inr (ground (arith, members-placed r c (s.rooms r) s q x))
    | inl same ↦
        let e = (==_iff r q).0 same in
        elim (Bool-cases (x == c)) [
          | inl new ↦ inl ((==_iff x c).0 new, sym e)
          | inr old ↦ inr (
              subst (λ k. is_member x (s.rooms k).members ≡ true) e
                (ground (arith, members-placed r c (s.rooms r) s q x)))
        ]
  ]

  placed-apart :
      (q p x : ℕ)
      → is_member x ((placed r c (s.rooms r) s).rooms q).members ≡ true
      → is_member x ((placed r c (s.rooms r) s).rooms p).members ≡ true
      → q ≡ p
  placed-apart q p x h k = elim (member-placed q x h) [
    | inl (e, f) ↦ elim (member-placed p x k) [
      | inl (_, g) ↦ f ∙ sym g
      | inr old ↦
          absurd (ground (arith, free.nowhere p, ap (λ y. is_member y (s.rooms p).members) e))
    ]
    | inr old ↦ elim (member-placed p x k) [
      | inl (e, g) ↦
          absurd (ground (arith, free.nowhere q, ap (λ y. is_member y (s.rooms q).members) e))
      | inr old' ↦ inv.apart q p x old old'
    ]
  ]

  placed-Distinct : (q : ℕ) → Distinct ((placed r c (s.rooms r) s).rooms q).members
  placed-Distinct q = elim (Bool-cases (r == q)) [
    | inr other ↦ rw other (inv.distinct q)
    | inl same ↦ rw same (free.nowhere r, inv.distinct r)
  ]

  placed-opened :
      (q x : ℕ)
      → is_member x ((placed r c (s.rooms r) s).rooms q).members ≡ true
      → ((s.chans x).closed ≡ false) × (x < s.clients)
  placed-opened q x h = elim (member-placed q x h) [
    | inl (e, _) ↦ (
      ap (λ y. (s.chans y).closed) e ∙ free.open_chan,
      subst (λ y. y < s.clients) (sym e) free.made,
    )
    | inr old ↦ (inv.opened q x old, inv.given q x old)
  ]

  placed-Inv : Inv (placed r c (s.rooms r) s)
  placed-Inv = record {
    opened = λ q x h. (placed-opened q x h).0;
    given = λ q x h. (placed-opened q x h).1;
    apart = placed-apart;
    distinct = placed-Distinct;
    live = λ id q h. elim (Bool-cases (r == q)) [
      | inr other ↦ rw other (inv.live id q h)
      | inl same ↦
          let e = (==_iff r q).0 same in
          rw same (
            subst (λ k. ((s.rooms k).ended ≡ false) × (q < s.created) × ((s.rooms k).id ≡ id))
              (sym e) (inv.live id q h))
    ];
    noticed = λ id q h e. elim (Bool-cases (r == q)) [
      | inr other ↦ inv.noticed id q h (ground arith)
      | inl same ↦ absurd (ground arith)
    ];
  }

  pub add_member-Inv : Inv (add_member r c s)
  add_member-Inv = subst Inv (sym add_member_lem) placed-Inv
