-- ===== src/Ws/Reaping.antt =====
-- `Leave`, the reaping of an empty room and `Shutdown` keep the invariant.
use mathlib.Core.Path.{fun_ext, subst}
use call_it.Prelude.{
  ℕ, ◌==◌, ==_iff, Str, str_eq, str_eq_iff, List, [], ◌∷◌, All, true, false, Bool-cases,
  Option-cases, none, some, ◌≡◌, refl, sym, ap, ◌∙◌, arith, if◌then◌else◌, inl, inr,
}
use call_it.Ws.Channels.{Chan, close_chan, put_at}
use call_it.Ws.Room.{Sockets, is_member, is_empty, leave, close_room, close_all}
use call_it.Ws.Hub.{room_of, unregister, take_notice, reap}
use call_it.Ws.Invariant.{Inv, Distinct, has_notice, removed, removed-Inv, remove_and_notify_lem}
use call_it.Ws.Registry.{fewer_notices-Inv, has_notice-take_notice}
use call_it.Ws.Delivery.{All-of}

pub leave-Inv : (r c : ℕ) (s : Sockets) → Inv s → (s' : Sockets) × (leave r c s ≡ some s') × Inv s'
unfolding leave
leave-Inv r c s inv = elim (Bool-cases (s.rooms r).ended) [
  | inl over ↦ rw over (s, refl, inv)
  | inr going ↦ rw going (elim (Bool-cases (is_member c (s.rooms r).members)) [
    | inl there ↦ (
      removed r c s,
      remove_and_notify_lem r c s inv ∙ rw there refl,
      removed-Inv r c s inv there,
    )
    | inr absent ↦ (s, remove_and_notify_lem r c s inv ∙ rw absent refl, inv)
  ])
]

pub room_of-unregister :
    (id k : Str) (l : List (Str × ℕ))
    → room_of k (unregister id l) ≡ (if str_eq id k then none else room_of k l)
unfolding room_of unregister
room_of-unregister id k [] = ground arith
room_of-unregister id k ((j, r) ∷ l) =
    ground (arith, room_of-unregister id k l, str_eq_iff j id, str_eq_iff j k, str_eq_iff id k)

-- A room that closed and left the registry.
closed-Inv :
    (id : Str) (r : ℕ) (s : Sockets)
    → Inv s
    → room_of id s.registry ≡ some r
    → Inv (record s {
      rooms = put_at s.rooms r (record (s.rooms r) { ended = true });
      registry = unregister id s.registry;
    })
unfolding room_of
closed-Inv id r s inv found = record {
  opened = λ q c h. inv.opened q c (same q c ∙ h);
  given = λ q c h. inv.given q c (same q c ∙ h);
  apart = λ q p c h k. inv.apart q p c (same q c ∙ h) (same p c ∙ k);
  distinct = λ q. subst Distinct (same_members q) (inv.distinct q);
  live = λ k q h.
      let (h', other) = still k q h in
      let (going, made, name) = inv.live k q h' in rw other (going, made, name);
  noticed = λ k q h e. let (h', other) = still k q h in inv.noticed k q h' (same_members q ∙ e);
}
  where
    same_members :
        (q : ℕ)
        → (s.rooms q).members ≡ (put_at s.rooms r (record (s.rooms r) { ended = true }) q).members
    same_members q = elim (Bool-cases (r == q)) [
      | inr other ↦ rw other refl
      | inl here ↦ rw here (ap (λ k. (s.rooms k).members) (sym ((==_iff r q).0 here)))
    ]

    same :
        (q c : ℕ)
        → is_member c (s.rooms q).members
          ≡ is_member c (put_at s.rooms r (record (s.rooms r) { ended = true }) q).members
    same q c = ap (is_member c) (same_members q)

    still :
        (k : Str) (q : ℕ)
        → room_of k (unregister id s.registry) ≡ some q
        → (room_of k s.registry ≡ some q) × (r == q ≡ false)
    still k q h = elim (Bool-cases (str_eq id k)) [
      | inl gone ↦ absurd (ground (arith, room_of-unregister id k s.registry))
      | inr other ↦
          let h' : room_of k s.registry ≡ some q =
            ground (arith, room_of-unregister id k s.registry) in
          (
            h',
            elim (Bool-cases (r == q)) [
              | inr e ↦ e
              | inl e ↦
                  let name =
                    sym (inv.live id r found).2
                    ∙ (ap (λ j. (s.rooms j).id) ((==_iff r q).0 e) ∙ (inv.live k q h').2) in
                  absurd (ground (arith, (str_eq_iff id k).1 name))
            ],
          )
    ]

-- When the hub takes a notice, the room of that name is closed and forgotten if it is empty, and stays if
-- somebody has joined since.
pub reap-Inv : (id : Str) (s : Sockets) → Inv s → Inv (reap id s)
unfolding reap close_room
reap-Inv id s inv = elim (Option-cases (room_of id s.registry)) [
  | inl absent ↦
      rw (absent, reap)
        (fewer_notices-Inv id s (take_notice id s.notices) inv others
          (λ r h. absurd (ground (arith, absent))))
  | inr (r, found) ↦ elim (Bool-cases (is_empty (s.rooms r).members)) [
    | inr full ↦
        rw (found, full, reap)
          (fewer_notices-Inv id s (take_notice id s.notices) inv others (λ q h e.
            let same : r ≡ q = ground (arith, found) in
            absurd (ground (arith, full, ap is_empty (ap (λ k. (s.rooms k).members) same ∙ e)))))
    | inl empty ↦
        rw (found, empty, reap)
          (fewer_notices-Inv id _ (take_notice id s.notices) (closed-Inv id r s inv found) others
            (λ q h. absurd (ground (arith, str_eq_iff id id, room_of-unregister id id s.registry))))
  ]
]
  where
    others :
        (k : Str)
        → str_eq id k ≡ false
        → has_notice k s.notices ≡ has_notice k (take_notice id s.notices)
    others k h = has_notice-take_notice id k s.notices h

-- The channels after a shutdown of the room.
abbrev pub closed_at : List ℕ → (ℕ → Chan) → ℕ → Chan
closed_at cs chans x = if is_member x cs then record (chans x) { closed = true } else chans x

pub close_all_lem :
    (cs : List ℕ) (chans : ℕ → Chan)
    → All (λ c. (chans c).closed ≡ false) cs
    → Distinct cs
    → close_all cs chans ≡ some (closed_at cs chans)
unfolding close_all close_chan
close_all_lem [] chans h d = refl
close_all_lem (c ∷ cs) chans h d =
    let chans' = put_at chans c (record (chans c) { closed = true }) in
    let rest = close_all_lem cs chans' (All-of _ cs (λ x e. still_open x e)) d.1 in
    rw (h.0, close_all) (rest ∙ ap some (fun_ext λ x. all_closed x))
  where
    chans_at : ℕ → Chan
    chans_at = put_at chans c (record (chans c) { closed = true })

    open_of :
        (l : List ℕ) (x : ℕ)
        → All (λ c. (chans c).closed ≡ false) l
        → is_member x l ≡ true
        → (chans x).closed ≡ false
    open_of [] x a e = absurd (ground arith)
    open_of (y ∷ l) x a e = elim (Bool-cases (x == y)) [
      | inl same ↦ ap (λ k. (chans k).closed) ((==_iff x y).0 same) ∙ a.0
      | inr other ↦ open_of l x a.1 (ground arith)
    ]

    still_open : (x : ℕ) → is_member x cs ≡ true → (chans_at x).closed ≡ false
    still_open x e = elim (Bool-cases (c == x)) [
      | inl same ↦ absurd (ground (arith, ap (λ k. is_member k cs) ((==_iff c x).0 same), d.0))
      | inr other ↦ rw other (open_of cs x h.1 e)
    ]

    all_closed : (x : ℕ) → closed_at cs chans_at x ≡ closed_at (c ∷ cs) chans x
    all_closed x = elim (Bool-cases (c == x)) [
      | inr other ↦ ground (arith, ==_iff c x, ==_iff x c)
      | inl same ↦
          let e = (==_iff c x).0 same in
          subst (λ k. closed_at cs chans_at k ≡ closed_at (c ∷ cs) chans k) e
            (ground (arith, ==_iff c c, d.0))
    ]
