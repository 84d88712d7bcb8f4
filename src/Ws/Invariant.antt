-- ===== src/Ws/Invariant.antt =====
-- What the goroutines of the hub and of the rooms keep: the channel of a member is open, a client is in
-- one room at most, and an empty room is known to the hub.
use call_it.Prelude.{
  ℕ, ◌<◌, ◌==◌, ==_iff, Str, str_eq, str_eq_iff, List, [], ◌∷◌, ◌++◌, Bool, true, false, ◌||◌,
  Bool-cases, some, ◌≡◌, refl, ap, ◌∙◌, arith, if◌then◌else◌, inl, inr,
}
use call_it.Ws.Channels.{close_chan, put_at}
use call_it.Ws.Room.{Sockets, is_member, erase, is_empty, remove_and_notify, with_members}
use call_it.Ws.Hub.{room_of}

abbrev pub Distinct : List ℕ → Type 0
Distinct [] = Unit
Distinct (c ∷ l) = (is_member c l ≡ false) × Distinct l

abbrev pub has_notice : Str → List Str → Bool
has_notice id [] = false
has_notice id (x ∷ l) = str_eq x id || has_notice id l

pub record Inv (s : Sockets) : Type 0 where
  pub opened : (r c : ℕ) → is_member c (s.rooms r).members ≡ true → (s.chans c).closed ≡ false
  pub given : (r c : ℕ) → is_member c (s.rooms r).members ≡ true → c < s.clients
  pub apart :
      (r q c : ℕ)
      → is_member c (s.rooms r).members ≡ true
      → is_member c (s.rooms q).members ≡ true
      → r ≡ q
  pub distinct : (r : ℕ) → Distinct (s.rooms r).members
  pub live :
      (id : Str) (r : ℕ)
      → room_of id s.registry ≡ some r
      → ((s.rooms r).ended ≡ false) × (r < s.created) × ((s.rooms r).id ≡ id)
  pub noticed :
      (id : Str) (r : ℕ)
      → room_of id s.registry ≡ some r
      → (s.rooms r).members ≡ []
      → has_notice id s.notices ≡ true

pub is_member-erase :
    (x c : ℕ) (l : List ℕ) → is_member x (erase c l) ≡ (if c == x then false else is_member x l)
is_member-erase x c [] = ground arith
is_member-erase x c (y ∷ l) = ground (arith, is_member-erase x c l)

pub Distinct-erase : (c : ℕ) (l : List ℕ) → Distinct l → Distinct (erase c l)
Distinct-erase c [] h = tt
Distinct-erase c (x ∷ l) h = elim (Bool-cases (c == x)) [
  | inl same ↦ rw same (Distinct-erase c l h.1)
  | inr other ↦ rw other ((is_member-erase x c l ∙ rw other h.0, Distinct-erase c l h.1))
]

pub has_notice-append :
    (id : Str) (l m : List Str) → has_notice id (l ++ m) ≡ (has_notice id l || has_notice id m)
has_notice-append id [] m = refl
has_notice-append id (x ∷ l) m = ground (arith, has_notice-append id l m)

pub has_notice_self : (id : Str) → has_notice id (id ∷ []) ≡ true
has_notice_self id = ground (arith, str_eq_iff id id)

-- The state after a member was removed.
abbrev pub removed : ℕ → ℕ → Sockets → Sockets
removed r c s =
    let left = erase c (s.rooms r).members in
    record (with_members r left s) {
      chans = put_at s.chans c (record (s.chans c) { closed = true });
      notices = if is_empty left then s.notices ++ ((s.rooms r).id ∷ []) else s.notices;
    }

pub members-removed :
    (r c q x : ℕ) (s : Sockets)
    → is_member x ((removed r c s).rooms q).members ≡ (
        if r == q
        then (if c == x then false else is_member x (s.rooms q).members)
        else is_member x (s.rooms q).members)
members-removed r c q x s = elim (Bool-cases (r == q)) [
  | inr other ↦ rw other refl
  | inl same ↦ rw same (
      is_member-erase x c (s.rooms r).members
      ∙ ap (λ k. if c == x then false else is_member x (s.rooms k).members) ((==_iff r q).0 same))
]

removed-opened :
    (r c q x : ℕ) (s : Sockets)
    → Inv s
    → is_member c (s.rooms r).members ≡ true
    → is_member x ((removed r c s).rooms q).members ≡ true
    → ((removed r c s).chans x).closed ≡ false
removed-opened r c q x s inv there h = ground (
  arith,
  members-removed r c q x s,
  inv.opened q x,
  inv.apart r q c there,
  ==_iff c x,
  ==_iff r q,
)

was-member :
    (r c q x : ℕ) (s : Sockets)
    → is_member x ((removed r c s).rooms q).members ≡ true
    → is_member x (s.rooms q).members ≡ true
was-member r c q x s h = ground (arith, members-removed r c q x s)

pub removed-live :
    (r c q : ℕ) (s : Sockets)
    → (((removed r c s).rooms q).ended ≡ (s.rooms q).ended)
      × (((removed r c s).rooms q).id ≡ (s.rooms q).id)
removed-live r c q s = elim (Bool-cases (r == q)) [
  | inr other ↦ rw other (refl, refl)
  | inl same ↦ rw same (
    ap (λ k. (s.rooms k).ended) ((==_iff r q).0 same),
    ap (λ k. (s.rooms k).id) ((==_iff r q).0 same),
  )
]

removed-Distinct : (r c q : ℕ) (s : Sockets) → Inv s → Distinct ((removed r c s).rooms q).members
removed-Distinct r c q s inv = elim (Bool-cases (r == q)) [
  | inr other ↦ rw other (inv.distinct q)
  | inl same ↦ rw same (Distinct-erase c (s.rooms r).members (inv.distinct r))
]

removed-noticed :
    (r c : ℕ) (id : Str) (q : ℕ) (s : Sockets)
    → Inv s
    → room_of id s.registry ≡ some q
    → ((removed r c s).rooms q).members ≡ []
    → has_notice id (removed r c s).notices ≡ true
removed-noticed r c id q s inv h e =
    let name = (inv.live id q h).2 in
    elim (Bool-cases (r == q)) [
      | inr other ↦
          let before = inv.noticed id q h (ground arith) in
          ground (arith, has_notice-append id s.notices ((s.rooms r).id ∷ []))
      | inl same ↦
          let here : erase c (s.rooms r).members ≡ [] = ground arith in
          let named : (s.rooms r).id ≡ id = ap (λ k. (s.rooms k).id) ((==_iff r q).0 same) ∙ name in
          ground (
            arith,
            ap is_empty here,
            has_notice-append id s.notices ((s.rooms r).id ∷ []),
            str_eq_iff (s.rooms r).id id,
          )
    ]

pub removed-Inv :
    (r c : ℕ) (s : Sockets) → Inv s → is_member c (s.rooms r).members ≡ true → Inv (removed r c s)
removed-Inv r c s inv there = record {
  opened = λ q x h. removed-opened r c q x s inv there h;
  given = λ q x h. inv.given q x (was-member r c q x s h);
  apart = λ q p x h k. inv.apart q p x (was-member r c q x s h) (was-member r c p x s k);
  distinct = λ q. removed-Distinct r c q s inv;
  live = λ id q h.
      let (going, made, name) = inv.live id q h in
      let (e, n) = removed-live r c q s in (e ∙ going, made, n ∙ name);
  noticed = λ id q h e. removed-noticed r c id q s inv h e;
}

pub remove_and_notify_lem :
    (r c : ℕ) (s : Sockets)
    → Inv s
    → remove_and_notify r c s
      ≡ (if is_member c (s.rooms r).members then some (removed r c s) else some s)
unfolding remove_and_notify close_chan
remove_and_notify_lem r c s inv = elim (Bool-cases (is_member c (s.rooms r).members)) [
  | inr absent ↦ rw absent refl
  | inl there ↦ rw (there, inv.opened r c there) refl
]
