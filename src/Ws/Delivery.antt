-- ===== src/Ws/Delivery.antt =====
-- The effect of `Broadcast` on every client, and what becomes of one that was evicted.
use call_it.Prelude.{
  ℕ, ◌+◌, ◌==◌, List, [], ◌∷◌, All, length, true, false, not, ◌&&◌, Bool-cases, none, some, ◌≡◌,
  refl, ap, ◌∙◌, arith, if◌then◌else◌, inl, inr, ==_iff,
}
use call_it.Ws.Protocol.{Payload}
use call_it.Ws.Channels.{Chan, try_send, has_space, pushed}
use call_it.Ws.Room.{Sockets, is_member, broadcast}
use call_it.Ws.Client.{send}
use call_it.Ws.Invariant.{Inv, Distinct}
use call_it.Ws.Broadcasting.{full_of, delivered, offer_lem, evict_lem}

-- The channel of a member after a broadcast.
abbrev pub got : Payload → Chan → Chan
got p ch = if has_space ch then pushed p ch else record ch { closed = true }

is_member-full_of :
    (x : ℕ) (chans : ℕ → Chan) (l : List ℕ)
    → is_member x (full_of chans l) ≡ (is_member x l && not (has_space (chans x)))
is_member-full_of x chans [] = refl
is_member-full_of x chans (c ∷ l) = elim (Bool-cases (x == c)) [
  | inr other ↦ ground (arith, is_member-full_of x chans l)
  | inl same ↦
      let e = ap (λ k. has_space (chans k)) ((==_iff x c).0 same) in
      ground (arith, is_member-full_of x chans l, e)
]

Distinct-full_of : (chans : ℕ → Chan) (l : List ℕ) → Distinct l → Distinct (full_of chans l)
Distinct-full_of chans [] h = tt
Distinct-full_of chans (c ∷ l) h = elim (Bool-cases (has_space (chans c))) [
  | inl space ↦ rw space (Distinct-full_of chans l h.1)
  | inr full ↦ rw full ((is_member-full_of c chans l ∙ rw h.0 refl, Distinct-full_of chans l h.1))
]

-- What holds of all members of a list.
pub All-of {ℓ} : (P : ℕ → Type ℓ) (l : List ℕ) → ((x : ℕ) → is_member x l ≡ true → P x) → All P l
All-of P [] h = tt
All-of P (c ∷ l) h = (h c (ground (arith, ==_iff c c)), All-of P l (λ x e. h x (ground arith)))

-- Buffers do not matter to the invariant.
pub rebuffered-Inv :
    (s : Sockets) (f : ℕ → Chan) (n : ℕ)
    → ((x : ℕ) → (f x).closed ≡ (s.chans x).closed)
    → Inv s
    → Inv (record s { chans = f; drops = n })
rebuffered-Inv s f n same inv = record {
  opened = λ r c h. same c ∙ inv.opened r c h;
  given = inv.given;
  apart = inv.apart;
  distinct = inv.distinct;
  live = inv.live;
  noticed = inv.noticed;
}

pub record Delivers (r : ℕ) (p : Payload) (s s' : Sockets) : Type 0 where
  pub chans :
      (x : ℕ)
      → s'.chans x ≡ (if is_member x (s.rooms r).members then got p (s.chans x) else s.chans x)
  pub members :
      (q x : ℕ)
      → is_member x (s'.rooms q).members
        ≡ (is_member x (s.rooms q).members && not ((r == q) && not (has_space (s.chans x))))
  pub drops : s'.drops ≡ s.drops + length (full_of s.chans (s.rooms r).members)
  pub registry : s'.registry ≡ s.registry

-- A broadcast to a room that has not ended does not panic, and puts the payload at the end of the buffer
-- of every member that has space. A member that has none loses its membership and its channel is
-- closed, with its buffer kept, and each is counted as a drop; no other client and no other room
-- changes. The order in which the members are visited does not matter.
pub broadcast-Delivers :
    (r : ℕ) (p : Payload) (s : Sockets)
    → Inv s
    → (s.rooms r).ended ≡ false
    → (s' : Sockets) × (broadcast r p s ≡ some s') × Inv s' × Delivers r p s s'
unfolding broadcast
broadcast-Delivers r p s inv going =
    let cs = (s.rooms r).members in
    let ev = full_of s.chans cs in
    let s1 : Sockets = record s { chans = delivered p s.chans cs; drops = s.drops + length ev } in
    let inv1 =
      rebuffered-Inv s (delivered p s.chans cs) (s.drops + length ev) (λ x. ground arith) inv in
    let sent = offer_lem cs p s.chans (All-of _ cs (inv.opened r)) (inv.distinct r) in
    let (s', done, left) =
      evict_lem r ev s1 inv1 (All-of _ ev (λ x h. ground (arith, is_member-full_of x s.chans cs)))
        (Distinct-full_of s.chans cs (inv.distinct r)) in
    (
      s',
      rw (going, sent, broadcast) done,
      left.inv,
      record {
        chans = λ x. ground (arith, left.chans x, is_member-full_of x s.chans cs);
        members = λ q x. elim (Bool-cases (r == q)) [
          | inr other ↦ ground (arith, left.members q x)
          | inl same ↦
              let e = ap (λ k. is_member x (s.rooms k).members) ((==_iff r q).0 same) in
              ground (arith, left.members q x, is_member-full_of x s.chans cs, e)
        ];
        drops = left.drops;
        registry = left.registry;
      },
    )

-- A client whose channel was full when its room broadcast is one whose goroutines cannot send to it any
-- more: the next `Send` to it, such as the reply to its next message, panics.
pub send-evicted :
    (r c : ℕ) (p q : Payload) (s : Sockets)
    → Inv s
    → (s.rooms r).ended ≡ false
    → is_member c (s.rooms r).members ≡ true
    → has_space (s.chans c) ≡ false
    → (s' : Sockets) × (broadcast r p s ≡ some s') × (send c q s' ≡ none)
unfolding send try_send
send-evicted r c p q s inv going there full =
    let (s', done, _, effect) = broadcast-Delivers r p s inv going in
    let closed : (s'.chans c).closed ≡ true =
      ap (λ (ch : Chan). ch.closed) (effect.chans c) ∙ rw (there, full) refl in
    (s', done, rw (closed, send) refl)
