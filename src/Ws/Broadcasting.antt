-- ===== src/Ws/Broadcasting.antt =====
-- What a broadcast does to each client, and that the goroutine of a room does not panic.
use mathlib.Core.Path.{fun_ext, subst}
use call_it.Prelude.{
  ℕ, ◌==◌, ==_iff, List, [], ◌∷◌, All, true, false, ◌&&◌, Bool-cases, some, ◌≡◌, refl, ap, ◌∙◌,
  arith, if◌then◌else◌, inl, inr,
}
use call_it.Ws.Protocol.{Payload}
use call_it.Ws.Channels.{Chan, try_send, put_at, has_space, pushed}
use call_it.Ws.Room.{Sockets, is_member, remove_and_notify, offer, evict}
use call_it.Ws.Invariant.{
  Inv, Distinct, removed, removed-Inv, remove_and_notify_lem, members-removed, removed-live,
}

-- The clients whose channel is full.
abbrev pub full_of : (ℕ → Chan) → List ℕ → List ℕ
full_of chans [] = []
full_of chans (c ∷ cs) =
    let rest = full_of chans cs in if has_space (chans c) then rest else c ∷ rest

abbrev pub delivered : Payload → (ℕ → Chan) → List ℕ → ℕ → Chan
delivered p chans cs x =
    if is_member x cs && has_space (chans x) then pushed p (chans x) else chans x

full_of-put_at :
    (chans : ℕ → Chan) (c : ℕ) (ch : Chan) (cs : List ℕ)
    → is_member c cs ≡ false
    → full_of (put_at chans c ch) cs ≡ full_of chans cs
full_of-put_at chans c ch [] h = refl
full_of-put_at chans c ch (x ∷ cs) h = ground (arith, full_of-put_at chans c ch cs)

abbrev pub offered : Payload → Chan → Chan
offered p ch = if has_space ch then pushed p ch else ch

delivered-put_at :
    (p : Payload) (chans : ℕ → Chan) (c : ℕ) (cs : List ℕ)
    → is_member c cs ≡ false
    → delivered p (put_at chans c (offered p (chans c))) cs ≡ delivered p chans (c ∷ cs)
delivered-put_at p chans c cs h = fun_ext λ x. elim (Bool-cases (c == x)) [
  | inr other ↦ ground arith
  | inl same ↦
      let e = (==_iff c x).0 same in
      subst
        (λ y.
          delivered p (put_at chans c (offered p (chans c))) cs y ≡ delivered p chans (c ∷ cs) y)
        e (ground (arith, ==_iff c c))
]

All-put_at :
    (chans : ℕ → Chan) (c : ℕ) (ch : Chan) (cs : List ℕ)
    → ch.closed ≡ false
    → All (λ x. (chans x).closed ≡ false) cs
    → All (λ x. (put_at chans c ch x).closed ≡ false) cs
All-put_at chans c ch [] e h = tt
All-put_at chans c ch (x ∷ cs) e h = (ground arith, All-put_at chans c ch cs e h.1)

pub offered-open : (p : Payload) (ch : Chan) → ch.closed ≡ false → (offered p ch).closed ≡ false
offered-open p ch h = ground arith

pub try_send_lem :
    (p : Payload) (ch : Chan)
    → ch.closed ≡ false
    → try_send p ch ≡ some (has_space ch, offered p ch)
unfolding try_send
try_send_lem p ch h = ground arith

offer_step :
    (c : ℕ) (cs : List ℕ) (p : Payload) (chans : ℕ → Chan) (ev : List ℕ) (chans' : ℕ → Chan)
    → (chans c).closed ≡ false
    → offer cs p (put_at chans c (offered p (chans c))) ≡ some (ev, chans')
    → offer (c ∷ cs) p chans ≡ some (if has_space (chans c) then ev else c ∷ ev, chans')
unfolding offer
offer_step c cs p chans ev chans' h e = rw (try_send_lem p (chans c) h, e, offer) refl

pub offer_lem :
    (cs : List ℕ) (p : Payload) (chans : ℕ → Chan)
    → All (λ c. (chans c).closed ≡ false) cs
    → Distinct cs
    → offer cs p chans ≡ some (full_of chans cs, delivered p chans cs)
unfolding offer
offer_lem [] p chans h d = refl
offer_lem (c ∷ cs) p chans h d =
    let rest =
      offer_lem cs p (put_at chans c (offered p (chans c)))
        (All-put_at chans c (offered p (chans c)) cs (offered-open p (chans c) h.0) h.1) d.1 in
    let same = full_of-put_at chans c (offered p (chans c)) cs d.0 in
    offer_step c cs p chans (full_of chans cs) (delivered p chans (c ∷ cs)) h.0 (
      rest
      ∙ (ap (λ l. some (l, delivered p (put_at chans c (offered p (chans c))) cs)) same
          ∙ ap (λ f. some (full_of chans cs, f)) (delivered-put_at p chans c cs d.0)))

-- What the evictions leave: the channels of the clients are closed and they are no members.
pub record Evicted (r : ℕ) (ev : List ℕ) (s s' : Sockets) : Type 0 where
  pub inv : Inv s'
  pub chans :
      (x : ℕ)
      → s'.chans x ≡ (if is_member x ev then record (s.chans x) { closed = true } else s.chans x)
  pub members :
      (q x : ℕ)
      → is_member x (s'.rooms q).members
        ≡ (if (r == q) && is_member x ev then false else is_member x (s.rooms q).members)
  pub drops : s'.drops ≡ s.drops
  pub registry : s'.registry ≡ s.registry
  pub going : (q : ℕ) → (s'.rooms q).ended ≡ (s.rooms q).ended

-- The clients are members of the room.
abbrev pub AreMembers : ℕ → List ℕ → Sockets → Type 0
AreMembers r ev s = All (λ c. is_member c (s.rooms r).members ≡ true) ev

AreMembers-removed :
    (r c : ℕ) (ev : List ℕ) (s : Sockets)
    → is_member c ev ≡ false
    → AreMembers r ev s
    → AreMembers r ev (removed r c s)
AreMembers-removed r c [] s h all = tt
AreMembers-removed r c (x ∷ ev) s h all =
    (ground (arith, members-removed r c r x s), AreMembers-removed r c ev s (ground arith) all.1)

pub evict_lem :
    (r : ℕ) (ev : List ℕ) (s : Sockets)
    → Inv s
    → AreMembers r ev s
    → Distinct ev
    → (s' : Sockets) × (evict r ev s ≡ some s') × Evicted r ev s s'
unfolding evict
evict_lem r [] s inv all d = (
  s,
  refl,
  record {
    inv = inv;
    chans = λ x. refl;
    members = λ q x. ground arith;
    drops = refl;
    registry = refl;
    going = λ q. refl;
  },
)
evict_lem r (c ∷ ev) s inv all d =
    let s1 = removed r c s in
    let (s', e, left) =
      evict_lem r ev s1 (removed-Inv r c s inv all.0) (AreMembers-removed r c ev s d.0 all.1) d.1 in
    let first : remove_and_notify r c s ≡ some s1 =
      remove_and_notify_lem r c s inv ∙ rw all.0 refl in
    (
      s',
      rw (first, evict) e,
      record {
        inv = left.inv;
        chans = λ x. ground (arith, left.chans x, ==_iff c x, d.0);
        members = λ q x.
            ground (arith, left.members q x, members-removed r c q x s, ==_iff c x, ==_iff x c);
        drops = left.drops;
        registry = left.registry;
        going = λ q. left.going q ∙ (removed-live r c q s).0;
      },
    )
