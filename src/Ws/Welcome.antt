-- ===== src/Ws/Welcome.antt =====
-- What `welcome` sends to the newcomer before the broadcast.
use call_it.Prelude.{
  ℕ, ◌+◌, ◌≤◌, ==_iff, Str, str_eq, List, [], ◌∷◌, length, length-append, false, Bool-cases, some,
  ◌≡◌, refl, sym, ap, ◌∙◌, arith, if◌then◌else◌, inl, inr,
}
use call_it.Ws.Protocol.{Payload}
use call_it.Ws.Channels.{Chan, put_at, has_space}
use call_it.Ws.Room.{Identity, Room, Sockets, members, count, members_of}
use call_it.Ws.Client.{send}
use call_it.Ws.Invariant.{Inv}
use call_it.Ws.Broadcasting.{offered, offered-open, try_send_lem}
use call_it.Ws.Steps.{put_chan-Inv}
use call_it.Ws.Handler.{undisturbed, greet, presence}

-- The messages about the members but the newcomer's own.
abbrev pub presences : Str → ℕ → List Identity → List Payload
presences user_id players [] = []
presences user_id players (m ∷ ms) =
    let rest = presences user_id players ms in
    if str_eq m.user_id user_id then rest else presence m players ∷ rest

abbrev pub offer_all : List Payload → Chan → Chan
offer_all [] ch = ch
offer_all (p ∷ ps) ch = offer_all ps (offered p ch)

pub offer_all-full :
    (ps : List Payload) (ch : Chan)
    → ch.capacity ≤ length ch.buffer + length ps
    → has_space (offer_all ps ch) ≡ false
offer_all-full [] ch h = ground arith
offer_all-full (p ∷ ps) ch h = offer_all-full ps (offered p ch) (elim (Bool-cases (has_space ch)) [
  | inl space ↦ let grown = length-append ch.buffer (p ∷ []) in rw space (omega (arith, grown))
  | inr full ↦ rw full (ground arith)
])

-- A step that only sends to one open channel.
pub record Sent (c : ℕ) (ps : List Payload) (s s' : Sockets) : Type 0 where
  pub inv : Inv s'
  pub rooms : s'.rooms ≡ s.rooms
  pub identities : s'.identities ≡ s.identities
  pub chan : s'.chans c ≡ offer_all ps (s.chans c)

pub count-rooms : (r : ℕ) (s1 s : Sockets) → s1.rooms ≡ s.rooms → count r s1 ≡ count r s
unfolding count
count-rooms r s1 s e = ap (λ (f : ℕ → Room). if (f r).ended then 0 else length (f r).members) e

pub members-rooms :
    (r : ℕ) (s1 s : Sockets)
    → s1.rooms ≡ s.rooms
    → s1.identities ≡ s.identities
    → members r s1 ≡ members r s
unfolding members
members-rooms r s1 s e f =
    ap (λ (g : ℕ → Room). if (g r).ended then [] else members_of s1.identities (g r).members) e
    ∙ ap (λ (i : ℕ → Identity). if (s.rooms r).ended then [] else members_of i (s.rooms r).members)
        f

pub send-Sent :
    (c : ℕ) (p : Payload) (s : Sockets)
    → Inv s
    → (s.chans c).closed ≡ false
    → (s' : Sockets) × (send c p s ≡ some s') × Sent c (p ∷ []) s s' × ((s'.chans c).closed ≡ false)
unfolding send
send-Sent c p s inv h =
    let here : put_at s.chans c (offered p (s.chans c)) c ≡ offered p (s.chans c) =
      rw ((==_iff c c).1 refl) refl in
    (
      record s { chans = put_at s.chans c (offered p (s.chans c)) },
      rw (try_send_lem p (s.chans c) h, send) refl,
      record {
        inv = put_chan-Inv c (offered p (s.chans c)) s (offered-open p (s.chans c) h ∙ sym h) inv;
        rooms = refl;
        identities = refl;
        chan = here;
      },
      ap (λ (ch : Chan). ch.closed) here ∙ offered-open p (s.chans c) h,
    )

pub greet-Sent :
    (k r c : ℕ) (user_id : Str) (ms : List Identity) (s : Sockets)
    → Inv s
    → (s.chans c).closed ≡ false
    → (s' : Sockets) × (greet undisturbed k r c user_id ms s ≡ some s')
      × Sent c (presences user_id (count r s) ms) s s'
unfolding greet
greet-Sent k r c user_id [] s inv h =
    (s, refl, record { inv = inv; rooms = refl; identities = refl; chan = refl })
greet-Sent k r c user_id (m ∷ ms) s inv h = elim (Bool-cases (str_eq m.user_id user_id)) [
  | inl own ↦ rw (own, greet) (greet-Sent k r c user_id ms s inv h)
  | inr other ↦
      let (s1, e1, sent1, h1) = send-Sent c (presence m (count r s)) s inv h in
      let (s2, e2, sent2) = greet-Sent (k + 2) r c user_id ms s1 sent1.inv h1 in
      let players = count-rooms r s1 s sent1.rooms in
      rw (other, e1, greet)
        (
          s2,
          e2,
          record {
            inv = sent2.inv;
            rooms = sent2.rooms ∙ sent1.rooms;
            identities = sent2.identities ∙ sent1.identities;
            chan =
                sent2.chan
                ∙ (ap (λ n. offer_all (presences user_id n ms) (s1.chans c)) players
                    ∙ ap (offer_all (presences user_id (count r s) ms)) sent1.chan);
          },
        )
]
