-- ===== src/Ws/Composed.antt =====
-- ws/handler.go as a sequence of the steps of the package, whatever comes between them.
use mathlib.Core.Path.{subst}
use call_it.Prelude.{
  ℕ, ◌+◌, ℤ, Str, str_eq, List, [], ◌∷◌, Bool, true, false, Option, none, some, ◌≡◌, refl, sym, ◌∙◌,
  arith, Bool-cases, Option-cases, inl, inr, if◌then◌else◌,
}
use call_it.Auth.Token.{Claims}
use call_it.Ws.Protocol.{Payload}
use call_it.Ws.Channels.{try_send}
use call_it.Ws.Room.{Identity, Sockets, leave, broadcast, count, members}
use call_it.Ws.Hub.{new_client, hub_join}
use call_it.Ws.Client.{send}
use call_it.Ws.Steps.{
  connecting, leaving, broadcasting, sending, Reached, IsNew, step-safe, next, step,
  join_new_client,
}
use call_it.Ws.Handler.{
  Meanwhile, announce, goodbye, presence, ◌>>=◌, Sessions, greet, welcome, connect, disconnect,
  identity_of,
}

some-injective : (s s' : Sockets) → some s ≡ some s' → s ≡ s'
some-injective s s' e = cc

module _ (first : Sockets) where
  abbrev Leads : Option Sockets → Type 0
  Leads o = (s : Sockets) → o ≡ some s → Reached first s

  then-Leads :
      (o : Option Sockets) (f : Sockets → Option Sockets)
      → Leads o
      → ((s : Sockets) → Reached first s → Leads (f s))
      → Leads (o >>= f)
  then-Leads none f h k s e = absurd (ground arith)
  then-Leads (some s1) f h k s e = k s1 (h s1 refl) s e

  send-Leads : (c : ℕ) (p : Payload) (s : Sockets) → Reached first s → Leads (send c p s)
  unfolding send try_send step
  send-Leads c p s reached s' e = elim (Bool-cases (s.chans c).closed) [
    | inl closed ↦ absurd (ground arith)
    | inr going ↦ next (sending c p) going reached e
  ]

  broadcast-Leads : (r : ℕ) (p : Payload) (s : Sockets) → Reached first s → Leads (broadcast r p s)
  unfolding step
  broadcast-Leads r p s reached s' e = next (broadcasting r p) tt reached e

  leave-Leads : (r c : ℕ) (s : Sockets) → Reached first s → Leads (leave r c s)
  unfolding step
  leave-Leads r c s reached s' e = next (leaving r c) tt reached e

  here-Leads : (s : Sockets) → Reached first s → Leads (some s)
  here-Leads s reached s' e = subst (Reached first) (some-injective s s' e) reached

  if-Leads : (b : Bool) (o p : Option Sockets) → Leads o → Leads p → Leads (if b then o else p)
  if-Leads true o p h k = h
  if-Leads false o p h k = k

  module _ (meanwhile : Meanwhile)
      (calm : (k : ℕ) (s : Sockets)
        → Reached first s
        → (s' : Sockets) × (meanwhile k s ≡ some s') × Reached first s') where
    others : (k : ℕ) (s s' : Sockets) → Reached first s → meanwhile k s ≡ some s' → Reached first s'
    others k s s' reached e =
        let (s1, e1, reached1) = calm k s reached in
        subst (Reached first) (some-injective s1 s' (sym e1 ∙ e)) reached1

    disconnect-Goes :
        (sessions : Sessions) (claims : Claims) (r c : ℕ) (s l1 l2 l3 l4 : Sockets) (u : sessions.T)
        → leave r c s ≡ some l1
        → meanwhile 0 l1 ≡ some l2
        → meanwhile 1 l2 ≡ some l3
        → broadcast r (goodbye claims (count r l2)) l3 ≡ some l4
        → disconnect sessions meanwhile claims r c s u
          ≡ some (l4, sessions.schedule_end_session claims.room_id claims.user_id claims.guest u)
    unfolding disconnect
    disconnect-Goes sessions claims r c s l1 l2 l3 l4 u left first_gap second_gap told =
        ground arith

    greet-Leads :
        (k r c : ℕ) (user_id : Str) (ms : List Identity) (s : Sockets)
        → Reached first s
        → Leads (greet meanwhile k r c user_id ms s)
    unfolding greet
    greet-Leads k r c user_id [] s reached = here-Leads s reached
    greet-Leads k r c user_id (m ∷ ms) s reached =
        if-Leads (str_eq m.user_id user_id) _ _ (greet-Leads k r c user_id ms s reached) (
          then-Leads (meanwhile k s) _ (λ s1. others k s s1 reached)
            λ s1 r1.
              then-Leads (meanwhile (k + 1) s1) _ (λ s2. others (k + 1) s1 s2 r1)
                λ s2 r2.
                  then-Leads _ _ (send-Leads c _ s2 r2)
                    λ s3 r3. greet-Leads (k + 2) r c user_id ms s3 r3)

    announce-Leads :
        (claims : Claims) (r : ℕ) (s : Sockets)
        → Reached first s
        → Leads (announce meanwhile claims r s)
    unfolding announce
    announce-Leads claims r s reached =
        then-Leads (meanwhile 2 s) _ (λ s1. others 2 s s1 reached)
          λ s1 r1.
            let said = presence (identity_of claims) (count r s1) in
            then-Leads (meanwhile 3 s1) (broadcast r said) (λ s2. others 3 s1 s2 r1)
              λ s2 r2. broadcast-Leads r said s2 r2

    welcome-Leads :
        (claims : Claims) (balance : ℤ) (r c : ℕ) (s : Sockets)
        → Reached first s
        → Leads (welcome meanwhile claims balance r c s)
    unfolding welcome
    welcome-Leads claims balance r c s reached =
        then-Leads (meanwhile 0 s) _ (λ s0. others 0 s s0 reached)
          λ s0 r0. then-Leads _ _ (send-Leads c _ s0 r0) λ s1 r1.
            then-Leads (meanwhile 1 s1) _ (λ s2. others 1 s1 s2 r1)
              λ s2 r2.
                then-Leads (greet meanwhile 4 r c claims.user_id (members r s2) s2)
                  (announce meanwhile claims r)
                  (greet-Leads 4 r c claims.user_id (members r s2) s2 r2) (announce-Leads claims r)

    -- Let other goroutines, at every point between two calls of the handler, lead without a panic from a
    -- state that the steps of the package reach, from a hub without rooms, to another. A connection that
    -- returns has then led to a state that the steps reach, so that what holds in all those holds after
    -- it. And when its pump ends, in whatever state `later` that the steps reach, `disconnect` returns, in
    -- such a state too: leaving and the last broadcast never panic.
    pub connect-Reached :
        (sessions : Sessions) (n : ℕ) (claims : Claims) (s s' later : Sockets) (t t' u : sessions.T)
        (r c : ℕ)
        → IsNew first
        → Reached first s
        → connect sessions meanwhile n claims s t ≡ some ((r, c), s', t')
        → Reached first later
        → Reached first s'
          × (end : Sockets) × (disconnect sessions meanwhile claims r c later u
              ≡ some
                  (end, sessions.schedule_end_session claims.room_id claims.user_id claims.guest u))
          × Reached first end
    unfolding connect disconnect step join_new_client
    connect-Reached sessions n claims s s' later t t' u r c new reached e at =
        let resumed = sessions.resume_session claims.room_id claims.user_id t in
        let (client, s1) = new_client (identity_of claims) n s in
        let (room, s2) = hub_join claims.room_id client s1 in
        let joined : Reached first s2 =
          next (connecting (identity_of claims) n claims.room_id) tt reached refl in
        let shown = sessions.balance claims.room_id claims.user_id resumed in
        let (l1, left) = step-safe first later (leaving r c) new at tt in
        let at1 = leave-Leads r c later at l1 left in
        let (l2, e2, at2) = calm 0 l1 at1 in
        let (l3, e3, at3) = calm 1 l2 at2 in
        let said = goodbye claims (count r l2) in
        let (l4, told) = step-safe first l3 (broadcasting r said) new at3 tt in
        (
          elim (Option-cases (welcome meanwhile claims shown room client s2)) [
            | inl panic ↦ absurd (ground arith)
            | inr (s3, done) ↦ welcome-Leads claims shown room client s2 joined s' (ground arith)
          ],
          l4,
          disconnect-Goes sessions claims r c later l1 l2 l3 l4 u left e2 e3 told,
          broadcast-Leads r said l3 at3 l4 told,
        )
