-- ===== src/Ws/Handler.antt =====
-- ws/handler.go: a connection from its request to its end. The sessions of round.Service are a parameter.
use call_it.Prelude.{
  ℕ, ◌+◌, ℤ, Str, str_eq, List, [], ◌∷◌, Bool, true, Option, none, some, ok, err, if◌then◌else◌,
}
use call_it.Auth.Token.{Claims, Jwt, Issuer, verify}
use call_it.Ws.Protocol.{Payload, connected, player_joined, player_left, extract_token}
use call_it.Ws.Room.{Identity, Sockets, leave, broadcast, members, count}
use call_it.Ws.Hub.{new_client, hub_join}
use call_it.Ws.Client.{send}

-- The interface of the package for the sessions; an error of `Balance` is logged and shows no balance.
pub record Sessions : Type 1 where
  pub T : Type 0
  pub resume_session : Str → Str → T → T
  pub schedule_end_session : Str → Str → Bool → T → T
  pub balance : Str → Str → T → ℤ

-- The check of the Origin header; without a list the upgrader's own check decides.
unfoldable pub origin_allowed : List Str → Str → Bool
origin_allowed [] origin = str_eq origin []
origin_allowed (o ∷ os) origin =
    let rest = origin_allowed os origin in
    if str_eq origin [] then true else if str_eq o origin then true else rest

pub data Refusal : Type 0 where
  unauthorized forbidden : Refusal

pub data Admission : Type 0 where
  refused : Refusal → Admission
  admitted : Claims → Admission

-- Up to the upgrade.
unfoldable pub admit : Jwt → Issuer → ℕ → Str → Str → Admission
unfolding extract_token verify
admit jwt issuer now header query =
    let token = extract_token header query in
    if str_eq token [] then refused unauthorized else elim (verify jwt issuer now token) [
      | err _ ↦ refused unauthorized
      | ok claims ↦ if str_eq claims.room_id [] then refused forbidden else admitted claims
    ]

infixl 5 ◌>>=◌
abbrev pub ◌>>=◌ : Option Sockets → (Sockets → Option Sockets) → Option Sockets
none >>= f = none
some s >>= f = f s

abbrev pub presence : Identity → ℕ → Payload
presence m players =
    player_joined
      (record { user_id = m.user_id; display_name = m.display_name; player_count = players })

-- What other goroutines do at a point between two calls of the handler, by the number of the point;
-- `none` is a panic of theirs.
abbrev pub Meanwhile : Type 0
Meanwhile = ℕ → Sockets → Option Sockets

-- Nothing comes in between.
abbrev pub undisturbed : Meanwhile
undisturbed k s = some s

-- The loop that tells the newcomer of the members, from point `k` on: `Count` and `Send` for each.
unfoldable pub greet : Meanwhile → ℕ → ℕ → ℕ → Str → List Identity → Sockets → Option Sockets
unfolding send count
greet meanwhile k r c user_id [] s = some s
greet meanwhile k r c user_id (m ∷ ms) s =
    let skipped = greet meanwhile k r c user_id ms s in
    if str_eq m.user_id user_id then skipped else (do
      s1 ← meanwhile k s
      s2 ← meanwhile (k + 1) s1
      s3 ← send c (presence m (count r s1)) s2
      greet meanwhile (k + 2) r c user_id ms s3)

abbrev pub identity_of : Claims → Identity
identity_of claims = record {
  user_id = claims.user_id;
  display_name = claims.display_name;
  guest = claims.guest;
}

-- `Count` and the broadcast that it has joined.
unfoldable pub announce : Meanwhile → Claims → ℕ → Sockets → Option Sockets
unfolding broadcast count
announce meanwhile claims r s = do
  s1 ← meanwhile 2 s
  s2 ← meanwhile 3 s1
  broadcast r (presence (identity_of claims) (count r s1)) s2

-- From the client's place in the room to the broadcast that it has joined: the connected message, the
-- loop over `Members`, and the broadcast.
unfoldable pub welcome : Meanwhile → Claims → ℤ → ℕ → ℕ → Sockets → Option Sockets
unfolding send greet members announce
welcome meanwhile claims balance r c s = do
  s0 ← meanwhile 0 s
  s1 ←
      send c
        (connected (record {
          user_id = claims.user_id;
          display_name = claims.display_name;
          room_id = claims.room_id;
          guest = claims.guest;
          host = claims.host;
          balance = balance;
        }))
        s0
  s2 ← meanwhile 1 s1
  s3 ← greet meanwhile 4 r c claims.user_id (members r s2) s2
  announce meanwhile claims r s3

abbrev pub goodbye : Claims → ℕ → Payload
goodbye claims players = player_left (record {
  user_id = claims.user_id;
  display_name = claims.display_name;
  player_count = players;
})

module _ (sessions : Sessions) where
  -- After the upgrade; `send_buffer` is of the configuration. It returns the room and the client, which
  -- others may reach from the join on.
  unfoldable pub connect :
      Meanwhile → ℕ → Claims → Sockets → sessions.T → Option ((ℕ × ℕ) × Sockets × sessions.T)
  unfolding new_client hub_join welcome
  connect meanwhile send_buffer claims s t =
      let t' = sessions.resume_session claims.room_id claims.user_id t in
      let (c, s1) = new_client (identity_of claims) send_buffer s in
      let (r, s2) = hub_join claims.room_id c s1 in
      elim (welcome meanwhile claims (sessions.balance claims.room_id claims.user_id t') r c s2) [
        | none ↦ none
        | some s3 ↦ some ((r, c), s3, t')
      ]

  -- What `ReadPump` calls when it ends.
  unfoldable pub disconnect :
      Meanwhile → Claims → ℕ → ℕ → Sockets → sessions.T → Option (Sockets × sessions.T)
  unfolding leave broadcast count
  disconnect meanwhile claims r c s t =
      elim (do
        s1 ← leave r c s
        s2 ← meanwhile 0 s1
        s3 ← meanwhile 1 s2
        broadcast r (goodbye claims (count r s2)) s3) [
          | none ↦ none
          | some s4 ↦
              some (s4, sessions.schedule_end_session claims.room_id claims.user_id claims.guest t)
        ]
