-- ===== src/Ws/Protocol.antt =====
-- ws/protocol.go and `ExtractToken` of ws/handler.go: the messages, the envelope and the token. What JSON
-- makes of bytes is a parameter.
use call_it.Prelude.{
  ℕ, ℤ, ◌==◌, Str, bytes, str_eq, [], ◌∷◌, Bool, Option, none, some, Result, ok, err, if◌then◌else◌,
}

pub record Envelope : Type 0 where
  pub kind : Str
  pub content : Str

pub record ConnectedEvent : Type 0 where
  pub user_id : Str
  pub display_name : Str
  pub room_id : Str
  pub guest : Bool
  pub host : Bool
  pub balance : ℤ

pub record PresenceEvent : Type 0 where
  pub user_id : Str
  pub display_name : Str
  pub player_count : ℕ

pub record WagerAcceptedEvent : Type 0 where
  pub round_id : Str
  pub outcome : ℤ
  pub amount : ℤ
  pub balance : ℤ

pub record ErrorEvent : Type 0 where
  pub code : Str
  pub message : Str

-- A message to a client before `Encode`. The services hand encoded ones to the hub.
pub data Payload : Type 0 where
  connected : ConnectedEvent → Payload
  player_joined player_left : PresenceEvent → Payload
  wager_accepted : WagerAcceptedEvent → Payload
  error_reply : ErrorEvent → Payload
  encoded : Str → Payload

pub data DecodeError : Type 0 where
  malformed missing_type : DecodeError

-- `Decode`
unfoldable pub decode_envelope : (Str → Option Envelope) → Str → Result DecodeError Envelope
decode_envelope json_envelope raw = elim (json_envelope raw) [
  | none ↦ err malformed
  | some env ↦ if str_eq env.kind [] then err missing_type else ok env
]

-- `strings.CutPrefix`
unfoldable pub cut_prefix : Str → Str → Option Str
cut_prefix [] s = some s
cut_prefix (p ∷ prefix) [] = none
cut_prefix (p ∷ prefix) (b ∷ s) = let rest = cut_prefix prefix s in if p == b then rest else none

-- The Authorization header comes first, and then the query.
unfoldable pub extract_token : Str → Str → Str
unfolding cut_prefix
extract_token header query = elim (cut_prefix (bytes "Bearer ") header) [
  | some rest ↦ rest
  | none ↦ query
]
