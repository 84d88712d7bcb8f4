-- ===== src/Ws/Client.antt =====
-- ws/client.go: what the pumps of a client and `Send` do to its channel. The connection is the caller's.
use call_it.Prelude.{ℕ, Str, bytes, [], ◌∷◌, ◌++◌, Option, none, some, ok, err, if◌then◌else◌}
use call_it.Ws.Protocol.{
  Payload, error_reply, Envelope, DecodeError, malformed, missing_type, decode_envelope,
}
use call_it.Ws.Channels.{Chan, try_send, put_at}
use call_it.Ws.Room.{Sockets}

-- `Send`
unfoldable pub send : ℕ → Payload → Sockets → Option Sockets
unfolding try_send
send c p s = elim (try_send p (s.chans c)) [
  | none ↦ none
  | some (_, ch) ↦ some (record s { chans = put_at s.chans c ch })
]

unfoldable pub decode_error_text : DecodeError → Str
decode_error_text malformed = bytes "ws: decode: ws: malformed message envelope"
decode_error_text missing_type = bytes "ws: message envelope has no type"

abbrev pub MessageHandler : Type 0
MessageHandler = ℕ → Envelope → Sockets → Option Sockets

-- One round of `ReadPump`, for a message that was read.
unfoldable pub read_message :
    (Str → Option Envelope) → Option MessageHandler → ℕ → Str → Sockets → Option Sockets
unfolding send decode_error_text decode_envelope
read_message json_envelope handle c raw s = elim (decode_envelope json_envelope raw) [
  | err e ↦
      send c (error_reply (record { code = bytes "malformed"; message = decode_error_text e })) s
  | ok env ↦ elim handle [
    | none ↦
        send c
          (error_reply (record {
            code = bytes "unknown_type";
            message = bytes "unsupported message type: " ++ env.kind;
          }))
          s
    | some h ↦ h c env s
  ]
]

-- What `WritePump` takes from the channel: a payload to write, or the end, after which it sends a close
-- frame. On an open and empty channel it waits.
pub data Received : Type 0 where
  payload : Payload → Received
  closing waiting : Received

unfoldable pub receive : Chan → Received × Chan
receive ch = elim ch.buffer [
  | p ∷ rest ↦ (payload p, record ch { buffer = rest })
  | [] ↦ (if ch.closed then closing else waiting, ch)
]

unfoldable pub write_next : ℕ → Sockets → Received × Sockets
unfolding receive
write_next c s =
    let (got, ch) = receive (s.chans c) in (got, record s { chans = put_at s.chans c ch })
