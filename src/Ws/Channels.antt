-- ===== src/Ws/Channels.antt =====
-- The `send` channel of a client (ws/client.go), with what Go does on a channel: `none` is a panic.
use call_it.Prelude.{
  ℕ, ltb, ◌==◌, List, [], ◌∷◌, ◌++◌, length, Bool, true, false, Option, none, some, if◌then◌else◌,
}
use call_it.Ws.Protocol.{Payload}

pub record Chan : Type 0 where
  pub buffer : List Payload
  pub capacity : ℕ
  pub closed : Bool

abbrev pub has_space : Chan → Bool
has_space ch = ltb (length ch.buffer) ch.capacity

abbrev pub pushed : Payload → Chan → Chan
pushed p ch = record ch { buffer = ch.buffer ++ (p ∷ []) }

-- `select { case ch <- p: default: }` says whether it sent; on a closed channel it panics.
unfoldable pub try_send : Payload → Chan → Option (Bool × Chan)
try_send p ch =
    if ch.closed then none else if has_space ch then some (true, pushed p ch) else some (false, ch)

-- `close(ch)`, which panics on a closed channel.
unfoldable pub close_chan : Chan → Option Chan
close_chan ch = if ch.closed then none else some (record ch { closed = true })

-- A function with one value replaced.
abbrev pub put_at {ℓ} : {A : Type ℓ} → (ℕ → A) → ℕ → A → ℕ → A
put_at f i a j = if i == j then a else f j
