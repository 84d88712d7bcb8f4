-- ===== src/Services/Grace.antt =====
-- round/grace.go: the grace period between a player's last disconnect and the end of its session. The
-- map of pending sessions is the state; a `done` channel is a number, and a fresh one is made for each.
pub mod Cancelled
use call_it.Prelude.{
  ℕ, suc, ◌==◌, Str, str_eq, List, [], ◌∷◌, ◌++◌, Bool, true, false, Option, none, some, ◌≡◌,
  if◌then◌else◌,
}

unfoldable pub session_key : Str → Str → Str
session_key room_id user_id = room_id ++ (0 ∷ user_id)

-- `ended` are the sessions whose entry a goroutine has taken out of the map, after which it calls
-- `EndSession` without the lock; in order.
pub record Pending : Type 0 where
  pub channels : List (Str × ℕ)
  pub fresh : ℕ
  pub ended : List Str

unfoldable pub channel_of : Str → List (Str × ℕ) → Option ℕ
channel_of key [] = none
channel_of key ((k, c) ∷ rest) = if str_eq k key then some c else channel_of key rest

unfoldable pub delete : Str → List (Str × ℕ) → List (Str × ℕ)
delete key [] = []
delete key ((k, c) ∷ rest) =
    let kept = delete key rest in if str_eq k key then kept else (k, c) ∷ kept

-- `ScheduleEndSession`, up to the goroutine that it starts, which is `fire` once its timer is due. It
-- closes the channel that it replaces, but a goroutine may have passed its select by then.
unfoldable pub schedule_end_session : Str → Bool → Pending → Pending
unfolding delete
schedule_end_session key guest s =
    if guest
    then s
    else record s { channels = (key, s.fresh) ∷ delete key s.channels; fresh = suc s.fresh }

unfoldable pub resume_session : Str → Pending → Pending
unfolding delete channel_of
resume_session key s = elim (channel_of key s.channels) [
  | none ↦ s
  | some _ ↦ record s { channels = delete key s.channels }
]

-- What the goroutine of a channel does after its timer.
unfoldable pub fire : Str → ℕ → Pending → Pending
unfolding delete channel_of
fire key channel s = elim (channel_of key s.channels) [
  | none ↦ s
  | some current ↦
      if current == channel
      then record s { channels = delete key s.channels; ended = s.ended ++ (key ∷ []) }
      else s
]
