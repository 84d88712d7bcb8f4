-- ===== src/Ws/Router/Local.antt =====
-- ws/router.go with the packages round and wager: whom a message reaches when the services are theirs.
use call_it.Prelude.{List, [], ◌∷◌, ◌&&◌, map, ℕ, Str, str_eq, Bool, true}
use call_it.Domain.Odds.{Float64}
use call_it.Redis.Server.{Redis}
use call_it.Store.PlaceWager.{Time}
use call_it.Services.{World, Message}
use call_it.Ws.Router.{GameServices}
use call_it.Ws.Router.Game.{game}

module _ {Float : Type 0} (room_id : Str) where
  -- What follows the old messages goes to the room.
  stays : List (Str × Message Float) → List (Str × Message Float) → Bool
  stays [] [] = true
  stays [] (n ∷ new) = str_eq n.0 room_id && stays [] new
  stays (o ∷ old) [] = true
  stays (o ∷ old) (n ∷ new) = stays old new

  abbrev coded : (Message Float → Str) → List (Str × Message Float) → List (Str × Str)
  coded encode l = map (λ n. (n.0, encode n.1)) l

module _ (redis : Redis) (float : Float64) (is_uuid4 : Str → Bool) (trim_space : Str → Str)
    (now : ℕ) (time : Time) (round_id key member : Str) (encode : Message float.Float → Str) where
  abbrev pub services : GameServices (World redis float.Float)
  services = game redis float is_uuid4 trim_space now time round_id key member encode
