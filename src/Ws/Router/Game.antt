-- ===== src/Ws/Router/Game.antt =====
-- ws/router.go on the packages round and wager: the services that cmd/api gives to the router.
use call_it.Prelude.{map, ℕ, ℤ, Str, bytes, str_eq, str_eq_iff, Bool, some, ok, err, ◌≡◌, arith}
use call_it.Domain.Odds.{Float64}
use call_it.Redis.Server.{Redis}
use call_it.Store.Errors.{not_found}
use call_it.Store.PlaceWager.{Time}
use call_it.Store.Rooms.{Room, read_room}
use call_it.Store.Rounds.{current_round}
use call_it.Services.{World, Message, no_current_round, ◌>>=◌, pure}
use call_it.Services.Rounds.{open_round, resolve, require_host, current_or_none}
use call_it.Services.Wagers.{place}
use call_it.Ws.Protocol.{error_reply}
use call_it.Ws.Router.{
  GameServices, Texts, service_code, service_reply, answer_resolve_round, answer,
}

-- `is_uuid4` and `trim_space` are the libraries', `now` and `time` the clocks of the process and of the
-- server, the other texts fresh UUIDs, and `encode` gives the bytes
-- of an event.
module _ (redis : Redis) (float : Float64) (is_uuid4 : Str → Bool) (trim_space : Str → Str)
    (now : ℕ) (time : Time) (round_id key member : Str) (encode : Message float.Float → Str) where
  unfoldable pub game : GameServices (World redis float.Float)
  game = record {
    open_round = open_round redis float.Float trim_space now round_id;
    resolve = λ room_id caller winning. resolve redis float.Float room_id caller winning key;
    place = λ req. (do
      accepted ← place redis float is_uuid4 req time member
      pure (accepted.round_id, accepted.balance));
    sent = λ w. map (λ n. (n.0, encode n.1)) w.sent;
  }

  resolve_idle_lem :
      (room_id host_id : Str) (winning : ℤ) (w : World redis float.Float) {r : Room}
      → read_room redis room_id w.db ≡ (ok r, w.db)
      → r.host_id ≡ host_id
      → current_round redis room_id w.db ≡ (err not_found, w.db)
      → resolve redis float.Float room_id host_id winning key w ≡ (err no_current_round, w)
  unfolding resolve require_host current_or_none
  resolve_idle_lem room_id host_id winning w {r} there host idle =
      let same = (str_eq_iff r.host_id host_id).1 host in ground arith

  -- The answer to the host of a room that has no current round, when it asks to resolve one: the error
  -- `internal_error`, not `no_active_round`. Nothing is changed.
  pub resolve_idle :
      (texts : Texts) (room_id host_id content : Str) (winning : ℤ) (w : World redis float.Float)
      {r : Room}
      → texts.resolve_round_json content ≡ some winning
      → read_room redis room_id w.db ≡ (ok r, w.db)
      → r.host_id ≡ host_id
      → current_round redis room_id w.db ≡ (err not_found, w.db)
      → answer game texts room_id host_id
          (record { kind = bytes "resolve_round"; content = content })
          w
        ≡ (
          some (
              error_reply (record {
                code = bytes "internal_error";
                message = bytes "an internal error occurred";
              })),
          w,
        )
  unfolding answer answer_resolve_round game service_reply service_code str_eq
  resolve_idle texts room_id host_id content winning w read there host idle =
      let run = resolve_idle_lem room_id host_id winning w there host idle in ground arith
