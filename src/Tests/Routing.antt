-- ===== src/Tests/Routing.antt =====
-- A host that asks to resolve a round, on a database with a room and no round.
use call_it.Prelude.{
  mul64, wrap, ◌*ℤ◌, ℕ, pos, ◌∷◌, Str, bytes, str_eq, arith, [], true, Option, length, none, some,
  ok, err, ◌≡◌, refl,
}
use call_it.Redis.Keys.{Key, Field, Text, room, int, str, key_eq, field_eq}
use call_it.Domain.Odds.{Float64}
use call_it.Redis.Server.{Db}
use call_it.Redis.Reference.{reference, fresh}
use call_it.Store.Errors.{not_found}
use call_it.Store.PlaceWager.{status_field, host_field}
use call_it.Store.Users.{created_at_field}
use call_it.Store.Rooms.{Room, buy_in_field, read_room}
use call_it.Domain.Round.{validate_outcome_count}
use call_it.Store.Rounds.{current_round, create_round, write_round, zero_pools}
use call_it.Services.Rounds.{
  RoundSpec, Opened, any_empty, check_spec, require_host, require_free, open_round,
}
use call_it.Services.Rounds.Opening.{Opening, open_round-Opening}
use call_it.Services.{World, ServiceError, round_opened}
use call_it.Ws.Protocol.{Envelope, Payload, error_reply}
use call_it.Ws.Router.{GameServices, Texts, answer_create_round, answer, service_code}
use call_it.Ws.Router.Sealed.{retold, answer-sealed}
use call_it.Ws.Router.Game.{game, resolve_idle}

abbrev no_floats : Float64
no_floats = record { Float = ℕ; zero_float = 0; of_tokens = λ t. 0; divide = λ a b. 0 }

abbrev set : Key → Field → Text → reference.hashes.T → reference.hashes.T
set = reference.hashes.hset

abbrev idle_db : Db reference
idle_db = record fresh {
  hashes = set (room (bytes "r")) host_field (str (bytes "ann")) (
      set (room (bytes "r")) buy_in_field (int (pos 100)) (
        set (room (bytes "r")) status_field (str (bytes "open"))
          (set (room (bytes "r")) created_at_field (int (pos 5)) fresh.hashes)));
}

abbrev idle_room : Room
idle_room = record {
  id = bytes "r";
  host_id = bytes "ann";
  buy_in = pos 100;
  status = bytes "open";
  created_at_ms = pos 5;
}

room_there : read_room reference (bytes "r") idle_db ≡ (ok idle_room, idle_db)
unfolding read_room key_eq field_eq str_eq
room_there = refl

none_current : current_round reference (bytes "r") idle_db ≡ (err not_found, idle_db)
unfolding current_round key_eq
none_current = refl

abbrev idle : World reference ℕ
idle = record { db = idle_db; sent = [] }

abbrev services : GameServices (World reference ℕ)
services =
    game reference no_floats (λ s. true) (λ s. s) 1000 (1, 0) (bytes "q") (bytes "k") (bytes "m")
      (λ m. bytes "news")

abbrev plain_texts : Texts
plain_texts = record {
  create_round_json = λ s. none;
  place_wager_json = λ s. none;
  resolve_round_json = λ s. some (pos 0);
  error_text = λ e. bytes "refused";
}

abbrev resolve_it : Envelope
resolve_it = record { kind = bytes "resolve_round"; content = bytes "{}" }

-- Ann's message opens a round in the room, in which she has space for one message.
abbrev opening_texts : Texts
opening_texts = record plain_texts {
  create_round_json = λ s. some (record {
    question = bytes "who";
    outcomes = bytes "a" ∷ bytes "b" ∷ [];
    lock_in_ms = pos 10000;
  });
}

abbrev open_it : Envelope
open_it = record { kind = bytes "create_round"; content = bytes "{}" }

abbrev opening : Option Payload × World reference ℕ
opening = answer services opening_texts (bytes "r") (bytes "ann") open_it idle

-- The round's opening is broadcast.
opens_one : length opening.1.sent ≡ 1
unfolding game open_round require_host require_free check_spec any_empty validate_outcome_count
    current_round create_round write_round zero_pools read_room key_eq field_eq str_eq answer
    answer_create_round mul64 wrap ◌*ℤ◌
opens_one = refl

abbrev secret : ServiceError → Str
secret e = elim (service_code e) [ none ↦ bytes "stack trace" | some _ ↦ bytes "refused" ]

secret-same :
    (e : ServiceError) (code : Str)
    → service_code e ≡ some code
    → plain_texts.error_text e ≡ secret e
secret-same e code h = ground arith

answer-sealed_example :
    answer services plain_texts (bytes "r") (bytes "ann") resolve_it idle
    ≡ answer services (retold plain_texts secret) (bytes "r") (bytes "ann") resolve_it idle
answer-sealed_example =
    answer-sealed services plain_texts secret secret-same (bytes "r") (bytes "ann") resolve_it idle

resolve_idle_example : answer services plain_texts (bytes "r") (bytes "ann") resolve_it idle ≡ (
  some (
      error_reply
        (record { code = bytes "internal_error"; message = bytes "an internal error occurred" })),
  idle,
)
resolve_idle_example =
    resolve_idle reference no_floats (λ s. true) (λ s. s) 1000 (1, 0) (bytes "q") (bytes "k")
      (bytes "m") (λ m. bytes "news") plain_texts (bytes "r") (bytes "ann") (bytes "{}") (pos 0)
      idle refl room_there refl none_current

-- The host opens a round for ten seconds.
abbrev ten_seconds : RoundSpec
ten_seconds = record {
  question = bytes "who";
  outcomes = bytes "a" ∷ bytes "b" ∷ [];
  lock_in = pos 10000000000;
}

abbrev ten_opened : Opened
ten_opened = record {
  round_id = bytes "q";
  question = bytes "who";
  outcomes = bytes "a" ∷ bytes "b" ∷ [];
  lock_at_ms = 10000;
}

abbrev after_opening : World reference ℕ
after_opening = record {
  db =
      (create_round reference (bytes "q") (bytes "r") (bytes "who") (bytes "a" ∷ bytes "b" ∷ [])
        (pos 10000) idle_db).1;
  sent =
      (bytes "r", round_opened (bytes "q") (bytes "who") (bytes "a" ∷ bytes "b" ∷ []) (pos 10000))
      ∷ [];
}

opens :
    open_round reference ℕ (λ s. s) 1000 (bytes "q") (bytes "r") (bytes "ann") ten_seconds idle
    ≡ (ok ten_opened, after_opening)
unfolding open_round require_host require_free check_spec any_empty validate_outcome_count
    current_round create_round write_round zero_pools read_room key_eq field_eq str_eq
opens = refl

open_round-Opening_example :
    Opening reference ℕ
      (λ s. s)
      1000
      (bytes "q")
      (bytes "r")
      (bytes "ann")
      ten_seconds
      idle
      ten_opened
      after_opening
open_round-Opening_example =
    open_round-Opening reference ℕ (λ s. s) 1000 (bytes "q") (bytes "r") (bytes "ann") ten_seconds
      idle opens
