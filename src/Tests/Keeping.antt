-- ===== src/Tests/Keeping.antt =====
-- The limiter, accounts, rooms, rounds and sessions at concrete inputs.
use call_it.Prelude.{
  Result, str_lt, pos, negsuc, Str, bytes, str_eq, List, [], ◌∷◌, some, none, ◌≡◌, refl, arith, ok,
  false,
}
use call_it.Domain.Round.{open_}
use call_it.Domain.Wallet.{apply_session_result}
use call_it.Redis.Keys.{
  Key, Field, name, user, email, room_wallets, room_opening, rate_limit, Text, int, str, key_eq,
  field_eq,
}
use call_it.Redis.Server.{Db, Scores, text}
use call_it.Redis.Script.{Fault}
use call_it.Redis.Reference.{reference, fresh}
use call_it.Store.Rounds.{create_round, current_round, read_round}
use call_it.Store.Rounds.Creation.{create_round-read_round}
use call_it.Store.RateLimit.{Decision, allow}
use call_it.Store.RateLimit.Window.{has_member, recent, Decided, allow-bounded}
use call_it.Store.Users.{claim_unique, balance_field, created_at_field}
use call_it.Store.Users.Claims.{after_claims, claim_unique-once}
use call_it.Services.Sessions.{end_session}
use call_it.Services.Sessions.Once.{Playing, end_session-once}

abbrev limit_key : Key
limit_key = rate_limit (bytes "wager") (bytes "ann")

abbrev two_scores : Scores
two_scores = (bytes "old", 4500) ∷ (bytes "a", 4600) ∷ []

-- One call is a window old at 5500, the other is not.
abbrev limited_db : Db reference
limited_db = record fresh {
  zsets =
      reference.zsets.zadd limit_key 4600 (bytes "a")
        (reference.zsets.zadd limit_key 4500 (bytes "old") fresh.zsets);
}

limited_scores : reference.zsets.zrange limit_key limited_db.zsets ≡ two_scores
unfolding key_eq str_eq str_lt
limited_scores = refl

new_member : has_member (bytes "m") (reference.zsets.zrange limit_key limited_db.zsets) ≡ false
unfolding key_eq str_eq str_lt
new_member = refl

allow-bounded_example :
    let out =
      allow reference 5500 (bytes "m") (bytes "wager") (bytes "ann") (pos 2) 1000 limited_db in
    (d : Decision) × (out.0 ≡ ok d)
    × Decided reference 5500
        (bytes "m")
        limit_key
        2
        (recent 5500 1000 (reference.zsets.zrange limit_key limited_db.zsets))
        limited_db
        out.1
        d
allow-bounded_example =
    allow-bounded reference 5500 (bytes "m") (bytes "wager") (bytes "ann") 2 1000 limited_db
      (rw limited_scores (omega arith)) new_member

abbrev mail : Key
mail = email (bytes "e")

abbrev first_name : Field × Text
first_name = (name (bytes "display_name"), str (bytes "Ann"))

-- Another user claims the address in vain, and one claims another address.
abbrev claims : List (Key × Key × Str × List (Field × Text))
claims =
    (mail, user (bytes "v"), bytes "v", first_name ∷ [])
    ∷ (email (bytes "f"), user (bytes "v"), bytes "v", first_name ∷ [])
    ∷ []

abbrev mail_claimed : Result Fault (List Text) × Db reference
mail_claimed = claim_unique reference mail (user (bytes "u")) (bytes "u") (first_name ∷ []) fresh

claim_unique-once_example :
    (mail_claimed.0 ≡ ok (str (bytes "OK") ∷ []))
    × (reference.strings.get mail mail_claimed.1.strings ≡ some (text (str (bytes "u"))))
    × ((j : Key) (g : Field)
        → key_eq (user (bytes "u")) j ≡ false
        → reference.hashes.hget j g mail_claimed.1.hashes ≡ reference.hashes.hget j g fresh.hashes)
    × (claim_unique reference mail
          (user (bytes "w"))
          (bytes "w")
          (first_name ∷ [])
          (after_claims reference claims mail_claimed.1)
        ≡ (
          ok (str (bytes "TAKEN") ∷ str (bytes "u") ∷ []),
          after_claims reference claims mail_claimed.1,
        ))
claim_unique-once_example =
    claim_unique-once reference mail (user (bytes "u")) (user (bytes "w")) (bytes "u") (bytes "w")
      first_name [] (first_name ∷ []) claims fresh refl

-- An account with 500 tokens that sits in a room with 450 of the 300 it brought.
abbrev session_db : Db reference
session_db = record fresh {
  hashes = reference.hashes.hset (user (bytes "u")) balance_field (int (pos 500)) (
      reference.hashes.hset (user (bytes "u")) created_at_field (int (pos 1)) (
        reference.hashes.hset (room_opening (bytes "r")) (name (bytes "u")) (int (pos 300)) (
          reference.hashes.hset (room_wallets (bytes "r")) (name (bytes "u")) (int (pos 450))
            fresh.hashes)));
}

stored_balance :
    reference.hashes.hget (user (bytes "u")) balance_field session_db.hashes ≡ some (int (pos 500))
unfolding key_eq field_eq str_eq
stored_balance = refl

playing : Playing reference (bytes "r") (bytes "u") (pos 500) (pos 300) (pos 450) session_db.hashes
unfolding key_eq field_eq str_eq
playing = record {
  created_at = pos 1;
  account_is = refl;
  created_is = refl;
  opening_is = refl;
  current_is = refl;
}

end_session-once_example :
    ((end_session reference (bytes "r") (bytes "u") false session_db).0
      ≡ ok (apply_session_result (pos 500) (pos 300) (pos 450)))
    × (reference.hashes.hget
          (user (bytes "u"))
          balance_field
          (end_session reference (bytes "r") (bytes "u") false session_db).1.hashes
        ≡ some (int (apply_session_result (pos 500) (pos 300) (pos 450))))
    × (reference.hashes.hget
          (room_wallets (bytes "r"))
          (name (bytes "u"))
          (end_session reference (bytes "r") (bytes "u") false session_db).1.hashes
        ≡ none)
    × (reference.hashes.hget
          (room_opening (bytes "r"))
          (name (bytes "u"))
          (end_session reference (bytes "r") (bytes "u") false session_db).1.hashes
        ≡ none)
    × (end_session reference
          (bytes "r")
          (bytes "u")
          false
          (end_session reference (bytes "r") (bytes "u") false session_db).1
        ≡ (ok (pos 0), (end_session reference (bytes "r") (bytes "u") false session_db).1))
end_session-once_example =
    end_session-once reference (bytes "r") (bytes "u") (pos 500) (pos 300) (pos 450) session_db
      playing

abbrev two_labels : List Str
two_labels = bytes "a" ∷ bytes "b" ∷ []

create_round-read_round_example :
    ((create_round reference (bytes "q") (bytes "r") (bytes "who") two_labels (pos 9000) fresh).0
      ≡ ok tt)
    × (let after =
          (create_round reference
            (bytes "q")
            (bytes "r")
            (bytes "who")
            two_labels
            (pos 9000)
            fresh).1 in
        (current_round reference (bytes "r") after ≡ (ok (bytes "q"), after))
        × (read_round reference (bytes "q") after ≡ (
          ok (record {
            id = bytes "q";
            room_id = bytes "r";
            question = bytes "who";
            outcomes = two_labels;
            status = open_;
            lock_at_ms = pos 9000;
            outcome_count = pos 2;
            resolved_outcome = negsuc 0;
          }),
          after,
        )))
create_round-read_round_example =
    create_round-read_round reference (bytes "q") (bytes "r") (bytes "who") two_labels (pos 9000)
      fresh (omega arith) (omega arith) refl
