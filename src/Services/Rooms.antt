-- ===== src/Services/Rooms.antt =====
-- room/service.go and room/code.go: codes, and creating and joining a room.
pub mod Codes
use call_it.Prelude.{
  ℕ, zero, suc, ◌%◌, ℤ, pos, Str, bytes, str_eq, List, [], ◌∷◌, map, Bool, true, false, Option,
  none, some, get_elem?, Result, Done, ok, err, if◌then◌else◌,
}
use call_it.Domain.Economy.{Tokens}
use call_it.Domain.Wallet.{guest_session_balance, account_session_balance, is_partial_buy_in}
use call_it.Redis.Server.{Redis}
use call_it.Store.Errors.{StoreError, already_exists}
use call_it.Store.Rooms.{Room, create_room, room_by_code, read_room, join_room}
use call_it.Services.{
  ServiceError, store_error, code_exhausted, no_randomness, not_joinable, Act, ◌>>=◌, ◌>>◌, pure,
  fail, require, lift, store, try,
}

abbrev pub code_len : ℕ
code_len = 6

abbrev pub code_alphabet : Str
code_alphabet = bytes "ABCDEFGHJKMNPQRSTUVWXYZ23456789"

-- `CodeAlphabet[int(b)%len(CodeAlphabet)]`; the index is in range.
unfoldable pub code_letter : ℕ → ℕ
code_letter b = elim (get_elem? code_alphabet (b % 31)) [ some c ↦ c | none ↦ 0 ]

-- The code that the bytes of the reader give.
unfoldable pub generate_code : List ℕ → Str
unfolding code_letter
generate_code buf = map code_letter buf

abbrev pub max_code_attempts : ℕ
max_code_attempts = 5

pub record Created : Type 0 where
  pub room_id : Str
  pub code : Str
  pub buy_in : Tokens
  pub token : Str

pub record JoinRequest : Type 0 where
  pub user_id : Str
  pub display_name : Str
  pub guest : Bool
  pub account_balance : Tokens

pub record Joined : Type 0 where
  pub room_id : Str
  pub code : Str
  pub buy_in : Tokens
  pub session_balance : Tokens
  pub partial_buy_in : Bool
  pub guest : Bool
  pub token : Str

-- `read_bytes` gives the bytes that the random source yields at each attempt, `issue` the token of
-- auth.Issuer for a user, a name, a room, guest and host.
module _ {ℓ} (redis : Redis) (Float : Type ℓ) (read_bytes : ℕ → Option (List ℕ))
    (issue : Str → Str → Str → Bool → Bool → Result ServiceError Str) where
  -- The loop of `Create`, with the attempts that are left.
  unfoldable pub claim_code : ℕ → ℤ → Str → Str → Tokens → Act redis Float Str
  unfolding generate_code
  claim_code zero now room_id host_id buy_in w = (err code_exhausted, w)
  claim_code (suc left) now room_id host_id buy_in w =
      let rest = claim_code left now room_id host_id buy_in in
      elim (read_bytes left) [
        | none ↦ (err no_randomness, w)
        | some buf ↦
            (try (create_room redis now room_id (generate_code buf) host_id buy_in) >>= λ r.
            elim r as (λ r. Act redis Float Str) [
              | ok _ ↦ pure (generate_code buf)
              | err already_exists ↦ rest
              | err e ↦ fail (store_error e)
            ])
              w
      ]

  unfoldable pub create : ℤ → Str → Str → Str → Tokens → Act redis Float Created
  unfolding claim_code
  create now room_id host_id host_name buy_in = do
    code ← claim_code max_code_attempts now room_id host_id buy_in
    store (join_room redis room_id host_id buy_in)
    token ← lift (issue host_id host_name room_id false true)
    pure (record { room_id = room_id; code = code; buy_in = buy_in; token = token })

  -- `fresh_id` is the UUID that a caller without one gets.
  unfoldable pub join : Str → Str → JoinRequest → Act redis Float Joined
  join fresh_id code c = do
    room_id ← store (room_by_code redis code)
    room ← store (read_room redis room_id)
    require (str_eq room.status (bytes "open")) not_joinable
    let user_id = if str_eq c.user_id [] then fresh_id else c.user_id
    let offered =
        if c.guest
        then guest_session_balance room.buy_in
        else account_session_balance c.account_balance room.buy_in
    effective ← store (join_room redis room_id user_id offered)
    token ← lift (issue user_id c.display_name room_id c.guest false)
    pure (record {
      room_id = room_id;
      code = code;
      buy_in = room.buy_in;
      session_balance = effective;
      partial_buy_in = if c.guest then false else is_partial_buy_in c.account_balance room.buy_in;
      guest = c.guest;
      token = token;
    })
