-- ===== src/Store/Errors.antt =====
-- redisstore/errors.go: the failures of the store, and the status codes of the scripts.
use call_it.Prelude.{bytes, if◌then◌else◌}
use call_it.Redis.Keys.{Text, is_str}
use call_it.Redis.Script.{Fault}
use call_it.Domain.Economy

-- The sentinels of the package and those of the domain; `malformed` is any error without a sentinel
-- (a reply or a stored text that does not parse), `server` an error that Redis or a script raised.
pub data StoreError : Type 0 where
  not_found already_exists pool_locked host_cannot_bet not_in_room : StoreError
  round_terminal already_settled not_locked malformed : StoreError
  server : Fault → StoreError
  domain : Economy.Error → StoreError

unfoldable pub map_settle_status : Text → StoreError
map_settle_status code =
    if is_str code (bytes "ALREADY_RESOLVED")
    then already_settled
    else if is_str code (bytes "NOT_LOCKED")
    then not_locked
    else malformed

unfoldable pub map_wager_status : Text → StoreError
map_wager_status code =
    if is_str code (bytes "INVALID_STAKE")
    then domain Economy.Error.invalid_stake
    else if is_str code (bytes "POOL_LOCKED")
    then pool_locked
    else if is_str code (bytes "INVALID_OUTCOME")
    then domain Economy.Error.invalid_outcome
    else if is_str code (bytes "HOST_CANNOT_BET")
    then host_cannot_bet
    else if is_str code (bytes "NOT_IN_ROOM")
    then not_in_room
    else if is_str code (bytes "INSUFFICIENT_FUNDS")
    then domain Economy.Error.insufficient_funds
    else malformed
