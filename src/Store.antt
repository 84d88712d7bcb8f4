-- ===== src/Store.antt =====
-- backend/internal/redisstore, with the Lua scripts that it runs: every operation on the Redis state.
pub mod Errors
pub mod PlaceWager
pub mod Op
pub mod Rounds
pub mod Settle
pub mod Users
pub mod Rooms
pub mod RateLimit
pub mod Wagers
