-- ===== src/Lib.antt =====
-- CallIt: a live betting game. A host opens rounds in a room, players stake play-money tokens on
-- outcomes, and a round is settled pari-mutuel. The backend (backend/internal, Go) keeps the live state
-- in Redis, where Lua scripts (backend/scripts/lua) make each step atomic, appends an event for each
-- change of money to an outbox stream, and posts the events to a double-entry ledger in Postgres.
--
-- How the parts interact: the services (account, room, round, wager) call the store (redisstore), which
-- applies the pure rules (domain) and runs the scripts; the scripts append the entries of the outbox; a
-- relay decodes them (events) and produces them to a topic; a worker maps them to transactions and
-- writes them in batches (ledger). Players are connected to a room by sockets (ws), over which the services
-- broadcast; requests come in through httpapi, with the tokens of auth.
--
-- The files, by the code they model:
--   * Prelude and its children: lists, integers, int64 with its wrap-around, strings as lists of bytes,
--     and results. `Tokens` is an int64, so its sums, products and quotients are `add64` and its kin.
--   * Domain: backend/internal/domain. Domain/Payout.antt is payout.go; its children compare the int64
--     code with exact arithmetic (Exact, Conservation) and say what it gives to each player (Results,
--     Reveal, Backers). Domain/Round, Wallet, Refill, Odds and Economy are the files of those names.
--   * Redis: the server, which is a parameter. Redis/Server.antt has an interface for each data type,
--     whose laws are the documented behaviour of the commands that the code uses; Redis/Reference.antt
--     fills them with tables in memory, so that they can hold and the tests run. Redis/Keys.antt names
--     a key by the function of redisstore/keys.go that builds it, and a stored text by what it encodes.
--     Redis/Script.antt is a script: a change of the database that may fail half way, what it wrote
--     before staying written.
--   * Store: backend/internal/redisstore with backend/scripts/lua. Store/PlaceWager.antt is
--     place_wager.lua, one definition for each group of guards and of writes, and Store/Wagers.antt the
--     Go around it; Store/Rounds.antt is round.go with lock_round.lua; Store/Settle.antt is settle.go with
--     settle_round.lua and refund_round.lua; Store/Users.antt is user.go with claim_unique.lua and
--     top_up_balance.lua; Store/Rooms.antt is room.go; Store/RateLimit.antt is ratelimit.go with
--     rate_limit.lua. A method is an `Op` (Store/Op.antt): it takes the database and gives a value or an
--     error of Store/Errors.antt, and the database after it.
--   * Services: backend/internal/account, room, round and wager. `World` is the database with what was
--     broadcast. Services/Grace.antt is round/grace.go, whose runs are sequences of steps. The clocks and
--     the fresh UUIDs are arguments, what the package auth does for a service is a record.
--   * Events: backend/internal/events. Events.antt is event.go and decode.go, Events/Message.antt is
--     message.go.
--   * Ledger: backend/internal/ledger. Ledger.antt is account.go and mapping.go, Ledger/Repo.antt is
--     repo.go on the tables of backend/migrations, Ledger/Worker.antt is worker.go.
--   * Relay: backend/internal/relay. Relay.antt has the methods of relay.go; Relay/Streams.antt the
--     consumer group and the producer, which are parameters, and Relay/Reference.antt one of each in
--     memory. Relay/Runs.antt is `Run` as the steps of a relay that may die and be started again.
--   * Ws: backend/internal/ws. Ws/Room.antt and Ws/Hub.antt have a function for each command of the two
--     loops, on one state with the channels of all clients (Ws/Channels.antt), in which `none` is a panic;
--     Ws/Client.antt is client.go, Ws/Handler.antt handler.go, Ws/Router.antt router.go and Ws/Protocol.antt
--     protocol.go; Ws/Router/Game.antt gives the router the services of Services, and Ws/Router/Local.antt
--     is about the rooms to which these broadcast. The router delivers what a service broadcasts to the
--     hub before it sends the answer. Ws/Steps.antt is any order of commands, each of which is one step,
--     as its goroutine takes one at a time. The calls of the handler have points between them, at which a
--     parameter says what other goroutines do, and Ws/Composed.antt takes a connection apart into steps.
--   * Auth: backend/internal/auth, a file for each of credentials.go, token.go and password.go.
--   * HttpApi: backend/internal/httpapi, its middleware.go, respond.go and cors.go.
--   * Metrics: backend/internal/metrics.
--   * Config: backend/internal/config; Config/Processes.antt has one loader for each process.
--   * Tests: runs at concrete inputs.
--
-- Bounds: the exact results on settlements hold up to a total of 3037000499 tokens, the largest whose
-- square is an int64; the code relies on stakes of at most 30,000. The loops are structural recursions on
-- their lists; the loop of `Pools`, which stops at the first missing index, runs at most as often as the
-- hash has fields, and the loop over room codes at most five times, as in the code. The loops of the relay
-- take the replies of their rounds, and `ClaimOrphans` takes fuel, for which more than the number of
-- pending messages is enough. The binary search of a histogram takes one round more than there are bounds.
--
-- Not modelled: the text of keys; errors of the network to Redis and of the clients, but for the relay's;
-- the expiry of the limiter's idle keys; how Lua writes a number of 10^14 or more, which is a parameter;
-- floats, which are a parameter; JSON, whose decoders are parameters; golang-jwt, argon2, base64,
-- net/netip, net/url, durations and Unicode texts, which are parameters; the texts of errors; the
-- latency recorders; display names in the services; deadlines and pings of sockets; the text of
-- metrics; the HTTP handlers; migrate, toolchain, the commands, and everything outside backend.
pub mod Prelude
pub mod Domain
pub mod Redis
pub mod Relay
pub mod Store
pub mod Events
pub mod Ledger
pub mod Services
pub mod Ws
pub mod Auth
pub mod HttpApi
pub mod Metrics
pub mod Config
pub mod Tests
