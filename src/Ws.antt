-- ===== src/Ws.antt =====
-- internal/ws: the WebSocket transport, without the sockets themselves.
pub mod Protocol
pub mod Channels
pub mod Room
pub mod Hub
pub mod Invariant
pub mod Broadcasting
pub mod Client
pub mod Delivery
pub mod Joining
pub mod Registry
pub mod Reaping
pub mod Shutdown
pub mod Steps
pub mod Handler
pub mod Router
pub mod Welcome
pub mod Newcomer
pub mod Composed
