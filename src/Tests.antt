-- ===== src/Tests.antt =====
-- Concrete runs of the model, on a server that is a table in memory.
pub mod Settling
pub mod Wagering
pub mod Closing
pub mod Keeping
pub mod Posting
pub mod Rounds
pub mod Delivering
pub mod Resuming
pub mod Relaying
pub mod Connecting
pub mod Requests
pub mod Configuring
pub mod Routing
