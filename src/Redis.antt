-- ===== src/Redis.antt =====
-- Redis as the program uses it: the keys and values that the store writes, the server as a parameter
-- with the documented behaviour of its commands, and the scripts that run on it.
pub mod Keys
pub mod Server
pub mod Script
pub mod Fields
pub mod Reference
