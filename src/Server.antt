-- ===== src/Server.antt =====
-- The server: session state, database, request handlers, and what any requests leave true of it.
pub mod Session
pub mod Tables
pub mod Db
pub mod Access
pub mod Requests
pub mod Service
pub mod Replies
pub mod Handlers
pub mod Moves
