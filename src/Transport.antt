-- ===== src/Transport.antt =====
-- The private transport between the client and the worker: one shared mapping and two eventfds.
pub mod State
pub mod Client
pub mod Server
pub mod Exchange
pub mod Rpc
