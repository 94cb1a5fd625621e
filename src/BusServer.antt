-- ===== src/BusServer.antt =====
-- common/busserver/src/busserver.c and busserver_ex.c: messages of several parts between a server
-- and its clients, over connections of the mongoose library.
pub mod Parse
pub mod Parts
pub mod Framing
pub mod Receive
pub mod Removal
pub mod Loop
pub mod Server
pub mod Notes
pub mod Deliver
pub mod Client
pub mod Routes
pub mod Broadcast
pub mod Relay
pub mod Registry
pub mod Names
pub mod Leaving
pub mod Named
pub mod Sessions
pub mod Overflow
pub mod Answers
mod Runs
mod Tests
