-- ===== src/Control.antt =====
-- The control channel at work: the event loops `channelHandler` of the servers and of the clients.
pub mod Server
pub mod Client
pub mod Loop
pub mod Trace
pub mod Exchange
mod Tests
