-- ===== src/Handshake.antt =====
-- How the control channel is established: `channelHandshake` of the servers and `channelDialer` of
-- the clients, over TCP, TCPMux, UDP and QUIC.
pub mod Server
pub mod Client
pub mod Accept
pub mod Pairing
mod Tests
