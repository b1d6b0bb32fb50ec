-- ===== src/WebSocket.antt =====
-- The websocket transports: internal/client/transport/shared.go, internal/server/transport/{ws,wsmux}.go
-- and internal/utils/wsConnHandler.go.
mod Tests
pub mod Request
pub mod Listener
pub mod Copy
pub mod Upgrade
pub mod Delivery
pub mod Pairing
pub mod Paired
