-- ===== src/Ports.antt =====
-- The `ports` setting of the server: `parsePortMappings` of internal/server/transport. Its text is
-- the same in tcp.go, tcpmux.go, ws.go, wsmux.go and udp.go, but for the function that it starts.
-- `Fatalf` ends the process, so nothing is started after it. The goroutines are listed in the
-- order in which they are started.
pub mod Parse
pub mod Transports
pub mod Range
pub mod Single
mod Tests
