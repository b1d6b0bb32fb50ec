-- ===== src/Lib.antt =====
-- Backhaul, a reverse tunnel: clients of a service connect to a server, which passes their
-- connections through tunnel connections that a Backhaul client behind a firewall has opened to it.
-- A control channel between the two carries one-byte signals: the server asks for tunnel connections
-- on it, and the client keeps a pool of them. The transports (TCP, TCPMux, WS, WSMux, UDP, QUIC) have
-- code of their own for the same steps, so a function here stands for the function of one transport,
-- and where two transports have the same code their functions are defined to be the same.
--
-- The parts, and how they correspond to the code:
-- Wire: internal/utils/signals.go and binary.go. A connection (Wire.Conn) is a value: the bytes that
--   arrive, the error after them, what has been sent, how many more bytes get through. A function
--   `SendBinaryString` is `send_binary_string`; `(value, error)` is `Outcome`, with the connection
--   afterwards. `Write` and `io.ReadFull` are modelled after their documentation.
-- GoText: what is used of Go's strings and strconv: Split, Contains, TrimSpace (of ASCII white space), Atoi and `%d`.
-- Ports: `parsePortMappings` of internal/server/transport. The entry parser gives the listeners that
--   it starts, or the message of the `Fatalf` that ends the process.
-- Config: cmd/defaults.go and internal/config/config.go.
-- Handshake: `channelHandshake` of the servers and `channelDialer` of the clients. A round of a loop
--   is a function from the connection to what becomes of it; the loop of the server is recursion on
--   the list of connections that arrive.
-- Control: `channelHandler` of both sides, as a step on the state for each case of its `select` and
--   for errors of the goroutine that reads; a run is a list of events, in any order.
-- Pool: `poolMaintainer` of internal/client/transport, with the counters that it shares with the
--   handler (Control.Client) and with the dialers. int32 counters are bit patterns, with wrap-around.
-- Udp: the loops of accept_udp.go on both sides, which put datagrams into a stream of frames
--   (Udp.Frames), and the server's table of active connections (Udp.Listener), where a pointer is a
--   number, what happens under the mutex is one step, each send outside it is another, and a run is a
--   list of events, in any order.
-- Sniffer: internal/web/sniffer.go, the store of the traffic per port and its file.
-- Transfer: `transferData` and `q1transferData` of internal/utils.
-- Launch: `Run` of cmd/cmd.go, `Start` of internal/server/server.go and internal/client/client.go with
--   the settings that each transport gets, and the signals and the file watcher of main.go, which are two
--   goroutines that share a context (Launch.Reload).
-- Mux: the sessions of the server's multiplexed transports: `acceptLocalConn`, `handleLoop`,
--   `handleSession` and `handleSessionError` of internal/server/transport/tcpmux.go and wsmux.go. A step is
--   what a goroutine does between two points where it may wait.
-- Accept: `acceptTunnelConn` of internal/server/transport/tcp.go and tcpmux.go, and the other loops of
--   tcp.go.
-- UdpServer: internal/server/transport/udp.go: the two tables of connections (UdpServer.Peers), and the
--   loops that match and copy (UdpServer.Server), with the same conventions as Udp.Listener.
-- WebSocket: the request of `attemptDialWebSocket` of internal/client/transport/shared.go, the HTTP handler
--   of internal/server/transport/ws.go and wsmux.go, the other loops of ws.go, and
--   internal/utils/wsConnHandler.go.
-- Tunnel: the dialers of internal/client/transport/shared.go and the tunnel connections of the clients:
--   `tunnelDialer`, `handleSession`, `handleTunnelConn`, `localDialer` and `udpCopy`. They change the
--   counter of Pool by its events, and dial the addresses that Ports gives and Wire sends.
--
-- Fuel: the loops of Udp run on one more unit than there are bytes in the stream, and each round
-- takes at least two; Udp.Termination proves that it is enough. The digits of a number run on the
-- number itself. Every other loop is recursion on a list.
--
-- Parameters: the websocket library's `WriteMessage` and upgrade, net's SplitHostPort and
-- JoinHostPort, what net/http makes of a header and of the path of a URL, logrus' `ParseLevel`, what toml
-- decodes, what a failed write leaves in a file, the result of a network dial, of a read of a websocket or a UDP socket and of a call of smux, the clock.
-- Ports, sizes and times are natural numbers where the code never has negative ones; the fields of the
-- configuration are integers.
--
-- Not modelled: QUIC beyond its handshake, the restart of a transport, what the UDP client does with the nil
-- socket that a failed dial leaves it, white space outside ASCII in TrimSpace,
-- the HTTP pages, the log, and the settings of sockets and of the operating system.
-- Goroutines are not interleaved more finely than the cases of a `select` or the steps named above.
pub mod Prelude
pub mod Wire
pub mod GoText
pub mod Ports
pub mod Config
pub mod Handshake
pub mod Control
pub mod Pool
pub mod Udp
pub mod Sniffer
pub mod Transfer
pub mod Launch
pub mod Mux
pub mod Accept
pub mod UdpServer
pub mod WebSocket
pub mod Tunnel
