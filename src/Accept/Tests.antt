-- ===== src/Accept/Tests.antt =====
-- A TCP server with room for two connections.
use ttest.Prelude.{◌≡◌, refl, true, false, List, [], ◌∷◌, some, Bytes, codes}
use ttest.Wire.Conn.{Conn, net_conn, eof}
use ttest.Accept.Tunnels.{Arrival, Tunnels}
use ttest.Accept.Tcp.{
  TcpServer, TcpEvent, tunnel_arrived, local_arrived, tunnel_taken, request_taken, tcp_run,
}
use ttest.Accept.Unserved.{Stays, tcp_run-Stays}
use ttest.Accept.Expected.{accept_all, from_host, accept_all-from_host}

abbrev wire : Conn
wire = record { kind = net_conn; inbox = []; fault = eof; sent = []; room = 100; closed = false }

abbrev from : Bytes → Arrival
from ip = record { is_tcp = true; ip = ip; conn = wire }

abbrev tunnels : Tunnels
tunnels = record { control_ip = some (codes "10.0.0.1"); tunnel_channel = []; discarded = [] }

abbrev arrivals : List Arrival
arrivals = from (codes "10.0.0.9") ∷ from (codes "10.0.0.1") ∷ []

accept_all-from_host_example :
    (accept_all 1 arrivals tunnels).tunnel_channel
    ≡ (accept_all 1 (from_host (codes "10.0.0.1") arrivals) tunnels).tunnel_channel
accept_all-from_host_example = accept_all-from_host 1 (codes "10.0.0.1") arrivals tunnels refl

abbrev server : TcpServer
server = record {
  tunnels = tunnels;
  local_channel = record { id = 0; remote_addr = codes "80"; time_created = 5 } ∷ [];
  refused = [];
  requests = 0;
  next_id = 1;
  handled = [];
}

abbrev events : List TcpEvent
events =
    local_arrived (codes "80") 10 true
    ∷ tunnel_arrived (from (codes "10.0.0.1"))
    ∷ tunnel_taken ((1 ∷ []) ∷ [])
    ∷ request_taken
    ∷ []

tcp_run-Stays_example : Stays server.local_channel (tcp_run 2 events server)
tcp_run-Stays_example = tcp_run-Stays 2 events server
