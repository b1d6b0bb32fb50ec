-- ===== src/Control/Tests.antt =====
-- Small runs of the handlers.
use ttest.Prelude.{◌≡◌, refl, List, [], ◌∷◌, ◌++◌, arith, false, true, ◌+◌, ◌-◌}
use ttest.Wire.Conn.{Conn, net_conn, eof}
use ttest.Wire.Signals.{sg_rtt, sg_closed}
use ttest.Control.Server.{
  Event, request, tick, message, cancelled, read_failed, ServerControl, reader_runs,
  tcp_server_handler,
}
use ttest.Control.Client.{ClientControl}
use ttest.Control.Loop.{signals}
use ttest.Control.Trace.{IsStarting, tcp_ends, tcp_server_handler-sent}
use ttest.Control.Exchange.{Served, requests, hear, hear-signals, hear-signals_cancelled}

abbrev wire : Conn
wire = record { kind = net_conn; inbox = []; fault = eof; sent = []; room = 100; closed = false }

abbrev server : ServerControl Conn
server = record {
  conn = wire;
  restarts = 0;
  stopped = false;
  reader = reader_runs;
  rtt_sent_at = 0;
  rtt = 0;
}

abbrev events : List Event
events =
    request
    ∷ tick
    ∷ read_failed
    ∷ message sg_rtt 30
    ∷ request
    ∷ message sg_closed 40
    ∷ cancelled
    ∷ []

server-IsStarting : (IsStarting 8 server) × (IsStarting 7 server)
server-IsStarting =
    ((refl, refl, ((λ e. cc), refl), omega arith), (refl, refl, ((λ e. cc), refl), omega arith))

tcp_server_handler-sent_example :
    (tcp_server_handler 5 events server).conn.sent
    ≡ [] ++ (sg_rtt ∷ signals tcp_ends false reader_runs events)
tcp_server_handler-sent_example = tcp_server_handler-sent 5 events server server-IsStarting.0

abbrev client : ClientControl Conn
client = record {
  conn = wire;
  restarts = 0;
  stopped = false;
  reading = true;
  load_connections = 0;
  control_flow = 1;
  dials = 8;
}

abbrev live : List Event
live = request ∷ tick ∷ message sg_rtt 30 ∷ request ∷ []

hear-signals_example :
    Served (requests live) client (hear (sg_rtt ∷ signals tcp_ends false reader_runs live) client)
hear-signals_example = hear-signals live client (tt, (tt, (refl, (tt, tt)))) refl (omega arith)

abbrev cut : List Event
cut = live ++ (cancelled ∷ request ∷ [])

hear-signals_cancelled_example :
    ((hear (tcp_server_handler 5 cut server).conn.sent client).stopped ≡ true)
    × ((hear (tcp_server_handler 5 cut server).conn.sent client).restarts ≡ 0 + 1)
    × ((hear (tcp_server_handler 5 cut server).conn.sent client).dials ≡ 8 + (requests live - 1))
hear-signals_cancelled_example =
    hear-signals_cancelled 5 live (request ∷ []) server client server-IsStarting.1 refl
      (tt, (tt, (refl, (tt, tt)))) refl (omega arith)
