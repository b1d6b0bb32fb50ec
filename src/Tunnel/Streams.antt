-- ===== src/Tunnel/Streams.antt =====
-- `tunnelDialer`, `handleSession` and `localDialer` of internal/client/transport/{tcpmux,wsmux}.go, which
-- are the same but for the dialer: a tunnel connection carries a session of streams. Whether
-- `smux.Server` gives a session, and what `AcceptStream` gives, are arguments.
use ttest.Prelude.{ℕ, Bool, true, false, List, [], ◌∷◌, Option, none, some, Bytes}
use ttest.Prelude.Int.{ℤ}
use ttest.Wire.Conn.{Conn, Outcome, done, fail}
use ttest.Wire.Binary.{receive_binary_string}
use ttest.Pool.Maintainer.{PoolEvent, dialed, claimed}
use ttest.Tunnel.Dialers.{tcp_dialer, web_socket_dialer, resolve_remote_addr}
use ttest.Tunnel.Client.{Served, hung_up, local_dialer}

pub data SessionEvent : Type 0 where
  stream_accepted : Conn → SessionEvent
  accept_failed session_cancelled : SessionEvent

pub record ClientSession (L : Type 0) : Type 0 where
  pub services : List (Served L Conn)  -- one for each stream accepted
  pub counted : List PoolEvent
  pub session_closed : Bool
  pub returned : Bool

module _ {L : Type 0} where
  abbrev pub with_service : Served L Conn → ClientSession L → ClientSession L
  with_service s r = record r { services = s ∷ r.services }

  abbrev pub session_end : Bool → ClientSession L
  session_end closed = record {
    services = [];
    counted = dialed ∷ claimed ∷ [];
    session_closed = closed;
    returned = true;
  }

  abbrev pub never_dialed : ClientSession L
  never_dialed = record { services = []; counted = []; session_closed = false; returned = true }

module _ {L : Type 0} (local : Bytes → ℕ → Option L) where
  abbrev pub stream_resolved : Conn → Option (ℤ × Bytes) → Served L Conn
  stream_resolved c none = hung_up c
  stream_resolved c (some (port, addr)) = local_dialer local c addr port

  abbrev pub stream_address : Outcome Bytes → Served L Conn
  stream_address (fail e c) = hung_up c
  stream_address (done remote c) = stream_resolved c (resolve_remote_addr remote)

  unfoldable pub session_loop : List SessionEvent → ClientSession L
  session_loop [] = record {
    services = [];
    counted = dialed ∷ [];
    session_closed = false;
    returned = false;
  }
  session_loop (accept_failed ∷ _) = session_end true
  session_loop (session_cancelled ∷ _) = session_end false
  session_loop (stream_accepted c ∷ es) =
      with_service (stream_address (receive_binary_string c)) (session_loop es)

  abbrev pub handle_session : Bool → List SessionEvent → ClientSession L
  handle_session true es = session_loop es
  handle_session false es = session_end false

  abbrev pub session_dialed : {T : Type 0} → Bool → List SessionEvent → Option T → ClientSession L
  session_dialed mux es none = never_dialed
  session_dialed mux es (some _) = handle_session mux es

  unfoldable pub tcpmux_tunnel_dialer :
      {T : Type 0} → (ℕ → Option T) → Bool → List SessionEvent → ClientSession L
  tcpmux_tunnel_dialer tunnel mux es = let d = tcp_dialer tunnel 3 in session_dialed mux es d.conn

  unfoldable pub wsmux_tunnel_dialer :
      {T : Type 0} → (ℕ → Option T) → Bool → List SessionEvent → ClientSession L
  wsmux_tunnel_dialer tunnel mux es =
      let d = web_socket_dialer tunnel 3 in session_dialed mux es d.conn
