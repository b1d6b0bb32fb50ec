-- ===== src/Accept/Unserved.antt =====
-- What becomes of local and of tunnel connections in the TCP server.
use ttest.Prelude.{
  joined, ℕ, ◌+◌, ◌-◌, ◌≤◌, ◌≡◌, ap, sym, subst, ◌∙◌, Bool, true, false, List, [], ◌∷◌, ◌++◌,
  append-nil, append_assoc, ltb, length, Bytes, arith, if_either, length-append,
}
use ttest.Wire.Conn.{write_open, Conn}
use ttest.Mux.Sessions.{LocalConn}
use ttest.Accept.Tcp.{
  written_back, TcpServer, TcpEvent, tunnel_arrived, local_arrived, tunnel_taken, request_taken,
  control_set, handle_connection, accept_tcp_local, take_tunnel, tcp_step, tcp_run,
}

-- handleConnection sends back what it reads on the tunnel connection, byte for byte, if the connection is
-- open and takes all of it.
handle_connection-echo :
    (bufs : List Bytes) (c : Conn)
    → c.closed ≡ false
    → length (joined bufs) ≤ c.room
    → (handle_connection bufs c).sent ≡ c.sent ++ joined bufs
unfolding handle_connection
handle_connection-echo [] c o h = sym (append-nil c.sent)
handle_connection-echo (b ∷ bs) c o h =
    let fits : length b + length (joined bs) ≤ c.room =
      subst (λ n. n ≤ c.room) (length-append b (joined bs)) h in
    ap (λ w. (written_back (handle_connection bs) w).sent) (write_open b c o (omega arith))
    ∙ (handle_connection-echo bs (record c { sent = c.sent ++ b; room = c.room - length b }) o
          (omega arith)
        ∙ append_assoc c.sent b (joined bs))

-- The local connections that have been accepted stay where they are, in this order.
abbrev pub Stays : List LocalConn → TcpServer → Type 0
Stays cs s = (rest : List LocalConn) × (s.local_channel ≡ cs ++ rest)

same_channel-Stays :
    (cs : List LocalConn) (s s' : TcpServer)
    → s'.local_channel ≡ s.local_channel
    → Stays cs s
    → Stays cs s'
same_channel-Stays cs s s' e (rest, h) = (rest, e ∙ h)

accept_tcp_local-Stays :
    (channel_size : ℕ) (cs : List LocalConn) (c : LocalConn) (is_tcp : Bool) (s : TcpServer)
    → Stays cs s
    → Stays cs (accept_tcp_local channel_size c is_tcp s)
accept_tcp_local-Stays channel_size cs c false s h = h
accept_tcp_local-Stays channel_size cs c true s (rest, h) =
    if_either (Stays cs) (ltb (length s.local_channel) channel_size) _ _
      (λ room. (rest ++ (c ∷ []), ap (λ l. l ++ (c ∷ [])) h ∙ append_assoc cs rest (c ∷ [])))
      (λ full. (rest, h))

take_tunnel-Stays :
    (cs : List LocalConn) (bufs : List Bytes) (q : List Conn) (s : TcpServer)
    → Stays cs s
    → Stays cs (take_tunnel bufs q s)
take_tunnel-Stays cs bufs [] s h = h
take_tunnel-Stays cs bufs (c ∷ q) s h = h

step-Stays :
    (channel_size : ℕ) (cs : List LocalConn) (e : TcpEvent) (s : TcpServer)
    → Stays cs s
    → Stays cs (tcp_step channel_size e s)
unfolding tcp_step
step-Stays channel_size cs (tunnel_arrived a) s h = h
step-Stays channel_size cs (local_arrived addr now is_tcp) s h =
    accept_tcp_local-Stays channel_size cs _ is_tcp (record s { next_id = s.next_id + 1 }) h
step-Stays channel_size cs (tunnel_taken bufs) s h =
    take_tunnel-Stays cs bufs s.tunnels.tunnel_channel s h
step-Stays channel_size cs request_taken s h = h
step-Stays channel_size cs (control_set ip) s h = h

run-Stays :
    (channel_size : ℕ) (es : List TcpEvent) (cs : List LocalConn) (s : TcpServer)
    → Stays cs s
    → Stays cs (tcp_run channel_size es s)
unfolding tcp_run
run-Stays channel_size [] cs s h = h
run-Stays channel_size (e ∷ es) cs s h =
    run-Stays channel_size es cs (tcp_step channel_size e s) (step-Stays channel_size cs e s h)

-- Whatever happens, the TCP server never takes a local connection from its channel: those that it has
-- accepted stay there, in order, and only further ones can follow them.
pub tcp_run-Stays :
    (channel_size : ℕ) (es : List TcpEvent) (s : TcpServer)
    → Stays s.local_channel (tcp_run channel_size es s)
tcp_run-Stays channel_size es s =
    run-Stays channel_size es s.local_channel s ([], sym (append-nil s.local_channel))
