-- ===== src/WebSocket/Upgrade.antt =====
-- The request of a client at the server's handler.
use ttest.Prelude.{
  ℕ, ◌+◌, ◌≡◌, refl, sym, ap, subst, Bool, true, ◌⊎◌, inl, inr, [], Option, none, some,
  if◌then◌else◌, Bytes, text_eq, false, ◌&&◌, ◌++◌, ◌∷◌, ltb, leb, length, Bool-cases, arith,
}
use ttest.WebSocket.Request.{
  WsRequest, bearer, channel_path, tunnel_path, with_user, scheme, edge_addr, request_at,
  attempt_dial_web_socket,
}
use ttest.WebSocket.Listener.{
  WsListener, on_channel, on_tunnel, on_upgraded, on_request, max_handlers,
}

request_fields :
    (split_host_port : Bytes → Option (Bytes × Bytes)) (join_host_port : Bytes → Bytes → Bytes)
    (addr path token : Bytes) (user : ℕ) (mode : Bytes) (edge prefix : Option Bytes) (r : WsRequest)
    → request_at split_host_port join_host_port addr path token user mode edge prefix ≡ some r
    → r.authorization ≡ bearer token
request_fields split_host_port join_host_port addr path token user mode none prefix r h = cc
request_fields split_host_port join_host_port addr path token user mode (some e) none r h = cc
request_fields split_host_port join_host_port addr path token user mode (some e) (some p) r h =
    ap authorization_of (sym h)
  where
    authorization_of : Option WsRequest → Bytes
    authorization_of none = []
    authorization_of (some q) = q.authorization

text_eq-bearer : (t u : Bytes) → text_eq (bearer t) (bearer u) ≡ text_eq t u
unfolding text_eq
text_eq-bearer t u = refl

-- What the path that the client sends makes the handler do.
abbrev as_asked : ℕ → ℕ → Bool → ℕ → Bytes → WsListener → WsListener
as_asked channel_size num_cpu usable conn path s =
    if text_eq path channel_path
    then on_channel num_cpu conn s.control_channel s
    else on_tunnel channel_size usable conn s

on_upgraded-with_user :
    (channel_size num_cpu : ℕ) (usable : Bool) (conn : ℕ) (path : Bytes) (user : ℕ) (s : WsListener)
    → (path ≡ channel_path) ⊎ (path ≡ tunnel_path)
    → on_upgraded channel_size num_cpu usable conn (with_user path user) s
      ≡ as_asked channel_size num_cpu usable conn path s
unfolding text_eq
on_upgraded-with_user channel_size num_cpu usable conn path user s (inl e) =
    subst
      (λ p.
        on_upgraded channel_size num_cpu usable conn (with_user p user) s
        ≡ as_asked channel_size num_cpu usable conn p s)
      (sym e) refl
on_upgraded-with_user channel_size num_cpu usable conn path user s (inr e) =
    subst
      (λ p.
        on_upgraded channel_size num_cpu usable conn (with_user p user) s
        ≡ as_asked channel_size num_cpu usable conn p s)
      (sym e) refl

-- A control channel: the first is kept, with at most four handlers and the loops of the server; another
-- one is closed, as is the one in use, and the server restarts.
abbrev pub with_channel : ℕ → ℕ → Option ℕ → WsListener → WsListener
with_channel num_cpu conn none s = record {
  control_channel = some conn;
  tunnel_channel = s.tunnel_channel;
  closed = s.closed;
  unauthorized = s.unauthorized;
  restarts = s.restarts;
  handlers = s.handlers + (if leb num_cpu 4 then num_cpu else 4);
  listening = true;
}
with_channel num_cpu conn (some old) s = record {
  control_channel = some old;
  tunnel_channel = s.tunnel_channel;
  closed = conn ∷ old ∷ s.closed;
  unauthorized = s.unauthorized;
  restarts = s.restarts + 1;
  handlers = s.handlers;
  listening = s.listening;
}

-- A tunnel connection: it is queued if there is room for it (and a session could be made of it), and
-- closed otherwise.
abbrev pub with_tunnel : ℕ → Bool → ℕ → WsListener → WsListener
with_tunnel channel_size usable conn s =
    let fits = usable && ltb (length s.tunnel_channel) channel_size in
    record {
      control_channel = s.control_channel;
      tunnel_channel = if fits then s.tunnel_channel ++ (conn ∷ []) else s.tunnel_channel;
      closed = if fits then s.closed else conn ∷ s.closed;
      unauthorized = s.unauthorized;
      restarts = s.restarts;
      handlers = s.handlers;
      listening = s.listening;
    }

abbrev pub granted : ℕ → ℕ → Bool → ℕ → Bytes → WsListener → WsListener
granted channel_size num_cpu usable conn path s =
    if text_eq path channel_path
    then with_channel num_cpu conn s.control_channel s
    else with_tunnel channel_size usable conn s

four_at_most : (n : ℕ) → max_handlers n ≡ (if leb n 4 then n else 4)
four_at_most n = ground arith

on_channel-with_channel :
    (num_cpu conn : ℕ) (o : Option ℕ) (s : WsListener)
    → s.control_channel ≡ o
    → on_channel num_cpu conn o s ≡ with_channel num_cpu conn o s
on_channel-with_channel num_cpu conn none s e =
    ap (λ n. record s { control_channel = some conn; handlers = s.handlers + n; listening = true })
      (four_at_most num_cpu)
on_channel-with_channel num_cpu conn (some old) s e =
    ap
      (λ o. record s {
        control_channel = o;
        closed = conn ∷ old ∷ s.closed;
        restarts = s.restarts + 1;
      })
      e

on_tunnel-with_tunnel :
    (channel_size : ℕ) (usable : Bool) (conn : ℕ) (s : WsListener)
    → on_tunnel channel_size usable conn s ≡ with_tunnel channel_size usable conn s
on_tunnel-with_tunnel channel_size false conn s = refl
on_tunnel-with_tunnel channel_size true conn s =
    elim (Bool-cases (ltb (length s.tunnel_channel) channel_size)) [
      | inl y ↦ rw y refl
      | inr n ↦ rw n refl
    ]

as_asked-granted :
    (channel_size num_cpu : ℕ) (usable : Bool) (conn : ℕ) (path : Bytes) (s : WsListener)
    → as_asked channel_size num_cpu usable conn path s
      ≡ granted channel_size num_cpu usable conn path s
as_asked-granted channel_size num_cpu usable conn path s =
    rw
      (
        on_channel-with_channel num_cpu conn s.control_channel s refl,
        on_tunnel-with_tunnel channel_size usable conn s,
      )
      refl

-- The request that a client makes for its control channel or for a tunnel connection, whatever the user
-- number, the address and the edge host are, is answered with 401 and changes nothing else if the server
-- has another token. If it has the same: the first control channel becomes that of the server, which starts
-- its loops and one handler per CPU, four at most; another one is closed together with the one in use, and
-- the server restarts; and a tunnel connection is queued if there is room for it (and, with wsmux, a session
-- could be made of it), and closed otherwise. The libraries carry the header unchanged, as they do where
-- the token does not end in white space, and find the path in the URL.
pub attempt_dial-on_request :
    (split_host_port : Bytes → Option (Bytes × Bytes)) (join_host_port : Bytes → Bytes → Bytes)
    (header_value url_path : Bytes → Bytes) (addr edge_ip path token mode : Bytes) (user : ℕ)
    (r : WsRequest) (channel_size num_cpu : ℕ) (server_token : Bytes) (usable : Bool) (conn : ℕ)
    (s : WsListener)
    → attempt_dial_web_socket split_host_port join_host_port addr edge_ip path token mode user
      ≡ some r
    → (path ≡ channel_path) ⊎ (path ≡ tunnel_path)
    → header_value (bearer token) ≡ bearer token
    → url_path r.url ≡ with_user path user
    → on_request channel_size num_cpu server_token true usable conn
        (header_value r.authorization)
        (url_path r.url)
        s
      ≡ (if text_eq token server_token
          then granted channel_size num_cpu usable conn path s
          else record s { unauthorized = s.unauthorized + 1 })
unfolding attempt_dial_web_socket on_request
attempt_dial-on_request split_host_port join_host_port header_value url_path addr edge_ip path token
      mode user r channel_size num_cpu server_token usable conn s h p carried found =
    let a =
      request_fields split_host_port join_host_port addr path token user mode
        (edge_addr split_host_port join_host_port edge_ip addr) (scheme mode) r h in
    rw
      (
        a,
        carried,
        found,
        text_eq-bearer token server_token,
        on_upgraded-with_user channel_size num_cpu usable conn path user s p,
        as_asked-granted channel_size num_cpu usable conn path s,
      )
      refl
