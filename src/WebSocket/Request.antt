-- ===== src/WebSocket/Request.antt =====
-- `attemptDialWebSocket` of internal/client/transport/shared.go: the request that a client makes. The
-- random number of the user, net.SplitHostPort and net.JoinHostPort are arguments; what the libraries make
-- of the URL and of the header on their way to the server is left to who receives them. The User-Agent, which
-- no one reads, and the socket options are left out.
use ttest.Prelude.{
  ℕ, Bool, ◌||◌, [], ◌∷◌, ◌++◌, Option, none, some, if◌then◌else◌, Bytes, codes, text_eq,
}
use ttest.GoText.Decimal.{itoa}
use ttest.Config.Settings.{ws, wss, wsmux, wssmux}

-- What the dialer of the websocket library is called with.
pub record WsRequest : Type 0 where
  pub url : Bytes
  pub authorization : Bytes
  pub user_id : Bytes
  pub net_addr : Bytes  -- the address that `netDialFunc` dials
  pub skip_verify : Bool  -- a TLS configuration that accepts any certificate

abbrev pub bearer : Bytes → Bytes
bearer token = codes "Bearer " ++ token

abbrev pub channel_path : Bytes
channel_path = codes "/channel"

abbrev pub tunnel_path : Bytes
tunnel_path = codes "/tunnel"

abbrev pub with_user : Bytes → ℕ → Bytes
with_user path user = if text_eq path channel_path then path else path ++ (b'/' ∷ itoa user)

-- The scheme of the mode; no other mode is supported.
abbrev pub scheme : Bytes → Option Bytes
scheme mode =
    if text_eq mode ws || text_eq mode wsmux
    then some (codes "ws://")
    else if text_eq mode wss || text_eq mode wssmux
    then some (codes "wss://")
    else none

module _ (split_host_port : Bytes → Option (Bytes × Bytes))
    (join_host_port : Bytes → Bytes → Bytes) where
  abbrev pub at_edge : Bytes → Option (Bytes × Bytes) → Option Bytes
  at_edge edge none = none
  at_edge edge (some (_, port)) = some (join_host_port edge port)

  abbrev pub edge_addr : Bytes → Bytes → Option Bytes
  edge_addr [] addr = some addr
  edge_addr (b ∷ bs) addr = at_edge (b ∷ bs) (split_host_port addr)

  abbrev pub request_at :
      Bytes → Bytes → Bytes → ℕ → Bytes → Option Bytes → Option Bytes → Option WsRequest
  request_at addr path token user mode none _ = none
  request_at addr path token user mode (some edge) none = none
  request_at addr path token user mode (some edge) (some prefix) = some (record {
    url = prefix ++ (addr ++ with_user path user);
    authorization = bearer token;
    user_id = itoa user;
    net_addr = edge;
    skip_verify = text_eq mode wss || text_eq mode wssmux;
  })

  unfoldable pub attempt_dial_web_socket :
      Bytes → Bytes → Bytes → Bytes → Bytes → ℕ → Option WsRequest
  attempt_dial_web_socket addr edge_ip path token mode user =
      request_at addr path token user mode (edge_addr edge_ip addr) (scheme mode)
