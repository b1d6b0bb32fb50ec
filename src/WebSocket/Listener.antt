-- ===== src/WebSocket/Listener.antt =====
-- The HTTP handler of `tunnelListener` in internal/server/transport/{ws,wsmux}.go. Whether the library
-- upgrades the connection, and whether `smux.Client` makes a session of it, are arguments.
use ttest.Prelude.{
  ℕ, ◌+◌, Bool, true, false, List, [], ◌∷◌, ◌++◌, Option, none, some, ltb, if◌then◌else◌, length,
  Bytes, text_eq, ◌==◌, ◌&&◌,
}
use ttest.WebSocket.Request.{bearer, channel_path, tunnel_path}

-- A connection is its number; `tunnel_channel` has tunnel connections or their sessions.
pub record WsListener : Type 0 where
  pub control_channel : Option ℕ
  pub tunnel_channel : List ℕ
  pub closed : List ℕ
  pub unauthorized : ℕ  -- answers 401
  pub restarts : ℕ
  pub handlers : ℕ  -- goroutines of `handleLoop`
  pub listening : Bool  -- `channelHandler` and `parsePortMappings` have been started

abbrev pub has_prefix : Bytes → Bytes → Bool
has_prefix [] text = true
has_prefix (p ∷ ps) [] = false
has_prefix (p ∷ ps) (x ∷ xs) = p == x && has_prefix ps xs

abbrev pub max_handlers : ℕ → ℕ
max_handlers num_cpu = if ltb 4 num_cpu then 4 else num_cpu

abbrev pub on_channel : ℕ → ℕ → Option ℕ → WsListener → WsListener
on_channel num_cpu conn (some old) s = record s {
  closed = conn ∷ old ∷ s.closed;
  restarts = s.restarts + 1;
}
on_channel num_cpu conn none s = record s {
  control_channel = some conn;
  handlers = s.handlers + max_handlers num_cpu;
  listening = true;
}

abbrev pub offer : ℕ → ℕ → WsListener → WsListener
offer channel_size conn s =
    if ltb (length s.tunnel_channel) channel_size
    then record s { tunnel_channel = s.tunnel_channel ++ (conn ∷ []) }
    else record s { closed = conn ∷ s.closed }

-- wsmux.go closes a connection that is no session.
abbrev pub on_tunnel : ℕ → Bool → ℕ → WsListener → WsListener
on_tunnel channel_size usable conn s =
    if usable then offer channel_size conn s else record s { closed = conn ∷ s.closed }

-- A connection with another path is left alone.
abbrev pub on_upgraded : ℕ → ℕ → Bool → ℕ → Bytes → WsListener → WsListener
on_upgraded channel_size num_cpu usable conn path s =
    if text_eq path channel_path
    then on_channel num_cpu conn s.control_channel s
    else if has_prefix tunnel_path path
    then on_tunnel channel_size usable conn s
    else s

module _ (channel_size num_cpu : ℕ) (token : Bytes) where
  unfoldable pub on_request : Bool → Bool → ℕ → Bytes → Bytes → WsListener → WsListener
  on_request upgraded usable conn authorization path s =
      if text_eq authorization (bearer token)
      then (if upgraded then on_upgraded channel_size num_cpu usable conn path s else s)
      else record s { unauthorized = s.unauthorized + 1 }

  -- ws.go makes no session.
  unfoldable pub ws_request : Bool → ℕ → Bytes → Bytes → WsListener → WsListener
  ws_request upgraded conn authorization path s = on_request upgraded true conn authorization path s

  unfoldable pub wsmux_request : Bool → Bool → ℕ → Bytes → Bytes → WsListener → WsListener
  wsmux_request upgraded usable conn authorization path s =
      on_request upgraded usable conn authorization path s
