-- ===== src/WebSocket/Copy.antt =====
-- `transferWebSocketToTCP` and `transferTCPToWebSocket` of internal/utils/wsConnHandler.go. The TCP
-- connection is a `Conn`; what the reads give is a list, and an error follows it. A `Write` that reports
-- no error writes all.
use ttest.Prelude.{
  ℕ, zero, suc, Bool, true, false, List, [], ◌∷◌, ◌++◌, if◌then◌else◌, length, Bytes,
}
use ttest.Wire.Conn.{Conn, Outcome, done, fail, write, close}

pub data MessageType : Type 0 where
  text_message binary_message other_message : MessageType

abbrev pub has_data : MessageType → Bool
has_data text_message = true
has_data binary_message = true
has_data other_message = false

pub record ToTcp : Type 0 where
  pub tcp : Conn
  pub reported : List ℕ  -- the calls of `AddOrUpdatePort`
  pub ws_closed : Bool

abbrev pub close_both : Conn → ToTcp → ToTcp
close_both c r = record r { tcp = close c; ws_closed = true }

abbrev pub after_tcp_write : Bool → ℕ → (ToTcp → ToTcp) → Outcome (Unit {0}) → ToTcp → ToTcp
after_tcp_write sniffer n next (done _ c) r =
    next (record r { tcp = c; reported = if sniffer then r.reported ++ (n ∷ []) else r.reported })
after_tcp_write sniffer n next (fail e c) r = close_both c r

abbrev pub on_ws_message : Bool → MessageType → Bytes → (ToTcp → ToTcp) → ToTcp → ToTcp
on_ws_message sniffer text_message m next r =
    after_tcp_write sniffer (length m) next (write m r.tcp) r
on_ws_message sniffer binary_message m next r =
    after_tcp_write sniffer (length m) next (write m r.tcp) r
on_ws_message sniffer other_message m next r = next r

-- The list ends with an error of `ReadMessage`.
unfoldable pub transfer_web_socket_to_tcp : Bool → List (MessageType × Bytes) → ToTcp → ToTcp
transfer_web_socket_to_tcp sniffer [] r = close_both r.tcp r
transfer_web_socket_to_tcp sniffer ((t, m) ∷ ms) r =
    on_ws_message sniffer t m (transfer_web_socket_to_tcp sniffer ms) r

pub record ToWebSocket : Type 0 where
  pub messages : List (MessageType × Bytes)
  pub left : ℕ  -- the writes of messages before the first that fails
  pub reported : List ℕ
  pub closed : Bool  -- both connections

abbrev pub send_message : Bool → Bytes → (ToWebSocket → ToWebSocket) → ℕ → ToWebSocket → ToWebSocket
send_message sniffer buf next zero r = record r { closed = true }
send_message sniffer buf next (suc n) r = next (record r {
  messages = r.messages ++ ((binary_message, buf) ∷ []);
  left = n;
  reported = if sniffer then r.reported ++ (length buf ∷ []) else r.reported;
})

-- The list has what the reads of at most 16 KB give, and ends with an error.
unfoldable pub transfer_tcp_to_web_socket : Bool → List Bytes → ToWebSocket → ToWebSocket
transfer_tcp_to_web_socket sniffer [] r = record r { closed = true }
transfer_tcp_to_web_socket sniffer (buf ∷ bufs) r =
    send_message sniffer buf (transfer_tcp_to_web_socket sniffer bufs) r.left r
