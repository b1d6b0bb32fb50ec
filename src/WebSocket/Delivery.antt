-- ===== src/WebSocket/Delivery.antt =====
-- Data that goes through a websocket, from one TCP connection to another.
use ttest.Prelude.{
  ℕ, zero, suc, ◌+◌, ◌-◌, ◌≤◌, ◌≡◌, refl, sym, ap, subst, ◌∙◌, Bool, true, false, List, [], ◌∷◌,
  ◌++◌, map, append-nil, append_assoc, if◌then◌else◌, length, length-append, joined, Bytes, arith,
}
use ttest.Wire.Conn.{Conn, write, write_open}
use ttest.WebSocket.Copy.{
  MessageType, binary_message, ToTcp, after_tcp_write, transfer_web_socket_to_tcp, ToWebSocket,
  send_message, transfer_tcp_to_web_socket,
}

abbrev pub binary : Bytes → MessageType × Bytes
binary m = (binary_message, m)

-- What is reported for these lengths.
abbrev pub reports : Bool → List Bytes → List ℕ
reports true bufs = map length bufs
reports false bufs = []

transfer_tcp-messages :
    (sniffer : Bool) (bufs : List Bytes) (left : ℕ) (r : ToWebSocket)
    → r.left ≡ left
    → length bufs ≤ left
    → (transfer_tcp_to_web_socket sniffer bufs r).messages ≡ r.messages ++ map binary bufs
unfolding transfer_tcp_to_web_socket
transfer_tcp-messages sniffer [] left r e h = sym (append-nil r.messages)
transfer_tcp-messages sniffer (b ∷ bs) zero r e h = absurd (omega arith)
transfer_tcp-messages sniffer (b ∷ bs) (suc n) r e h =
    ap (λ k. (send_message sniffer b (transfer_tcp_to_web_socket sniffer bs) k r).messages) e
    ∙ (transfer_tcp-messages sniffer bs n _ refl (omega arith)
        ∙ append_assoc r.messages (binary b ∷ []) (map binary bs))

after_write :
    (buf : Bytes) (next : ToTcp → ToTcp) (sniffer : Bool) (r : ToTcp)
    → r.tcp.closed ≡ false
    → length buf ≤ r.tcp.room
    → after_tcp_write sniffer (length buf) next (write buf r.tcp) r
      ≡ next (record r {
        tcp = record r.tcp { sent = r.tcp.sent ++ buf; room = r.tcp.room - length buf };
        reported = if sniffer then r.reported ++ (length buf ∷ []) else r.reported;
      })
after_write buf next sniffer r c h =
    ap (λ w. after_tcp_write sniffer (length buf) next w r) (write_open buf r.tcp c h)

transfer_web_socket-binary :
    (sniffer : Bool) (bufs : List Bytes) (tcp : Conn) (reported : List ℕ) (ws_closed : Bool)
    → tcp.closed ≡ false
    → length (joined bufs) ≤ tcp.room
    → let e =
        transfer_web_socket_to_tcp sniffer
          (map binary bufs)
          (record { tcp = tcp; reported = reported; ws_closed = ws_closed }) in
      (e.tcp.sent ≡ tcp.sent ++ joined bufs) × (e.reported ≡ reported ++ reports sniffer bufs)
unfolding transfer_web_socket_to_tcp
transfer_web_socket-binary true [] tcp rep w c h = (sym (append-nil tcp.sent), sym (append-nil rep))
transfer_web_socket-binary false [] tcp rep w c h =
    (sym (append-nil tcp.sent), sym (append-nil rep))
transfer_web_socket-binary true (b ∷ bs) tcp rep w c h =
    let fits : length b + length (joined bs) ≤ tcp.room =
      subst (λ n. n ≤ tcp.room) (length-append b (joined bs)) h in
    let e =
      after_write b (transfer_web_socket_to_tcp true (map binary bs)) true
        (record { tcp = tcp; reported = rep; ws_closed = w }) c (omega arith) in
    let (sent, reported) =
      transfer_web_socket-binary true bs
        (record tcp { sent = tcp.sent ++ b; room = tcp.room - length b }) (rep ++ (length b ∷ [])) w
        c (omega arith) in
    (
      ap (λ t. t.tcp.sent) e ∙ (sent ∙ append_assoc tcp.sent b (joined bs)),
      ap (λ t. t.reported) e ∙ (reported ∙ append_assoc rep (length b ∷ []) (map length bs)),
    )
transfer_web_socket-binary false (b ∷ bs) tcp rep w c h =
    let fits : length b + length (joined bs) ≤ tcp.room =
      subst (λ n. n ≤ tcp.room) (length-append b (joined bs)) h in
    let e =
      after_write b (transfer_web_socket_to_tcp false (map binary bs)) false
        (record { tcp = tcp; reported = rep; ws_closed = w }) c (omega arith) in
    let (sent, reported) =
      transfer_web_socket-binary false bs
        (record tcp { sent = tcp.sent ++ b; room = tcp.room - length b }) rep w c (omega arith) in
    (
      ap (λ t. t.tcp.sent) e ∙ (sent ∙ append_assoc tcp.sent b (joined bs)),
      ap (λ t. t.reported) e ∙ reported,
    )

-- What one side reads on a TCP connection and sends as messages of a websocket arrives on the TCP
-- connection of the other side byte for byte, whatever the lengths of the reads are, if the websocket takes
-- the messages and the connection takes the bytes. With the sniffer on, the traffic counted there is the
-- lengths of the reads.
pub web_socket-round_trip :
    (sniffer remote_sniffer : Bool) (bufs : List Bytes) (left : ℕ) (tcp : Conn) (reported : List ℕ)
    → length bufs ≤ left
    → tcp.closed ≡ false
    → length (joined bufs) ≤ tcp.room
    → let m =
        transfer_tcp_to_web_socket sniffer bufs
          (record { messages = []; left = left; reported = []; closed = false }) in
      let e =
        transfer_web_socket_to_tcp remote_sniffer m.messages
          (record { tcp = tcp; reported = reported; ws_closed = false }) in
      (e.tcp.sent ≡ tcp.sent ++ joined bufs)
      × (e.reported ≡ reported ++ reports remote_sniffer bufs)
web_socket-round_trip sniffer remote_sniffer bufs left tcp reported h c b =
    let start : ToWebSocket = record {
      messages = [];
      left = left;
      reported = [];
      closed = false;
    } in
    subst
      (λ ms.
        let e =
          transfer_web_socket_to_tcp remote_sniffer ms
            (record { tcp = tcp; reported = reported; ws_closed = false }) in
        (e.tcp.sent ≡ tcp.sent ++ joined bufs)
        × (e.reported ≡ reported ++ reports remote_sniffer bufs))
      (sym (transfer_tcp-messages sniffer bufs left start refl h))
      (transfer_web_socket-binary remote_sniffer bufs tcp reported false c b)
