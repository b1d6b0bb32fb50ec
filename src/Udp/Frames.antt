-- ===== src/Udp/Frames.antt =====
-- `udpToTCP` and `tcpToUDP` of internal/server/transport/accept_udp.go and of
-- internal/client/transport/accept_udp.go: datagrams as frames in a stream. From client to server a
-- frame carries the time too.
use ttest.Prelude.{
  ℕ, zero, suc, ◌+◌, ◌-◌, ◌*◌, ◌/◌, ◌%◌, ◌^◌, Bool, true, false, ◌||◌, List, [], ◌∷◌, ◌++◌, ltb,
  ◌==◌, if◌then◌else◌, length, take, Bytes,
}
use ttest.Wire.Conn.{
  Conn, Outcome, done, fail, write, read_full, read_length_failed, read_message_failed,
}
use ttest.Wire.Binary.{put_uint16, uint16}

abbrev pub buffer_size : ℕ
buffer_size = 16 * 1024

-- A UDP socket: a `Write` sends one datagram or reports an error.
pub record UdpConn : Type 0 where
  pub datagrams : List Bytes
  pub left : ℕ  -- writes before the first that fails

unfoldable pub udp_write : Bytes → UdpConn → Bool × UdpConn
udp_write buf u =
    if u.left == 0
    then (false, u)
    else (true, record u { datagrams = u.datagrams ++ (buf ∷ []); left = u.left - 1 })

-- `for totalWritten < packetSize`: nothing is written for an empty packet.
unfoldable pub forward : Bytes → UdpConn → Bool × UdpConn
forward [] u = (true, u)
forward (b ∷ bs) u = udp_write (b ∷ bs) u

pub record Receiver : Type 0 where
  pub tcp : Conn
  pub udp : UdpConn
  pub reported : List ℕ  -- the calls of `AddOrUpdatePort`
  pub congested : Bool  -- `udp.IsCongested`; the client has no such field
  pub ended : Bool

abbrev pub stop : Conn → Receiver → Receiver
stop c r = record r { tcp = c; ended = true }

abbrev pub forwarded : Bool → (Receiver → Receiver) → Bytes → Bool × UdpConn → Receiver → Receiver
forwarded sniffer next buf (true, u) r = next (record r {
  udp = u;
  reported = if sniffer then r.reported ++ (length buf ∷ []) else r.reported;
})
forwarded sniffer next buf (false, u) r = record r { udp = u; ended = true }

-- The server goes on without forwarding when it has no client address.
abbrev pub receive_packet :
    Bool → Bool → (Receiver → Receiver) → Outcome Bytes → Receiver → Receiver
receive_packet has_addr sniffer next (fail e c) r = stop c r
receive_packet true sniffer next (done buf c) r =
    forwarded sniffer next buf (forward buf r.udp) (record r { tcp = c })
receive_packet false sniffer next (done buf c) r = next (record r { tcp = c })

abbrev pub receive_sized : Bool → Bool → (Receiver → Receiver) → Outcome Bytes → Receiver → Receiver
receive_sized has_addr sniffer next (fail e c) r = stop c r
receive_sized has_addr sniffer next (done len_buf c) r =
    if ltb buffer_size (uint16 len_buf)
    then stop c r
    else receive_packet has_addr sniffer next (read_full read_message_failed (uint16 len_buf) c) r

-- The client's loop.
unfoldable pub tcp_to_udp_fuel : Bool → ℕ → Receiver → Receiver
tcp_to_udp_fuel sniffer zero r = r
tcp_to_udp_fuel sniffer (suc fuel) r =
    receive_sized true sniffer (tcp_to_udp_fuel sniffer fuel) (read_full read_length_failed 2 r.tcp)
      r

-- Each round takes two bytes, or ends the loop.
unfoldable pub tcp_to_udp : Bool → Receiver → Receiver
tcp_to_udp sniffer r = tcp_to_udp_fuel sniffer (suc (length r.tcp.inbox)) r

-- What the server's `select` of `udpToTCP` takes.
pub data Payload : Type 0 where
  datagram : Bytes → Payload
  payload_closed inactive : Payload

pub record Sending : Type 0 where
  pub tcp : Conn
  pub reported : List ℕ
  pub ended : Bool

-- A write of a whole packet, the header counted in what is reported.
abbrev pub after_send : Bool → ℕ → (Sending → Sending) → Sending → Outcome (Unit {0}) → Sending
after_send sniffer n next s (done _ c) =
    next (record s { tcp = c; reported = if sniffer then s.reported ++ (n ∷ []) else s.reported })
after_send sniffer n next s (fail e c) = record s { tcp = c; ended = true }

abbrev pub send_packet : Bool → Bytes → (Sending → Sending) → Sending → Sending
send_packet sniffer packet next s = after_send sniffer (length packet) next s (write packet s.tcp)

unfoldable pub udp_to_tcp : Bool → List Payload → Sending → Sending
udp_to_tcp sniffer [] s = s
udp_to_tcp sniffer (payload_closed ∷ ps) s = record s { ended = true }
udp_to_tcp sniffer (inactive ∷ ps) s = record s { ended = true }
udp_to_tcp sniffer (datagram d ∷ ps) s =
    let next = udp_to_tcp sniffer ps in
    if ltb 65535 (length d) then next s else send_packet sniffer (put_uint16 (length d) ++ d) next s

-- `binary.BigEndian.PutUint32` and its inverse
abbrev pub put_uint32 : ℕ → Bytes
put_uint32 n = n / 2 ^ 24 % 256 ∷ n / 2 ^ 16 % 256 ∷ n / 2 ^ 8 % 256 ∷ n % 256 ∷ []

abbrev pub uint32 : Bytes → ℕ
uint32 (a ∷ b ∷ c ∷ d ∷ _) = a * 2 ^ 24 + b * 2 ^ 16 + c * 2 ^ 8 + d
uint32 _ = 0

-- milliseconds in a window of ten minutes
abbrev pub last_millis : ℕ → ℕ
last_millis timestamp = timestamp % (10 * 60 * 1000)

-- A datagram and the time at which the client has read it. A read cuts a longer datagram.
pub data Arrival : Type 0 where
  arrived : ℕ → Bytes → Arrival
  read_failed : Arrival

abbrev pub stamped_packet : ℕ → Bytes → Bytes
stamped_packet timestamp d = put_uint32 (last_millis timestamp) ++ (put_uint16 (length d) ++ d)

-- The client's `udpToTCP`; its test for more than 65535 bytes never holds for what fits the buffer.
unfoldable pub client_udp_to_tcp : Bool → List Arrival → Sending → Sending
client_udp_to_tcp sniffer [] s = s
client_udp_to_tcp sniffer (read_failed ∷ as_) s = record s { ended = true }
client_udp_to_tcp sniffer (arrived timestamp d ∷ as_) s =
    let next = client_udp_to_tcp sniffer as_ in
    let buf = take (buffer_size - 6) d in
    if ltb 65535 (length buf)
    then next s
    else send_packet sniffer (stamped_packet timestamp buf) next s

-- packetAge > 3*rtt
abbrev pub is_late : ℕ → ℕ → ℕ → Bool
is_late rtt timestamp packet_timestamp = ltb (packet_timestamp + 3 * rtt) (last_millis timestamp)

-- The server's loop. `now` gives the milliseconds of the clock at each round.
module _ (has_addr sniffer : Bool) (rtt : ℕ) where
  abbrev pub receive_stamped : ℕ → (Receiver → Receiver) → Outcome Bytes → Receiver → Receiver
  receive_stamped timestamp next (fail e c) r = stop c r
  receive_stamped timestamp next (done timestamp_buf c) r =
      receive_sized has_addr sniffer next (read_full read_length_failed 2 c)
        (record r { congested = is_late rtt timestamp (uint32 timestamp_buf) || r.congested })

  unfoldable pub server_tcp_to_udp_fuel : (ℕ → ℕ) → ℕ → Receiver → Receiver
  server_tcp_to_udp_fuel now zero r = r
  server_tcp_to_udp_fuel now (suc fuel) r =
      receive_stamped (now 0) (server_tcp_to_udp_fuel (λ i. now (suc i)) fuel)
        (read_full read_length_failed 4 r.tcp) r

  unfoldable pub server_tcp_to_udp : (ℕ → ℕ) → Receiver → Receiver
  server_tcp_to_udp now r = server_tcp_to_udp_fuel now (suc (length r.tcp.inbox)) r
