-- ===== src/Udp/Termination.antt =====
-- The loops that read frames end: each round takes bytes from the stream, or is the last.
use ttest.Prelude.{
  ℕ, zero, suc, ◌+◌, ◌<◌, ◌≡◌, refl, ap, Bool, true, false, length, Bytes, arith, length-append,
}
use ttest.Wire.Conn.{
  Conn, Error, ReadError, Outcome, done, fail, read_full, read_length_failed, read_message_failed,
  read_full_sound,
}
use ttest.Wire.Binary.{uint16}
use ttest.Udp.Frames.{
  Receiver, tcp_to_udp, tcp_to_udp_fuel, server_tcp_to_udp, server_tcp_to_udp_fuel, forward,
  forwarded, receive_packet, receive_sized, receive_stamped, UdpConn,
}

read_full-shorter :
    (wrap : ReadError → Error) (n : ℕ) (c c' : Conn) (xs : Bytes)
    → read_full wrap n c ≡ done xs c'
    → length c'.inbox + n ≡ length c.inbox
read_full-shorter wrap n c c' xs h =
    let s = read_full_sound wrap n c c' xs h in
    omega (arith, ap length s.0, length-append xs c'.inbox, s.1)

-- `next` ends on what is shorter than `bound`.
abbrev EndsBelow : ℕ → (Receiver → Receiver) → Type 0
EndsBelow bound next = (r : Receiver) → length r.tcp.inbox < bound → (next r).ended ≡ true

module _ (has_addr sniffer : Bool) (bound : ℕ) (next : Receiver → Receiver)
    (ends : EndsBelow bound next) where
  forwarded-ends :
      (buf : Bytes) (w : Bool × UdpConn) (r : Receiver)
      → length r.tcp.inbox < bound
      → (forwarded sniffer next buf w r).ended ≡ true
  forwarded-ends buf (true, u) r h = ends _ h
  forwarded-ends buf (false, u) r h = refl

  packet-ends :
      (flag : Bool) (o : Outcome Bytes) (r : Receiver)
      → ((xs : Bytes) (c : Conn) → o ≡ done xs c → length c.inbox < bound)
      → (receive_packet flag sniffer next o r).ended ≡ true
  packet-ends true (fail e c) r h = refl
  packet-ends false (fail e c) r h = refl
  packet-ends true (done buf c) r h = forwarded-ends buf (forward buf r.udp) _ (h buf c refl)
  packet-ends false (done buf c) r h = ends _ (h buf c refl)

  sized-ends :
      (o : Outcome Bytes) (r : Receiver)
      → ((xs : Bytes) (c : Conn) → o ≡ done xs c → length c.inbox < bound)
      → (receive_sized has_addr sniffer next o r).ended ≡ true
  sized-ends (fail e c) r h = refl
  sized-ends (done len_buf c) r h =
      let p = packet-ends has_addr (read_full read_message_failed (uint16 len_buf) c) r (λ xs c' e.
        omega (
          arith,
          read_full-shorter read_message_failed (uint16 len_buf) c c' xs e,
          h len_buf c refl,
        )) in
      ground (arith, p)

  stamped-ends :
      (rtt timestamp : ℕ) (o : Outcome Bytes) (r : Receiver)
      → ((xs : Bytes) (c : Conn) → o ≡ done xs c → length c.inbox < bound)
      → (receive_stamped has_addr sniffer rtt timestamp next o r).ended ≡ true
  stamped-ends rtt timestamp (fail e c) r h = refl
  stamped-ends rtt timestamp (done b c) r h =
      sized-ends (read_full read_length_failed 2 c) _
        (λ xs c' e. omega (arith, read_full-shorter read_length_failed 2 c c' xs e, h b c refl))

tcp_to_udp_fuel-ends : (sniffer : Bool) (fuel : ℕ) → EndsBelow fuel (tcp_to_udp_fuel sniffer fuel)
unfolding tcp_to_udp_fuel
tcp_to_udp_fuel-ends sniffer zero r h = absurd (omega arith)
tcp_to_udp_fuel-ends sniffer (suc fuel) r h =
    sized-ends true sniffer fuel (tcp_to_udp_fuel sniffer fuel) (tcp_to_udp_fuel-ends sniffer fuel)
      (read_full read_length_failed 2 r.tcp) r
      (λ xs c' e. omega (arith, read_full-shorter read_length_failed 2 r.tcp c' xs e, h))

server_fuel-ends :
    (has_addr sniffer : Bool) (rtt fuel : ℕ) (now : ℕ → ℕ)
    → EndsBelow fuel (server_tcp_to_udp_fuel has_addr sniffer rtt now fuel)
unfolding server_tcp_to_udp_fuel
server_fuel-ends has_addr sniffer rtt zero now r h = absurd (omega arith)
server_fuel-ends has_addr sniffer rtt (suc fuel) now r h =
    stamped-ends has_addr sniffer fuel
      (server_tcp_to_udp_fuel has_addr sniffer rtt (λ i. now (suc i)) fuel)
      (server_fuel-ends has_addr sniffer rtt fuel (λ i. now (suc i))) rtt (now 0)
      (read_full read_length_failed 4 r.tcp) r
      (λ xs c' e. omega (arith, read_full-shorter read_length_failed 4 r.tcp c' xs e, h))

-- Whatever stands in the stream, both loops that read frames end: the fuel, one more than the bytes
-- in the stream, is enough.
pub tcp_to_udp-ends :
    (has_addr sniffer : Bool) (rtt : ℕ) (now : ℕ → ℕ) (r : Receiver)
    → ((tcp_to_udp sniffer r).ended ≡ true)
      × ((server_tcp_to_udp has_addr sniffer rtt now r).ended ≡ true)
unfolding tcp_to_udp server_tcp_to_udp
tcp_to_udp-ends has_addr sniffer rtt now r = (
  tcp_to_udp_fuel-ends sniffer (suc (length r.tcp.inbox)) r (omega arith),
  server_fuel-ends has_addr sniffer rtt (suc (length r.tcp.inbox)) now r (omega arith),
)
