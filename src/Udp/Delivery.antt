-- ===== src/Udp/Delivery.antt =====
-- From the server's socket to the client's.
use ttest.Prelude.{
  ℕ, zero, suc, ◌-◌, ◌/◌, ◌%◌, ◌≤◌, ◌<◌, ◌≡◌, refl, sym, ap, ◌∙◌, Bool, true, false, List, [], ◌∷◌,
  ◌++◌, map, if◌then◌else◌, length, Bytes, All, arith, append_assoc, append-nil, length-append,
}
use ttest.Wire.Conn.{
  Conn, write, read_full, read_length_failed, read_message_failed, read_full-append,
}
use ttest.Wire.Binary.{put_uint16, uint16}
use ttest.Udp.Frames.{
  UdpConn, Receiver, Payload, datagram, Sending, udp_to_tcp, tcp_to_udp, tcp_to_udp_fuel, forward,
  udp_write, forwarded, send_packet,
}

abbrev pub frames : List Bytes → Bytes
frames [] = []
frames (d ∷ ds) = (put_uint16 (length d) ++ d) ++ frames ds

-- An empty datagram is not sent on.
abbrev pub not_empty : List Bytes → List Bytes
not_empty [] = []
not_empty ([] ∷ ds) = not_empty ds
not_empty ((b ∷ bs) ∷ ds) = (b ∷ bs) ∷ not_empty ds

abbrev pub FitsBuffer : Bytes → Type 0
FitsBuffer d = length d ≤ 16384

-- A connection after a write of `packet` that got through.
abbrev pub wrote : Bytes → Conn → Conn
wrote packet c = record c { sent = c.sent ++ packet; room = c.room - length packet }

pub send_packet-wrote :
    (sniffer : Bool) (packet : Bytes) (next : Sending → Sending) (s : Sending)
    → s.tcp.closed ≡ false
    → length packet ≤ s.tcp.room
    → send_packet sniffer packet next s
      ≡ next (record s {
        tcp = wrote packet s.tcp;
        reported = if sniffer then s.reported ++ (length packet ∷ []) else s.reported;
      })
unfolding write
send_packet-wrote sniffer packet next s o h = ground arith

udp_to_tcp_datagram :
    (sniffer : Bool) (d : Bytes) (ps : List Payload) (s : Sending)
    → FitsBuffer d
    → udp_to_tcp sniffer (datagram d ∷ ps) s
      ≡ send_packet sniffer (put_uint16 (length d) ++ d) (udp_to_tcp sniffer ps) s
unfolding udp_to_tcp
udp_to_tcp_datagram sniffer d ps s f = ground arith

-- The server's loop writes the frames of its datagrams.
udp_to_tcp-frames :
    (sniffer : Bool) (ds : List Bytes) (s : Sending)
    → All FitsBuffer ds
    → s.tcp.closed ≡ false
    → length (frames ds) ≤ s.tcp.room
    → (udp_to_tcp sniffer (map datagram ds) s).tcp.sent ≡ s.tcp.sent ++ frames ds
unfolding udp_to_tcp
udp_to_tcp-frames sniffer [] s f o h = sym (append-nil s.tcp.sent)
udp_to_tcp-frames sniffer (d ∷ ds) s f o h =
    let packet = put_uint16 (length d) ++ d in
    ap (λ q. q.tcp.sent)
      (udp_to_tcp_datagram sniffer d (map datagram ds) s f.0
        ∙ send_packet-wrote sniffer packet (udp_to_tcp sniffer (map datagram ds)) s o
            (omega (arith, h, length-append packet (frames ds))))
    ∙ (udp_to_tcp-frames sniffer ds _ f.1 o (omega (arith, h, length-append packet (frames ds)))
        ∙ append_assoc s.tcp.sent packet (frames ds))

client_frame :
    (sniffer : Bool) (fuel : ℕ) (d rest : Bytes) (r : Receiver)
    → FitsBuffer d
    → r.tcp.closed ≡ false
    → r.tcp.inbox ≡ (put_uint16 (length d) ++ d) ++ rest
    → tcp_to_udp_fuel sniffer (suc fuel) r
      ≡ forwarded sniffer
          (tcp_to_udp_fuel sniffer fuel)
          d
          (forward d r.udp)
          (record r { tcp = record r.tcp { inbox = rest } })
unfolding tcp_to_udp_fuel
client_frame sniffer fuel d rest r f o e =
    let header : Bytes = length d / 256 % 256 ∷ length d % 256 ∷ [] in
    let c' : Conn = record r.tcp { inbox = d ++ rest } in
    ground (
      arith,
      read_full-append read_length_failed 2 r.tcp header (d ++ rest),
      read_full-append read_message_failed (uint16 header) c' d rest,
    )

-- The socket after all of `ds` have got through.
abbrev pub sent_on : List Bytes → UdpConn → UdpConn
sent_on ds u = record u {
  datagrams = u.datagrams ++ not_empty ds;
  left = u.left - length (not_empty ds);
}

pub forward-sent_on :
    (d : Bytes) (ds : List Bytes) (u : UdpConn)
    → length (not_empty (d ∷ ds)) ≤ u.left
    → (v : UdpConn) × (forward d u ≡ (true, v))
      × (length (not_empty ds) ≤ v.left)
      × (v.datagrams ++ not_empty ds ≡ u.datagrams ++ not_empty (d ∷ ds))
unfolding forward udp_write
forward-sent_on [] ds u h = (u, refl, h, refl)
forward-sent_on (b ∷ bs) ds u h = (
  record u { datagrams = u.datagrams ++ ((b ∷ bs) ∷ []); left = u.left - 1 },
  ground arith,
  omega arith,
  append_assoc u.datagrams ((b ∷ bs) ∷ []) (not_empty ds),
)

no_frame :
    (sniffer : Bool) (fuel : ℕ) (r : Receiver)
    → r.tcp.closed ≡ false
    → r.tcp.inbox ≡ []
    → let q = tcp_to_udp_fuel sniffer (suc fuel) r in
      (q.udp.datagrams ≡ r.udp.datagrams ++ []) × (q.ended ≡ true)
unfolding tcp_to_udp_fuel read_full
no_frame sniffer fuel r o e = ground (arith, append-nil r.udp.datagrams)

-- The client's loop over the frames of `ds` and nothing more.
tcp_to_udp-frames :
    (sniffer : Bool) (ds : List Bytes) (fuel : ℕ) (r : Receiver)
    → All FitsBuffer ds
    → r.tcp.closed ≡ false
    → r.tcp.inbox ≡ frames ds
    → length (not_empty ds) ≤ r.udp.left
    → length ds < fuel
    → let q = tcp_to_udp_fuel sniffer fuel r in
      (q.udp.datagrams ≡ r.udp.datagrams ++ not_empty ds) × (q.ended ≡ true)
tcp_to_udp-frames sniffer ds zero r f o e l h = absurd (omega arith)
tcp_to_udp-frames sniffer [] (suc fuel) r f o e l h = no_frame sniffer fuel r o e
tcp_to_udp-frames sniffer (d ∷ ds) (suc fuel) r f o e l h =
    let s = forward-sent_on d ds r.udp l in
    let c' : Conn = record r.tcp { inbox = frames ds } in
    let r' = record r {
      tcp = c';
      udp = s.0;
      reported = if sniffer then r.reported ++ (length d ∷ []) else r.reported;
    } in
    let ih = tcp_to_udp-frames sniffer ds fuel r' f.1 o refl s.2 (omega arith) in
    let step =
      client_frame sniffer fuel d (frames ds) r f.0 o e
      ∙ ap (λ w. forwarded sniffer (tcp_to_udp_fuel sniffer fuel) d w (record r { tcp = c' }))
          s.1 in
    (ap (λ q. q.udp.datagrams) step ∙ (ih.0 ∙ s.3), ap (λ q. q.ended) step ∙ ih.1)

length-frames : (ds : List Bytes) → length ds ≤ length (frames ds)
length-frames [] = omega arith
length-frames (d ∷ ds) = omega (arith, length-frames ds, length-append d (frames ds))

-- Datagrams of at most 16384 bytes that the server sends over a tunnel connection with room for
-- their frames come out of the client's socket, if that takes them, one by one, unchanged and in
-- order, but for the empty ones, which are not sent on; then, at the end of the stream, the
-- client's loop ends.
pub tcp_to_udp-udp_to_tcp :
    (server_sniffer client_sniffer : Bool) (ds : List Bytes) (s : Sending) (r : Receiver)
    → All FitsBuffer ds
    → s.tcp.closed ≡ false
    → s.tcp.sent ≡ []
    → length (frames ds) ≤ s.tcp.room
    → r.tcp.closed ≡ false
    → r.tcp.inbox ≡ (udp_to_tcp server_sniffer (map datagram ds) s).tcp.sent
    → length (not_empty ds) ≤ r.udp.left
    → ((tcp_to_udp client_sniffer r).udp.datagrams ≡ r.udp.datagrams ++ not_empty ds)
      × ((tcp_to_udp client_sniffer r).ended ≡ true)
unfolding tcp_to_udp
tcp_to_udp-udp_to_tcp server_sniffer client_sniffer ds s r f so se sr ro ri l =
    let e : r.tcp.inbox ≡ frames ds =
      ri ∙ (udp_to_tcp-frames server_sniffer ds s f so sr ∙ ap (λ b. b ++ frames ds) se) in
    tcp_to_udp-frames client_sniffer ds (suc (length r.tcp.inbox)) r f ro e l
      (omega (arith, length-frames ds, ap length e))
