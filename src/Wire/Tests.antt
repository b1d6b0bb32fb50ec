-- ===== src/Wire/Tests.antt =====
-- The messages on a small connection.
use ttest.Prelude.{◌≡◌, refl, [], ◌∷◌, ◌++◌, take, drop, length, codes, arith, false, ◌%◌}
use ttest.Wire.Conn.{Conn, net_conn, eof, done, conn_after, read_full}
use ttest.Wire.Signals.{sg_chan, sg_tcp}
use ttest.Wire.Binary.{send_binary_transport_string, receive_binary_transport_string}
use ttest.Wire.RoundTrip.{IsUsable, receive-send, receive-send_truncated}

abbrev wire : Conn
wire = record { kind = net_conn; inbox = []; fault = eof; sent = []; room = 100; closed = false }

wire-IsUsable : IsUsable wire
wire-IsUsable = (λ e. cc, refl)

receive-send_example :
    receive_binary_transport_string (record wire {
      inbox = (conn_after (send_binary_transport_string (codes "80") sg_tcp wire)).sent ++ (7 ∷ []);
    })
    ≡ done (codes "80", sg_tcp) (record wire { inbox = 7 ∷ [] })
receive-send_example =
    receive-send (codes "80") (7 ∷ []) sg_tcp wire wire wire-IsUsable wire-IsUsable (omega arith)
      refl (omega arith)

receive-send_truncated_example :
    receive_binary_transport_string (record wire {
      inbox = (conn_after (send_binary_transport_string (codes "80") sg_tcp wire)).sent ++ (7 ∷ []);
    })
    ≡ done
        (take (length (codes "80") % 65536) (codes "80"), sg_tcp)
        (record wire { inbox = drop (length (codes "80") % 65536) (codes "80") ++ (7 ∷ []) })
receive-send_truncated_example =
    receive-send_truncated (codes "80") (7 ∷ []) sg_tcp wire wire wire-IsUsable wire-IsUsable
      (omega arith) refl

-- A frame of two bytes with the channel signal, and one byte more.
abbrev framed : Conn
framed = record wire { inbox = 0 ∷ 2 ∷ 1 ∷ 65 ∷ 66 ∷ 9 ∷ [] }

framed-receive :
    receive_binary_transport_string framed
    ≡ done (65 ∷ 66 ∷ [], sg_chan) (record framed { inbox = 9 ∷ [] })
unfolding receive_binary_transport_string read_full
framed-receive = refl
