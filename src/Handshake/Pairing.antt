-- ===== src/Handshake/Pairing.antt =====
-- Client and server together, and the loop of the server.
use ttest.Prelude.{
  ℕ, ◌+◌, ◌-◌, ◌≤◌, ◌<◌, ◌≡◌, ◌≢◌, refl, true, false, List, [], ◌∷◌, ◌++◌, some, arith, length, All,
  Bytes, text_eq_refl, ◌∙◌, ap, append-nil,
}
use ttest.Wire.Conn.{
  Conn, Outcome, done, fail, Error, read_length_failed, close, conn_after, read_full,
}
use ttest.Wire.Signals.{sg_chan}
use ttest.Wire.Binary.{go_values, receive_binary_transport_string, send_binary_transport_string}
use ttest.Wire.RoundTrip.{IsUsable, receive_frame, send_binary_transport_string_lem}
use ttest.Handshake.Server.{
  Peer, Round, accepted, dropped, sent_token, answer, judge, tcp_round, Handshake, handshake_loop,
  after_round, tcp_channel_handshake,
}
use ttest.Handshake.Client.{established, again, tcp_dial}
use ttest.Handshake.Accept.{hello, tcp_round_complete, tcp_round-wrong_token}

-- The client's connection on which `bytes` arrive.
abbrev pub receiving : Peer → Bytes → Peer
receiving p bytes = record p { conn = record p.conn { inbox = bytes } }

-- What the client has written when the server reads.
abbrev pub client_hello : Bytes → Peer → Bytes
client_hello token p = (conn_after (send_binary_transport_string token sg_chan p.conn)).sent

-- Both ends of a fresh connection work and have room for the token.
abbrev pub IsFresh : Bytes → Peer → Type 0
IsFresh token p =
    IsUsable p.conn
    × (p.refuses_deadline ≡ false)
    × (p.conn.sent ≡ [])
    × (length token + 3 ≤ p.conn.room)

tcp_dial-established :
    (token : Bytes) (p : Peer)
    → IsFresh token p
    → length token < 65536
    → (q : Peer) × (tcp_dial token (some (receiving p (hello token))) ≡ established q)
unfolding tcp_dial
tcp_dial-established token p f l =
    let start = record p.conn { inbox = hello token } in
    let c = record start {
      sent = p.conn.sent ++ hello token;
      room = p.conn.room - (length token + 3);
    } in
    (
      record p { conn = record c { inbox = [] }; deadline = false },
      rw (
        send_binary_transport_string_lem token sg_chan start f.0 f.3,
        receive_frame (length token) sg_chan token [] c f.0 (rw append-nil) (omega arith),
        text_eq_refl token,
      ),
    )

client_hello_lem : (token : Bytes) (p : Peer) → IsFresh token p → client_hello token p ≡ hello token
client_hello_lem token p f =
    ap (λ o. (conn_after o).sent) (send_binary_transport_string_lem token sg_chan p.conn f.0 f.3)
    ∙ ap (λ b. b ++ hello token) f.2

-- A client and a server that hold the same token, shorter than 65536 bytes, establish the control
-- channel on both sides over fresh connections, which are open, accept a read deadline and have
-- room for the token: the server accepts what the client sends, and the client accepts what the
-- server answers.
pub handshake_succeeds :
    (token : Bytes) (client server : Peer)
    → IsFresh token client
    → IsFresh token server
    → length token < 65536
    → (q e : Peer) × (tcp_round token (receiving server (client_hello token client)) ≡ accepted q)
      × (tcp_dial token (some (receiving client q.conn.sent)) ≡ established e)
handshake_succeeds token client server fc fs l =
    let hc = client_hello_lem token client fc in
    let (q, took, _, sent) =
      tcp_round_complete token [] (receiving server (client_hello token client)) fs.0 fs.1 l fs.3
        (hc ∙ rw append-nil) in
    let reply : q.conn.sent ≡ hello token = sent ∙ ap (λ b. b ++ hello token) fs.2 in
    let (e, est) = tcp_dial-established token client fc l in
    (q, e, took, ap (λ b. tcp_dial token (some (receiving client b))) reply ∙ est)

receive_empty :
    (c : Conn)
    → IsUsable c
    → c.inbox ≡ []
    → (e : Error) × (d : Conn) × (receive_binary_transport_string c ≡ fail e d)
unfolding receive_binary_transport_string read_full
receive_empty c u e = (read_length_failed c.fault, c, ground arith)

tcp_dial-again :
    (token : Bytes) (p : Peer)
    → IsFresh token p
    → (q : Peer) × (tcp_dial token (some (receiving p [])) ≡ again (some q) true)
      × (q.conn.closed ≡ true)
unfolding tcp_dial
tcp_dial-again token p f =
    let start = record p.conn { inbox = [] } in
    let c = record start {
      sent = p.conn.sent ++ hello token;
      room = p.conn.room - (length token + 3);
    } in
    let (e, d, failed) = receive_empty c f.0 refl in
    (
      record p { conn = close d; deadline = false },
      rw (send_binary_transport_string_lem token sg_chan start f.0 f.3, failed),
      refl,
    )

-- A client and a server with different tokens, on fresh connections with room for their tokens and
-- the client's shorter than 65536 bytes: neither side takes the connection. The server closes it
-- without having written anything, and the client, which gets no answer, closes it and waits before
-- it tries again.
pub handshake_fails :
    (token token' : Bytes) (client server : Peer)
    → token ≢ token'
    → IsFresh token client
    → IsFresh token' server
    → length token < 65536
    → (q e : Peer) × (tcp_round token' (receiving server (client_hello token client)) ≡ dropped q)
      × (q.conn.closed ≡ true)
      × (tcp_dial token (some (receiving client q.conn.sent)) ≡ again (some e) true)
      × (e.conn.closed ≡ true)
handshake_fails token token' client server n fc fs l =
    let hc = client_hello_lem token client fc in
    let (q, turned, closed, sent) =
      tcp_round-wrong_token token' token [] (receiving server (client_hello token client)) fs.0 l
        (hc ∙ rw append-nil) n in
    let (e, tried, down) = tcp_dial-again token client fc in
    (
      q,
      e,
      turned,
      closed,
      ap (λ b. tcp_dial token (some (receiving client b))) (sent ∙ fs.2) ∙ tried,
      down,
    )

abbrev pub IsDropped : (Peer → Round) → Peer → Type 0
IsDropped round p = (q : Peer) × (round p ≡ dropped q)

-- `ps` is made of connections that were dropped, then one that was accepted as `q`, then `waiting`.
abbrev pub FirstAccepted : (Peer → Round) → List Peer → Peer → List Peer → Type 0
FirstAccepted round ps q waiting =
    (before : List Peer) × (p : Peer) × (ps ≡ before ++ (p ∷ waiting))
    × All (IsDropped round) before
    × (round p ≡ accepted q)

found_step :
    (round : Peer → Round) (p q : Peer) (ps : List Peer) (h : Handshake) (r : Round)
    → round p ≡ r
    → (h.control_channel ≡ some q → FirstAccepted round ps q h.waiting)
    → (after_round r ps h).control_channel ≡ some q
    → FirstAccepted round (p ∷ ps) q (after_round r ps h).waiting
found_step round p q ps h (accepted p') e ih f = ([], p, refl, tt, cc)
found_step round p q ps h (dropped p') e ih f =
    let (before, found, split, all, took) = ih f in
    (p ∷ before, found, ap (λ l. p ∷ l) split, ((p', e), all), took)

-- The control channel is the first of the waiting connections that passes its round; those before
-- it were dropped, and those behind it are left in the channel, untouched.
handshake_loop-found :
    (round : Peer → Round) (ps : List Peer) (q : Peer)
    → (handshake_loop round ps).control_channel ≡ some q
    → FirstAccepted round ps q (handshake_loop round ps).waiting
unfolding handshake_loop
handshake_loop-found round [] q h = cc
handshake_loop-found round (p ∷ ps) q h =
    found_step round p q ps (handshake_loop round ps) (round p) refl
      (handshake_loop-found round ps q) h

sent_token-dropped :
    (p q : Peer) (r : Outcome (Unit {0})) → sent_token p r ≡ dropped q → q.conn.closed ≡ true
sent_token-dropped p q (done u c) h = cc
sent_token-dropped p q (fail e c) h = ground arith

answer-dropped :
    (token msg : Bytes) (p q : Peer) → answer token p msg ≡ dropped q → q.conn.closed ≡ true
unfolding answer
answer-dropped token msg p q h =
    ground (arith, sent_token-dropped p q (send_binary_transport_string token sg_chan p.conn))

judge-dropped :
    (token : Bytes) (p q : Peer) (r : Outcome (Bytes × ℕ))
    → judge token p (go_values r) ≡ dropped q
    → q.conn.closed ≡ true
unfolding judge
judge-dropped token p q (fail e c) h = ground arith
judge-dropped token p q (done (msg, t) c) h =
    ground (arith, answer-dropped token msg (record p { conn = c; deadline = false }) q)

tcp_round-dropped :
    (token : Bytes) (p q : Peer) → tcp_round token p ≡ dropped q → q.conn.closed ≡ true
unfolding tcp_round
tcp_round-dropped token p q h = ground (
  arith,
  judge-dropped token (record p { deadline = true }) q (receive_binary_transport_string p.conn),
)

rejected_step :
    (token : Bytes) (p : Peer) (ps : List Peer) (h : Handshake) (r : Round)
    → tcp_round token p ≡ r
    → All (λ q. q.conn.closed ≡ true) h.rejected
    → All (λ q. q.conn.closed ≡ true) (after_round r ps h).rejected
rejected_step token p ps h (accepted q) e ih = tt
rejected_step token p ps h (dropped q) e ih = (tcp_round-dropped token p q e, ih)

-- No connection that the TCP server turns down during the handshake is left open.
pub tcp_channel_handshake-closed :
    (token : Bytes) (ps : List Peer)
    → All (λ q. q.conn.closed ≡ true) (tcp_channel_handshake token ps).rejected
unfolding tcp_channel_handshake handshake_loop
tcp_channel_handshake-closed token [] = tt
tcp_channel_handshake-closed token (p ∷ ps) =
    rejected_step token p ps (handshake_loop (tcp_round token) ps) (tcp_round token p) refl
      (tcp_channel_handshake-closed token ps)
