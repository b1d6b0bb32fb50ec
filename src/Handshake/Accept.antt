-- ===== src/Handshake/Accept.antt =====
-- Which connections the server takes as its control channel.
use ttest.Prelude.{
  ℕ, ◌+◌, ◌-◌, ◌≤◌, ◌<◌, ◌≡◌, ◌≢◌, refl, sym, true, false, ◌∷◌, ◌++◌, arith, ◌==◌, length, All,
  Bytes, text_eq, text_eq→eq, text_eq_refl, ==_iff, if_false, ◌∙◌, ap, Bool-cases, inl, inr,
}
use ttest.Wire.Conn.{Conn, Outcome, done, fail, close, conn_after}
use ttest.Wire.Signals.{sg_chan}
use ttest.Wire.Binary.{
  go_values, put_uint16, receive_binary_transport_string, send_binary_transport_string,
}
use ttest.Wire.RoundTrip.{
  IsUsable, receive_sound, receive-sent, send_sound, receive_frame,
  send_binary_transport_string_lem,
}
use ttest.Handshake.Server.{Peer, Round, accepted, dropped, sent_token, answer, judge, tcp_round}

-- The frame of a token with the channel signal, as it stands on the wire.
abbrev pub hello : Bytes → Bytes
hello token = put_uint16 (length token) ++ (sg_chan ∷ token)

abbrev pub Presents : Bytes → Conn → Bytes → Type 0
Presents token c rest = c.inbox ≡ put_uint16 (length token) ++ (sg_chan ∷ (token ++ rest))

sent_token-accepted :
    (p q : Peer) (r : Outcome (Unit {0}))
    → sent_token p r ≡ accepted q
    → (r ≡ done tt q.conn) × (q.deadline ≡ p.deadline)
sent_token-accepted p q (done u c) h = ground arith
sent_token-accepted p q (fail e c) h = cc

answer-accepted :
    (token msg : Bytes) (p q : Peer)
    → answer token p msg ≡ accepted q
    → (msg ≡ token)
      × (send_binary_transport_string token sg_chan p.conn ≡ done tt q.conn)
      × (q.deadline ≡ p.deadline)
unfolding answer
answer-accepted token msg p q h = ground (
  arith,
  text_eq→eq msg token,
  sent_token-accepted p q (send_binary_transport_string token sg_chan p.conn),
)

judge-accepted :
    (token : Bytes) (p q : Peer) (r : Outcome (Bytes × ℕ))
    → judge token p (go_values r) ≡ accepted q
    → (c : Conn) × (r ≡ done (token, sg_chan) c)
      × (send_binary_transport_string token sg_chan c ≡ done tt q.conn)
      × (q.deadline ≡ false)
unfolding judge
judge-accepted token p q (fail e c) h = cc
judge-accepted token p q (done (msg, t) c) h = (
  c,
  ground (arith, answer-accepted token msg (record p { conn = c; deadline = false }) q),
  ground (arith, answer-accepted token msg (record p { conn = c; deadline = false }) q),
  ground (arith, answer-accepted token msg (record p { conn = c; deadline = false }) q),
)

tcp_round-judge :
    (token : Bytes) (p q : Peer)
    → tcp_round token p ≡ accepted q
    → judge token
        (record p { deadline = true })
        (go_values (receive_binary_transport_string p.conn))
      ≡ accepted q
unfolding tcp_round
tcp_round-judge token p q h = ground arith

-- A connection that becomes the control channel presented the server's token with the channel
-- signal as its first message, where its inbox is made of bytes; the server has answered with the
-- same frame, has read nothing beyond the message, and has removed the read deadline.
pub tcp_round-accepted :
    (token : Bytes) (p q : Peer)
    → All (λ b. b < 256) p.conn.inbox
    → tcp_round token p ≡ accepted q
    → Presents token p.conn q.conn.inbox
      × (q.conn.sent ≡ p.conn.sent ++ hello token)
      × (q.deadline ≡ false)
tcp_round-accepted token p q b h =
    let (c, e, s, d) =
      judge-accepted token (record p { deadline = true }) q (receive_binary_transport_string p.conn)
        (tcp_round-judge token p q h) in
    let got = receive_sound p.conn c token sg_chan b e in
    let put = send_sound token sg_chan c q.conn s in
    (
      sym got.0 ∙ ap (λ r. put_uint16 (length token) ++ (sg_chan ∷ (token ++ r))) (sym put.1),
      put.0 ∙ ap (λ r. r ++ hello token) got.2,
      d,
    )

-- A peer that presents the server's token, shorter than 65536 bytes, is accepted and answered with
-- the token, if its connection is open, takes a read deadline and has room for the answer: what
-- follows the token in its inbox is kept for the control channel.
pub tcp_round_complete :
    (token rest : Bytes) (p : Peer)
    → IsUsable p.conn
    → p.refuses_deadline ≡ false
    → length token < 65536
    → length token + 3 ≤ p.conn.room
    → Presents token p.conn rest
    → (q : Peer) × (tcp_round token p ≡ accepted q)
      × (q.conn.inbox ≡ rest)
      × (q.conn.sent ≡ p.conn.sent ++ hello token)
unfolding tcp_round judge answer
tcp_round_complete token rest p u r l h e =
    let c : Conn = record p.conn { inbox = rest } in
    let frame : Bytes = put_uint16 (length token) ++ (sg_chan ∷ token) in
    let d : Conn = record c { sent = c.sent ++ frame; room = c.room - (length token + 3) } in
    (
      record p { conn = d; deadline = false },
      rw (
        r,
        receive_frame (length token) sg_chan token rest p.conn u e (omega arith),
        text_eq_refl token,
        send_binary_transport_string_lem token sg_chan c u h,
      ),
      refl,
      refl,
    )

-- What a round leaves of a connection that it drops.
abbrev pub IsTurnedAway : Peer → Round → Type 0
IsTurnedAway p r =
    (q : Peer) × (r ≡ dropped q) × (q.conn.closed ≡ true) × (q.conn.sent ≡ p.conn.sent)

answer-IsTurnedAway :
    (token msg : Bytes) (p : Peer) → msg ≢ token → IsTurnedAway p (answer token p msg)
unfolding answer
answer-IsTurnedAway token msg p n = elim (Bool-cases (text_eq msg token)) [
  | inl same ↦ absurd (n (text_eq→eq msg token same))
  | inr other ↦ (record p { conn = close p.conn }, rw other, refl, refl)
]

judge-IsTurnedAway :
    (token : Bytes) (p : Peer) (r : Outcome (Bytes × ℕ))
    → (conn_after r).sent ≡ p.conn.sent
    → ((c : Conn) → r ≢ done (token, sg_chan) c)
    → IsTurnedAway p (judge token p (go_values r))
unfolding judge
judge-IsTurnedAway token p (fail e c) s n = (record p { conn = close c }, refl, refl, s)
judge-IsTurnedAway token p (done (msg, t) c) s n = elim (Bool-cases (t == sg_chan)) [
  | inl chan ↦
      let p' : Peer = record p { conn = c; deadline = false } in
      let (q, e, closed, sent) =
        answer-IsTurnedAway token msg p' (presented msg t c n ((==_iff t sg_chan).0 chan)) in
      rw chan (q, e, closed, sent ∙ s)
  | inr other ↦ rw other (record p { conn = close c }, refl, refl, s)
]
  where
    presented :
        (m : Bytes) (x : ℕ) (d : Conn)
        → ((d' : Conn) → ◌≢◌ {A = Outcome (Bytes × ℕ)} (done (m, x) d) (done (token, sg_chan) d'))
        → x ≡ sg_chan
        → m ≢ token
    presented m x d k e f = k d (rw (e, f))

tcp_round-receive :
    (token : Bytes) (p : Peer) (r : Outcome (Bytes × ℕ))
    → receive_binary_transport_string p.conn ≡ r
    → (conn_after r).sent ≡ p.conn.sent
    → ((c : Conn) → r ≢ done (token, sg_chan) c)
    → IsTurnedAway p (tcp_round token p)
unfolding tcp_round
tcp_round-receive token p r e s n = elim (Bool-cases p.refuses_deadline) [
  | inl bad ↦ (record p { conn = close p.conn }, rw bad, refl, refl)
  | inr good ↦
      let (q, e', closed, sent) = judge-IsTurnedAway token (record p { deadline = true }) r s n in
      (
        q,
        if_false _ _ good
            ∙ (ap (λ o. judge token (record p { deadline = true }) (go_values o)) e ∙ e'),
        closed,
        sent,
      )
]

-- A peer that presents another token is turned away.
pub tcp_round-wrong_token :
    (token m rest : Bytes) (p : Peer)
    → IsUsable p.conn
    → length m < 65536
    → Presents m p.conn rest
    → m ≢ token
    → IsTurnedAway p (tcp_round token p)
tcp_round-wrong_token token m rest p u l e n =
    tcp_round-receive token p _ (receive_frame (length m) sg_chan m rest p.conn u e (omega arith))
      refl λ c h. n (cc h)

-- A peer that does not present the token with the channel signal, where its inbox is made of bytes,
-- is turned away: its connection is closed, and nothing has been written to it, so it does not
-- learn the token.
pub tcp_round-IsTurnedAway :
    (token : Bytes) (p : Peer)
    → All (λ b. b < 256) p.conn.inbox
    → ((rest : Bytes) → ¬ Presents token p.conn rest)
    → IsTurnedAway p (tcp_round token p)
tcp_round-IsTurnedAway token p b n =
    tcp_round-receive token p _ refl (receive-sent p.conn)
      λ c e. n c.inbox (sym (receive_sound p.conn c token sg_chan b e).0)
