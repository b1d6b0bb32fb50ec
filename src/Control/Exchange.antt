-- ===== src/Control/Exchange.antt =====
-- The signals of a TCP server, as the TCP client takes them.
use ttest.Prelude.{
  ℕ, suc, ◌+◌, ◌-◌, ◌%◌, ◌^◌, ◌<◌, ◌≡◌, ◌⊎◌, inl, inr, refl, sym, ◌∙◌, ap, true, false, List, [],
  ◌∷◌, ◌++◌, map, arith, ◌==◌, if◌then◌else◌, Bytes, All, subst, length,
}
use ttest.Wire.Conn.{Conn}
use ttest.Wire.Signals.{sg_hb, sg_chan, sg_closed, sg_rtt}
use ttest.Control.Server.{
  Event, request, tick, read_failed, send_signal, Sender, ServerControl, Reader, reader_runs,
  reader_failed, reader_done, tcp_server_handler,
}
use ttest.Control.Server
use ttest.Control.Client.{
  ClientEvent, ClientControl, message, on_chan, take_or_dial, give_up, tcp_on_signal,
  tcp_client_handler,
}
use ttest.Control.Client
use ttest.Control.Loop.{signals, failed_reader}
use ttest.Control.Trace.{tcp_ends, IsStarting, tcp_server_handler-sent}

-- A signal of a server that goes on.
abbrev pub IsAlive : ℕ → Type 0
IsAlive b = (b ≡ sg_chan) ⊎ ((b ≡ sg_hb) ⊎ (b ≡ sg_rtt))

abbrev pub chans : Bytes → ℕ
chans [] = 0
chans (b ∷ bs) = (if b == sg_chan then 1 else 0) + chans bs

chans_cons : (b : ℕ) (bs : Bytes) → chans (b ∷ []) + chans bs ≡ chans (b ∷ bs)
chans_cons b bs = omega arith

-- What `n` requests do to a client.
pub record Served (n : ℕ) (c c' : ClientControl Conn) : Type 0 where
  pub dials_added : c'.dials ≡ c.dials + (n - c.control_flow)
  pub flow_used : c'.control_flow ≡ c.control_flow - n
  pub load_counted : c'.load_connections ≡ (c.load_connections + n) % 2 ^ 32
  pub not_stopped : c'.stopped ≡ false
  pub no_restart : c'.restarts ≡ c.restarts

abbrev pub CountsLoad : ClientControl Conn → Type 0
CountsLoad c = c.load_connections < 2 ^ 32

one_signal :
    (b : ℕ) (c : ClientControl Conn)
    → IsAlive b
    → c.stopped ≡ false
    → CountsLoad c
    → Served
        (chans (b ∷ []))
        c
        (Client.handle send_signal (tcp_on_signal send_signal) (message b) c)
unfolding Client.handle tcp_on_signal
one_signal b c a s l = ground arith

Served-trans :
    (m n : ℕ) (c c' c'' : ClientControl Conn)
    → Served m c c'
    → Served n c' c''
    → Served (m + n) c c''
Served-trans m n c c' c'' f g = ground arith

-- The client's loop over messages alone.
unfoldable pub hear : Bytes → ClientControl Conn → ClientControl Conn
hear bs = tcp_client_handler (map message bs)

hear_cons :
    (b : ℕ) (bs : Bytes) (c : ClientControl Conn)
    → hear (b ∷ bs) c
      ≡ hear bs (Client.handle send_signal (tcp_on_signal send_signal) (message b) c)
unfolding hear tcp_client_handler Client.run
hear_cons b bs c = refl

hear-Served :
    (bs : Bytes) (c : ClientControl Conn)
    → All IsAlive bs
    → c.stopped ≡ false
    → CountsLoad c
    → Served (chans bs) c (hear bs c)
hear-Served [] c a s l = unfold hear tcp_client_handler Client.run in ground arith
hear-Served (b ∷ bs) c a s l =
    let c' = Client.handle send_signal (tcp_on_signal send_signal) (message b) c in
    let one = one_signal b c a.0 s l in
    let rest = hear-Served bs c' a.1 one.not_stopped (omega arith) in
    subst (Served (chans (b ∷ bs)) c) (sym (hear_cons b bs c)) (
      rw (chans_cons b bs) at (Served-trans (chans (b ∷ [])) (chans bs) c c' (hear bs c') one rest))

-- Events after which the server's loop still runs and has lost no request.
abbrev pub GoesOn : Event → Type 0
GoesOn Server.cancelled = ⊥
GoesOn request = Unit
GoesOn tick = Unit
GoesOn (Server.message b at) = tcp_ends b ≡ false
GoesOn read_failed = Unit

abbrev pub requests : List Event → ℕ
requests [] = 0
requests (request ∷ es) = suc (requests es)
requests (_ ∷ es) = requests es

signals-IsAlive :
    (es : List Event) (reader : Reader)
    → All GoesOn es
    → All IsAlive (signals tcp_ends false reader es)
      × (chans (signals tcp_ends false reader es) ≡ requests es)
signals-IsAlive [] rd a = (tt, refl)
signals-IsAlive (Server.cancelled ∷ es) rd a = absurd a.0
signals-IsAlive (request ∷ es) rd a =
    let (alive, count) = signals-IsAlive es rd a.1 in ((inl refl, alive), omega arith)
signals-IsAlive (tick ∷ es) rd a =
    let (alive, count) = signals-IsAlive es rd a.1 in ((inr (inl refl), alive), omega arith)
signals-IsAlive (Server.message b at ∷ es) reader_runs a =
    rw a.0 (signals-IsAlive es reader_runs a.1)
signals-IsAlive (Server.message b at ∷ es) reader_failed a =
    rw a.0 (signals-IsAlive es reader_done a.1)
signals-IsAlive (Server.message b at ∷ es) reader_done a = signals-IsAlive es reader_done a.1
signals-IsAlive (read_failed ∷ es) rd a = signals-IsAlive es (failed_reader tcp_ends false rd) a.1

-- While no event ends the TCP server's loop, a running client takes every signal that the server
-- writes without a restart. Each request of the server uses up one waiting signal of the client's
-- pool or, where none is waiting, makes the client dial one tunnel connection, and each is counted
-- as load, as an int32.
pub hear-signals :
    (es : List Event) (c : ClientControl Conn)
    → All GoesOn es
    → c.stopped ≡ false
    → CountsLoad c
    → Served (requests es) c (hear (sg_rtt ∷ signals tcp_ends false reader_runs es) c)
hear-signals es c a s l =
    let (alive, count) = signals-IsAlive es reader_runs a in
    subst (λ n. Served n c (hear (sg_rtt ∷ signals tcp_ends false reader_runs es) c)) (omega arith)
      (hear-Served (sg_rtt ∷ signals tcp_ends false reader_runs es) c (inr (inr refl), alive) s l)

hear-append : (xs ys : Bytes) (c : ClientControl Conn) → hear (xs ++ ys) c ≡ hear ys (hear xs c)
hear-append [] ys c = unfold hear tcp_client_handler Client.run in refl
hear-append (x ∷ xs) ys c =
    hear_cons x (xs ++ ys) c ∙ hear-append xs ys _ ∙ ap (hear ys) (sym (hear_cons x xs c))

signals-cancelled :
    (es after : List Event) (reader : Reader)
    → All GoesOn es
    → signals tcp_ends false reader (es ++ (Server.cancelled ∷ after))
      ≡ signals tcp_ends false reader es ++ (sg_closed ∷ [])
signals-cancelled [] after rd a = refl
signals-cancelled (Server.cancelled ∷ es) after rd a = absurd a.0
signals-cancelled (request ∷ es) after rd a = rw (signals-cancelled es after rd a.1)
signals-cancelled (tick ∷ es) after rd a = rw (signals-cancelled es after rd a.1)
signals-cancelled (Server.message b at ∷ es) after reader_runs a =
    rw (a.0, signals-cancelled es after reader_runs a.1)
signals-cancelled (Server.message b at ∷ es) after reader_failed a =
    rw (a.0, signals-cancelled es after reader_done a.1)
signals-cancelled (Server.message b at ∷ es) after reader_done a =
    signals-cancelled es after reader_done a.1
signals-cancelled (read_failed ∷ es) after rd a =
    signals-cancelled es after (failed_reader tcp_ends false rd) a.1

hear_closed :
    (c : ClientControl Conn)
    → c.stopped ≡ false
    → ((hear (sg_closed ∷ []) c).stopped ≡ true)
      × ((hear (sg_closed ∷ []) c).restarts ≡ c.restarts + 1)
      × ((hear (sg_closed ∷ []) c).dials ≡ c.dials)
unfolding hear tcp_client_handler Client.run Client.handle tcp_on_signal
hear_closed c s = ground arith

-- When the TCP server is cancelled after events that do not end its loop, a running client that takes
-- what the server has written hears of it: after the requests made so far it restarts once and leaves
-- its loop, whatever events the server still gets. The control channel of the server is new, it is open,
-- and it has room for one byte per event and one more, so that the close signal gets through.
pub hear-signals_cancelled :
    (at : ℕ) (es after : List Event) (s : ServerControl Conn) (c : ClientControl Conn)
    → IsStarting (suc (length (es ++ (Server.cancelled ∷ after)))) s
    → s.conn.sent ≡ []
    → All GoesOn es
    → c.stopped ≡ false
    → CountsLoad c
    → let c' = hear (tcp_server_handler at (es ++ (Server.cancelled ∷ after)) s).conn.sent c in
      (c'.stopped ≡ true)
      × (c'.restarts ≡ c.restarts + 1)
      × (c'.dials ≡ c.dials + (requests es - c.control_flow))
hear-signals_cancelled at es after s c starting empty a running l =
    let written = sg_rtt ∷ signals tcp_ends false reader_runs es in
    let heard = hear written c in
    let served = hear-signals es c a running l in
    let (stop, again, dials) = hear_closed heard served.not_stopped in
    rw
      (
        tcp_server_handler-sent at (es ++ (Server.cancelled ∷ after)) s starting,
        empty,
        signals-cancelled es after reader_runs a,
        hear-append written (sg_closed ∷ []) c,
      )
      (stop, again ∙ ap (λ n. n + 1) served.no_restart, dials ∙ served.dials_added)
