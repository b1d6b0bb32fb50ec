-- ===== src/Control/Server.antt =====
-- `channelHandler` of internal/server/transport/{tcp,tcpmux,ws,wsmux,udp}.go. An event is a case of
-- the `select` that is taken, or an error that the reading goroutine meets. Times are milliseconds.
use ttest.Prelude.{ℕ, ◌+◌, ◌-◌, Bool, true, false, ◌||◌, List, [], ◌∷◌, ◌==◌, if◌then◌else◌}
use ttest.Wire.Signals.{sg_hb, sg_chan, sg_closed, sg_rtt}
use ttest.Wire.Conn.{Conn, Outcome, done, fail}
use ttest.Wire.Binary.{send_binary_byte}

pub data Event : Type 0 where
  cancelled : Event  -- <-s.ctx.Done()
  request : Event  -- <-s.reqNewConnChan
  tick : Event  -- <-ticker.C
  message : ℕ → ℕ → Event  -- <-messageChan: the byte, and when it is handled
  read_failed : Event  -- the goroutine that reads got an error

-- The goroutine that reads: it runs, or it has met an error and left at most one byte in `messageChan`,
-- which holds one, or it has ended and left none.
pub data Reader : Type 0 where
  reader_runs reader_failed reader_done : Reader

abbrev pub is_done : Reader → Bool
is_done reader_done = true
is_done _ = false

-- Once the loop has taken a byte from `messageChan`.
abbrev pub after_message : Reader → Reader
after_message reader_runs = reader_runs
after_message _ = reader_done

pub record ServerControl (C : Type 0) : Type 0 where
  pub conn : C
  pub restarts : ℕ  -- calls of `Restart`
  pub stopped : Bool  -- the loop has returned
  pub reader : Reader
  pub rtt_sent_at : ℕ
  pub rtt : ℕ

-- How a signal byte is sent: whether that succeeded, and the connection afterwards.
abbrev pub Sender : Type 0 → Type 0
Sender C = ℕ → C → Bool × C

abbrev pub sending : Outcome (Unit {0}) → Bool × Conn
sending (done _ c) = (true, c)
sending (fail _ c) = (false, c)

unfoldable pub send_signal : Sender Conn
send_signal b c = sending (send_binary_byte b c)

abbrev pub OnMessage : Type 0 → Type 0
OnMessage C = ℕ → ℕ → ServerControl C → ServerControl C

module _ {C : Type 0} where
  abbrev pub give_up : ServerControl C → ServerControl C
  give_up s = record s { restarts = s.restarts + 1; stopped = true }

  abbrev pub emitted : ServerControl C → Bool × C → ServerControl C
  emitted s (true, c) = record s { conn = c }
  emitted s (false, c) = give_up (record s { conn = c })

  abbrev pub on_read_error : Reader → Reader → ServerControl C → ServerControl C
  on_read_error left reader_runs s = record s { restarts = s.restarts + 1; reader = left }
  on_read_error left _ s = s

  module _ (send : Sender C) where
    -- An error of the write restarts the server and ends the loop.
    unfoldable pub emit : ℕ → ServerControl C → ServerControl C
    emit b s = emitted s (send b s.conn)

    -- The result of the last write is ignored.
    unfoldable pub farewell : ServerControl C → ServerControl C
    farewell s = record s { conn = (send sg_closed s.conn).1; stopped = true }

    -- `left` is the reader after an error of a read.
    module _ (on_message : OnMessage C) (left : Reader) where
      unfoldable pub handle : Event → ServerControl C → ServerControl C
      handle cancelled s = if s.stopped then s else farewell s
      handle request s = if s.stopped then s else emit sg_chan s
      handle tick s = if s.stopped then s else emit sg_hb s
      handle (message b at) s =
          if s.stopped || is_done s.reader
          then s
          else on_message b at (record s { reader = after_message s.reader })
      handle read_failed s = on_read_error left s.reader s

      unfoldable pub run : List Event → ServerControl C → ServerControl C
      run [] s = s
      run (e ∷ es) s = run es (handle e s)

  -- tcp.go
  unfoldable pub tcp_on_message : OnMessage C
  tcp_on_message b at s =
      if b == sg_closed
      then give_up s
      else if b == sg_rtt
      then record s { rtt = at - s.rtt_sent_at; rtt_sent_at = at }
      else s

  -- tcpmux.go: the goroutine reads one byte and ends, and after an error it has read none
  unfoldable pub tcpmux_on_message : OnMessage C
  tcpmux_on_message b at s =
      let t = record s { reader = reader_done } in if b == sg_closed then give_up t else t

  -- ws.go and wsmux.go
  unfoldable pub ws_on_message : OnMessage C
  ws_on_message b at s = if b == sg_hb then s else if b == sg_closed then give_up s else give_up s

  -- udp.go: the start of the measurement is not moved
  unfoldable pub udp_on_message : OnMessage C
  udp_on_message b at s =
      if b == sg_closed
      then give_up s
      else if b == sg_rtt
      then record s { rtt = at - s.rtt_sent_at }
      else s

-- The handlers: what they do before the loop, and the loop. `at` is when the handler starts.
unfoldable pub tcp_server_handler : ℕ → List Event → ServerControl Conn → ServerControl Conn
tcp_server_handler at es s =
    run send_signal tcp_on_message reader_failed es
      (emit send_signal sg_rtt (record s { rtt_sent_at = at }))

unfoldable pub udp_server_handler : ℕ → List Event → ServerControl Conn → ServerControl Conn
udp_server_handler at es s =
    run send_signal udp_on_message reader_failed es
      (emit send_signal sg_rtt (record s { rtt_sent_at = at }))

unfoldable pub tcpmux_server_handler : List Event → ServerControl Conn → ServerControl Conn
tcpmux_server_handler = run send_signal tcpmux_on_message reader_done

-- `WriteMessage` of the websocket library, with a message of one byte, is a parameter.
unfoldable pub ws_server_handler :
    {C : Type 0} → Sender C → List Event → ServerControl C → ServerControl C
ws_server_handler write_message = run write_message ws_on_message reader_failed

unfoldable pub wsmux_server_handler :
    {C : Type 0} → Sender C → List Event → ServerControl C → ServerControl C
wsmux_server_handler write_message = run write_message ws_on_message reader_failed
