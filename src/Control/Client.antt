-- ===== src/Control/Client.antt =====
-- `channelHandler` of internal/client/transport/{tcp,tcpmux,ws,wsmux,udp}.go.
use ttest.Prelude.{ℕ, ◌+◌, ◌-◌, ◌%◌, ◌^◌, Bool, true, false, List, [], ◌∷◌, ◌==◌, if◌then◌else◌}
use ttest.Wire.Signals.{sg_hb, sg_chan, sg_closed, sg_rtt}
use ttest.Wire.Conn.{Conn}
use ttest.Control.Server.{Sender, send_signal}

pub data ClientEvent : Type 0 where
  cancelled : ClientEvent  -- <-c.ctx.Done()
  message : ℕ → ClientEvent  -- <-msgChan
  read_failed : ClientEvent  -- the goroutine that reads got an error

pub record ClientControl (C : Type 0) : Type 0 where
  pub conn : C
  pub restarts : ℕ
  pub stopped : Bool
  pub reading : Bool
  pub load_connections : ℕ  -- int32, as a bit pattern
  pub control_flow : ℕ  -- signals waiting in the channel
  pub dials : ℕ  -- goroutines that run `tunnelDialer`

module _ {C : Type 0} where
  abbrev pub give_up : ClientControl C → ClientControl C
  give_up c = record c { restarts = c.restarts + 1; stopped = true }

  -- `case <-c.controlFlow` or the default, which dials
  abbrev pub take_or_dial : ClientControl C → ClientControl C
  take_or_dial c =
      if c.control_flow == 0
      then record c { dials = c.dials + 1 }
      else record c { control_flow = c.control_flow - 1 }

  abbrev pub on_chan : ClientControl C → ClientControl C
  on_chan c = take_or_dial (record c { load_connections = (c.load_connections + 1) % 2 ^ 32 })

  abbrev pub replied : ClientControl C → Bool × C → ClientControl C
  replied c (true, d) = record c { conn = d }
  replied c (false, d) = give_up (record c { conn = d })

  module _ (send : Sender C) where
    -- tcp.go: the result of the answer is ignored
    unfoldable pub tcp_on_signal : ℕ → ClientControl C → ClientControl C
    tcp_on_signal b c =
        if b == sg_chan
        then on_chan c
        else if b == sg_hb
        then c
        else if b == sg_closed
        then give_up c
        else if b == sg_rtt
        then record c { conn = (send sg_rtt c.conn).1 }
        else give_up c

    unfoldable pub tcpmux_on_signal : ℕ → ClientControl C → ClientControl C
    tcpmux_on_signal b c =
        if b == sg_chan
        then on_chan c
        else if b == sg_hb
        then c
        else if b == sg_closed
        then give_up c
        else give_up c

    -- ws.go and wsmux.go: a heartbeat is sent back
    unfoldable pub ws_on_signal : ℕ → ClientControl C → ClientControl C
    ws_on_signal b c =
        if b == sg_chan
        then on_chan c
        else if b == sg_hb
        then replied c (send sg_hb c.conn)
        else if b == sg_closed
        then give_up c
        else give_up c

    unfoldable pub udp_on_signal : ℕ → ClientControl C → ClientControl C
    udp_on_signal b c =
        if b == sg_chan
        then on_chan c
        else if b == sg_hb
        then c
        else if b == sg_closed
        then give_up c
        else if b == sg_rtt
        then replied c (send sg_rtt c.conn)
        else give_up c

    module _ (on_signal : ℕ → ClientControl C → ClientControl C) where
      unfoldable pub handle : ClientEvent → ClientControl C → ClientControl C
      handle cancelled c =
          if c.stopped then c else record c { conn = (send sg_closed c.conn).1; stopped = true }
      handle (message b) c = if c.stopped then c else on_signal b c
      handle read_failed c =
          if c.reading then record c { restarts = c.restarts + 1; reading = false } else c

      unfoldable pub run : List ClientEvent → ClientControl C → ClientControl C
      run [] c = c
      run (e ∷ es) c = run es (handle e c)

unfoldable pub tcp_client_handler : List ClientEvent → ClientControl Conn → ClientControl Conn
tcp_client_handler = run send_signal (tcp_on_signal send_signal)

unfoldable pub tcpmux_client_handler : List ClientEvent → ClientControl Conn → ClientControl Conn
tcpmux_client_handler = run send_signal (tcpmux_on_signal send_signal)

unfoldable pub udp_client_handler : List ClientEvent → ClientControl Conn → ClientControl Conn
udp_client_handler = run send_signal (udp_on_signal send_signal)

unfoldable pub ws_client_handler :
    {C : Type 0} → Sender C → List ClientEvent → ClientControl C → ClientControl C
ws_client_handler write_message = run write_message (ws_on_signal write_message)

unfoldable pub wsmux_client_handler :
    {C : Type 0} → Sender C → List ClientEvent → ClientControl C → ClientControl C
wsmux_client_handler write_message = run write_message (ws_on_signal write_message)
