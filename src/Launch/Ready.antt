-- ===== src/Launch/Ready.antt =====
-- What is started from a configuration file can work with its settings.
use ttest.Prelude.{
  ℕ, zero, suc, ◌≤◌, ◌≡◌, ◌≢◌, refl, Bool, true, ◌||◌, ◌⊎◌, inl, inr, [], ◌∷◌, some, Bytes, arith,
  text_eq, codes, subst, sym, ap, ◌∙◌,
}
use ttest.Prelude.Int.{ℤ, pos, negsuc}
use ttest.Config.Settings.{
  ServerConfig, ClientConfig, Config, tcp, tcpmux, ws, wss, wsmux, wssmux, quic, udp,
}
use ttest.Config.Defaults.{apply_defaults, default_server, default_client, or_default}
use ttest.Config.Validity.{
  Positive, IsMuxVersion, IsValid, IsValidServer, IsValidClient, apply_defaults-IsValid,
}
use ttest.Launch.Seconds.{AtMost, max_seconds, seconds-Positive}
use ttest.Launch.Server
use ttest.Launch.Client
use ttest.Launch.Run.{
  Running, server_running, client_running, load_failed, nothing_set, run, choose, server_or_client,
  client_or_none,
}

abbrev pub is_known : Bytes → Bool
is_known t =
    text_eq t tcp
    || (text_eq t tcpmux
        || (text_eq t ws
            || (text_eq t wss
                || (text_eq t wsmux || (text_eq t wssmux || (text_eq t quic || text_eq t udp))))))

-- A ticker does not panic, a channel has room, and a session of a multiplexer can be made.
abbrev pub IsServerReady : Server.Started → Type 0
IsServerReady (Server.tcp_started t) =
    Positive t.keepalive × Positive t.heartbeat × Positive t.channel_size × (t.token ≢ [])
IsServerReady (Server.tcpmux_started t) =
    Positive t.keepalive
    × Positive t.heartbeat
    × Positive t.channel_size
    × (t.token ≢ [])
    × Positive t.mux_con
    × IsMuxVersion t.mux_version
IsServerReady (Server.ws_started t) =
    Positive t.keepalive × Positive t.heartbeat × Positive t.channel_size × (t.token ≢ [])
IsServerReady (Server.wsmux_started t) =
    Positive t.keepalive
    × Positive t.heartbeat
    × Positive t.channel_size
    × (t.token ≢ [])
    × Positive t.mux_con
    × IsMuxVersion t.mux_version
IsServerReady (Server.quic_started t) =
    Positive t.keepalive
    × Positive t.heartbeat
    × Positive t.channel_size
    × (t.token ≢ [])
    × Positive t.mux_con
IsServerReady (Server.udp_started t) =
    Positive t.heartbeat × Positive t.channel_size × (t.token ≢ [])
IsServerReady (Server.invalid_transport t) = ⊥

server_start-Ready :
    (parses_level : Bytes → Bool) (s : ServerConfig)
    → IsValidServer parses_level s
    → is_known s.transport ≡ true
    → AtMost max_seconds s.keepalive
    → AtMost max_seconds s.heartbeat
    → IsServerReady (Server.start s)
unfolding Server.start
server_start-Ready parses_level s v k a b =
    ground (arith, v, seconds-Positive s.keepalive, seconds-Positive s.heartbeat)

abbrev pub IsClientReady : Client.Started → Type 0
IsClientReady (Client.tcp_started t) =
    Positive t.keepalive
    × Positive t.retry_interval
    × Positive t.dial_timeout
    × Positive t.conn_pool_size
    × (t.token ≢ [])
IsClientReady (Client.tcpmux_started t) =
    Positive t.keepalive
    × Positive t.retry_interval
    × Positive t.dial_timeout
    × Positive t.conn_pool_size
    × (t.token ≢ [])
    × IsMuxVersion t.mux_version
IsClientReady (Client.ws_started t) =
    Positive t.keepalive
    × Positive t.retry_interval
    × Positive t.dial_timeout
    × Positive t.conn_pool_size
    × (t.token ≢ [])
IsClientReady (Client.wsmux_started t) =
    Positive t.keepalive
    × Positive t.retry_interval
    × Positive t.dial_timeout
    × Positive t.conn_pool_size
    × (t.token ≢ [])
    × IsMuxVersion t.mux_version
IsClientReady (Client.quic_started t) =
    Positive t.keepalive
    × Positive t.retry_interval
    × Positive t.dial_timeout
    × Positive t.connection_pool
    × (t.token ≢ [])
IsClientReady (Client.udp_started t) =
    Positive t.retry_interval × Positive t.dial_timeout × Positive t.conn_pool_size × (t.token ≢ [])
IsClientReady (Client.invalid_transport t) = ⊥

client_start-Ready :
    (parses_level : Bytes → Bool) (c : ClientConfig)
    → IsValidClient parses_level c
    → is_known c.transport ≡ true
    → AtMost max_seconds c.keepalive
    → AtMost max_seconds c.retry_interval
    → AtMost max_seconds c.dial_timeout
    → IsClientReady (Client.start c)
unfolding Client.start
client_start-Ready parses_level c v k a b d = ground (
  arith,
  v,
  seconds-Positive c.keepalive,
  seconds-Positive c.retry_interval,
  seconds-Positive c.dial_timeout,
)

abbrev pub IsReady : Running → Type 0
IsReady (server_running s) = IsServerReady s
IsReady (client_running c) = IsClientReady c
IsReady load_failed = ⊥
IsReady nothing_set = ⊥

-- The side that `Run` takes: the server if it has an address.
abbrev pub chosen_transport : Bytes → Config → Bytes
chosen_transport [] cfg = cfg.client.transport
chosen_transport (_ ∷ _) cfg = cfg.server.transport

-- The numbers of seconds in a configuration that are `Duration`s.
pub record HasDurations (cfg : Config) : Type 0 where
  pub server_keepalive : AtMost max_seconds cfg.server.keepalive
  pub server_heartbeat : AtMost max_seconds cfg.server.heartbeat
  pub client_keepalive : AtMost max_seconds cfg.client.keepalive
  pub client_retry_interval : AtMost max_seconds cfg.client.retry_interval
  pub client_dial_timeout : AtMost max_seconds cfg.client.dial_timeout

or_default-AtMost : (m d : ℕ) (x : ℤ) → d ≤ m → AtMost m x → AtMost m (or_default x d)
unfolding or_default
or_default-AtMost m d (pos zero) h k = h
or_default-AtMost m d (pos (suc n)) h k = k
or_default-AtMost m d (negsuc n) h k = h

choose-IsReady :
    (parses_level : Bytes → Bool) (cfg : Config) (bind remote : Bytes)
    → cfg.server.bind_addr ≡ bind
    → cfg.client.remote_addr ≡ remote
    → (bind ≢ []) ⊎ (remote ≢ [])
    → is_known (chosen_transport bind cfg) ≡ true
    → IsValid parses_level cfg
    → HasDurations cfg
    → IsReady (choose cfg)
choose-IsReady parses_level cfg [] [] e r (inl h) k v d = absurd (h refl)
choose-IsReady parses_level cfg [] [] e r (inr h) k v d = absurd (h refl)
choose-IsReady parses_level cfg [] (x ∷ xs) e r h k v d =
    subst (λ b. IsReady (server_or_client b cfg)) (sym e)
      (subst (λ a. IsReady (client_or_none a cfg.client)) (sym r)
        (client_start-Ready parses_level cfg.client v.client_valid k d.client_keepalive
          d.client_retry_interval d.client_dial_timeout))
choose-IsReady parses_level cfg (b ∷ bs) remote e r h k v d =
    subst (λ a. IsReady (server_or_client a cfg)) (sym e)
      (server_start-Ready parses_level cfg.server v.server_valid k d.server_keepalive
        d.server_heartbeat)

module _ (parses_level : Bytes → Bool) (info_level : parses_level (codes "info") ≡ true) where
  defaults-HasDurations :
      (cfg : Config) → HasDurations cfg → HasDurations (apply_defaults parses_level cfg)
  unfolding apply_defaults default_server default_client
  defaults-HasDurations cfg d = record {
    server_keepalive = or_default-AtMost _ _ cfg.server.keepalive (omega arith) d.server_keepalive;
    server_heartbeat = or_default-AtMost _ _ cfg.server.heartbeat (omega arith) d.server_heartbeat;
    client_keepalive = or_default-AtMost _ _ cfg.client.keepalive (omega arith) d.client_keepalive;
    client_retry_interval =
        or_default-AtMost _ _ cfg.client.retry_interval (omega arith) d.client_retry_interval;
    client_dial_timeout =
        or_default-AtMost _ _ cfg.client.dial_timeout (omega arith) d.client_dial_timeout;
  }

  defaults-addresses :
      (cfg : Config)
      → ((apply_defaults parses_level cfg).server.bind_addr ≡ cfg.server.bind_addr)
        × ((apply_defaults parses_level cfg).client.remote_addr ≡ cfg.client.remote_addr)
        × ((b : Bytes)
            → chosen_transport b (apply_defaults parses_level cfg) ≡ chosen_transport b cfg)
  unfolding apply_defaults default_server default_client
  defaults-addresses cfg = (
    refl,
    refl,
    λ b.
        elim b
          as (λ k. chosen_transport k (apply_defaults parses_level cfg) ≡ chosen_transport k cfg) [
            | [] ↦ refl
            | x ∷ xs ↦ refl
          ],
  )

  -- Whatever else a configuration file says, a side with an address and one of the eight transports is
  -- started, if its numbers of seconds are at most 9223372036 and `info` is a log level: the server if
  -- it has an address, else the client. Its tickers have a positive period, its channels have room, its
  -- pool is not empty, its token is not empty, and its multiplexer has version 1 or 2.
  pub run-IsReady :
      (cfg : Config)
      → (cfg.server.bind_addr ≢ []) ⊎ (cfg.client.remote_addr ≢ [])
      → is_known (chosen_transport cfg.server.bind_addr cfg) ≡ true
      → HasDurations cfg
      → IsReady (run parses_level (some cfg))
  unfolding run
  run-IsReady cfg a k d =
      let (eb, er, et) = defaults-addresses cfg in
      choose-IsReady parses_level (apply_defaults parses_level cfg) cfg.server.bind_addr
        cfg.client.remote_addr eb er a (ap is_known (et cfg.server.bind_addr) ∙ k)
        (apply_defaults-IsValid parses_level info_level cfg) (defaults-HasDurations cfg d)
