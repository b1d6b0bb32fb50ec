-- ===== src/Config/Settings.antt =====
-- internal/config/config.go. A Go `int` is an integer, a Go `string` the list of its bytes.
use ttest.Prelude.{Bool, List, Bytes, codes}
use ttest.Prelude.Int.{ℤ}

-- `TransportType` is a string; these are its constants.
abbrev pub tcp : Bytes
tcp = codes "tcp"

abbrev pub tcpmux : Bytes
tcpmux = codes "tcpmux"

abbrev pub ws : Bytes
ws = codes "ws"

abbrev pub wss : Bytes
wss = codes "wss"

abbrev pub wsmux : Bytes
wsmux = codes "wsmux"

abbrev pub wssmux : Bytes
wssmux = codes "wssmux"

abbrev pub quic : Bytes
quic = codes "quic"

abbrev pub udp : Bytes
udp = codes "udp"

pub record ServerConfig : Type 0 where
  pub bind_addr : Bytes
  pub transport : Bytes
  pub token : Bytes
  pub nodelay : Bool
  pub keepalive : ℤ
  pub channel_size : ℤ
  pub log_level : Bytes
  pub ports : List Bytes
  pub pprof : Bool
  pub mux_session : ℤ
  pub mux_version : ℤ
  pub max_frame_size : ℤ
  pub max_receive_buffer : ℤ
  pub max_stream_buffer : ℤ
  pub sniffer : Bool
  pub web_port : ℤ
  pub sniffer_log : Bytes
  pub tls_cert_file : Bytes
  pub tls_key_file : Bytes
  pub heartbeat : ℤ
  pub mux_con : ℤ
  pub accept_udp : Bool

pub record ClientConfig : Type 0 where
  pub remote_addr : Bytes
  pub transport : Bytes
  pub token : Bytes
  pub connection_pool : ℤ
  pub retry_interval : ℤ
  pub nodelay : Bool
  pub keepalive : ℤ
  pub log_level : Bytes
  pub pprof : Bool
  pub mux_session : ℤ
  pub mux_version : ℤ
  pub max_frame_size : ℤ
  pub max_receive_buffer : ℤ
  pub max_stream_buffer : ℤ
  pub sniffer : Bool
  pub web_port : ℤ
  pub sniffer_log : Bytes
  pub dial_timeout : ℤ
  pub aggressive_pool : Bool
  pub edge_ip : Bytes

pub record Config : Type 0 where
  pub server : ServerConfig
  pub client : ClientConfig
