-- ===== src/Launch/Client.antt =====
-- `Start` of internal/client/client.go, with the settings of the transports in internal/client/transport. Of
-- `Start` only the choice of the transport and its settings are modelled. A field that the code
-- leaves out has its zero value.
use ttest.Prelude.{Bool, ◌||◌, [], Bytes, text_eq, if◌then◌else◌}
use ttest.Prelude.Int.{ℤ, pos}
use ttest.Config.Settings.{ClientConfig, tcp, tcpmux, ws, wss, wsmux, wssmux, quic, udp}
use ttest.Launch.Seconds.{seconds}

pub record TcpConfig : Type 0 where
  pub remote_addr : Bytes
  pub token : Bytes
  pub sniffer_log : Bytes
  pub tunnel_status : Bytes
  pub keepalive : ℤ
  pub retry_interval : ℤ
  pub dial_timeout : ℤ
  pub conn_pool_size : ℤ
  pub web_port : ℤ
  pub nodelay : Bool
  pub sniffer : Bool
  pub aggressive_pool : Bool

pub record TcpMuxConfig : Type 0 where
  pub remote_addr : Bytes
  pub token : Bytes
  pub sniffer_log : Bytes
  pub tunnel_status : Bytes
  pub nodelay : Bool
  pub sniffer : Bool
  pub keepalive : ℤ
  pub retry_interval : ℤ
  pub dial_timeout : ℤ
  pub mux_version : ℤ
  pub max_frame_size : ℤ
  pub max_receive_buffer : ℤ
  pub max_stream_buffer : ℤ
  pub conn_pool_size : ℤ
  pub web_port : ℤ
  pub aggressive_pool : Bool

pub record WsConfig : Type 0 where
  pub remote_addr : Bytes
  pub token : Bytes
  pub sniffer_log : Bytes
  pub tunnel_status : Bytes
  pub nodelay : Bool
  pub sniffer : Bool
  pub keepalive : ℤ
  pub retry_interval : ℤ
  pub dial_timeout : ℤ
  pub conn_pool_size : ℤ
  pub web_port : ℤ
  pub mode : Bytes
  pub aggressive_pool : Bool
  pub edge_ip : Bytes

pub record WsMuxConfig : Type 0 where
  pub remote_addr : Bytes
  pub token : Bytes
  pub sniffer_log : Bytes
  pub tunnel_status : Bytes
  pub nodelay : Bool
  pub sniffer : Bool
  pub keepalive : ℤ
  pub retry_interval : ℤ
  pub dial_timeout : ℤ
  pub mux_version : ℤ
  pub max_frame_size : ℤ
  pub max_receive_buffer : ℤ
  pub max_stream_buffer : ℤ
  pub conn_pool_size : ℤ
  pub web_port : ℤ
  pub mode : Bytes
  pub aggressive_pool : Bool
  pub edge_ip : Bytes

pub record QuicConfig : Type 0 where
  pub remote_addr : Bytes
  pub token : Bytes
  pub sniffer_log : Bytes
  pub tunnel_status : Bytes
  pub nodelay : Bool
  pub sniffer : Bool
  pub keepalive : ℤ
  pub retry_interval : ℤ
  pub dial_timeout : ℤ
  pub mux_version : ℤ
  pub max_frame_size : ℤ
  pub max_receive_buffer : ℤ
  pub max_stream_buffer : ℤ
  pub connection_pool : ℤ
  pub web_port : ℤ
  pub aggressive_pool : Bool

pub record UdpConfig : Type 0 where
  pub remote_addr : Bytes
  pub token : Bytes
  pub sniffer_log : Bytes
  pub tunnel_status : Bytes
  pub retry_interval : ℤ
  pub dial_timeout : ℤ
  pub conn_pool_size : ℤ
  pub web_port : ℤ
  pub sniffer : Bool
  pub aggressive_pool : Bool

abbrev pub tcp_config : ClientConfig → TcpConfig
tcp_config c = record {
  remote_addr = c.remote_addr;
  token = c.token;
  sniffer_log = c.sniffer_log;
  tunnel_status = [];
  keepalive = seconds c.keepalive;
  retry_interval = seconds c.retry_interval;
  dial_timeout = seconds c.dial_timeout;
  conn_pool_size = c.connection_pool;
  web_port = c.web_port;
  nodelay = c.nodelay;
  sniffer = c.sniffer;
  aggressive_pool = c.aggressive_pool;
}

abbrev pub tcpmux_config : ClientConfig → TcpMuxConfig
tcpmux_config c = record {
  remote_addr = c.remote_addr;
  token = c.token;
  sniffer_log = c.sniffer_log;
  tunnel_status = [];
  nodelay = c.nodelay;
  sniffer = c.sniffer;
  keepalive = seconds c.keepalive;
  retry_interval = seconds c.retry_interval;
  dial_timeout = seconds c.dial_timeout;
  mux_version = c.mux_version;
  max_frame_size = c.max_frame_size;
  max_receive_buffer = c.max_receive_buffer;
  max_stream_buffer = c.max_stream_buffer;
  conn_pool_size = c.connection_pool;
  web_port = c.web_port;
  aggressive_pool = c.aggressive_pool;
}

abbrev pub ws_config : ClientConfig → WsConfig
ws_config c = record {
  remote_addr = c.remote_addr;
  token = c.token;
  sniffer_log = c.sniffer_log;
  tunnel_status = [];
  nodelay = c.nodelay;
  sniffer = c.sniffer;
  keepalive = seconds c.keepalive;
  retry_interval = seconds c.retry_interval;
  dial_timeout = seconds c.dial_timeout;
  conn_pool_size = c.connection_pool;
  web_port = c.web_port;
  mode = c.transport;
  aggressive_pool = c.aggressive_pool;
  edge_ip = c.edge_ip;
}

abbrev pub wsmux_config : ClientConfig → WsMuxConfig
wsmux_config c = record {
  remote_addr = c.remote_addr;
  token = c.token;
  sniffer_log = c.sniffer_log;
  tunnel_status = [];
  nodelay = c.nodelay;
  sniffer = c.sniffer;
  keepalive = seconds c.keepalive;
  retry_interval = seconds c.retry_interval;
  dial_timeout = seconds c.dial_timeout;
  mux_version = c.mux_version;
  max_frame_size = c.max_frame_size;
  max_receive_buffer = c.max_receive_buffer;
  max_stream_buffer = c.max_stream_buffer;
  conn_pool_size = c.connection_pool;
  web_port = c.web_port;
  mode = c.transport;
  aggressive_pool = c.aggressive_pool;
  edge_ip = c.edge_ip;
}

abbrev pub quic_config : ClientConfig → QuicConfig
quic_config c = record {
  remote_addr = c.remote_addr;
  token = c.token;
  sniffer_log = c.sniffer_log;
  tunnel_status = [];
  nodelay = c.nodelay;
  sniffer = c.sniffer;
  keepalive = seconds c.keepalive;
  retry_interval = seconds c.retry_interval;
  dial_timeout = seconds c.dial_timeout;
  mux_version = pos 0;
  max_frame_size = pos 0;
  max_receive_buffer = pos 0;
  max_stream_buffer = pos 0;
  connection_pool = c.connection_pool;
  web_port = c.web_port;
  aggressive_pool = c.aggressive_pool;
}

abbrev pub udp_config : ClientConfig → UdpConfig
udp_config c = record {
  remote_addr = c.remote_addr;
  token = c.token;
  sniffer_log = c.sniffer_log;
  tunnel_status = [];
  retry_interval = seconds c.retry_interval;
  dial_timeout = seconds c.dial_timeout;
  conn_pool_size = c.connection_pool;
  web_port = c.web_port;
  sniffer = c.sniffer;
  aggressive_pool = c.aggressive_pool;
}

-- The transport that is started, or the message of `Fatal`.
pub data Started : Type 0 where
  tcp_started : TcpConfig → Started
  tcpmux_started : TcpMuxConfig → Started
  ws_started : WsConfig → Started
  wsmux_started : WsMuxConfig → Started
  quic_started : QuicConfig → Started
  udp_started : UdpConfig → Started
  invalid_transport : Bytes → Started

unfoldable pub start : ClientConfig → Started
start c =
    if text_eq c.transport tcp
    then tcp_started (tcp_config c)
    else if text_eq c.transport tcpmux
    then tcpmux_started (tcpmux_config c)
    else if text_eq c.transport ws || text_eq c.transport wss
    then ws_started (ws_config c)
    else if text_eq c.transport wsmux || text_eq c.transport wssmux
    then wsmux_started (wsmux_config c)
    else if text_eq c.transport quic
    then quic_started (quic_config c)
    else if text_eq c.transport udp
    then udp_started (udp_config c)
    else invalid_transport c.transport
