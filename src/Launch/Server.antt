-- ===== src/Launch/Server.antt =====
-- `Start` of internal/server/server.go, with the settings of the transports in internal/server/transport. Of
-- `Start` only the choice of the transport and its settings are modelled. A field that the code
-- leaves out has its zero value.
use ttest.Prelude.{Bool, ◌||◌, List, [], Bytes, text_eq, if◌then◌else◌}
use ttest.Prelude.Int.{ℤ}
use ttest.Config.Settings.{ServerConfig, tcp, tcpmux, ws, wss, wsmux, wssmux, quic, udp}
use ttest.Launch.Seconds.{seconds}

pub record TcpConfig : Type 0 where
  pub bind_addr : Bytes
  pub token : Bytes
  pub sniffer_log : Bytes
  pub tunnel_status : Bytes
  pub ports : List Bytes
  pub nodelay : Bool
  pub sniffer : Bool
  pub keepalive : ℤ
  pub heartbeat : ℤ
  pub channel_size : ℤ
  pub web_port : ℤ
  pub accept_udp : Bool

pub record TcpMuxConfig : Type 0 where
  pub bind_addr : Bytes
  pub tunnel_status : Bytes
  pub sniffer_log : Bytes
  pub token : Bytes
  pub ports : List Bytes
  pub nodelay : Bool
  pub sniffer : Bool
  pub channel_size : ℤ
  pub mux_con : ℤ
  pub mux_version : ℤ
  pub max_frame_size : ℤ
  pub max_receive_buffer : ℤ
  pub max_stream_buffer : ℤ
  pub web_port : ℤ
  pub keepalive : ℤ
  pub heartbeat : ℤ

pub record WsConfig : Type 0 where
  pub bind_addr : Bytes
  pub sniffer_log : Bytes
  pub tls_cert_file : Bytes
  pub tls_key_file : Bytes
  pub tunnel_status : Bytes
  pub token : Bytes
  pub ports : List Bytes
  pub nodelay : Bool
  pub sniffer : Bool
  pub keepalive : ℤ
  pub heartbeat : ℤ
  pub channel_size : ℤ
  pub web_port : ℤ
  pub mode : Bytes

pub record WsMuxConfig : Type 0 where
  pub bind_addr : Bytes
  pub token : Bytes
  pub sniffer_log : Bytes
  pub tls_cert_file : Bytes
  pub tls_key_file : Bytes
  pub tunnel_status : Bytes
  pub ports : List Bytes
  pub nodelay : Bool
  pub sniffer : Bool
  pub keepalive : ℤ
  pub heartbeat : ℤ
  pub channel_size : ℤ
  pub mux_con : ℤ
  pub mux_version : ℤ
  pub max_frame_size : ℤ
  pub max_receive_buffer : ℤ
  pub max_stream_buffer : ℤ
  pub web_port : ℤ
  pub mode : Bytes

pub record QuicConfig : Type 0 where
  pub bind_addr : Bytes
  pub tunnel_status : Bytes
  pub sniffer_log : Bytes
  pub token : Bytes
  pub ports : List Bytes
  pub nodelay : Bool
  pub sniffer : Bool
  pub channel_size : ℤ
  pub mux_con : ℤ
  pub web_port : ℤ
  pub keepalive : ℤ
  pub heartbeat : ℤ
  pub tls_cert_file : Bytes
  pub tls_key_file : Bytes

pub record UdpConfig : Type 0 where
  pub bind_addr : Bytes
  pub token : Bytes
  pub sniffer_log : Bytes
  pub tunnel_status : Bytes
  pub ports : List Bytes
  pub sniffer : Bool
  pub heartbeat : ℤ
  pub channel_size : ℤ
  pub web_port : ℤ

abbrev pub tcp_config : ServerConfig → TcpConfig
tcp_config c = record {
  bind_addr = c.bind_addr;
  token = c.token;
  sniffer_log = c.sniffer_log;
  tunnel_status = [];
  ports = c.ports;
  nodelay = c.nodelay;
  sniffer = c.sniffer;
  keepalive = seconds c.keepalive;
  heartbeat = seconds c.heartbeat;
  channel_size = c.channel_size;
  web_port = c.web_port;
  accept_udp = c.accept_udp;
}

abbrev pub tcpmux_config : ServerConfig → TcpMuxConfig
tcpmux_config c = record {
  bind_addr = c.bind_addr;
  tunnel_status = [];
  sniffer_log = c.sniffer_log;
  token = c.token;
  ports = c.ports;
  nodelay = c.nodelay;
  sniffer = c.sniffer;
  channel_size = c.channel_size;
  mux_con = c.mux_con;
  mux_version = c.mux_version;
  max_frame_size = c.max_frame_size;
  max_receive_buffer = c.max_receive_buffer;
  max_stream_buffer = c.max_stream_buffer;
  web_port = c.web_port;
  keepalive = seconds c.keepalive;
  heartbeat = seconds c.heartbeat;
}

abbrev pub ws_config : ServerConfig → WsConfig
ws_config c = record {
  bind_addr = c.bind_addr;
  sniffer_log = c.sniffer_log;
  tls_cert_file = c.tls_cert_file;
  tls_key_file = c.tls_key_file;
  tunnel_status = [];
  token = c.token;
  ports = c.ports;
  nodelay = c.nodelay;
  sniffer = c.sniffer;
  keepalive = seconds c.keepalive;
  heartbeat = seconds c.heartbeat;
  channel_size = c.channel_size;
  web_port = c.web_port;
  mode = c.transport;
}

abbrev pub wsmux_config : ServerConfig → WsMuxConfig
wsmux_config c = record {
  bind_addr = c.bind_addr;
  token = c.token;
  sniffer_log = c.sniffer_log;
  tls_cert_file = c.tls_cert_file;
  tls_key_file = c.tls_key_file;
  tunnel_status = [];
  ports = c.ports;
  nodelay = c.nodelay;
  sniffer = c.sniffer;
  keepalive = seconds c.keepalive;
  heartbeat = seconds c.heartbeat;
  channel_size = c.channel_size;
  mux_con = c.mux_con;
  mux_version = c.mux_version;
  max_frame_size = c.max_frame_size;
  max_receive_buffer = c.max_receive_buffer;
  max_stream_buffer = c.max_stream_buffer;
  web_port = c.web_port;
  mode = c.transport;
}

abbrev pub quic_config : ServerConfig → QuicConfig
quic_config c = record {
  bind_addr = c.bind_addr;
  tunnel_status = [];
  sniffer_log = c.sniffer_log;
  token = c.token;
  ports = c.ports;
  nodelay = c.nodelay;
  sniffer = c.sniffer;
  channel_size = c.channel_size;
  mux_con = c.mux_con;
  web_port = c.web_port;
  keepalive = seconds c.keepalive;
  heartbeat = seconds c.heartbeat;
  tls_cert_file = c.tls_cert_file;
  tls_key_file = c.tls_key_file;
}

abbrev pub udp_config : ServerConfig → UdpConfig
udp_config c = record {
  bind_addr = c.bind_addr;
  token = c.token;
  sniffer_log = c.sniffer_log;
  tunnel_status = [];
  ports = c.ports;
  sniffer = c.sniffer;
  heartbeat = seconds c.heartbeat;
  channel_size = c.channel_size;
  web_port = c.web_port;
}

-- The transport that is started, or the message of `Fatal`.
pub data Started : Type 0 where
  tcp_started : TcpConfig → Started
  tcpmux_started : TcpMuxConfig → Started
  ws_started : WsConfig → Started
  wsmux_started : WsMuxConfig → Started
  quic_started : QuicConfig → Started
  udp_started : UdpConfig → Started
  invalid_transport : Bytes → Started

unfoldable pub start : ServerConfig → Started
start c =
    if text_eq c.transport tcp
    then tcp_started (tcp_config c)
    else if text_eq c.transport tcpmux
    then tcpmux_started (tcpmux_config c)
    else if text_eq c.transport ws || text_eq c.transport wss
    then ws_started (ws_config c)
    else if text_eq c.transport wsmux || text_eq c.transport wssmux
    then wsmux_started (wsmux_config c)
    else if text_eq c.transport quic
    then quic_started (quic_config c)
    else if text_eq c.transport udp
    then udp_started (udp_config c)
    else invalid_transport c.transport
