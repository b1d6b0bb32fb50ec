-- ===== src/Config/Samples.antt =====
-- A configuration that leaves most settings out, for the tests.
use ttest.Prelude.{Bool, true, false, [], ◌∷◌, Bytes, codes, text_eq, ◌≡◌, refl}
use ttest.Prelude.Int.{pos, negsuc}
use ttest.Config.Settings.{ServerConfig, ClientConfig, Config}

-- A logger that knows one level.
abbrev pub parses_level : Bytes → Bool
parses_level t = text_eq t (codes "info")

pub info-parses : parses_level (codes "info") ≡ true
unfolding text_eq
info-parses = refl

abbrev pub sparse_server : ServerConfig
sparse_server = record {
  bind_addr = codes ":3080";
  transport = codes "tcp";
  token = [];
  nodelay = true;
  keepalive = pos 20;
  channel_size = pos 0;
  log_level = codes "loud";
  ports = codes "80" ∷ [];
  pprof = false;
  mux_session = pos 0;
  mux_version = pos 3;
  max_frame_size = negsuc 4;
  max_receive_buffer = pos 0;
  max_stream_buffer = pos 0;
  sniffer = false;
  web_port = pos 0;
  sniffer_log = [];
  tls_cert_file = [];
  tls_key_file = [];
  heartbeat = pos 0;
  mux_con = pos 0;
  accept_udp = false;
}

abbrev pub sparse_client : ClientConfig
sparse_client = record {
  remote_addr = codes "10.0.0.1:3080";
  transport = codes "tcp";
  token = [];
  connection_pool = pos 0;
  retry_interval = pos 0;
  nodelay = true;
  keepalive = pos 0;
  log_level = [];
  pprof = false;
  mux_session = pos 0;
  mux_version = pos 2;
  max_frame_size = pos 0;
  max_receive_buffer = pos 0;
  max_stream_buffer = pos 0;
  sniffer = false;
  web_port = pos 0;
  sniffer_log = [];
  dial_timeout = pos 0;
  aggressive_pool = false;
  edge_ip = [];
}

abbrev pub sparse : Config
sparse = record { server = sparse_server; client = sparse_client }
