-- ===== src/Config/Defaults.antt =====
-- The two functions that fill in defaults: `applyDefaults` of cmd/defaults.go, which runs, and the
-- method `ApplyDefaults` of internal/config/config.go, which nothing calls. Each assignment reads
-- and writes a field of its own, so the order of the assignments does not matter.
use ttest.Prelude.{ℕ, zero, suc, ◌*◌, Bool, true, false, ◌||◌, [], Bytes, codes, if◌then◌else◌, ltb}
use ttest.Prelude.Int.{ℤ, pos, negsuc}
use ttest.Config.Settings.{ServerConfig, ClientConfig, Config}

-- x <= 0, which is also x < 1
abbrev pub not_positive : ℤ → Bool
not_positive (pos zero) = true
not_positive (pos (suc n)) = false
not_positive (negsuc n) = true

unfoldable pub or_default : ℤ → ℕ → ℤ
or_default x d = if not_positive x then pos d else x

-- x > 2
abbrev pub above_two : ℤ → Bool
above_two (pos n) = ltb 2 n
above_two (negsuc n) = false

unfoldable pub or_mux_version : ℤ → ℤ
or_mux_version x = if not_positive x || above_two x then pos 1 else x

unfoldable pub or_text : Bytes → Bytes → Bytes
or_text [] d = d
or_text t d = t

abbrev pub default_token : Bytes
default_token = codes "musix"

abbrev pub default_log_level : Bytes
default_log_level = codes "info"

abbrev pub default_sniffer_log : Bytes
default_sniffer_log = codes "backhaul.json"

-- `logrus.ParseLevel` succeeds on the texts that `parses_level` accepts.
module _ (parses_level : Bytes → Bool) where
  unfoldable pub or_level : Bytes → Bytes
  or_level t = if parses_level t then t else default_log_level

  unfoldable pub default_server : ServerConfig → ServerConfig
  default_server s = record s {
    token = or_text s.token default_token;
    channel_size = or_default s.channel_size 2048;
    log_level = or_level s.log_level;
    mux_session = or_default s.mux_session 1;
    keepalive = or_default s.keepalive 75;
    mux_version = or_mux_version s.mux_version;
    max_frame_size = or_default s.max_frame_size 32768;
    max_receive_buffer = or_default s.max_receive_buffer 4194304;
    max_stream_buffer = or_default s.max_stream_buffer 65536;
    sniffer_log = or_text s.sniffer_log default_sniffer_log;
    heartbeat = or_default s.heartbeat 40;
    mux_con = or_default s.mux_con 8;
  }

  unfoldable pub default_client : ClientConfig → ClientConfig
  default_client c = record c {
    token = or_text c.token default_token;
    log_level = or_level c.log_level;
    retry_interval = or_default c.retry_interval 3;
    connection_pool = or_default c.connection_pool 8;
    mux_session = or_default c.mux_session 1;
    keepalive = or_default c.keepalive 75;
    mux_version = or_mux_version c.mux_version;
    max_frame_size = or_default c.max_frame_size 32768;
    max_receive_buffer = or_default c.max_receive_buffer 4194304;
    max_stream_buffer = or_default c.max_stream_buffer 65536;
    sniffer_log = or_text c.sniffer_log default_sniffer_log;
    dial_timeout = or_default c.dial_timeout 10;
  }

  unfoldable pub apply_defaults : Config → Config
  unfolding default_server default_client
  apply_defaults cfg = record {
    server = default_server cfg.server;
    client = default_client cfg.client;
  }

-- The method of `Config`.
unfoldable pub config_defaults : Config → Config
config_defaults cfg =
    let s = cfg.server in
    let c = cfg.client in
    record {
      server = record s {
        keepalive = or_default s.keepalive 60;
        mux_version = or_default s.mux_version 1;
        max_frame_size = or_default s.max_frame_size (64 * 1024);
        max_receive_buffer = or_default s.max_receive_buffer (1024 * 1024);
        max_stream_buffer = or_default s.max_stream_buffer (128 * 1024);
      };
      client = record c {
        keepalive = or_default c.keepalive 60;
        retry_interval = or_default c.retry_interval 5;
        dial_timeout = or_default c.dial_timeout 10;
        mux_version = or_default c.mux_version 1;
        max_frame_size = or_default c.max_frame_size (64 * 1024);
        max_receive_buffer = or_default c.max_receive_buffer (1024 * 1024);
        max_stream_buffer = or_default c.max_stream_buffer (128 * 1024);
        connection_pool = or_default c.connection_pool 4;
      };
    }
