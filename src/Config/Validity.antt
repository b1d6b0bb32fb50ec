-- ===== src/Config/Validity.antt =====
-- The settings that the rest of the program relies on, and that the defaults establish.
use ttest.Prelude.{ℕ, ◌≡◌, ◌≢◌, refl, Bool, true, false, ◌⊎◌, [], Bytes, arith}
use ttest.Prelude.Int.{ℤ, pos}
use ttest.Config.Settings.{ServerConfig, ClientConfig, Config}
use ttest.Config.Defaults.{
  not_positive, or_default, or_mux_version, or_text, default_token, default_log_level,
  default_sniffer_log, or_level, default_server, default_client, apply_defaults, config_defaults,
}

abbrev pub Positive : ℤ → Type 0
Positive x = not_positive x ≡ false

abbrev pub IsMuxVersion : ℤ → Type 0
IsMuxVersion x = (x ≡ pos 1) ⊎ (x ≡ pos 2)

module _ (parses_level : Bytes → Bool) where
  pub record IsValidServer (s : ServerConfig) : Type 0 where
    pub has_token : s.token ≢ []
    pub channel_size_positive : Positive s.channel_size
    pub log_level_known : parses_level s.log_level ≡ true
    pub mux_session_positive : Positive s.mux_session
    pub keepalive_positive : Positive s.keepalive
    pub mux_version_known : IsMuxVersion s.mux_version
    pub max_frame_size_positive : Positive s.max_frame_size
    pub max_receive_buffer_positive : Positive s.max_receive_buffer
    pub max_stream_buffer_positive : Positive s.max_stream_buffer
    pub has_sniffer_log : s.sniffer_log ≢ []
    pub heartbeat_positive : Positive s.heartbeat
    pub mux_con_positive : Positive s.mux_con

  pub record IsValidClient (c : ClientConfig) : Type 0 where
    pub has_token : c.token ≢ []
    pub log_level_known : parses_level c.log_level ≡ true
    pub retry_interval_positive : Positive c.retry_interval
    pub connection_pool_positive : Positive c.connection_pool
    pub mux_session_positive : Positive c.mux_session
    pub keepalive_positive : Positive c.keepalive
    pub mux_version_known : IsMuxVersion c.mux_version
    pub max_frame_size_positive : Positive c.max_frame_size
    pub max_receive_buffer_positive : Positive c.max_receive_buffer
    pub max_stream_buffer_positive : Positive c.max_stream_buffer
    pub has_sniffer_log : c.sniffer_log ≢ []
    pub dial_timeout_positive : Positive c.dial_timeout

  pub record IsValid (cfg : Config) : Type 0 where
    pub server_valid : IsValidServer cfg.server
    pub client_valid : IsValidClient cfg.client

or_default-Positive : (x : ℤ) (d : ℕ) → not_positive (pos d) ≡ false → Positive (or_default x d)
unfolding or_default
or_default-Positive x d h = ground arith

or_default-fixed : (x : ℤ) (d : ℕ) → Positive x → or_default x d ≡ x
unfolding or_default
or_default-fixed x d h = rw h

or_mux_version-known : (x : ℤ) → IsMuxVersion (or_mux_version x)
unfolding or_mux_version
or_mux_version-known x = ground arith

or_mux_version-fixed : (x : ℤ) → IsMuxVersion x → or_mux_version x ≡ x
unfolding or_mux_version
or_mux_version-fixed x h = ground arith

or_text-nonempty : (t d : Bytes) → d ≢ [] → or_text t d ≢ []
unfolding or_text
or_text-nonempty t d h = ground arith

or_text-fixed : (t d : Bytes) → t ≢ [] → or_text t d ≡ t
unfolding or_text
or_text-fixed t d h = ground arith

module _ (parses_level : Bytes → Bool) (info_level : parses_level default_log_level ≡ true) where
  or_level-known : (t : Bytes) → parses_level (or_level parses_level t) ≡ true
  unfolding or_level
  or_level-known t = ground arith

  default_server-IsValid :
      (s : ServerConfig) → IsValidServer parses_level (default_server parses_level s)
  unfolding default_server
  default_server-IsValid s = record {
    has_token = or_text-nonempty s.token default_token (λ e. cc);
    channel_size_positive = or_default-Positive s.channel_size _ refl;
    log_level_known = or_level-known s.log_level;
    mux_session_positive = or_default-Positive s.mux_session _ refl;
    keepalive_positive = or_default-Positive s.keepalive _ refl;
    mux_version_known = or_mux_version-known s.mux_version;
    max_frame_size_positive = or_default-Positive s.max_frame_size _ refl;
    max_receive_buffer_positive = or_default-Positive s.max_receive_buffer _ refl;
    max_stream_buffer_positive = or_default-Positive s.max_stream_buffer _ refl;
    has_sniffer_log = or_text-nonempty s.sniffer_log default_sniffer_log (λ e. cc);
    heartbeat_positive = or_default-Positive s.heartbeat _ refl;
    mux_con_positive = or_default-Positive s.mux_con _ refl;
  }

  default_client-IsValid :
      (c : ClientConfig) → IsValidClient parses_level (default_client parses_level c)
  unfolding default_client
  default_client-IsValid c = record {
    has_token = or_text-nonempty c.token default_token (λ e. cc);
    log_level_known = or_level-known c.log_level;
    retry_interval_positive = or_default-Positive c.retry_interval _ refl;
    connection_pool_positive = or_default-Positive c.connection_pool _ refl;
    mux_session_positive = or_default-Positive c.mux_session _ refl;
    keepalive_positive = or_default-Positive c.keepalive _ refl;
    mux_version_known = or_mux_version-known c.mux_version;
    max_frame_size_positive = or_default-Positive c.max_frame_size _ refl;
    max_receive_buffer_positive = or_default-Positive c.max_receive_buffer _ refl;
    max_stream_buffer_positive = or_default-Positive c.max_stream_buffer _ refl;
    has_sniffer_log = or_text-nonempty c.sniffer_log default_sniffer_log (λ e. cc);
    dial_timeout_positive = or_default-Positive c.dial_timeout _ refl;
  }

  -- Whatever the configuration file says, if `info` is a log level: after the defaults every number
  -- that must be positive is, the version of the multiplexer is 1 or 2, and the token, the log
  -- level and the name of the traffic log are usable.
  pub apply_defaults-IsValid :
      (cfg : Config) → IsValid parses_level (apply_defaults parses_level cfg)
  apply_defaults-IsValid cfg =
      unfold apply_defaults in
      record {
        server_valid = default_server-IsValid cfg.server;
        client_valid = default_client-IsValid cfg.client;
      }

or_level-fixed :
    (parses_level : Bytes → Bool) (t : Bytes) → parses_level t ≡ true → or_level parses_level t ≡ t
unfolding or_level
or_level-fixed parses_level t h = rw h

default_server-fixed :
    (parses_level : Bytes → Bool) (s : ServerConfig)
    → IsValidServer parses_level s
    → default_server parses_level s ≡ s
unfolding default_server
default_server-fixed parses_level s v = rw (
  or_text-fixed s.token _ v.has_token,
  or_text-fixed s.sniffer_log _ v.has_sniffer_log,
  or_level-fixed parses_level _ v.log_level_known,
  or_default-fixed s.channel_size _ v.channel_size_positive,
  or_default-fixed s.mux_session _ v.mux_session_positive,
  or_default-fixed s.keepalive _ v.keepalive_positive,
  or_mux_version-fixed s.mux_version v.mux_version_known,
  or_default-fixed s.max_frame_size _ v.max_frame_size_positive,
  or_default-fixed s.max_receive_buffer _ v.max_receive_buffer_positive,
  or_default-fixed s.max_stream_buffer _ v.max_stream_buffer_positive,
  or_default-fixed s.heartbeat _ v.heartbeat_positive,
  or_default-fixed s.mux_con _ v.mux_con_positive,
)

default_client-fixed :
    (parses_level : Bytes → Bool) (c : ClientConfig)
    → IsValidClient parses_level c
    → default_client parses_level c ≡ c
unfolding default_client
default_client-fixed parses_level c v = rw (
  or_text-fixed c.token _ v.has_token,
  or_text-fixed c.sniffer_log _ v.has_sniffer_log,
  or_level-fixed parses_level _ v.log_level_known,
  or_default-fixed c.retry_interval _ v.retry_interval_positive,
  or_default-fixed c.connection_pool _ v.connection_pool_positive,
  or_default-fixed c.mux_session _ v.mux_session_positive,
  or_default-fixed c.keepalive _ v.keepalive_positive,
  or_mux_version-fixed c.mux_version v.mux_version_known,
  or_default-fixed c.max_frame_size _ v.max_frame_size_positive,
  or_default-fixed c.max_receive_buffer _ v.max_receive_buffer_positive,
  or_default-fixed c.max_stream_buffer _ v.max_stream_buffer_positive,
  or_default-fixed c.dial_timeout _ v.dial_timeout_positive,
)

-- A configuration that is usable already is left as it is.
apply_defaults-fixed :
    (parses_level : Bytes → Bool) (cfg : Config)
    → IsValid parses_level cfg
    → apply_defaults parses_level cfg ≡ cfg
unfolding apply_defaults
apply_defaults-fixed parses_level cfg v = rw (
  default_server-fixed parses_level cfg.server v.server_valid,
  default_client-fixed parses_level cfg.client v.client_valid,
)

mux_version-Positive : (x : ℤ) → IsMuxVersion x → Positive x
mux_version-Positive x h = ground arith

-- On a usable configuration, which is what `applyDefaults` leaves, the method `ApplyDefaults` of
-- `Config` changes nothing.
config_defaults-fixed :
    (parses_level : Bytes → Bool) (cfg : Config)
    → IsValid parses_level cfg
    → config_defaults cfg ≡ cfg
unfolding config_defaults
config_defaults-fixed parses_level cfg v =
    let s = cfg.server in
    let c = cfg.client in
    let vs = v.server_valid in
    let vc = v.client_valid in
    rw (
      or_default-fixed s.keepalive _ vs.keepalive_positive,
      or_default-fixed s.mux_version _ (mux_version-Positive _ vs.mux_version_known),
      or_default-fixed s.max_frame_size _ vs.max_frame_size_positive,
      or_default-fixed s.max_receive_buffer _ vs.max_receive_buffer_positive,
      or_default-fixed s.max_stream_buffer _ vs.max_stream_buffer_positive,
      or_default-fixed c.keepalive _ vc.keepalive_positive,
      or_default-fixed c.retry_interval _ vc.retry_interval_positive,
      or_default-fixed c.dial_timeout _ vc.dial_timeout_positive,
      or_default-fixed c.mux_version _ (mux_version-Positive _ vc.mux_version_known),
      or_default-fixed c.max_frame_size _ vc.max_frame_size_positive,
      or_default-fixed c.max_receive_buffer _ vc.max_receive_buffer_positive,
      or_default-fixed c.max_stream_buffer _ vc.max_stream_buffer_positive,
      or_default-fixed c.connection_pool _ vc.connection_pool_positive,
    )
