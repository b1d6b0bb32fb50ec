-- ===== src/Launch/Run.antt =====
-- `Run` of cmd/cmd.go.
use ttest.Prelude.{Bool, [], ◌∷◌, Option, none, some, Bytes}
use ttest.Config.Settings.{ClientConfig, Config}
use ttest.Config.Defaults.{apply_defaults}
use ttest.Launch.Server
use ttest.Launch.Client

-- What runs, or the `Fatalf` that ends the process.
pub data Running : Type 0 where
  server_running : Server.Started → Running
  client_running : Client.Started → Running
  load_failed nothing_set : Running

-- `case cfg.Client.RemoteAddr != ""` and the default
abbrev pub client_or_none : Bytes → ClientConfig → Running
client_or_none [] c = nothing_set
client_or_none (_ ∷ _) c = client_running (Client.start c)

abbrev pub server_or_client : Bytes → Config → Running
server_or_client [] cfg = client_or_none cfg.client.remote_addr cfg.client
server_or_client (_ ∷ _) cfg = server_running (Server.start cfg.server)

abbrev pub choose : Config → Running
choose cfg = server_or_client cfg.server.bind_addr cfg

-- `toml.DecodeFile` gives the configuration, or fails.
module _ (parses_level : Bytes → Bool) where
  unfoldable pub run : Option Config → Running
  run none = load_failed
  run (some cfg) = choose (apply_defaults parses_level cfg)
