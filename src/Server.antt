-- ===== src/Server.antt =====
-- src/bin/server.rs: the start of the server up to the loop of axum. The parser of the configuration, the
-- listener of tokio, whether a log file opens and the platform are parameters.
pub mod Started
use pgmoneta_mcp.Prelude.{
  ℕ, ◌≡◌, ◌⊎◌, refl, sym, ap, ◌∙◌, Bool, true, false, Option, none, some, ◌++◌, ◌∷◌, inl, inr,
}
use pgmoneta_mcp.Bytes.{Bytes, codes}
use pgmoneta_mcp.Result.{Result, ok, err, Error, panicked}
use pgmoneta_mcp.Result
use pgmoneta_mcp.Action.{Action, lift, continue, ◌>>=◌, ◌>>◌, >>=-eq-ok, continue-eq-ok}
use pgmoneta_mcp.Utility.{decimal}
use pgmoneta_mcp.Logging.{LogFiles, Platform, Subscriber}
use pgmoneta_mcp.Logging
use pgmoneta_mcp.Configuration.{Configuration, normalize_configuration}
use pgmoneta_mcp.Configuration.Files.{load_configuration}
use pgmoneta_mcp.World.{World}

pub record Args : Type 0 where
  pub conf : Bytes
  pub users : Bytes

-- What the start of the process leaves behind; `config` is the cell `CONFIG`.
pub record Process : Type 0 where
  pub world : World
  pub log : Option (Subscriber × Bool)
  pub listening : Option Bytes
  pub config : Option Configuration
  pub serving : Bool

abbrev pub bind_address : Bytes
bind_address = codes "0.0.0.0"

-- `format!("{BIND_ADDRESS}:{}", port)`
unfoldable pub address_of : Configuration → Bytes
address_of config = bind_address ++ codes ":" ++ decimal config.pgmoneta_mcp_section.port

unfoldable pub load : (Bytes → Bytes → Result Configuration) → Args → Action Process Configuration
load parse args s =
    let (r, w) = load_configuration parse args.conf args.users s.world in
    (r, record s { world = w })

unfoldable pub start_log : LogFiles → Platform → Configuration → Action Process (Unit {0})
start_log files platform config s =
    let c = config.pgmoneta_mcp_section in
    elim (Logging.init files platform c.log_level c.log_type c.log_line_prefix c.log_path c.log_mode
      c.log_rotation_age) [ err e ↦ (err e, s) | ok log ↦ (ok tt, record s { log = some log }) ]

unfoldable pub bind : (Bytes → Result (Unit {0})) → Bytes → Action Process (Unit {0})
bind listen address s = elim (listen address) [
  | err e ↦ (err e, s)
  | ok u ↦ (ok tt, record s { listening = some address })
]

-- `CONFIG.set(config).expect(…)`
unfoldable pub set_config : Configuration → Action Process (Unit {0})
set_config config s = elim s.config [
  | some old ↦ (err panicked, s)
  | none ↦ (ok tt, record s { config = some config })
]

-- The loop of the HTTP server, up to the signal that ends it.
unfoldable pub serve : Action Process (Unit {0})
serve s = (ok tt, record s { serving = true })

module _ (parse : Bytes → Bytes → Result Configuration) (files : LogFiles) (platform : Platform)
    (listen : Bytes → Result (Unit {0})) where
  unfoldable pub main : Args → Action Process (Unit {0})
  main args = do
    config ← load parse args
    start_log files platform config
    bind listen (address_of config)
    set_config config
    serve
