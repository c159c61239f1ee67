-- ===== src/Configuration/Files.antt =====
-- The two loaders of src/configuration.rs. The INI parser of the `config` crate with the
-- deserialization behind it is a parameter, and its errors are passed on. A path names the file.
use pgmoneta_mcp.Bytes.{Bytes}
use pgmoneta_mcp.Result.{Result}
use pgmoneta_mcp.Action.{Action, lift, ◌>>=◌}
use pgmoneta_mcp.Dict.{Dict}
use pgmoneta_mcp.World.{World, read_to_string}
use pgmoneta_mcp.Configuration.{Configuration, normalize_configuration}

-- A section's name and its properties.
abbrev pub UserConf : Type 0
UserConf = Dict (Dict Bytes)

unfoldable pub load_configuration :
    (Bytes → Bytes → Result Configuration) → Bytes → Bytes → Action World Configuration
load_configuration parse config_path user_path = do
  config_text ← read_to_string config_path
  user_text ← read_to_string user_path
  conf ← lift (parse config_text user_text)
  lift (normalize_configuration conf)

unfoldable pub load_user_configuration : (Bytes → Result UserConf) → Bytes → Action World UserConf
load_user_configuration parse user_path = do text ← read_to_string user_path; lift (parse text)
