-- ===== src/Admin.antt =====
-- src/bin/admin.rs: the master key and the users file. The INI and JSON texts of serde_ini, config and
-- serde_json are parameters, and so is the mode of a new file, which the umask decides.
pub mod Console
pub mod Files
pub mod Stores
pub mod Changes
pub mod Failures
pub mod Refinement
pub mod Listing
pub mod Login
pub mod Keys
pub mod Quiet
pub mod Run
pub mod Tables
pub mod Registry
use pgmoneta_mcp.Prelude.{ℕ, Bool, true, false, Option, none, some, List, [], ◌∷◌, if◌then◌else◌}
use pgmoneta_mcp.Bytes.{Bytes, codes}
use pgmoneta_mcp.Result.{
  Result, ok, err, Error, map_err, master_key_needed, user_exists, user_unknown, user_file_missing,
  admins_missing,
}
use pgmoneta_mcp.Action.{Action, pure, lift, raise, map_action_err, ◌>>=◌, ◌>>◌}
use pgmoneta_mcp.Dict.{Dict, lookup, without, insert, keys}
use pgmoneta_mcp.Libraries.{Libraries}
use pgmoneta_mcp.Configuration.Files.{UserConf, load_user_configuration}
use pgmoneta_mcp.World.{World, Node, file, directory, write_file}
use pgmoneta_mcp.Security.MasterKey.{SecurityUtil, load_master_key}
use pgmoneta_mcp.Security.Gcm.{encrypt_to_base64_string}

-- The INI texts: `config` reads them and serde_ini writes them.
pub record Ini : Type 0 where
  pub from_str : Bytes → Result UserConf
  pub to_string : UserConf → Result Bytes

abbrev pub admins : Bytes
admins = codes "admins"

-- `path.exists()`
unfoldable pub exists : Bytes → World → Bool
exists path w = elim (w.files path) [ none ↦ false | some n ↦ true ]

-- `!path.exists() || path.is_dir()`
unfoldable pub is_no_file : Bytes → World → Bool
is_no_file path w = elim (w.files path) [
  | none ↦ true
  | some (file content mode) ↦ false
  | some (directory mode) ↦ true
]

-- A file of its own for the first user.
unfoldable pub first_user : Bytes → Bytes → UserConf
first_user user secret = (admins, (user, secret) ∷ []) ∷ []

-- What the three operations make of a configuration that was loaded.
unfoldable pub with_user : Bytes → Bytes → UserConf → Result UserConf
with_user user secret conf = elim (lookup admins conf) [
  | none ↦ err admins_missing
  | some user_conf ↦ elim (lookup user user_conf) [
    | some old ↦ err (user_exists user)
    | none ↦ ok (insert admins (insert user secret user_conf) conf)
  ]
]

unfoldable pub without_user : Bytes → UserConf → Result UserConf
without_user user conf = elim (lookup admins conf) [
  | none ↦ err admins_missing
  | some user_conf ↦ elim (lookup user user_conf) [
    | none ↦ err (user_unknown user)
    | some old ↦ ok (insert admins (without user user_conf) conf)
  ]
]

unfoldable pub with_password : Bytes → Bytes → UserConf → Result UserConf
with_password user secret conf = elim (lookup admins conf) [
  | none ↦ err admins_missing
  | some user_conf ↦ elim (lookup user user_conf) [
    | none ↦ err (user_unknown user)
    | some old ↦ ok (insert admins (insert user secret user_conf) conf)
  ]
]

unfoldable pub require_file : Bytes → Action World (Unit {0})
require_file path w = if exists path w then (ok tt, w) else (err (user_file_missing path), w)

-- The password as it is stored.
unfoldable pub secret_of : Libraries → SecurityUtil → Bytes → Action World Bytes
secret_of l util password = do
  master ← map_action_err master_key_needed (load_master_key util)
  encrypt_to_base64_string l password master.password master.salt

module _ (ini : Ini) where
  -- The configuration with the new user, from the file or from scratch.
  unfoldable pub conf_with : Bytes → Bytes → Bytes → Action World UserConf
  conf_with path user secret w =
      if is_no_file path w
      then (ok (first_user user secret), w)
      else (load_user_configuration ini.from_str path >>= λ conf. lift (with_user user secret conf))
          w

module _ (ini : Ini) (new_mode : ℕ) where
  -- `serde_ini::to_string` and `fs::write`.
  unfoldable pub save : Bytes → UserConf → Action World (Unit {0})
  save path conf = do text ← lift (ini.to_string conf); write_file path text new_mode

  -- `remove_user` up to its response.
  unfoldable pub drop_user : Bytes → Bytes → Action World (Unit {0})
  drop_user path user = do
    require_file path
    conf ← load_user_configuration ini.from_str path
    changed ← lift (without_user user conf)
    save path changed

  module _ (l : Libraries) (util : SecurityUtil) where
    -- `add_user` up to its response.
    unfoldable pub store_user : Bytes → Bytes → Bytes → Action World (Unit {0})
    store_user path user password = do
      secret ← secret_of l util password
      conf ← conf_with ini path user secret
      save path conf

    -- `edit_user` up to its response.
    unfoldable pub change_user : Bytes → Bytes → Bytes → Action World (Unit {0})
    change_user path user password = do
      require_file path
      secret ← secret_of l util password
      conf ← load_user_configuration ini.from_str path
      changed ← lift (with_password user secret conf)
      save path changed
