-- ===== src/Security/MasterKey.antt =====
-- The master key file of src/security.rs: `load_master_key` and `write_master_key`.
pub mod Reload
use mathlib.Core.Option
use pgmoneta_mcp.Prelude.{
  ℕ, ◌+◌, ◌%◌, Option, none, some, List, [], ◌∷◌, ◌++◌, length, ◌==◌, not, if◌then◌else◌,
}
use pgmoneta_mcp.Bytes.{Bytes, codes}
use pgmoneta_mcp.Bytes.Text.{trim, lines}
use pgmoneta_mcp.Result.{
  Result, ok, err, home_not_found, key_file_empty, master_salt_missing, master_salt_length,
  unexpected_line,
}
use pgmoneta_mcp.Result
use pgmoneta_mcp.Action.{Action, pure, lift, ◌>>=◌, ◌>>◌}
use pgmoneta_mcp.Libraries.{Base64}
use pgmoneta_mcp.World.{World, join, metadata_mode, set_permissions, read_to_string, write_file}

abbrev pub salt_len : ℕ
salt_len = 16

abbrev pub nonce_len : ℕ
nonce_len = 12

abbrev pub master_key_path : Bytes
master_key_path = codes ".pgmoneta-mcp/master.key"

-- Password and salt.
pub record KeyPair : Type 0 where
  pub password : Bytes
  pub salt : Bytes

pub record SecurityUtil : Type 0 where
  pub base64_engine : Base64
  pub master_key_path : Option Bytes

-- `new` takes the home directory, if there is one; a missing one is an error only later.
unfoldable pub new : Base64 → Option Bytes → SecurityUtil
new engine home = record {
  base64_engine = engine;
  master_key_path = Option.map (λ h. join h master_key_path) home;
}

unfoldable pub new_with_path : Base64 → Bytes → SecurityUtil
new_with_path engine path = record { base64_engine = engine; master_key_path = some path }

-- Every line behind the second is white space; `idx` is the number of the first of them.
unfoldable pub check_extra_lines : ℕ → List Bytes → Result (Unit {0})
check_extra_lines idx [] = ok tt
check_extra_lines idx (line ∷ rest) = elim (trim line) [
  | [] ↦ check_extra_lines (idx + 1) rest
  | _ ∷ _ ↦ err (unexpected_line idx)
]

module _ (engine : Base64) where
  infixl 5 ◌>>?◌
  abbrev ◌>>?◌ : {A B : Type 0} → Result A → (A → Result B) → Result B
  ◌>>?◌ = Result.◌>>=◌

  unfoldable pub parse_lines : List Bytes → Result KeyPair
  unfolding check_extra_lines
  parse_lines [] = err key_file_empty
  parse_lines (pass_b64 ∷ []) = err master_salt_missing
  parse_lines (pass_b64 ∷ salt_b64 ∷ rest) = engine.decode (trim pass_b64) >>? λ password.
      engine.decode (trim salt_b64) >>? λ salt.
      if not (length salt == salt_len)
      then err (master_salt_length (length salt))
      else (check_extra_lines 3 rest >>? λ _. ok (record { password = password; salt = salt }))

abbrev pub key_path : SecurityUtil → Result Bytes
key_path util = elim util.master_key_path [ none ↦ err home_not_found | some path ↦ ok path ]

-- The permissions of the group and of others are taken away before the file is read.
unfoldable pub restrict : Bytes → Action World (Unit {0})
restrict path = do
  mode ← metadata_mode path
  if not ((mode % 0o1000) % 0o100 == 0) then set_permissions path 0o600 else pure tt

unfoldable pub load_master_key : SecurityUtil → Action World KeyPair
load_master_key util = do
  path ← lift (key_path util)
  restrict path
  content ← read_to_string path
  lift (parse_lines util.base64_engine (lines content))

unfoldable pub write_master_key : SecurityUtil → Bytes → Bytes → Action World (Unit {0})
write_master_key util key salt = do
  path ← lift (key_path util)
  let content = util.base64_engine.encode key ++ (10 ∷ (util.base64_engine.encode salt ++ 10 ∷ []))
  write_file path content 0o600
  set_permissions path 0o600
