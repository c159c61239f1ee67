-- ===== src/Security/Kdf.antt =====
-- Key derivation of src/security.rs: two steps of PBKDF2, the first behind `MASTER_KEY_CACHE`.
-- The mutex is not poisoned, since no code between lock and unlock panics.
pub mod Cached
pub mod Threads
use pgmoneta_mcp.Prelude.{ℕ, Option, none, some, ◌&&◌, if◌then◌else◌}
use pgmoneta_mcp.Bytes.{Bytes, eq_bytes}
use pgmoneta_mcp.Result.{Result, ok, map_err, step1_failed, step2_failed, pbkdf2_failed}
use pgmoneta_mcp.Action.{Action, pure, lift, ◌>>=◌, ◌>>◌}
use pgmoneta_mcp.Libraries.{Crypto}
use pgmoneta_mcp.World.{World, CachedMasterKey}

abbrev pub master_pbkdf2_iterations : ℕ
master_pbkdf2_iterations = 600_000

abbrev pub file_pbkdf2_iterations : ℕ
file_pbkdf2_iterations = 1

abbrev pub store_key : CachedMasterKey → Action World (Unit {0})
store_key entry w = (ok tt, record w { cache = some entry })

-- The key that the cache holds for these inputs.
unfoldable pub cached_key : Option CachedMasterKey → Bytes → Bytes → Option Bytes
cached_key none master_password master_salt = none
cached_key (some entry) master_password master_salt =
    if eq_bytes entry.password master_password && eq_bytes entry.salt master_salt
    then some entry.derived_key
    else none

module _ (crypto : Crypto) where
  -- Behind a miss: derive, then replace the entry.
  unfoldable pub derive_and_store : Bytes → Bytes → Action World Bytes
  derive_and_store master_password master_salt = do
    master_key ← lift (
        map_err step1_failed
          (crypto.pbkdf2 master_password master_salt master_pbkdf2_iterations 64))
    store_key (record { password = master_password; salt = master_salt; derived_key = master_key })
    pure master_key

  unfoldable pub get_or_derive_master_key : Bytes → Bytes → Action World Bytes
  get_or_derive_master_key master_password master_salt w =
      elim (cached_key w.cache master_password master_salt) [
        | some key ↦ (ok key, w)
        | none ↦ derive_and_store master_password master_salt w
      ]

  unfoldable pub derive_key_two_step : Bytes → Bytes → Bytes → ℕ → Action World Bytes
  derive_key_two_step master_password master_salt file_salt key_len = do
    master_key ← get_or_derive_master_key master_password master_salt
    lift (map_err step2_failed (crypto.pbkdf2 master_key file_salt file_pbkdf2_iterations key_len))

  unfoldable pub derive_file_key : Bytes → Bytes → ℕ → Result Bytes
  derive_file_key master_key salt key_len =
      map_err pbkdf2_failed (crypto.pbkdf2 master_key salt file_pbkdf2_iterations key_len)
