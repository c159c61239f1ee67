-- ===== src/Security/Untouched.antt =====
-- Loading keys and encrypting leave every file but the key file as it is (src/security.rs).
use pgmoneta_mcp.Prelude.{ℕ, ◌≡◌, refl, false, inl, inr, Option-cases}
use pgmoneta_mcp.Bytes.{Bytes, eq_bytes}
use pgmoneta_mcp.Result.{ok, map_err, step1_failed}
use pgmoneta_mcp.Action.{lift}
use pgmoneta_mcp.Libraries.{Crypto}
use pgmoneta_mcp.World.Keeps.{
  Keeps, >>=-Keeps, lift-Keeps, metadata_mode-Keeps, read_to_string-Keeps, try_fill_bytes-Keeps,
  set_permissions-Keeps, map_action_err-Keeps,
}
use pgmoneta_mcp.Security.Closed.{Closed}
use pgmoneta_mcp.Security.MasterKey.{SecurityUtil, key_path}
use pgmoneta_mcp.Security.Kdf.{
  master_pbkdf2_iterations, cached_key, derive_and_store, get_or_derive_master_key,
  derive_key_two_step,
}

-- The path is not the one of the key file.
abbrev pub IsOther : SecurityUtil → Bytes → Type 0
IsOther util path = (k : Bytes) → key_path util ≡ ok k → eq_bytes path k ≡ false

module _ (crypto : Crypto) (path : Bytes) where
  derive_and_store-Keeps : (p s : Bytes) → Keeps path (derive_and_store crypto p s)
  unfolding derive_and_store
  derive_and_store-Keeps p s =
      let derived = map_err step1_failed (crypto.pbkdf2 p s master_pbkdf2_iterations 64) in
      >>=-Keeps path (lift derived) _ (lift-Keeps path derived) λ key w. refl

  get_or_derive_master_key-Keeps : (p s : Bytes) → Keeps path (get_or_derive_master_key crypto p s)
  unfolding get_or_derive_master_key
  get_or_derive_master_key-Keeps p s w = elim (Option-cases (cached_key w.cache p s)) [
    | inl miss ↦ rw (miss, get_or_derive_master_key) (derive_and_store-Keeps p s w)
    | inr (key, hit) ↦ rw (hit, get_or_derive_master_key) refl
  ]

  derive_key_two_step-Keeps :
      (p s file_salt : Bytes) (n : ℕ) → Keeps path (derive_key_two_step crypto p s file_salt n)
  unfolding derive_key_two_step
  derive_key_two_step-Keeps p s file_salt n =
      >>=-Keeps path (get_or_derive_master_key crypto p s) _ (get_or_derive_master_key-Keeps p s)
        λ key w. refl

  -- Each step leaves the file at another path as it is.
  pub Keeps-Closed :
      (util : SecurityUtil) → IsOther util path → Closed crypto util (λ A m. Keeps path m)
  Keeps-Closed util other = record {
    lifted = lift-Keeps path;
    chained = >>=-Keeps path;
    renamed = map_action_err-Keeps path;
    permissions_read = metadata_mode-Keeps path;
    key_restricted = λ key is_key. set_permissions-Keeps path key 0o600 (other key is_key);
    file_read = read_to_string-Keeps path;
    drawn = try_fill_bytes-Keeps path;
    derived = derive_key_two_step-Keeps;
  }
