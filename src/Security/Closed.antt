-- ===== src/Security/Closed.antt =====
-- Properties of actions that hold of whatever is built from the steps that src/security.rs takes in the
-- world: the modules below show it for the code's actions, and each property has only the steps to show.
pub mod Actions
use pgmoneta_mcp.Prelude.{ℕ, ◌≡◌, Bool, true, false, if◌then◌else◌}
use pgmoneta_mcp.Bytes.{Bytes}
use pgmoneta_mcp.Result.{Result, ok, err, Error}
use pgmoneta_mcp.Action.{Action, lift, map_action_err, ◌>>=◌}
use pgmoneta_mcp.Libraries.{Crypto}
use pgmoneta_mcp.World.{World, metadata_mode, set_permissions, read_to_string, try_fill_bytes}
use pgmoneta_mcp.Security.MasterKey.{SecurityUtil, key_path}
use pgmoneta_mcp.Security.Kdf.{derive_key_two_step}

pub record Closed (crypto : Crypto) (util : SecurityUtil)
    (P : (A : Type 0) → Action World A → Type 0) : Type 1 where
  -- How steps are put together.
  pub lifted : {A : Type 0} (r : Result A) → P _ (lift r)
  pub chained :
      {A B : Type 0} (m : Action World A) (f : A → Action World B)
      → P _ m
      → ((a : A) → P _ (f a))
      → P _ (m >>= f)
  pub renamed :
      {A : Type 0} (f : Error → Error) (m : Action World A) → P _ m → P _ (map_action_err f m)
  -- The steps.
  pub permissions_read : (path : Bytes) → P _ (metadata_mode path)
  pub key_restricted : (key : Bytes) → key_path util ≡ ok key → P _ (set_permissions key 0o600)
  pub file_read : (path : Bytes) → P _ (read_to_string path)
  pub drawn : (n : ℕ) → P _ (try_fill_bytes n)
  pub derived :
      (password salt file_salt : Bytes) (n : ℕ)
      → P _ (derive_key_two_step crypto password salt file_salt n)

module _ (P : (A : Type 0) → Action World A → Type 0) where
  pub if-Closed :
      {A : Type 0} (b : Bool) (m n : Action World A) → P _ m → P _ n → P _ (if b then m else n)
  if-Closed true m n pm pn = pm
  if-Closed false m n pm pn = pn

  -- An action that does the same in each world.
  pub same-Closed : {A : Type 0} (m n : Action World A) → ((w : World) → m w ≡ n w) → P _ n → P _ m
  same-Closed m n same p = coe 1 0 (i. P _ (λ w. same w i)) p
