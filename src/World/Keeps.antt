-- ===== src/World/Keeps.antt =====
-- Which actions leave a file of the world as it is, also where they fail.
use pgmoneta_mcp.Prelude.{ℕ, ◌≡◌, refl, ◌∙◌, false, arith}
use pgmoneta_mcp.Bytes.{Bytes, eq_bytes}
use pgmoneta_mcp.Result.{Result, ok, err, Error}
use pgmoneta_mcp.Action.{Action, lift, continue, map_action_err, ◌>>=◌}
use pgmoneta_mcp.World.{
  World, metadata_mode, set_permissions, read_to_string, try_fill_bytes, write_file,
}

abbrev pub Keeps : {A : Type 0} → Bytes → Action World A → Type 0
Keeps path m = (w : World) → (m w).1.files path ≡ w.files path

module _ (path : Bytes) where
  continue-Keeps :
      {A B : Type 0} (r : Result A) (f : A → Action World B)
      → ((a : A) → Keeps path (f a))
      → Keeps path (continue r f)
  continue-Keeps (ok a) f k w = k a w
  continue-Keeps (err e) f k w = refl

  pub >>=-Keeps :
      {A B : Type 0} (m : Action World A) (f : A → Action World B)
      → Keeps path m
      → ((a : A) → Keeps path (f a))
      → Keeps path (m >>= f)
  >>=-Keeps m f km kf w = let (r, u) = m w in continue-Keeps r f kf u ∙ km w

  pub lift-Keeps : {A : Type 0} (r : Result A) → Keeps path (lift r)
  lift-Keeps r w = refl

  pub map_action_err-Keeps :
      {A : Type 0} (f : Error → Error) (m : Action World A)
      → Keeps path m
      → Keeps path (map_action_err f m)
  map_action_err-Keeps f m k w = k w

  pub metadata_mode-Keeps : (p : Bytes) → Keeps path (metadata_mode p)
  unfolding metadata_mode
  metadata_mode-Keeps p w = ground arith

  pub read_to_string-Keeps : (p : Bytes) → Keeps path (read_to_string p)
  unfolding read_to_string
  read_to_string-Keeps p w = ground arith

  pub try_fill_bytes-Keeps : (n : ℕ) → Keeps path (try_fill_bytes n)
  unfolding try_fill_bytes
  try_fill_bytes-Keeps n w = ground arith

  -- Another file's permissions may change.
  pub set_permissions-Keeps :
      (p : Bytes) (mode : ℕ) → eq_bytes path p ≡ false → Keeps path (set_permissions p mode)
  unfolding set_permissions
  set_permissions-Keeps p mode other w = ground arith

  -- Another file may be written.
  pub write_file-Keeps :
      (p text : Bytes) (mode : ℕ) → eq_bytes path p ≡ false → Keeps path (write_file p text mode)
  unfolding write_file
  write_file-Keeps p text mode other w = ground arith
