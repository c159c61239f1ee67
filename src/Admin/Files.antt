-- ===== src/Admin/Files.antt =====
-- Loading and saving the users file of src/bin/admin.rs.
use pgmoneta_mcp.Prelude.{ℕ, ◌≡◌, refl, ap, Option, none, some}
use pgmoneta_mcp.Bytes.{Bytes, eq_bytes_refl}
use pgmoneta_mcp.Bytes.Utf8.{from_utf8}
use pgmoneta_mcp.Result.{Result, ok, err, io, map_err, master_key_needed}
use pgmoneta_mcp.Result
use pgmoneta_mcp.Action.{lift, continue, continue-eq-ok}
use pgmoneta_mcp.Configuration.Files.{UserConf, load_user_configuration}
use pgmoneta_mcp.World.{World, Node, file, directory, put_file, read_to_string, write_file}
use pgmoneta_mcp.Admin.{Ini, save}

-- What loading makes of a path.
abbrev pub loaded_from : (Bytes → Result UserConf) → Option Node → Result UserConf
loaded_from parse none = err io
loaded_from parse (some (directory mode)) = err io
loaded_from parse (some (file text mode)) = Result.◌>>=◌ (map_err (λ e. io) (from_utf8 text)) parse

continue-parse :
    (parse : Bytes → Result UserConf) (r : Result Bytes) (w : World)
    → continue r (λ text. lift (parse text)) w ≡ (Result.◌>>=◌ r parse, w)
continue-parse parse (ok text) w = refl
continue-parse parse (err e) w = refl

pub load_user_configuration_lem :
    (parse : Bytes → Result UserConf) (path : Bytes) (w : World)
    → load_user_configuration parse path w ≡ (loaded_from parse (w.files path), w)
unfolding load_user_configuration read_to_string
load_user_configuration_lem parse path w = by_node (w.files path)
  where
    by_node :
        (n : Option Node)
        → let (r, u) : Result Bytes × World = elim n [
          | none ↦ (err io, w)
          | some (file content mode) ↦ (map_err (λ e. io) (from_utf8 content), w)
          | some (directory mode) ↦ (err io, w)
        ] in
          continue r (λ text. lift (parse text)) u ≡ (loaded_from parse n, w)
    by_node none = refl
    by_node (some (file text mode)) = continue-parse parse (map_err (λ e. io) (from_utf8 text)) w
    by_node (some (directory mode)) = refl

-- The file behind a write that succeeded.
write_file-eq-ok :
    (path text : Bytes) (mode : ℕ) (w w' : World)
    → write_file path text mode w ≡ (ok tt, w')
    → (m : ℕ) × (w'.files path ≡ some (file text m))
unfolding write_file
write_file-eq-ok path text mode w w' h = by_node (w.files path) h
  where
    stored : (m : ℕ) → put_file path (file text m) w ≡ w' → w'.files path ≡ some (file text m)
    stored m e = rw (← e, eq_bytes_refl path) refl

    by_node :
        (n : Option Node)
        → ◌≡◌ {A = Result (Unit {0}) × World}
            (elim n [
              | none ↦ (ok tt, put_file path (file text mode) w)
              | some (file old old_mode) ↦ (ok tt, put_file path (file text old_mode) w)
              | some (directory old_mode) ↦ (err io, w)
            ])
            (ok tt, w')
        → (m : ℕ) × (w'.files path ≡ some (file text m))
    by_node none e = (mode, stored mode (ap (λ (x : Result (Unit {0}) × World). x.1) e))
    by_node (some (file old old_mode)) e =
        (old_mode, stored old_mode (ap (λ (x : Result (Unit {0}) × World). x.1) e))
    by_node (some (directory old_mode)) e = cc

module _ (ini : Ini) (new_mode : ℕ) where
  -- The file that a configuration was saved to.
  pub save-eq-ok :
      (path : Bytes) (conf : UserConf) (w w' : World)
      → save ini new_mode path conf w ≡ (ok tt, w')
      → (text : Bytes) × (mode : ℕ) × (ini.to_string conf ≡ ok text)
        × (w'.files path ≡ some (file text mode))
  unfolding save
  save-eq-ok path conf w w' h =
      let (text, e, k) = continue-eq-ok (ini.to_string conf) _ w h in
      let (mode, stored) = write_file-eq-ok path text new_mode w w' k in (text, mode, e, stored)
