-- ===== src/Admin/Changes.antt =====
-- What the three operations of src/bin/admin.rs on the users file make of the registry.
use pgmoneta_mcp.Prelude.{ℕ, ◌≡◌, ◌≢◌, sym, ap, ◌∙◌, none, some}
use pgmoneta_mcp.Bytes.{Bytes}
use pgmoneta_mcp.Result.{Result, ok, master_key_needed}
use pgmoneta_mcp.Action.{map_action_err, >>=-eq-ok, continue-eq-ok, map_action_err-eq-ok}
use pgmoneta_mcp.Libraries.{Libraries}
use pgmoneta_mcp.World.{World}
use pgmoneta_mcp.World.Keeps.{Keeps}
use pgmoneta_mcp.Security.MasterKey.{SecurityUtil, KeyPair, load_master_key}
use pgmoneta_mcp.Security.Gcm.{encrypt_to_base64_string}
use pgmoneta_mcp.Security.Untouched.{IsOther, Keeps-Closed}
use pgmoneta_mcp.Security.Closed.Actions.{load_master_key-Closed, encrypt_to_base64_string-Closed}
use pgmoneta_mcp.Admin.{
  Ini, without_user, with_password, require_file, drop_user, secret_of, conf_with, store_user,
  change_user,
}
use pgmoneta_mcp.Admin.Stores.{
  Stores, Carries, Stores-same, loaded_conf, stored_conf, conf_with-HasRegistry, require_file-same,
  save-Stores,
}
use pgmoneta_mcp.Admin.Registry.{
  Registry, update, with_password-HasRegistry, without_user-HasRegistry,
}

module _ (l : Libraries) (util : SecurityUtil) where
  -- The secret is what the password encrypts to under a key pair that was loaded.
  abbrev pub Seals : Bytes → Bytes → World → World → Type 0
  Seals password secret w u =
      (master : KeyPair) × (opened : World) × (load_master_key util w ≡ (ok master, opened))
      × (encrypt_to_base64_string l password master.password master.salt opened ≡ (ok secret, u))

  secret_of-Seals :
      (password secret : Bytes) (w u : World)
      → secret_of l util password w ≡ (ok secret, u)
      → Seals password secret w u
  unfolding secret_of
  secret_of-Seals password secret w u h =
      let (master, opened, e, k) =
        >>=-eq-ok (map_action_err master_key_needed (load_master_key util)) _ w h in
      (master, opened, map_action_err-eq-ok master_key_needed (load_master_key util) w e, k)

  pub secret_of-Keeps :
      (path password : Bytes) → IsOther util path → Keeps path (secret_of l util password)
  unfolding secret_of
  secret_of-Keeps path password other =
      let steps = Keeps-Closed l.crypto path util other in
      steps.chained (map_action_err master_key_needed (load_master_key util)) _
        (steps.renamed master_key_needed (load_master_key util)
          (load_master_key-Closed l util (λ A m. Keeps path m) steps))
        λ master.
          encrypt_to_base64_string-Closed l util (λ A m. Keeps path m) steps password
            master.password master.salt

module _ (ini : Ini) (new_mode : ℕ) where
  -- `add_user` up to its response adds exactly the user.
  pub store_user-Stores :
      (l : Libraries) (util : SecurityUtil) (path user password : Bytes) (reg : Registry)
      (w w' : World)
      → IsOther util path
      → Stores ini path w reg
      → ((secret : Bytes) (u : World)
          → Seals l util password secret w u
          → reg user ≡ none
          → Carries ini (update reg user (some secret)))
      → store_user ini new_mode l util path user password w ≡ (ok tt, w')
      → (secret : Bytes) × (u : World) × Seals l util password secret w u
        × (reg user ≡ none)
        × Stores ini path w' (update reg user (some secret))
  unfolding store_user
  store_user-Stores l util path user password reg w w' other stores carries h =
      let (secret, u, e, h1) = >>=-eq-ok (secret_of l util password) _ w h in
      let (conf, u', made, saved) = >>=-eq-ok (conf_with ini path user secret) _ u h1 in
      let kept : u.files path ≡ w.files path =
        ap (λ (x : Result Bytes × World). x.1.files path) (sym e)
        ∙ secret_of-Keeps l util path password other w in
      let (fresh, holds) =
        conf_with-HasRegistry ini path user secret reg u u' conf
          (Stores-same ini path w u reg kept stores) made in
      (
        secret,
        u,
        secret_of-Seals l util password secret w u e,
        fresh,
        save-Stores ini new_mode path conf _ u' w'
            (carries secret u (secret_of-Seals l util password secret w u e) fresh) holds saved,
      )

  -- `edit_user` up to its response replaces exactly the user's password.
  pub change_user-Stores :
      (l : Libraries) (util : SecurityUtil) (path user password : Bytes) (reg : Registry)
      (w w' : World)
      → IsOther util path
      → Stores ini path w reg
      → ((secret : Bytes) (u : World)
          → Seals l util password secret w u
          → reg user ≢ none
          → Carries ini (update reg user (some secret)))
      → change_user ini new_mode l util path user password w ≡ (ok tt, w')
      → (secret : Bytes) × (u : World) × Seals l util password secret w u
        × (reg user ≢ none)
        × Stores ini path w' (update reg user (some secret))
  unfolding change_user
  change_user-Stores l util path user password reg w w' other stores carries h =
      let (_, u0, e0, h0) = >>=-eq-ok (require_file path) _ w h in
      let same0 = require_file-same ini path w u0 e0 in
      let (secret, u, e, h1) = >>=-eq-ok (secret_of l util password) _ w (rw same0 at h0) in
      let (conf, loads, h2) = loaded_conf ini path u w' _ tt h1 in
      let (changed, made, saved) = continue-eq-ok (with_password user secret conf) _ u h2 in
      let kept : u.files path ≡ w.files path =
        ap (λ (x : Result Bytes × World). x.1.files path) (sym e)
        ∙ secret_of-Keeps l util path password other w in
      let (known, holds) =
        with_password-HasRegistry user secret conf changed reg
          (stored_conf ini path u reg conf (Stores-same ini path w u reg kept stores) loads) made in
      (
        secret,
        u,
        secret_of-Seals l util password secret w u e,
        known,
        save-Stores ini new_mode path changed _ u w'
            (carries secret u (secret_of-Seals l util password secret w u e) known) holds saved,
      )

  -- `remove_user` up to its response takes exactly the user away.
  pub drop_user-Stores :
      (path user : Bytes) (reg : Registry) (w w' : World)
      → Stores ini path w reg
      → (reg user ≢ none → Carries ini (update reg user none))
      → drop_user ini new_mode path user w ≡ (ok tt, w')
      → (reg user ≢ none) × Stores ini path w' (update reg user none)
  unfolding drop_user
  drop_user-Stores path user reg w w' stores carries h =
      let (_, u0, e0, h0) = >>=-eq-ok (require_file path) _ w h in
      let same0 = require_file-same ini path w u0 e0 in
      let (conf, loads, h2) = loaded_conf ini path w w' _ tt (rw same0 at h0) in
      let (changed, made, saved) = continue-eq-ok (without_user user conf) _ w h2 in
      let (known, holds) =
        without_user-HasRegistry user conf changed reg
          (stored_conf ini path w reg conf stores loads) made in
      (known, save-Stores ini new_mode path changed _ w w' (carries known) holds saved)
