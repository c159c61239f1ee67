-- ===== src/Admin/Stores.antt =====
-- The users file of src/bin/admin.rs as the store of a registry: what loading finds and saving leaves.
use mathlib.Core.Path.{subst}
use pgmoneta_mcp.Prelude.{
  ℕ, ◌≡◌, ◌⊎◌, refl, sym, ap, ◌∙◌, Bool, true, false, Option, none, some, arith, if◌then◌else◌, inl,
  inr,
}
use pgmoneta_mcp.Bytes.{Bytes}
use pgmoneta_mcp.Bytes.Utf8.{from_utf8}
use pgmoneta_mcp.Result.{Result, ok, err, user_file_missing}
use pgmoneta_mcp.Action.{Action, lift, ◌>>=◌, >>=-eq-ok}
use pgmoneta_mcp.Configuration.Files.{UserConf, load_user_configuration}
use pgmoneta_mcp.World.{World, Node, file, directory}
use pgmoneta_mcp.Admin.{
  Ini, exists, is_no_file, first_user, with_user, require_file, save, conf_with,
}
use pgmoneta_mcp.Admin.Files.{loaded_from, load_user_configuration_lem, save-eq-ok}
use pgmoneta_mcp.Admin.Registry.{
  Registry, update, HasRegistry, first_user-HasRegistry, with_user-HasRegistry,
}

module _ (ini : Ini) where
  -- The file of the path holds the registry; a path with no file holds the empty one.
  abbrev pub Stores : Bytes → World → Registry → Type 0
  Stores path w reg =
      ((w.files path ≡ none) × ((u : Bytes) → reg u ≡ none))
      ⊎ ((conf : UserConf) × (load_user_configuration ini.from_str path w ≡ (ok conf, w))
          × HasRegistry conf reg)

  -- An INI text of a configuration with this registry is read back as one with this registry.
  abbrev pub Carries : Registry → Type 0
  Carries reg =
      (conf : UserConf) (text : Bytes)
      → HasRegistry conf reg
      → ini.to_string conf ≡ ok text
      → (from_utf8 text ≡ ok text)
        × (conf' : UserConf) × (ini.from_str text ≡ ok conf')
        × HasRegistry conf' reg

  loads-same :
      (path : Bytes) (w u : World) (conf : UserConf)
      → u.files path ≡ w.files path
      → load_user_configuration ini.from_str path w ≡ (ok conf, w)
      → load_user_configuration ini.from_str path u ≡ (ok conf, u)
  loads-same path w u conf same h =
      let from : loaded_from ini.from_str (w.files path) ≡ ok conf =
        ap (λ (x : Result UserConf × World). x.0)
          (sym (load_user_configuration_lem ini.from_str path w) ∙ h) in
      load_user_configuration_lem ini.from_str path u
      ∙ (λ i. ((ap (loaded_from ini.from_str) same ∙ from) i, u))

  pub Stores-same :
      (path : Bytes) (w u : World) (reg : Registry)
      → u.files path ≡ w.files path
      → Stores path w reg
      → Stores path u reg
  Stores-same path w u reg same (inl (absent, empty)) = inl (same ∙ absent, empty)
  Stores-same path w u reg same (inr (conf, loads, holds)) =
      inr (conf, loads-same path w u conf same loads, holds)

  -- Reading the file again changes nothing.
  pub loaded_conf :
      {A : Type 0} (path : Bytes) (w w' : World) (f : UserConf → Action World A) (a : A)
      → (load_user_configuration ini.from_str path >>= f) w ≡ (ok a, w')
      → (conf : UserConf) × (load_user_configuration ini.from_str path w ≡ (ok conf, w))
        × (f conf w ≡ (ok a, w'))
  loaded_conf path w w' f a h =
      let (conf, u, e, k) = >>=-eq-ok (load_user_configuration ini.from_str path) f w h in
      let same : u ≡ w =
        ap (λ (x : Result UserConf × World). x.1)
          (sym e ∙ load_user_configuration_lem ini.from_str path w) in
      (
        conf,
        subst (λ x. load_user_configuration ini.from_str path w ≡ (ok conf, x)) same e,
        subst (λ x. f conf x ≡ (ok a, w')) same k,
      )

  pub loaded_is :
      (path : Bytes) (w : World) (conf : UserConf)
      → load_user_configuration ini.from_str path w ≡ (ok conf, w)
      → loaded_from ini.from_str (w.files path) ≡ ok conf
  loaded_is path w conf h =
      ap (λ (x : Result UserConf × World). x.0)
        (sym (load_user_configuration_lem ini.from_str path w) ∙ h)

  -- A path that holds a registry and loads holds it in the configuration that was loaded.
  pub stored_conf :
      (path : Bytes) (w : World) (reg : Registry) (conf : UserConf)
      → Stores path w reg
      → load_user_configuration ini.from_str path w ≡ (ok conf, w)
      → HasRegistry conf reg
  stored_conf path w reg conf (inl (absent, empty)) h =
      let from = rw absent at (loaded_is path w conf h) in cc
  stored_conf path w reg conf (inr (conf', loads, holds)) h =
      let a = loaded_is path w conf h in
      let b = loaded_is path w conf' loads in
      let same : conf' ≡ conf = cc in subst (λ c. HasRegistry c reg) same holds

  no_file_fails :
      (path : Bytes) (w : World) (conf : UserConf)
      → is_no_file path w ≡ true
      → load_user_configuration ini.from_str path w ≡ (ok conf, w)
      → ⊥
  unfolding is_no_file
  no_file_fails path w conf h loads = by_node (w.files path) h (loaded_is path w conf loads)
    where
      by_node :
          (n : Option Node)
          → elim n [ none ↦ true | some (file content mode) ↦ false | some (directory mode) ↦ true ]
            ≡ true
          → loaded_from ini.from_str n ≡ ok conf
          → ⊥
      by_node none h e = cc
      by_node (some (file content mode)) h e = cc
      by_node (some (directory mode)) h e = cc

  HasRegistry-same :
      (conf : UserConf) (reg reg' : Registry)
      → ((u : Bytes) → reg u ≡ reg' u)
      → HasRegistry conf reg
      → HasRegistry conf reg'
  HasRegistry-same conf reg reg' same (users, section, h) = (users, section, λ u. h u ∙ same u)

  first_outcome :
      (no_file : Bool) (path user secret : Bytes) (reg : Registry) (w w' : World) (conf : UserConf)
      → is_no_file path w ≡ no_file
      → Stores path w reg
      → (if no_file
          then (ok (first_user user secret), w)
          else (load_user_configuration ini.from_str path >>= λ conf.
                lift (with_user user secret conf))
              w)
        ≡ (ok conf, w')
      → (reg user ≡ none) × HasRegistry conf (update reg user (some secret))
  first_outcome true path user secret reg w w' conf t (inl (absent, empty)) h =
      let same : first_user user secret ≡ conf = cc in
      (
        empty user,
        subst (λ c. HasRegistry c (update reg user (some secret))) same
            (HasRegistry-same (first_user user secret) (update (λ u. none) user (some secret))
              (update reg user (some secret)) (λ u. ground (arith, empty u))
              (first_user-HasRegistry user secret)),
      )
  first_outcome true path user secret reg w w' conf t (inr (old, loads, holds)) h =
      absurd (no_file_fails path w old t loads)
  first_outcome false path user secret reg w w' conf t stores h =
      let (old, loads, k) = loaded_conf path w w' _ conf h in
      with_user-HasRegistry user secret old conf reg (stored_conf path w reg old stores loads)
        (ap (λ (x : Result UserConf × World). x.0) k)

  pub conf_with-HasRegistry :
      (path user secret : Bytes) (reg : Registry) (w w' : World) (conf : UserConf)
      → Stores path w reg
      → conf_with ini path user secret w ≡ (ok conf, w')
      → (reg user ≡ none) × HasRegistry conf (update reg user (some secret))
  unfolding conf_with
  conf_with-HasRegistry path user secret reg w w' conf stores h =
      first_outcome (is_no_file path w) path user secret reg w w' conf refl stores h

  require_outcome :
      (there : Bool) (path : Bytes) (w u : World)
      → ◌≡◌ {A = Result (Unit {0}) × World}
          (if there then (ok tt, w) else (err (user_file_missing path), w))
          (ok tt, u)
      → u ≡ w
  require_outcome true path w u h = ap (λ (x : Result (Unit {0}) × World). x.1) (sym h)
  require_outcome false path w u h = cc

  pub require_file-same : (path : Bytes) (w u : World) → require_file path w ≡ (ok tt, u) → u ≡ w
  unfolding require_file
  require_file-same path w u h = require_outcome (exists path w) path w u h

  module _ (new_mode : ℕ) where
    pub save-Stores :
        (path : Bytes) (conf : UserConf) (reg : Registry) (w w' : World)
        → Carries reg
        → HasRegistry conf reg
        → save ini new_mode path conf w ≡ (ok tt, w')
        → Stores path w' reg
    save-Stores path conf reg w w' carries holds h =
        let (text, mode, printed, stored) = save-eq-ok ini new_mode path conf w w' h in
        let (utf8, conf', parsed, holds') = carries conf text holds printed in
        inr (
          conf',
          load_user_configuration_lem ini.from_str path w'
              ∙ (λ i. (from_file text mode conf' utf8 parsed stored i, w')),
          holds',
        )
      where
        from_file :
            (text : Bytes) (mode : ℕ) (conf' : UserConf)
            → from_utf8 text ≡ ok text
            → ini.from_str text ≡ ok conf'
            → w'.files path ≡ some (file text mode)
            → loaded_from ini.from_str (w'.files path) ≡ ok conf'
        from_file text mode conf' utf8 parsed stored = rw (stored, utf8) parsed
