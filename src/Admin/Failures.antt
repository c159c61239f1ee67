-- ===== src/Admin/Failures.antt =====
-- An operation of src/bin/admin.rs that fails leaves the users file as it was.
use pgmoneta_mcp.Prelude.{ℕ, ◌≡◌, refl, sym, ap, ◌∙◌, Option, none, some, Bool-cases, inl, inr}
use pgmoneta_mcp.Bytes.{Bytes}
use pgmoneta_mcp.Result.{Result, ok, err, io, Error}
use pgmoneta_mcp.Action.{Action, lift, continue, ◌>>=◌}
use pgmoneta_mcp.Libraries.{Libraries}
use pgmoneta_mcp.Configuration.Files.{UserConf, load_user_configuration}
use pgmoneta_mcp.World.{World, Node, file, directory, put_file, read_to_string, write_file}
use pgmoneta_mcp.World.Keeps.{Keeps, >>=-Keeps, read_to_string-Keeps}
use pgmoneta_mcp.Security.MasterKey.{SecurityUtil}
use pgmoneta_mcp.Security.Untouched.{IsOther}
use pgmoneta_mcp.Admin.{
  Ini, is_no_file, exists, without_user, with_password, require_file, save, drop_user, secret_of,
  conf_with, store_user, change_user,
}
use pgmoneta_mcp.Admin.Changes.{secret_of-Keeps}

-- Where the action fails, the file is as before.
abbrev KeepsFailing : {A : Type 0} → Bytes → Action World A → Type 0
KeepsFailing path m = (w w' : World) (e : Error) → m w ≡ (err e, w') → w'.files path ≡ w.files path

module _ (path : Bytes) where
  fails : {A : Type 0} (m : Action World A) → Keeps path m → KeepsFailing path m
  fails m k w w' e h = ap (λ (x : Result _ × World). x.1.files path) (sym h) ∙ k w

  continue-KeepsFailing :
      {A B : Type 0} (r : Result A) (f : A → Action World B)
      → ((a : A) → KeepsFailing path (f a))
      → KeepsFailing path (continue r f)
  continue-KeepsFailing (ok a) f k = k a
  continue-KeepsFailing (err x) f k =
      λ w w' e h. ap (λ (x : Result _ × World). x.1.files path) (sym h)

  then_fails :
      {A B : Type 0} (m : Action World A) (f : A → Action World B)
      → Keeps path m
      → ((a : A) → KeepsFailing path (f a))
      → KeepsFailing path (m >>= f)
  then_fails m f km kf w w' e h = let (r, u) = m w in continue-KeepsFailing r f kf u w' e h ∙ km w

  write_file-KeepsFailing :
      (text : Bytes) (mode : ℕ) → KeepsFailing path (write_file path text mode)
  unfolding write_file
  write_file-KeepsFailing text mode w w' e h = by_node (w.files path) h
    where
      by_node :
          (n : Option Node)
          → ◌≡◌ {A = Result (Unit {0}) × World}
              (elim n [
                | none ↦ (ok tt, put_file path (file text mode) w)
                | some (file old old_mode) ↦ (ok tt, put_file path (file text old_mode) w)
                | some (directory old_mode) ↦ (err io, w)
              ])
              (err e, w')
          → w'.files path ≡ w.files path
      by_node none h = cc
      by_node (some (file old old_mode)) h = cc
      by_node (some (directory old_mode)) h =
          ap (λ (x : Result (Unit {0}) × World). x.1.files path) (sym h)

  load-Keeps : (parse : Bytes → Result UserConf) → Keeps path (load_user_configuration parse path)
  unfolding load_user_configuration
  load-Keeps parse =
      >>=-Keeps path (read_to_string path) _ (read_to_string-Keeps path path) λ text w. refl

  require_file-Keeps : Keeps path (require_file path)
  unfolding require_file
  require_file-Keeps w = elim (Bool-cases (exists path w)) [ inl e ↦ rw e refl | inr e ↦ rw e refl ]

  module _ (ini : Ini) where
    conf_with-Keeps : (user secret : Bytes) → Keeps path (conf_with ini path user secret)
    unfolding conf_with
    conf_with-Keeps user secret w = elim (Bool-cases (is_no_file path w)) [
      | inl e ↦ rw e refl
      | inr e ↦ rw e (
          >>=-Keeps path (load_user_configuration ini.from_str path) _ (load-Keeps ini.from_str)
            (λ conf w. refl) w)
    ]

    module _ (new_mode : ℕ) where
      save-KeepsFailing : (conf : UserConf) → KeepsFailing path (save ini new_mode path conf)
      unfolding save
      save-KeepsFailing conf =
          then_fails (lift (ini.to_string conf)) _ (λ w. refl)
            λ text. write_file-KeepsFailing text new_mode

      pub drop_user-KeepsFailing :
          (user : Bytes) → KeepsFailing path (drop_user ini new_mode path user)
      unfolding drop_user
      drop_user-KeepsFailing user = then_fails (require_file path) _ require_file-Keeps λ _.
          then_fails (load_user_configuration ini.from_str path) _ (load-Keeps ini.from_str) λ conf.
            then_fails (lift (without_user user conf)) _ (λ w. refl)
              λ changed. save-KeepsFailing changed

      module _ (l : Libraries) (util : SecurityUtil) (other : IsOther util path) where
        pub store_user-KeepsFailing :
            (user password : Bytes)
            → KeepsFailing path (store_user ini new_mode l util path user password)
        unfolding store_user
        store_user-KeepsFailing user password =
            then_fails (secret_of l util password) _ (secret_of-Keeps l util path password other)
              λ secret.
                then_fails (conf_with ini path user secret) _ (conf_with-Keeps user secret)
                  λ conf. save-KeepsFailing conf

        pub change_user-KeepsFailing :
            (user password : Bytes)
            → KeepsFailing path (change_user ini new_mode l util path user password)
        unfolding change_user
        change_user-KeepsFailing user password =
            then_fails (require_file path) _ require_file-Keeps λ _.
              then_fails (secret_of l util password) _ (secret_of-Keeps l util path password other)
                λ secret.
                  then_fails (load_user_configuration ini.from_str path) _ (load-Keeps ini.from_str)
                    λ conf.
                      then_fails (lift (with_password user secret conf)) _ (λ w. refl)
                        λ changed. save-KeepsFailing changed
