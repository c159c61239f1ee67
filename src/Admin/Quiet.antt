-- ===== src/Admin/Quiet.antt =====
-- What src/bin/admin.rs does beside the users file: choosing passwords, listing users and writing the
-- master key leave it as it is.
use pgmoneta_mcp.Prelude.{
  ℕ, ◌≡◌, refl, ap, ◌∙◌, Bool, true, false, Option, none, some, ◌++◌, not, if◌then◌else◌, arith,
  Bool-cases, inl, inr,
}
use pgmoneta_mcp.Bytes.{Bytes, codes, eq_bytes}
use pgmoneta_mcp.Result.{Result, ok, err, passwords_differ}
use pgmoneta_mcp.Action.{Action, lift, continue, ◌>>=◌, ◌>>◌}
use pgmoneta_mcp.Configuration.Files.{load_user_configuration}
use pgmoneta_mcp.World.{World, try_fill_bytes, write_file, set_permissions}
use pgmoneta_mcp.World.Keeps.{
  Keeps, >>=-Keeps, try_fill_bytes-Keeps, write_file-Keeps, set_permissions-Keeps,
}
use pgmoneta_mcp.Security.MasterKey.{SecurityUtil, key_path, write_master_key}
use pgmoneta_mcp.Security.Password.{generate_password}
use pgmoneta_mcp.Security.Untouched.{IsOther}
use pgmoneta_mcp.Admin.{Ini, exists}
use pgmoneta_mcp.Admin.Files.{load_user_configuration_lem}
use pgmoneta_mcp.Admin.Console.{
  OutputFormat, AdminResponse, Shell, in_world, println, prompt_password, ask_twice,
  get_or_generate_password, choose_master_key, set_master_key, list_users, print_response,
  succeeded,
}

-- The file of the path is as before, also where the action fails.
abbrev pub Leaves : {A : Type 0} → Bytes → Action Shell A → Type 0
Leaves path m = (s : Shell) → (m s).1.world.files path ≡ s.world.files path

module _ (path : Bytes) where
  continue-Leaves :
      {A B : Type 0} (r : Result A) (f : A → Action Shell B)
      → ((a : A) → Leaves path (f a))
      → Leaves path (continue r f)
  continue-Leaves (ok a) f k s = k a s
  continue-Leaves (err e) f k s = refl

  >>=-Leaves :
      {A B : Type 0} (m : Action Shell A) (f : A → Action Shell B)
      → Leaves path m
      → ((a : A) → Leaves path (f a))
      → Leaves path (m >>= f)
  >>=-Leaves m f km kf s = let (r, t) = m s in continue-Leaves r f kf t ∙ km s

  in_world-Leaves : {A : Type 0} (m : Action World A) → Keeps path m → Leaves path (in_world m)
  in_world-Leaves m k s = k s.world

  prompt_password-Leaves : Leaves path prompt_password
  unfolding prompt_password
  prompt_password-Leaves s = ground arith

  ask_twice-Leaves : Leaves path ask_twice
  unfolding ask_twice
  ask_twice-Leaves =
      >>=-Leaves prompt_password _ prompt_password-Leaves
        λ pwd. >>=-Leaves prompt_password _ prompt_password-Leaves λ verify. same pwd verify
    where
      same :
          (pwd verify : Bytes)
          → Leaves path (
              if not (eq_bytes pwd verify)
              then (λ s. (err passwords_differ, s))
              else (λ s. (ok pwd, s)))
      same pwd verify s = ground arith

  generate_password-Keeps : (n : ℕ) → Keeps path (generate_password n)
  unfolding generate_password
  generate_password-Keeps n =
      >>=-Keeps path (try_fill_bytes n) _ (try_fill_bytes-Keeps path n) λ bytes w. refl

  generated-Leaves :
      (n : ℕ) (label : Bytes)
      → Leaves path
          (in_world (generate_password n) >>= λ g. println (label ++ g) >> (λ s. (ok g, s)))
  unfolding println
  generated-Leaves n label =
      >>=-Leaves (in_world (generate_password n)) _
        (in_world-Leaves (generate_password n) (generate_password-Keeps n)) λ g s. refl

  pub get_or_generate_password-Leaves :
      (password : Option Bytes) (generate : Bool) (n : ℕ)
      → Leaves path (get_or_generate_password password generate n)
  unfolding get_or_generate_password
  get_or_generate_password-Leaves (some pwd) generate n s = refl
  get_or_generate_password-Leaves none true n s =
      generated-Leaves n (codes "Generated password: ") s
  get_or_generate_password-Leaves none false n s = ask_twice-Leaves s

  choose_master_key-Leaves :
      (password : Option Bytes) (generate : Bool) (n : ℕ)
      → Leaves path (choose_master_key password generate n)
  unfolding choose_master_key
  choose_master_key-Leaves (some pwd) generate n s = refl
  choose_master_key-Leaves none true n s = generated-Leaves n (codes "Generated master key: ") s
  choose_master_key-Leaves none false n s = ask_twice-Leaves s

  write_to-Keeps :
      (r : Result Bytes) (content : Bytes)
      → ((k : Bytes) → r ≡ ok k → eq_bytes path k ≡ false)
      → Keeps path (lift r >>= λ k. write_file k content 0o600 >> set_permissions k 0o600)
  write_to-Keeps (err e) content other w = refl
  write_to-Keeps (ok k) content other w =
      >>=-Keeps path (write_file k content 0o600) _
        (write_file-Keeps path k content 0o600 (other k refl))
        (λ _. set_permissions-Keeps path k 0o600 (other k refl)) w

  write_master_key-Keeps :
      (util : SecurityUtil) (key salt : Bytes)
      → IsOther util path
      → Keeps path (write_master_key util key salt)
  unfolding write_master_key
  write_master_key-Keeps util key salt other = write_to-Keeps (key_path util) _ other

  module _ (to_string : AdminResponse → Result Bytes) where
    pub set_master_key-Leaves :
        (util : SecurityUtil) (password : Option Bytes) (generate : Bool) (n : ℕ)
        (format : OutputFormat)
        → IsOther util path
        → Leaves path (set_master_key to_string util password generate n format)
    unfolding set_master_key print_response
    set_master_key-Leaves util password generate n format other =
        >>=-Leaves (choose_master_key password generate n) _
          (choose_master_key-Leaves password generate n)
          λ key.
            >>=-Leaves (in_world (try_fill_bytes 16)) _
              (in_world-Leaves (try_fill_bytes 16) (try_fill_bytes-Keeps path 16))
              λ salt.
                >>=-Leaves (in_world (write_master_key util key salt)) _
                  (in_world-Leaves (write_master_key util key salt)
                    (write_master_key-Keeps util key salt other))
                  λ _ s. refl

    pub list_users-Leaves :
        (ini : Ini) (new_mode : ℕ) (p : Bytes) (format : OutputFormat)
        → Leaves path (list_users to_string ini new_mode p format)
    unfolding list_users succeeded print_response
    list_users-Leaves ini new_mode p format s = elim (Bool-cases (exists p s.world)) [
      | inr e ↦ rw (e, list_users) refl
      | inl e ↦
          rw (e, list_users)
            (>>=-Leaves (in_world (load_user_configuration ini.from_str p)) _
              (λ t.
                ap (λ (x : Result _ × World). x.1.files path)
                  (load_user_configuration_lem ini.from_str p t.world))
              (λ conf t. refl) s)
    ]
