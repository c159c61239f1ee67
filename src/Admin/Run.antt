-- ===== src/Admin/Run.antt =====
-- `main` of src/bin/admin.rs: what becomes of a users file under any command line.
use mathlib.Core.Path.{subst}
use pgmoneta_mcp.Prelude.{ℕ, ◌≡◌, ◌⊎◌, refl, Option, none, some, inl, inr}
use pgmoneta_mcp.Bytes.{Bytes, codes}
use pgmoneta_mcp.Result.{Result, ok, err, Error}
use pgmoneta_mcp.Action.{continue, ◌>>=◌}
use pgmoneta_mcp.Libraries.{Libraries}
use pgmoneta_mcp.Security.MasterKey.{SecurityUtil}
use pgmoneta_mcp.Security.Untouched.{IsOther}
use pgmoneta_mcp.Admin.{Ini}
use pgmoneta_mcp.Admin.Registry.{Registry}
use pgmoneta_mcp.Admin.Stores.{Stores, Carries, Stores-same}
use pgmoneta_mcp.Admin.Quiet.{
  get_or_generate_password-Leaves, set_master_key-Leaves, list_users-Leaves,
}
use pgmoneta_mcp.Admin.Refinement.{Change, adds, edits, removes, Performs, perform, perform-Refines}
use pgmoneta_mcp.Admin.Console.{
  AdminResponse, UserAction, add, del, edit, ls, Commands, master_key, user, Args, Shell, required,
  get_or_generate_password, remove_user, add_user, edit_user, user_action, run_command, main,
}

-- The change that the arguments ask for, and the shell in which it starts: the password is the one of the
-- command line, a generated one or one that was typed twice.
abbrev pub Asked : Args → Shell → Change → Shell → Type 0
Asked args s (adds name password) t =
    (args.command ≡ user add)
    × (args.user ≡ some name)
    × (get_or_generate_password args.password args.generate args.length s ≡ (ok password, t))
Asked args s (edits name password) t =
    (args.command ≡ user edit)
    × (args.user ≡ some name)
    × (get_or_generate_password args.password args.generate args.length s ≡ (ok password, t))
Asked args s (removes name) t = (args.command ≡ user del) × (args.user ≡ some name) × (t ≡ s)

-- The commands that do not change the users.
abbrev pub ReadsOnly : Commands → Type 0
ReadsOnly c = (c ≡ master_key) ⊎ (c ≡ user ls)

module _ (to_string : AdminResponse → Result Bytes) (ini : Ini) (new_mode : ℕ) (l : Libraries)
    (util : SecurityUtil) (args : Args) (path : Bytes) (reg : Registry) (s : Shell) where
  -- The program made the change that was asked for; or the file stores the registry as before, and the
  -- program failed or was asked for no change.
  abbrev pub Ran : Result (Unit {0}) × Shell → Type 0
  Ran out =
      ((out.0 ≡ ok tt)
        × (c : Change) × (t : Shell) × (reg' : Registry) × Asked args s c t
        × Performs l util t.world c reg reg'
        × Stores ini path out.1.world reg')
      ⊎ (Stores ini path out.1.world reg
          × (((e : Error) × (out.0 ≡ err e)) ⊎ ReadsOnly args.command))

  module _ (other : IsOther util path) (stores : Stores ini path s.world reg)
      (carries : (c : Change) (t : Shell) (reg' : Registry)
        → Asked args s c t
        → Performs l util t.world c reg reg'
        → Carries ini reg') where
    performed :
        (c : Change) (t : Shell)
        → t.world.files path ≡ s.world.files path
        → Asked args s c t
        → Ran (perform l util to_string ini new_mode path args.format c t)
    performed c t kept asked =
        elim (perform-Refines l util to_string ini new_mode path args.format c reg t other
          (Stores-same ini path s.world t.world reg kept stores) (λ reg'. carries c t reg' asked)) [
            | inl (r, reg', performs, stored) ↦ inl (r, c, t, reg', asked, performs, stored)
            | inr (e, r, stored, quiet) ↦ inr (stored, inl (e, r))
          ]

    -- A password, then the change that it is for.
    with_password_chosen :
        (change : Bytes → Change)
        → ((p : Bytes) (t : Shell)
            → get_or_generate_password args.password args.generate args.length s ≡ (ok p, t)
            → Asked args s (change p) t)
        → Ran (
            (get_or_generate_password args.password args.generate args.length >>= λ p.
            perform l util to_string ini new_mode path args.format (change p))
              s)
    with_password_chosen change asked =
        let (r, t) = get_or_generate_password args.password args.generate args.length s in
        by_password r t refl
          (get_or_generate_password-Leaves path args.password args.generate args.length s)
      where
        by_password :
            (r : Result Bytes) (t : Shell)
            → get_or_generate_password args.password args.generate args.length s ≡ (r, t)
            → t.world.files path ≡ s.world.files path
            → Ran (
                continue r
                  (λ p. perform l util to_string ini new_mode path args.format (change p))
                  t)
        by_password (ok p) t e kept = performed (change p) t kept (asked p t e)
        by_password (err x) t e kept =
            inr (Stores-same ini path s.world t.world reg kept stores, inl (x, refl))

    by_action :
        (a : UserAction)
        → args.command ≡ user a
        → Ran (user_action to_string ini new_mode l util args path a s)
    unfolding user_action required perform
    by_action add asked = by_user args.user refl
      where
        by_user :
            (u : Option Bytes)
            → args.user ≡ u
            → Ran (
                continue
                  (required (codes "--user") u)
                  (λ name.
                    get_or_generate_password args.password args.generate args.length >>= λ password.
                    add_user to_string ini new_mode l util path name password args.format)
                  s)
        by_user none e = inr (stores, inl (_, refl))
        by_user (some name) e = with_password_chosen (adds name) (λ p t chosen. (asked, e, chosen))
    by_action edit asked = by_user args.user refl
      where
        by_user :
            (u : Option Bytes)
            → args.user ≡ u
            → Ran (
                continue
                  (required (codes "--user") u)
                  (λ name.
                    get_or_generate_password args.password args.generate args.length >>= λ password.
                    edit_user to_string ini new_mode l util path name password args.format)
                  s)
        by_user none e = inr (stores, inl (_, refl))
        by_user (some name) e = with_password_chosen (edits name) (λ p t chosen. (asked, e, chosen))
    by_action del asked = by_user args.user refl
      where
        by_user :
            (u : Option Bytes)
            → args.user ≡ u
            → Ran (
                continue
                  (required (codes "--user") u)
                  (λ name. remove_user to_string ini new_mode path name args.format)
                  s)
        by_user none e = inr (stores, inl (_, refl))
        by_user (some name) e = performed (removes name) s refl (asked, e, refl)
    by_action ls asked = inr (
      Stores-same ini path s.world _ reg
          (list_users-Leaves path to_string ini new_mode path args.format s) stores,
      inr (inr asked),
    )

    by_file :
        (action : UserAction) (f : Option Bytes)
        → f ≡ some path
        → args.command ≡ user action
        → Ran (
            continue
              (required (codes "--file") f)
              (λ p. user_action to_string ini new_mode l util args p action)
              s)
    unfolding required
    by_file action none e asked = cc
    by_file action (some p) e asked =
        let same : path ≡ p = cc in
        subst (λ x. Ran (user_action to_string ini new_mode l util args x action s)) same
          (by_action action asked)

    by_command :
        (c : Commands)
        → args.command ≡ c
        → args.file ≡ some path
        → Ran (run_command to_string ini new_mode l util args c s)
    unfolding run_command
    by_command master_key asked file = inr (
      Stores-same ini path s.world _ reg
          (set_master_key-Leaves path to_string util args.password args.generate args.length
            args.format other s)
          stores,
      inr (inl asked),
    )
    by_command (user action) asked file = by_file action args.file file asked

  -- Whatever the arguments are, a run of the program on a stored registry makes the one change of it that
  -- they ask for, or leaves it as it was; it leaves it as it was only where it fails, or where the command
  -- is to list the users or to set the master key. The path is the one of the arguments and not the one of
  -- the key file, and the INI text of a changed registry is read back.
  pub main-Ran :
      args.file ≡ some path
      → IsOther util path
      → Stores ini path s.world reg
      → ((c : Change) (t : Shell) (reg' : Registry)
          → Asked args s c t
          → Performs l util t.world c reg reg'
          → Carries ini reg')
      → Ran (main to_string ini new_mode l util args s)
  unfolding main
  main-Ran file other stores carries = by_command other stores carries args.command refl file
