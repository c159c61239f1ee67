-- ===== src/Admin/Console.antt =====
-- The commands of src/bin/admin.rs with what they ask for and print on the terminal. Passwords are
-- typed without an echo; `typed` holds the answers to come, and `printed` the lines so far.
use pgmoneta_mcp.Prelude.{
  ℕ, Bool, true, false, not, Option, none, some, List, [], ◌∷◌, ◌++◌, map, if◌then◌else◌,
}
use pgmoneta_mcp.Bytes.{Bytes, codes, eq_bytes}
use pgmoneta_mcp.Result.{Result, ok, err, io, passwords_differ, missing_argument}
use pgmoneta_mcp.Action.{Action, pure, lift, raise, ◌>>=◌, ◌>>◌}
use pgmoneta_mcp.Dict.{lookup, keys}
use pgmoneta_mcp.Dict.Sort.{sort}
use pgmoneta_mcp.Libraries.{Libraries}
use pgmoneta_mcp.Configuration.Files.{UserConf, load_user_configuration}
use pgmoneta_mcp.World.{World, try_fill_bytes}
use pgmoneta_mcp.Security.MasterKey.{SecurityUtil, write_master_key}
use pgmoneta_mcp.Security.Password.{generate_password}
use pgmoneta_mcp.Admin.{Ini, admins, exists, drop_user, store_user, change_user}

pub data OutputFormat : Type 0 where
  text json : OutputFormat

pub record AdminResponse : Type 0 where
  pub command : Bytes
  pub outcome : Bytes
  pub users : Option (List Bytes)
  pub generated_password : Option Bytes

pub data UserAction : Type 0 where
  add del edit ls : UserAction

pub data Commands : Type 0 where
  master_key : Commands
  user : UserAction → Commands

pub record Args : Type 0 where
  pub file : Option Bytes
  pub user : Option Bytes
  pub password : Option Bytes
  pub generate : Bool
  pub length : ℕ
  pub format : OutputFormat
  pub command : Commands

pub record Shell : Type 0 where
  pub world : World
  pub typed : List Bytes
  pub printed : List Bytes

abbrev pub in_world : {A : Type 0} → Action World A → Action Shell A
in_world m s = let (r, w) = m s.world in (r, record s { world = w })

unfoldable pub println : Bytes → Action Shell (Unit {0})
println line s = (ok tt, record s { printed = s.printed ++ line ∷ [] })

abbrev pub next_answer : List Bytes → Shell → Result Bytes × Shell
next_answer [] s = (err io, s)
next_answer (answer ∷ typed) s = (ok answer, record s { typed = typed })

unfoldable pub prompt_password : Action Shell Bytes
prompt_password s = next_answer s.typed s

abbrev pub user_lines : List Bytes → List Bytes
user_lines [] = []
user_lines (u ∷ us) = codes "Users:" ∷ map (λ name. codes "  - " ++ name) (u ∷ us)

abbrev pub shown_users : Option (List Bytes) → List Bytes
shown_users none = []
shown_users (some us) = user_lines us

abbrev pub shown_password : Option Bytes → List Bytes
shown_password none = []
shown_password (some pwd) = (codes "Generated password: " ++ pwd) ∷ []

-- The lines of a response; a JSON text that cannot be made prints nothing.
unfoldable pub response_lines :
    (AdminResponse → Result Bytes) → OutputFormat → AdminResponse → List Bytes
response_lines to_string json response = elim (to_string response) [ ok t ↦ t ∷ [] | err e ↦ [] ]
response_lines to_string text response =
    (codes "Command: " ++ response.command)
    ∷ (codes "Outcome: " ++ response.outcome)
    ∷ (shown_users response.users ++ shown_password response.generated_password)

-- Asked twice, a password must be the same.
unfoldable pub ask_twice : Action Shell Bytes
ask_twice = do
  pwd ← prompt_password
  verify ← prompt_password
  if not (eq_bytes pwd verify) then raise passwords_differ else pure pwd

-- `ok_or_else` on an argument of the command line.
unfoldable pub required : Bytes → Option Bytes → Result Bytes
required name none = err (missing_argument name)
required name (some value) = ok value

-- The users that `list_users` shows.
unfoldable pub listed_users : UserConf → List Bytes
listed_users conf = elim (lookup admins conf) [ none ↦ [] | some user_conf ↦ sort (keys user_conf) ]

-- The master key of the command line, a generated one, or one that is typed.
unfoldable pub choose_master_key : Option Bytes → Bool → ℕ → Action Shell Bytes
choose_master_key (some pwd) generate n = pure pwd
choose_master_key none true n = do
  final_password ← in_world (generate_password n)
  println (codes "Generated master key: " ++ final_password)
  pure final_password
choose_master_key none false n = ask_twice

-- The password of the command line, a generated one that is printed, or one that is typed.
unfoldable pub get_or_generate_password : Option Bytes → Bool → ℕ → Action Shell Bytes
get_or_generate_password (some pwd) generate n = pure pwd
get_or_generate_password none true n = do
  generated ← in_world (generate_password n)
  println (codes "Generated password: " ++ generated)
  pure generated
get_or_generate_password none false n = ask_twice

module _ (to_string_pretty : AdminResponse → Result Bytes) where
  unfoldable pub print_response : OutputFormat → AdminResponse → Action Shell (Unit {0})
  print_response format response s =
      (ok tt, record s { printed = s.printed ++ response_lines to_string_pretty format response })

  -- The response of the commands that succeed on one user.
  unfoldable pub succeeded : OutputFormat → Bytes → List Bytes → Action Shell (Unit {0})
  succeeded format command users = print_response format (record {
    command = command;
    outcome = codes "success";
    users = some users;
    generated_password = none;
  })

  -- The salt is drawn from the random bytes of the world like all others.
  unfoldable pub set_master_key :
      SecurityUtil → Option Bytes → Bool → ℕ → OutputFormat → Action Shell (Unit {0})
  set_master_key util password generate n format = do
    final_password ← choose_master_key password generate n
    salt ← in_world (try_fill_bytes 16)
    in_world (write_master_key util final_password salt)
    print_response format (record {
      command = codes "master-key";
      outcome = codes "success";
      users = none;
      generated_password = if generate then some final_password else none;
    })

  module _ (ini : Ini) (new_mode : ℕ) where
    unfoldable pub remove_user : Bytes → Bytes → OutputFormat → Action Shell (Unit {0})
    remove_user path name format = do
      in_world (drop_user ini new_mode path name)
      succeeded format (codes "user del") (name ∷ [])

    -- A file that is not there has no users.
    unfoldable pub list_users : Bytes → OutputFormat → Action Shell (Unit {0})
    list_users path format s =
        if exists path s.world
        then (do
          conf ← in_world (load_user_configuration ini.from_str path)
          succeeded format (codes "user ls") (listed_users conf))
            s
        else succeeded format (codes "user ls") [] s

    module _ (l : Libraries) (util : SecurityUtil) where
      unfoldable pub add_user : Bytes → Bytes → Bytes → OutputFormat → Action Shell (Unit {0})
      add_user path name password format = do
        in_world (store_user ini new_mode l util path name password)
        succeeded format (codes "user add") (name ∷ [])

      unfoldable pub edit_user : Bytes → Bytes → Bytes → OutputFormat → Action Shell (Unit {0})
      edit_user path name password format = do
        in_world (change_user ini new_mode l util path name password)
        succeeded format (codes "user edit") (name ∷ [])

      -- The arm of `main` for an action on the users file.
      unfoldable pub user_action : Args → Bytes → UserAction → Action Shell (Unit {0})
      user_action args path add = do
        name ← lift (required (codes "--user") args.user)
        password ← get_or_generate_password args.password args.generate args.length
        add_user path name password args.format
      user_action args path del = do
        name ← lift (required (codes "--user") args.user)
        remove_user path name args.format
      user_action args path edit = do
        name ← lift (required (codes "--user") args.user)
        password ← get_or_generate_password args.password args.generate args.length
        edit_user path name password args.format
      user_action args path ls = list_users path args.format

      unfoldable pub run_command : Args → Commands → Action Shell (Unit {0})
      run_command args master_key =
          set_master_key util args.password args.generate args.length args.format
      run_command args (user action) = do
        path ← lift (required (codes "--file") args.file)
        user_action args path action

      unfoldable pub main : Args → Action Shell (Unit {0})
      main args = run_command args args.command
