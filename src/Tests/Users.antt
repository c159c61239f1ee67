-- ===== src/Tests/Users.antt =====
-- The commands of src/bin/admin.rs on a concrete users file.
use pgmoneta_mcp.Prelude.{
  false, ◌≡◌, ◌⊎◌, refl, sym, ap, ◌∙◌, Option, none, some, [], ◌∷◌, inl, if◌then◌else◌,
}
use pgmoneta_mcp.Bytes.{Bytes, codes, eq_bytes}
use pgmoneta_mcp.Bytes.Utf8.{from_utf8, from_utf8-eq-ok}
use pgmoneta_mcp.Result.{Result, ok, err, io, Error}
use pgmoneta_mcp.Dict.{Dict, lookup, insert, without}
use pgmoneta_mcp.Configuration.Files.{UserConf}
use pgmoneta_mcp.Security.MasterKey.{SecurityUtil, new_with_path, key_path}
use pgmoneta_mcp.Security.Untouched.{IsOther}
use pgmoneta_mcp.Admin.{Ini, without_user, admins}
use pgmoneta_mcp.Admin.Console.{listed_users, Args, add, user, main, Shell, text}
use pgmoneta_mcp.Admin.Registry.{Registry, update, HasRegistry}
use pgmoneta_mcp.Admin.Stores.{Stores, Carries}
use pgmoneta_mcp.Dict.Table.{names}
use pgmoneta_mcp.Admin.Tables.{removing, Allows, on_table, admins_table, edited-Table}
use pgmoneta_mcp.Admin.Run.{Asked, Ran, main-Ran}
use pgmoneta_mcp.Admin.Refinement.{Change, edits, removes, adds, Performs, perform, perform-Refines}
use pgmoneta_mcp.Tests.{libraries, engine, key_world}

abbrev pub util : SecurityUtil
unfolding new_with_path
util = new_with_path engine (codes "/k")

-- The files of the user "u", which hold the stored password alone.
abbrev stored_password : Option Bytes → Result Bytes
stored_password none = err io
stored_password (some v) = from_utf8 v

abbrev print_admin : Option (Dict Bytes) → Result Bytes
print_admin none = err io
print_admin (some users) = stored_password (lookup (codes "u") users)

abbrev pub ini : Ini
ini = record {
  from_str = λ t. ok ((admins, (codes "u", t) ∷ []) ∷ []);
  to_string = λ conf. print_admin (lookup admins conf);
}

abbrev pub no_users : Registry
no_users u = none

printed_one :
    (v t : Bytes) (conf : UserConf)
    → HasRegistry conf (update no_users (codes "u") (some v))
    → ini.to_string conf ≡ ok t
    → from_utf8 v ≡ ok t
unfolding eq_bytes
printed_one v t conf (users, section, h) printed =
    ap stored_password (sym (h (codes "u"))) ∙ ap print_admin (sym section) ∙ printed

pub parsed_one :
    (v t : Bytes)
    → t ≡ v
    → HasRegistry ((admins, (codes "u", t) ∷ []) ∷ []) (update no_users (codes "u") (some v))
unfolding lookup eq_bytes
parsed_one v t e =
    ((codes "u", t) ∷ [], refl, λ u. ap (λ x. if eq_bytes (codes "u") u then some x else none) e)

-- A registry of "u" alone is carried.
Carries-one : (v : Bytes) → Carries ini (update no_users (codes "u") (some v))
Carries-one v conf t holds printed =
    let found = printed_one v t conf holds printed in
    let same : t ≡ v = from_utf8-eq-ok v found in
    (ap from_utf8 same ∙ found, (admins, (codes "u", t) ∷ []) ∷ [], refl, parsed_one v t same)

abbrev pub shell : Shell
shell = record { world = key_world; typed = []; printed = [] }

pub carries :
    (reg' : Registry)
    → Performs libraries util key_world (adds (codes "u") (codes "pw")) no_users reg'
    → Carries ini reg'
carries reg' (secret, seals, was, changed) = rw changed (Carries-one secret)

key_is : (k : Bytes) → key_path util ≡ ok k → codes "/k" ≡ k
unfolding new_with_path
key_is k h = cc

pub other : IsOther util (codes "/users")
unfolding new_with_path eq_bytes
other k h = rw (sym (key_is k h)) refl

perform-Refines_example :
    let (r, s') =
      perform libraries util
        (λ a. ok [])
        ini
        0o644
        (codes "/users")
        text
        (adds (codes "u") (codes "pw"))
        shell in
    ((r ≡ ok tt)
      × (reg' : Registry) × Performs libraries util key_world
          (adds (codes "u") (codes "pw"))
          no_users
          reg'
      × Stores ini (codes "/users") s'.world reg')
    ⊎ ((e : Error) × (r ≡ err e)
        × Stores ini (codes "/users") s'.world no_users
        × (s'.printed ≡ shell.printed))
unfolding eq_bytes
perform-Refines_example =
    perform-Refines libraries util (λ a. ok []) ini 0o644 (codes "/users") text
      (adds (codes "u") (codes "pw")) no_users shell other (inl (refl, λ u. refl)) carries

abbrev args : Args
args = record {
  file = some (codes "/users");
  user = some (codes "u");
  password = some (codes "pw");
  generate = false;
  length = 64;
  format = text;
  command = user add;
}

Carries-Asked :
    (c : Change) (t : Shell) (reg' : Registry)
    → Asked args shell c t
    → Performs libraries util t.world c no_users reg'
    → Carries ini reg'
Carries-Asked (adds name password) t reg' (command, given, chosen) (secret, seals, was, changed) =
    let same : name ≡ codes "u" = cc in rw (changed, same) (Carries-one secret)
Carries-Asked (edits name password) t reg' (command, given, chosen) p = cc
Carries-Asked (removes name) t reg' (command, given, same) p = cc

main-Ran_example :
    Ran
      (λ a. ok [])
      ini
      0o644
      libraries
      util
      args
      (codes "/users")
      no_users
      shell
      (main (λ a. ok []) ini 0o644 libraries util args shell)
unfolding eq_bytes
main-Ran_example =
    main-Ran (λ a. ok []) ini 0o644 libraries util args (codes "/users") no_users shell refl other
      (inl (refl, λ u. refl)) Carries-Asked

-- The section with "u" and "v", from which "u" is removed.
abbrev two_users : UserConf
two_users = (admins, (codes "v", codes "2") ∷ (codes "u", codes "1") ∷ []) ∷ []

abbrev one_left : UserConf
one_left = (admins, (codes "v", codes "2") ∷ []) ∷ []

removed : without_user (codes "u") two_users ≡ ok one_left
unfolding without_user lookup insert without eq_bytes
removed = refl

edited-Table_example :
    Allows (removing (codes "u")) (admins_table two_users)
    × (admins_table one_left ≡ on_table (removing (codes "u")) (admins_table two_users))
    × (listed_users one_left ≡ names (on_table (removing (codes "u")) (admins_table two_users)))
edited-Table_example = edited-Table (removing (codes "u")) two_users one_left removed
