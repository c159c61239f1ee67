-- ===== src/Tests/Login.antt =====
-- A user that the commands of src/bin/admin.rs added, and the client of src/client.rs.
use pgmoneta_mcp.Prelude.{
  ◌+◌, ◌≤◌, ◌≡◌, refl, sym, ap, ◌∙◌, Option, none, some, List, [], ◌∷◌, inl, inr, length, arith,
}
use pgmoneta_mcp.Bytes.{Bytes, codes, eq_bytes}
use pgmoneta_mcp.Bytes.Utf8.{from_utf8, is_utf8}
use pgmoneta_mcp.Bytes.Text.{lines, trim}
use pgmoneta_mcp.Result.{Result, ok, err}
use pgmoneta_mcp.Configuration.{Configuration}
use pgmoneta_mcp.World.{World, file, metadata_mode, read_to_string, try_fill_bytes, write_file}
use pgmoneta_mcp.Security.MasterKey.{KeyPair, parse_lines, restrict, load_master_key, new_with_path}
use pgmoneta_mcp.Security.Kdf.{
  cached_key, derive_and_store, get_or_derive_master_key, derive_key_two_step,
}
use pgmoneta_mcp.Security.Gcm.{
  key_len_of, by_mode, seal_arm, encrypt_text_aes_gcm, encrypt_to_base64_string,
  max_ciphertext_b64_len,
}
use pgmoneta_mcp.Security.Gcm.RoundTrip.{IsValid}
use pgmoneta_mcp.Security.Gcm.Stored.{Opened}
use pgmoneta_mcp.Client.Request.{password_of}
use pgmoneta_mcp.Dict.{Dict, lookup}
use pgmoneta_mcp.Configuration.Files.{UserConf, load_user_configuration}
use pgmoneta_mcp.Admin.{admins, secret_of, conf_with, is_no_file, first_user, save, store_user}
use pgmoneta_mcp.Admin.Changes.{Seals}
use pgmoneta_mcp.Admin.Registry.{Registry, update, HasRegistry}
use pgmoneta_mcp.Admin.Stores.{Stores, stored_conf}
use pgmoneta_mcp.Admin.Files.{load_user_configuration_lem}
use pgmoneta_mcp.Admin.Console.{Shell, text, list_users, add_user, succeeded, print_response}
use pgmoneta_mcp.Admin.Refinement.{adds, perform}
use pgmoneta_mcp.Admin.Listing.{Lists, shown, list_users-Lists}
use pgmoneta_mcp.Admin.Login.{Unlocks, perform-password_of}
use pgmoneta_mcp.Tests.{
  libraries, libraries-AreSound, crypto, bytes_lem, same_bytes, encode, decode, key_world, key_salt,
  empty_world,
}
use pgmoneta_mcp.Tests.Requests as Requests
use pgmoneta_mcp.Tests.Users.{util, parsed_one, ini, no_users, shell, carries, other}

abbrev after : Result (Unit {0}) × Shell
after =
    perform libraries util (λ a. ok []) ini 0o644 (codes "/users") text
      (adds (codes "u") (codes "pw")) shell

abbrev sealed : Result Bytes × World
sealed = encrypt_to_base64_string libraries (codes "pw") (codes "secret") key_salt key_world

abbrev value_of : Result Bytes → Bytes
value_of (ok b) = b
value_of (err e) = []

sealed_length : length (value_of sealed.0) + 0 ≡ 60
unfolding encrypt_to_base64_string encrypt_text_aes_gcm same_bytes try_fill_bytes eq_bytes encode
    key_len_of by_mode seal_arm derive_key_two_step get_or_derive_master_key cached_key
    derive_and_store
sealed_length = refl

abbrev pub master : KeyPair
master = record { password = codes "secret"; salt = key_salt }

loads : load_master_key util key_world ≡ (ok master, key_world)
unfolding new_with_path load_master_key restrict metadata_mode read_to_string from_utf8 is_utf8
    lines trim parse_lines encode decode eq_bytes
loads = refl

key_world-IsValid : IsValid crypto key_world
key_world-IsValid = record { faithful = tt; bytes = bytes_lem key_world.entropy refl }

abbrev unlocks : Unlocks libraries libraries-AreSound util master key_world
unlocks = record { opened = key_world; loads = loads; valid = key_world-IsValid }

-- The client's configuration, with what the users file stores.
abbrev config : Configuration
config = record Requests.conf { admins = (codes "u", value_of sealed.0) ∷ [] }

stored_file : after.1.world.files (codes "/users") ≡ some (file (value_of sealed.0) 0o644)
unfolding new_with_path load_master_key restrict metadata_mode read_to_string from_utf8 is_utf8
    lines trim parse_lines encode decode eq_bytes encrypt_to_base64_string encrypt_text_aes_gcm
    same_bytes try_fill_bytes key_len_of by_mode seal_arm derive_key_two_step
    get_or_derive_master_key cached_key derive_and_store perform add_user store_user secret_of
    conf_with is_no_file first_user save write_file lookup succeeded print_response
stored_file = refl

done : after.0 ≡ ok tt
unfolding new_with_path load_master_key restrict metadata_mode read_to_string from_utf8 is_utf8
    lines trim parse_lines encode decode eq_bytes encrypt_to_base64_string encrypt_text_aes_gcm
    same_bytes try_fill_bytes key_len_of by_mode seal_arm derive_key_two_step
    get_or_derive_master_key cached_key derive_and_store perform add_user store_user secret_of
    conf_with is_no_file first_user save write_file lookup succeeded print_response
done = refl

sealed_is : sealed ≡ (ok (value_of sealed.0), sealed.1)
unfolding encrypt_to_base64_string encrypt_text_aes_gcm same_bytes try_fill_bytes eq_bytes encode
    key_len_of by_mode seal_arm derive_key_two_step get_or_derive_master_key cached_key
    derive_and_store
sealed_is = refl

sealed_utf8 : from_utf8 (value_of sealed.0) ≡ ok (value_of sealed.0)
unfolding encrypt_to_base64_string encrypt_text_aes_gcm same_bytes try_fill_bytes eq_bytes encode
    key_len_of by_mode seal_arm derive_key_two_step get_or_derive_master_key cached_key
    derive_and_store from_utf8 is_utf8
sealed_utf8 = refl

-- The users file loads as the one user.
users_load :
    load_user_configuration ini.from_str (codes "/users") after.1.world
    ≡ (ok ((admins, (codes "u", value_of sealed.0) ∷ []) ∷ []), after.1.world)
users_load =
    load_user_configuration_lem ini.from_str (codes "/users") after.1.world
    ∙ ap (λ (r : Result UserConf). (r, after.1.world)) (rw (stored_file, sealed_utf8) refl)

found_in : Bytes → Option (Dict Bytes) → Option Bytes
found_in u none = none
found_in u (some users) = lookup u users

found_admin :
    (v : Bytes) (reg : Registry)
    → HasRegistry ((admins, (codes "u", v) ∷ []) ∷ []) reg
    → lookup (codes "u") ((codes "u", v) ∷ []) ≡ reg (codes "u")
unfolding found_in lookup eq_bytes
found_admin v reg (users, section, h) = ap (found_in (codes "u")) section ∙ h (codes "u")

configured :
    (reg : Registry)
    → Stores ini (codes "/users") after.1.world reg
    → lookup (codes "u") config.admins ≡ reg (codes "u")
configured reg stores =
    found_admin (value_of sealed.0) reg
      (stored_conf ini (codes "/users") after.1.world reg _ stores users_load)

abbrev key_of : Result KeyPair → KeyPair
key_of (ok k) = k
key_of (err e) = master

small :
    (secret : Bytes) (u : World)
    → Seals libraries util (codes "pw") secret key_world u
    → length secret ≤ max_ciphertext_b64_len
small secret u (pair, opened, loaded, made) =
    let same : ◌≡◌ {A = Result KeyPair × World} (ok pair, opened) (ok master, key_world) =
      sym loaded ∙ loads in
    let pair_is : pair ≡ master = ap (λ x. key_of x.0) same in
    let world_is : opened ≡ key_world = ap (λ (x : Result KeyPair × World). x.1) same in
    let made' : sealed ≡ (ok secret, u) =
      ap
        (λ (x : KeyPair × World).
          encrypt_to_base64_string libraries (codes "pw") (x.0).password (x.0).salt x.1)
        (λ i. (sym pair_is i, sym world_is i))
      ∙ made in
    let secret_is : value_of sealed.0 ≡ secret =
      ap (λ (x : Result Bytes × World). value_of x.0) made' in
    omega (arith, sealed_length, ap length secret_is)

perform-password_of_example :
    Opened libraries libraries-AreSound
      (codes "pw")
      key_world
      (password_of libraries util config (codes "u") key_world)
unfolding eq_bytes from_utf8 is_utf8
perform-password_of_example =
    perform-password_of libraries libraries-AreSound util (λ a. ok []) ini 0o644 (codes "/users")
      text (adds (codes "u") (codes "pw")) no_users shell config (codes "u") (codes "pw") master
      key_world refl other (inl (refl, λ u. refl)) carries unlocks unlocks small refl configured
      done

abbrev one_user : Registry
one_user = update no_users (codes "u") (some (value_of sealed.0))

list_users-Lists_example :
    (users : List Bytes) × (list_users (λ a. ok []) ini 0o644 (codes "/users") text after.1
      ≡ (ok tt, shown (λ a. ok []) ini 0o644 (codes "/users") text users after.1))
    × Lists users one_user
list_users-Lists_example =
    list_users-Lists (λ a. ok []) ini 0o644 (codes "/users") text one_user after.1
      (inr (_, users_load, parsed_one (value_of sealed.0) (value_of sealed.0) refl))

-- A key that is typed twice.
abbrev before : Shell
before = record { world = empty_world; typed = codes "secret" ∷ codes "secret" ∷ []; printed = [] }
