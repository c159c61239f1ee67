-- ===== src/Admin/Login.antt =====
-- A password that src/bin/admin.rs stores is the one that src/client.rs logs in with.
use pgmoneta_mcp.Prelude.{ℕ, ◌≤◌, ◌≡◌, refl, sym, ap, ◌∙◌, Option, none, some, length, inl, inr}
use pgmoneta_mcp.Bytes.{Bytes, eq_bytes_refl}
use pgmoneta_mcp.Bytes.Utf8.{from_utf8}
use pgmoneta_mcp.Result.{Result, ok, err}
use pgmoneta_mcp.Libraries.{Libraries, AreSound}
use pgmoneta_mcp.Dict.{lookup}
use pgmoneta_mcp.Configuration.{Configuration}
use pgmoneta_mcp.World.{World}
use pgmoneta_mcp.Security.MasterKey.{SecurityUtil, KeyPair, load_master_key}
use pgmoneta_mcp.Security.Gcm.{max_ciphertext_b64_len}
use pgmoneta_mcp.Security.Gcm.RoundTrip.{IsValid}
use pgmoneta_mcp.Security.Gcm.Stored.{Opened, decrypt-encrypt_base64}
use pgmoneta_mcp.Security.Untouched.{IsOther}
use pgmoneta_mcp.Client.Request.{admin_of, password_of}
use pgmoneta_mcp.Admin.{Ini}
use pgmoneta_mcp.Admin.Registry.{Registry, update}
use pgmoneta_mcp.Admin.Stores.{Stores, Carries}
use pgmoneta_mcp.Admin.Changes.{Seals}
use pgmoneta_mcp.Admin.Console.{OutputFormat, AdminResponse, Shell}
use pgmoneta_mcp.Admin.Refinement.{Change, adds, edits, removes, Performs, perform, perform-Refines}

module _ (l : Libraries) (sound : AreSound l) (util : SecurityUtil) where
  -- The key file loads as this pair in a valid world.
  pub record Unlocks (master : KeyPair) (w : World) : Type 0 where
    pub opened : World
    pub loads : load_master_key util w ≡ (ok master, opened)
    pub valid : IsValid l.crypto opened

  Seals-password_of :
      (config : Configuration) (user password secret : Bytes) (master : KeyPair) (w u later : World)
      → Seals l util password secret w u
      → Unlocks master w
      → (first : Unlocks master later) → length secret ≤ max_ciphertext_b64_len
      → from_utf8 password ≡ ok password
      → lookup user config.admins ≡ some secret
      → Opened l sound password first.opened (password_of l util config user later)
  unfolding password_of admin_of
  Seals-password_of config user password secret master w u later (master', opened, loaded, sealed)
        before first small utf8 found =
      let same : ◌≡◌ {A = Result KeyPair × World} (ok master', opened) (ok master, before.opened) =
        sym loaded ∙ before.loads in
      let pair : master' ≡ master = ap (λ x. key_of x.0) same in
      let world : opened ≡ before.opened = ap (λ (x : Result KeyPair × World). x.1) same in
      let sealed' = rw (pair, world) at sealed in
      let ((cache, opens, faithful), _) =
        decrypt-encrypt_base64 l sound password master.password master.salt secret before.opened u
          first.opened before.valid sealed' small first.valid in
      (cache, rw (password_of, admin_of, found, first.loads, opens, utf8) refl, faithful)
    where
      key_of : Result KeyPair → KeyPair
      key_of (ok k) = k
      key_of (err e) = master

  -- The user whose password a change sets, and the password.
  abbrev pub sets : Change → Option (Bytes × Bytes)
  sets (adds user password) = some (user, password)
  sets (edits user password) = some (user, password)
  sets (removes user) = none

  stored_as :
      (name user secret : Bytes) (reg reg' : Registry)
      → name ≡ user
      → reg' ≡ update reg name (some secret)
      → reg' user ≡ some secret
  stored_as name user secret reg reg' same changed =
      ap (λ (r : Registry). r user) changed ∙ rw (same, eq_bytes_refl user) refl

  performed-password_of :
      (c : Change) (config : Configuration) (user password : Bytes) (master : KeyPair)
      (reg reg' : Registry) (w later : World)
      → sets c ≡ some (user, password)
      → Performs l util w c reg reg'
      → Unlocks master w
      → (first : Unlocks master later)
      → ((secret : Bytes) (u : World)
          → Seals l util password secret w u
          → length secret ≤ max_ciphertext_b64_len)
      → from_utf8 password ≡ ok password
      → lookup user config.admins ≡ reg' user
      → Opened l sound password first.opened (password_of l util config user later)
  performed-password_of (adds name given) config user password master reg reg' w later e
        (secret, (u, seals), was, changed) before first small utf8 found =
      let user_is : name ≡ user = cc in
      let given_is : given ≡ password = cc in
      let seals' = rw given_is at seals in
      let stored : reg' user ≡ some secret = stored_as name user secret reg reg' user_is changed in
      Seals-password_of config user password secret master w u later seals' before first
        (small secret u seals') utf8 (found ∙ stored)
  performed-password_of (edits name given) config user password master reg reg' w later e
        (secret, (u, seals), was, changed) before first small utf8 found =
      let user_is : name ≡ user = cc in
      let given_is : given ≡ password = cc in
      let seals' = rw given_is at seals in
      let stored : reg' user ≡ some secret = stored_as name user secret reg reg' user_is changed in
      Seals-password_of config user password secret master w u later seals' before first
        (small secret u seals') utf8 (found ∙ stored)
  performed-password_of (removes name) config user password master reg reg' w later e p before first
        small utf8 found =
      cc

  -- After a command that added or edited a user of a stored registry and succeeded, a client with the
  -- administrators that the users file stores decrypts the user's password to the one that was given: at
  -- most the cache of the world that the key file was loaded in changes. The path is not the one of the
  -- key file, the INI text of the changed registry is read back, the key file loads as the same pair in a
  -- valid world before and later, the password is UTF-8, and its stored form is within 1 MiB.
  pub perform-password_of :
      (to_string : AdminResponse → Result Bytes) (ini : Ini) (new_mode : ℕ) (path : Bytes)
      (format : OutputFormat) (c : Change) (reg : Registry) (s : Shell) (config : Configuration)
      (user password : Bytes) (master : KeyPair) (later : World)
      → sets c ≡ some (user, password)
      → IsOther util path
      → Stores ini path s.world reg
      → ((reg' : Registry) → Performs l util s.world c reg reg' → Carries ini reg')
      → Unlocks master s.world
      → (first : Unlocks master later)
      → ((secret : Bytes) (u : World)
          → Seals l util password secret s.world u
          → length secret ≤ max_ciphertext_b64_len)
      → from_utf8 password ≡ ok password
      → let (r, s') = perform l util to_string ini new_mode path format c s in
        ((reg' : Registry) → Stores ini path s'.world reg' → lookup user config.admins ≡ reg' user)
        → r ≡ ok tt
        → Opened l sound password first.opened (password_of l util config user later)
  perform-password_of to_string ini new_mode path format c reg s config user password master later e
        other stores carries before first small utf8 configured done =
      elim (perform-Refines l util to_string ini new_mode path format c reg s other stores
        carries) [
          | inl (r, reg', performs, stored) ↦
              performed-password_of c config user password master reg reg' s.world later e performs
                before first small utf8 (configured reg' stored)
          | inr (x, failed, rest, quiet) ↦ let clash = sym done ∙ failed in cc
        ]
