-- ===== src/Security/MasterKey/Reload.antt =====
-- What `load_master_key` of src/security.rs finds after `write_master_key`.
use pgmoneta_mcp.Prelude.{
  ℕ, ◌<◌, ◌≡◌, ◌≢◌, refl, Option, none, some, [], ◌∷◌, ◌++◌, length, arith, ◌==◌, All, All-append,
  if◌then◌else◌,
}
use pgmoneta_mcp.Bytes.{Bytes, IsByte, eq_bytes_refl}
use pgmoneta_mcp.Bytes.Utf8.{from_utf8, from_utf8-IsAscii}
use pgmoneta_mcp.Bytes.Text.{IsVisible→IsAscii, lines, trim-IsVisible, lines-IsVisible, lines-nil}
use pgmoneta_mcp.Result.{Result, ok, err, master_salt_length}
use pgmoneta_mcp.Libraries.{Base64, IsBase64}
use pgmoneta_mcp.World.{
  World, Node, file, directory, put_file, metadata_mode, set_permissions, read_to_string,
  write_file,
}
use pgmoneta_mcp.Security.MasterKey.{
  KeyPair, new_with_path, salt_len, parse_lines, restrict, load_master_key, write_master_key,
}

restrict-strict :
    (path text : Bytes) (w : World)
    → w.files path ≡ some (file text 0o600)
    → restrict path w ≡ (ok tt, w)
unfolding restrict metadata_mode
restrict-strict path text w e = ground arith

read_to_string-file :
    (path text : Bytes) (mode : ℕ) (w : World)
    → w.files path ≡ some (file text mode)
    → from_utf8 text ≡ ok text
    → read_to_string path w ≡ (ok text, w)
unfolding read_to_string
read_to_string-file path text mode w e valid = ground arith

set_permissions-file :
    (path text : Bytes) (old mode : ℕ) (w : World)
    → w.files path ≡ some (file text old)
    → set_permissions path mode w ≡ (ok tt, put_file path (file text mode) w)
unfolding set_permissions
set_permissions-file path text old mode w e = ground arith

write_file-plain :
    (path text : Bytes) (mode : ℕ) (w : World) (found : Option Node)
    → w.files path ≡ found
    → ((old : ℕ) → found ≢ some (directory old))
    → (kept : ℕ) × (write_file path text mode w ≡ (ok tt, put_file path (file text kept) w))
unfolding write_file
write_file-plain path text mode w none e plain = (mode, ground arith)
write_file-plain path text mode w (some (file t old)) e plain = (old, ground arith)
write_file-plain path text mode w (some (directory old)) e plain = absurd (plain old refl)

put_file_self : (path : Bytes) (n : Node) (w : World) → (put_file path n w).files path ≡ some n
put_file_self path n w = rw (eq_bytes_refl path)

module _ (engine : Base64) (b : IsBase64 engine) where
  -- The two lines that `write_master_key` writes.
  abbrev content : Bytes → Bytes → Bytes
  content key salt = engine.encode key ++ (10 ∷ (engine.encode salt ++ 10 ∷ []))

  from_utf8-content : (key salt : Bytes) → from_utf8 (content key salt) ≡ ok (content key salt)
  from_utf8-content key salt = from_utf8-IsAscii _ (
      All-append (λ c. c < 128) (engine.encode key) _ (IsVisible→IsAscii _ (b.encode-IsVisible key))
        (
          omega arith,
          All-append (λ c. c < 128) (engine.encode salt) _
              (IsVisible→IsAscii _ (b.encode-IsVisible salt)) (omega arith),
        ))

  lines-content :
      (key salt : Bytes) → lines (content key salt) ≡ engine.encode key ∷ engine.encode salt ∷ []
  lines-content key salt = rw (
    lines-IsVisible (engine.encode key) _ (b.encode-IsVisible key),
    lines-IsVisible (engine.encode salt) [] (b.encode-IsVisible salt),
    lines-nil,
  )

  -- The outcome of loading: the pair, if the salt has its length.
  abbrev pub loaded : Bytes → Bytes → Result KeyPair
  loaded key salt =
      if length salt == salt_len
      then ok (record { password = key; salt = salt })
      else err (master_salt_length (length salt))

  parse-content :
      (key salt : Bytes)
      → All IsByte key
      → All IsByte salt
      → parse_lines engine (lines (content key salt)) ≡ loaded key salt
  unfolding parse_lines
  parse-content key salt hk hs =
      rw
        (
          lines-content key salt,
          trim-IsVisible (engine.encode key) (b.encode-IsVisible key),
          trim-IsVisible (engine.encode salt) (b.encode-IsVisible salt),
          b.decode-encode key hk,
          b.decode-encode salt hs,
        )
        (ground arith)

  load-strict :
      (path key salt : Bytes) (w : World)
      → All IsByte key
      → All IsByte salt
      → w.files path ≡ some (file (content key salt) 0o600)
      → load_master_key (new_with_path engine path) w ≡ (loaded key salt, w)
  unfolding load_master_key new_with_path
  load-strict path key salt w hk hs e = rw (
    restrict-strict path (content key salt) w e,
    read_to_string-file path (content key salt) 0o600 w e (from_utf8-content key salt),
    parse-content key salt hk hs,
  )

  write-files :
      (path key salt : Bytes) (w : World)
      → ((mode : ℕ) → w.files path ≢ some (directory mode))
      → let (r, w') = write_master_key (new_with_path engine path) key salt w in
        (r ≡ ok tt) × (w'.files path ≡ some (file (content key salt) 0o600))
  unfolding write_master_key new_with_path
  write-files path key salt w plain =
      let text = content key salt in
      let (kept, e) = write_file-plain path text 0o600 w (w.files path) refl plain in
      let w' = put_file path (file text kept) w in
      rw (e, set_permissions-file path text kept 0o600 w' (put_file_self path _ w))
        (refl, put_file_self path _ w')

  -- Loading after a write gives the written key and salt back, with no error but the one for a salt
  -- that is not 16 bytes long; the key file is then readable by its owner only.
  pub load-write_master_key :
      (path key salt : Bytes) (w : World)
      → ((mode : ℕ) → w.files path ≢ some (directory mode))
      → All IsByte key
      → All IsByte salt
      → let util = new_with_path engine path in
        let (r, w') = write_master_key util key salt w in
        (r ≡ ok tt)
        × (load_master_key util w' ≡ (loaded key salt, w'))
        × (w'.files path ≡ some (file (content key salt) 0o600))
  load-write_master_key path key salt w plain hk hs =
      let (written, stored) = write-files path key salt w plain in
      (written, load-strict path key salt _ hk hs stored, stored)
