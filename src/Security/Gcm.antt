-- ===== src/Security/Gcm.antt =====
-- AES-GCM with derived keys in src/security.rs: the two primitives, the stored base64 form, and the
-- bundle that travels over the wire. A bundle is 16 bytes of salt, 12 of nonce, then the ciphertext.
pub mod Arms
pub mod RoundTrip
pub mod Stored
use pgmoneta_mcp.Prelude.{ℕ, ◌+◌, ◌*◌, ◌++◌, length, take, drop, ltb, ◌==◌, if◌then◌else◌}
use pgmoneta_mcp.Bytes.{Bytes}
use pgmoneta_mcp.Result.{
  Result, ok, err, map_err, Error, unsupported_encryption_mode, key_initialization_failed,
  aes_encryption_failed, aes_decryption_failed, ciphertext_too_large, not_enough_bytes, panicked,
}
use pgmoneta_mcp.Result
use pgmoneta_mcp.Action.{Action, pure, lift, raise, ◌>>=◌, ◌>>◌}
use pgmoneta_mcp.Libraries.{Libraries, Crypto, Aes, aes_128_gcm, aes_192_gcm, aes_256_gcm}
use pgmoneta_mcp.Constant.Encryption
use pgmoneta_mcp.World.{World, try_fill_bytes}
use pgmoneta_mcp.Security.MasterKey.{SecurityUtil, salt_len, nonce_len, load_master_key}
use pgmoneta_mcp.Security.Kdf.{derive_key_two_step}

abbrev pub max_ciphertext_b64_len : ℕ
max_ciphertext_b64_len = 1024 * 1024

-- The ciphertext with the random nonce and salt that it was made with.
pub record Sealed : Type 0 where
  pub cipher_text : Bytes
  pub nonce_bytes : Bytes
  pub salt : Bytes

-- `salt + nonce + cipher text`
abbrev pub layout : Sealed → Bytes
layout c = c.salt ++ (c.nonce_bytes ++ c.cipher_text)

unfoldable pub key_len_of : ℕ → Result ℕ
key_len_of mode =
    if mode == Encryption.aes_128_gcm
    then ok 16
    else if mode == Encryption.aes_192_gcm
    then ok 24
    else if mode == Encryption.aes_256_gcm
    then ok 32
    else err (unsupported_encryption_mode mode)

-- The arms of the second match share this shape, at the cipher type of the mode.
unfoldable pub by_mode : ℕ → (Aes → Result Bytes) → Result Bytes
by_mode mode run =
    if mode == Encryption.aes_128_gcm
    then run aes_128_gcm
    else if mode == Encryption.aes_192_gcm
    then run aes_192_gcm
    else if mode == Encryption.aes_256_gcm
    then run aes_256_gcm
    else err (unsupported_encryption_mode mode)

module _ (crypto : Crypto) where
  unfoldable pub seal_arm : Bytes → Bytes → Bytes → Aes → Result Bytes
  seal_arm key nonce plaintext aes =
      Result.◌>>=◌ (map_err key_initialization_failed (crypto.new_from_slice aes key))
        λ _. map_err aes_encryption_failed (crypto.encrypt aes key nonce plaintext)

  unfoldable pub open_arm : Bytes → Bytes → Bytes → Aes → Result Bytes
  open_arm key nonce ciphertext aes =
      Result.◌>>=◌ (map_err key_initialization_failed (crypto.new_from_slice aes key))
        λ _. map_err aes_decryption_failed (crypto.decrypt aes key nonce ciphertext)

  unfoldable pub encrypt_text_aes_gcm : Bytes → Bytes → Bytes → ℕ → Action World Sealed
  encrypt_text_aes_gcm plaintext master_password master_salt mode = do
    key_len ← lift (key_len_of mode)
    salt ← try_fill_bytes salt_len
    nonce ← try_fill_bytes nonce_len
    key ← derive_key_two_step crypto master_password master_salt salt key_len
    cipher_text ← lift (by_mode mode (seal_arm key nonce plaintext))
    pure (record { cipher_text = cipher_text; nonce_bytes = nonce; salt = salt })

  -- `Nonce::from_slice` panics on a slice that is not 12 bytes long.
  unfoldable pub decrypt_text_aes_gcm :
      Bytes → Bytes → Bytes → Bytes → Bytes → ℕ → Action World Bytes
  decrypt_text_aes_gcm ciphertext master_password master_salt nonce_bytes file_salt mode = do
    key_len ← lift (key_len_of mode)
    key ← derive_key_two_step crypto master_password master_salt file_salt key_len
    if length nonce_bytes == nonce_len
        then lift (by_mode mode (open_arm key nonce_bytes ciphertext))
        else raise panicked

module _ (l : Libraries) where
  unfoldable pub encrypt_to_base64_string : Bytes → Bytes → Bytes → Action World Bytes
  encrypt_to_base64_string plain_text master_password master_salt = do
    c ← encrypt_text_aes_gcm l.crypto plain_text master_password master_salt Encryption.aes_256_gcm
    pure (l.base64.encode (layout c))

  -- The parts of a bundle, and its decryption.
  unfoldable pub open_layout : Bytes → Bytes → Bytes → ℕ → Action World Bytes
  open_layout bytes master_password master_salt mode =
      decrypt_text_aes_gcm l.crypto (drop (salt_len + nonce_len) bytes) master_password master_salt
        (take nonce_len (drop salt_len bytes)) (take salt_len bytes) mode

  unfoldable pub decrypt_from_base64_string : Bytes → Bytes → Bytes → Action World Bytes
  decrypt_from_base64_string cipher_text master_password master_salt =
      if ltb max_ciphertext_b64_len (length cipher_text) then raise ciphertext_too_large else do
        bytes ← lift (l.base64.decode cipher_text)
        if ltb (length bytes) (salt_len + nonce_len)
            then raise not_enough_bytes
            else open_layout bytes master_password master_salt Encryption.aes_256_gcm

  unfoldable pub encrypt_text_aes_gcm_bundle : SecurityUtil → Bytes → ℕ → Action World Bytes
  encrypt_text_aes_gcm_bundle util plaintext mode = do
    master ← load_master_key util
    c ← encrypt_text_aes_gcm l.crypto plaintext master.password master.salt mode
    pure (layout c)

  unfoldable pub decrypt_text_aes_gcm_bundle : SecurityUtil → Bytes → ℕ → Action World Bytes
  decrypt_text_aes_gcm_bundle util ciphertext mode =
      if ltb (length ciphertext) (salt_len + nonce_len)
      then raise not_enough_bytes
      else do master ← load_master_key util; open_layout ciphertext master.password master.salt mode
