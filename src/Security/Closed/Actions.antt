-- ===== src/Security/Closed/Actions.antt =====
-- The actions of src/security.rs, one by one, in terms of the steps that they are built from.
use pgmoneta_mcp.Prelude.{ℕ, ◌+◌, ◌%◌, ◌≡◌, refl, not, take, drop, length, ltb, ◌==◌}
use pgmoneta_mcp.Bytes.{Bytes}
use pgmoneta_mcp.Bytes.Text.{lines}
use pgmoneta_mcp.Result.{Result, ok, err, ciphertext_too_large, not_enough_bytes, panicked}
use pgmoneta_mcp.Action.{Action, lift, ◌>>=◌, ◌>>◌}
use pgmoneta_mcp.Constant.Encryption
use pgmoneta_mcp.Libraries.{Libraries}
use pgmoneta_mcp.World.{World, metadata_mode, read_to_string, try_fill_bytes}
use pgmoneta_mcp.Security.MasterKey.{
  SecurityUtil, key_path, restrict, parse_lines, load_master_key, salt_len, nonce_len,
}
use pgmoneta_mcp.Security.Kdf.{derive_key_two_step}
use pgmoneta_mcp.Security.Gcm.{
  encrypt_to_base64_string, key_len_of, by_mode, seal_arm, open_arm, encrypt_text_aes_gcm,
  decrypt_text_aes_gcm, open_layout, decrypt_from_base64_string, encrypt_text_aes_gcm_bundle,
  decrypt_text_aes_gcm_bundle, max_ciphertext_b64_len,
}
use pgmoneta_mcp.Security.Closed.{Closed, if-Closed}

module _ (l : Libraries) (util : SecurityUtil) (P : (A : Type 0) → Action World A → Type 0)
    (closed : Closed l.crypto util P) where
  pub restrict-Closed : (k : Bytes) → key_path util ≡ ok k → P _ (restrict k)
  unfolding restrict
  restrict-Closed k key = closed.chained (metadata_mode k) _ (closed.permissions_read k) λ mode.
      if-Closed P (not ((mode % 0o1000) % 0o100 == 0)) _ _ (closed.key_restricted k key)
        (closed.lifted (ok tt))

  load_from-Closed :
      (r : Result Bytes)
      → ((k : Bytes) → r ≡ ok k → key_path util ≡ ok k)
      → P _ (
          lift r >>= λ k.
          restrict k
          >> (read_to_string k >>= λ content.
              lift (parse_lines util.base64_engine (lines content))))
  load_from-Closed (err e) key = closed.lifted (err e)
  load_from-Closed (ok k) key = closed.chained (restrict k) _ (restrict-Closed k (key k refl)) λ _.
      closed.chained (read_to_string k) _ (closed.file_read k)
        λ content. closed.lifted (parse_lines util.base64_engine (lines content))

  pub load_master_key-Closed : P _ (load_master_key util)
  unfolding load_master_key
  load_master_key-Closed = load_from-Closed (key_path util) (λ k h. h)

  encrypt_text_aes_gcm-Closed :
      (plain p s : Bytes) (mode : ℕ) → P _ (encrypt_text_aes_gcm l.crypto plain p s mode)
  unfolding encrypt_text_aes_gcm
  encrypt_text_aes_gcm-Closed plain p s mode =
      closed.chained (lift (key_len_of mode)) _ (closed.lifted (key_len_of mode)) λ n.
        closed.chained (try_fill_bytes salt_len) _ (closed.drawn salt_len) λ salt.
          closed.chained (try_fill_bytes nonce_len) _ (closed.drawn nonce_len) λ nonce.
            closed.chained (derive_key_two_step l.crypto p s salt n) _ (closed.derived p s salt n)
              λ key.
                let sealed = by_mode mode (seal_arm l.crypto key nonce plain) in
                closed.chained (lift sealed) _ (closed.lifted sealed) λ cipher. closed.lifted (ok _)

  pub encrypt_to_base64_string-Closed :
      (plain p s : Bytes) → P _ (encrypt_to_base64_string l plain p s)
  unfolding encrypt_to_base64_string
  encrypt_to_base64_string-Closed plain p s =
      closed.chained (encrypt_text_aes_gcm l.crypto plain p s Encryption.aes_256_gcm) _
        (encrypt_text_aes_gcm-Closed plain p s Encryption.aes_256_gcm) λ c. closed.lifted (ok _)

  open_layout-Closed : (bytes p s : Bytes) (mode : ℕ) → P _ (open_layout l bytes p s mode)
  unfolding open_layout decrypt_text_aes_gcm
  open_layout-Closed bytes p s mode =
      let nonce = take nonce_len (drop salt_len bytes) in
      let cipher = drop (salt_len + nonce_len) bytes in
      closed.chained (lift (key_len_of mode)) _ (closed.lifted (key_len_of mode)) λ n.
        closed.chained (derive_key_two_step l.crypto p s (take salt_len bytes) n) _
          (closed.derived p s (take salt_len bytes) n)
          λ key.
            if-Closed P (length nonce == nonce_len) _ _
              (closed.lifted (by_mode mode (open_arm l.crypto key nonce cipher)))
              (closed.lifted (err panicked))

  pub decrypt_from_base64_string-Closed :
      (cipher p s : Bytes) → P _ (decrypt_from_base64_string l cipher p s)
  unfolding decrypt_from_base64_string
  decrypt_from_base64_string-Closed cipher p s =
      if-Closed P (ltb max_ciphertext_b64_len (length cipher)) _ _
        (closed.lifted (err ciphertext_too_large))
        (closed.chained (lift (l.base64.decode cipher)) _ (closed.lifted (l.base64.decode cipher))
          λ bytes.
            if-Closed P (ltb (length bytes) (salt_len + nonce_len)) _ _
              (closed.lifted (err not_enough_bytes))
              (open_layout-Closed bytes p s Encryption.aes_256_gcm))

  pub encrypt_text_aes_gcm_bundle-Closed :
      (plain : Bytes) (mode : ℕ) → P _ (encrypt_text_aes_gcm_bundle l util plain mode)
  unfolding encrypt_text_aes_gcm_bundle
  encrypt_text_aes_gcm_bundle-Closed plain mode =
      closed.chained (load_master_key util) _ load_master_key-Closed λ master.
        closed.chained (encrypt_text_aes_gcm l.crypto plain master.password master.salt mode) _
          (encrypt_text_aes_gcm-Closed plain master.password master.salt mode)
          λ c. closed.lifted (ok _)

  pub decrypt_text_aes_gcm_bundle-Closed :
      (cipher : Bytes) (mode : ℕ) → P _ (decrypt_text_aes_gcm_bundle l util cipher mode)
  unfolding decrypt_text_aes_gcm_bundle
  decrypt_text_aes_gcm_bundle-Closed cipher mode =
      if-Closed P (ltb (length cipher) (salt_len + nonce_len)) _ _
        (closed.lifted (err not_enough_bytes))
        (closed.chained (load_master_key util) _ load_master_key-Closed
          λ master. open_layout-Closed cipher master.password master.salt mode)
