-- ===== src/Security/Gcm/Stored.antt =====
-- The two stored forms of src/security.rs read back: the base64 text of a password, and the bundle.
use pgmoneta_mcp.Prelude.{
  ℕ, ◌+◌, ◌≤◌, ◌≡◌, ◌++◌, append_assoc, length, length-append, take, drop, take-append, drop-append,
  le→ltb, arith, Option, All, All-append,
}
use pgmoneta_mcp.Bytes.{Bytes, IsByte}
use pgmoneta_mcp.Result.{Result, ok}
use pgmoneta_mcp.Action.{>>=-eq-ok}
use pgmoneta_mcp.Libraries.{Libraries, AreSound}
use pgmoneta_mcp.Constant.Encryption
use pgmoneta_mcp.World.{World, CachedMasterKey}
use pgmoneta_mcp.Security.MasterKey.{SecurityUtil, KeyPair, salt_len, nonce_len, load_master_key}
use pgmoneta_mcp.Security.Kdf.Cached.{IsFaithful}
use pgmoneta_mcp.Security.Gcm.Arms.{by_mode-IsByte}
use pgmoneta_mcp.Security.Gcm.RoundTrip.{Made, IsValid, encrypt-Encrypted, decrypt-Made}
use pgmoneta_mcp.Security.Gcm.{
  Sealed, layout, encrypt_text_aes_gcm, open_layout, encrypt_to_base64_string,
  decrypt_from_base64_string, encrypt_text_aes_gcm_bundle, decrypt_text_aes_gcm_bundle,
  max_ciphertext_b64_len,
}

-- The three parts of a layout.
layout_parts :
    (c : Sealed)
    → length c.salt ≡ salt_len
    → length c.nonce_bytes ≡ nonce_len
    → (take salt_len (layout c) ≡ c.salt)
      × (take nonce_len (drop salt_len (layout c)) ≡ c.nonce_bytes)
      × (drop (salt_len + nonce_len) (layout c) ≡ c.cipher_text)
layout_parts c hs hn = (
  take-append salt_len c.salt (c.nonce_bytes ++ c.cipher_text) hs,
  rw (drop-append salt_len c.salt (c.nonce_bytes ++ c.cipher_text) hs)
      (take-append nonce_len c.nonce_bytes c.cipher_text hn),
  rw (← append_assoc c.salt c.nonce_bytes c.cipher_text) (
      drop-append 28 (c.salt ++ c.nonce_bytes) c.cipher_text
        (omega (arith, length-append c.salt c.nonce_bytes))),
)

module _ (l : Libraries) (sound : AreSound l) where
  -- The outcome of a decryption: the plain text, and at most the cache has changed.
  abbrev pub Opened : Bytes → World → Result Bytes × World → Type 0
  Opened plain w out =
      (cache : Option CachedMasterKey) × (out ≡ (ok plain, record w { cache = cache }))
      × IsFaithful l.crypto cache

  pub open_layout-Made :
      (plain p s : Bytes) (mode : ℕ) (c : Sealed) (w : World)
      → Made l.crypto plain p s mode c
      → IsValid l.crypto w
      → Opened plain w (open_layout l (layout c) p s mode w)
  unfolding open_layout
  open_layout-Made plain p s mode c w m v =
      let (salt, nonce, cipher) = layout_parts c m.salt_is m.nonce_is in
      rw (salt, nonce, cipher) (decrypt-Made l.crypto sound.authentic plain p s mode c w m v)

  pub layout-IsByte :
      (plain p s : Bytes) (mode : ℕ) (c : Sealed)
      → Made l.crypto plain p s mode c
      → All IsByte (layout c)
  layout-IsByte plain p s mode c m = All-append IsByte c.salt _ m.salt_bytes (
      All-append IsByte c.nonce_bytes _ m.nonce_bytes (
        by_mode-IsByte l.crypto sound.authentic m.key c.nonce_bytes plain c.cipher_text mode
          m.cipher_is))

  pub length-layout :
      (plain p s : Bytes) (mode : ℕ) (c : Sealed)
      → Made l.crypto plain p s mode c
      → salt_len + nonce_len ≤ length (layout c)
  length-layout plain p s mode c m = omega (
    arith,
    m.salt_is,
    m.nonce_is,
    length-append c.salt (c.nonce_bytes ++ c.cipher_text),
    length-append c.nonce_bytes c.cipher_text,
  )

  decrypt-layout :
      (plain p s : Bytes) (c : Sealed) (w : World)
      → Made l.crypto plain p s Encryption.aes_256_gcm c
      → IsValid l.crypto w
      → length (l.base64.encode (layout c)) ≤ max_ciphertext_b64_len
      → Opened plain w (decrypt_from_base64_string l (l.base64.encode (layout c)) p s w)
  unfolding decrypt_from_base64_string
  decrypt-layout plain p s c w m v small =
      rw
        (
          le→ltb max_ciphertext_b64_len _ small,
          sound.is_base64.decode-encode (layout c) (layout-IsByte plain p s _ c m),
          le→ltb (length (layout c)) 28 (length-layout plain p s _ c m),
        )
        (open_layout-Made plain p s _ c w m v)

  -- A password that was encrypted to base64 text decrypts to itself, with the same master key and
  -- in any later valid world, if the text is within the limit of 1 MiB; the encryption leaves a
  -- valid world.
  pub decrypt-encrypt_base64 :
      (plain p s text : Bytes) (w w' later : World)
      → IsValid l.crypto w
      → encrypt_to_base64_string l plain p s w ≡ (ok text, w')
      → length text ≤ max_ciphertext_b64_len
      → IsValid l.crypto later
      → Opened plain later (decrypt_from_base64_string l text p s later) × IsValid l.crypto w'
  unfolding encrypt_to_base64_string
  decrypt-encrypt_base64 plain p s text w w' later v h small v' =
      let (c, u, e, k) =
        >>=-eq-ok (encrypt_text_aes_gcm l.crypto plain p s Encryption.aes_256_gcm) _ w h in
      let (made, valid, _) = encrypt-Encrypted l.crypto plain p s _ w u c v e in
      let text_is : l.base64.encode (layout c) ≡ text = cc in
      let world_is : u ≡ w' = cc in
      (
        rw (← text_is) (decrypt-layout plain p s c later made v' (rw text_is small)),
        rw world_is at valid,
      )

  decrypt-bundle :
      (util : SecurityUtil) (plain : Bytes) (mode : ℕ) (master : KeyPair) (c : Sealed)
      (w w1 : World)
      → Made l.crypto plain master.password master.salt mode c
      → load_master_key util w ≡ (ok master, w1)
      → IsValid l.crypto w1
      → Opened plain w1 (decrypt_text_aes_gcm_bundle l util (layout c) mode w)
  unfolding decrypt_text_aes_gcm_bundle
  decrypt-bundle util plain mode master c w w1 m loaded v =
      rw (le→ltb (length (layout c)) 28 (length-layout plain _ _ mode c m), loaded)
        (open_layout-Made plain _ _ mode c w1 m v)

  -- A bundle that was made under a master key file opens to the plain text wherever the key file loads
  -- as the same pair later; of the world that this loading left, and that is valid, at most the cache
  -- changes. A bundle consists of bytes, and its making leaves a valid world with the files as the first
  -- loading left them.
  pub open-bundle :
      (util : SecurityUtil) (plain bundle : Bytes) (mode : ℕ) (master : KeyPair)
      (w w1 w' later later1 : World)
      → load_master_key util w ≡ (ok master, w1)
      → IsValid l.crypto w1
      → encrypt_text_aes_gcm_bundle l util plain mode w ≡ (ok bundle, w')
      → load_master_key util later ≡ (ok master, later1)
      → IsValid l.crypto later1
      → Opened plain later1 (decrypt_text_aes_gcm_bundle l util bundle mode later)
        × All IsByte bundle
        × IsValid l.crypto w'
        × (w'.files ≡ w1.files)
  unfolding encrypt_text_aes_gcm_bundle
  open-bundle util plain bundle mode master w w1 w' later later1 loaded v h again v' =
      let h1 = rw loaded at h in
      let (c, u, e, k) =
        >>=-eq-ok (encrypt_text_aes_gcm l.crypto plain master.password master.salt mode) _ w1 h1 in
      let (made, valid, files) =
        encrypt-Encrypted l.crypto plain master.password master.salt mode w1 u c v e in
      let bundle_is : layout c ≡ bundle = cc in
      let world_is : u ≡ w' = cc in
      (
        rw (← bundle_is) (decrypt-bundle util plain mode master c later later1 made again v'),
        rw bundle_is at (layout-IsByte plain master.password master.salt mode c made),
        rw world_is at valid,
        rw world_is at files,
      )
