-- ===== src/Security/Gcm/RoundTrip.antt =====
-- Decryption of what src/security.rs encrypted, with the same master key, at any later time.
use pgmoneta_mcp.Prelude.{
  ℕ, ◌≤◌, ◌≡◌, ap, ◌∙◌, length, length-take, take, drop, arith, Option, All, All-take, All-drop,
}
use pgmoneta_mcp.Bytes.{Bytes, IsByte}
use pgmoneta_mcp.Result.{ok, Result-cases}
use pgmoneta_mcp.Action.{Action, pure, lift, ◌>>=◌, continue-eq-ok, >>=-eq-ok}
use pgmoneta_mcp.Libraries.{Crypto, IsAuthentic}
use pgmoneta_mcp.World.{World, CachedMasterKey, try_fill_bytes}
use pgmoneta_mcp.Security.MasterKey.{salt_len, nonce_len}
use pgmoneta_mcp.Security.Kdf.{derive_key_two_step}
use pgmoneta_mcp.Security.Kdf.Cached.{two_step, IsFaithful, derive_key_two_step_lem}
use pgmoneta_mcp.Security.Gcm.{
  Sealed, key_len_of, by_mode, seal_arm, encrypt_text_aes_gcm, decrypt_text_aes_gcm,
}
use pgmoneta_mcp.Security.Gcm.Arms.{by_mode-seal}

length-take-full : (n : ℕ) (xs : Bytes) → n ≤ length xs → length (take n xs) ≡ n
length-take-full n xs h = omega (arith, length-take n xs)

pub try_fill_bytes_lem :
    (n : ℕ) (w w' : World) (bytes : Bytes)
    → try_fill_bytes n w ≡ (ok bytes, w')
    → (length bytes ≡ n)
      × (bytes ≡ take n w.entropy)
      × (w' ≡ record w { entropy = drop n w.entropy })
unfolding try_fill_bytes
try_fill_bytes_lem n w w' bytes h = ground (arith, length-take-full n w.entropy)

module _ (crypto : Crypto) where
  -- What an encryption leaves: the parts that decryption needs.
  pub record Made (plain p s : Bytes) (mode : ℕ) (c : Sealed) : Type 0 where
    pub key_len : ℕ
    pub key : Bytes
    pub has_len : key_len_of mode ≡ ok key_len
    pub derived : two_step crypto p s c.salt key_len ≡ ok key
    pub cipher_is : by_mode mode (seal_arm crypto key c.nonce_bytes plain) ≡ ok c.cipher_text
    pub salt_is : length c.salt ≡ salt_len
    pub nonce_is : length c.nonce_bytes ≡ nonce_len
    pub salt_bytes : All IsByte c.salt
    pub nonce_bytes : All IsByte c.nonce_bytes

  drawn :
      (n : ℕ) (f : Bytes → Action World Sealed) (w : World) {w' : World} {c : Sealed}
      → All IsByte w.entropy
      → (try_fill_bytes n >>= f) w ≡ (ok c, w')
      → (bytes : Bytes) × (u : World) × (length bytes ≡ n)
        × (All IsByte bytes)
        × (All IsByte u.entropy)
        × (u ≡ record w { entropy = drop n w.entropy })
        × (f bytes u ≡ (ok c, w'))
  drawn n f w hb h =
      let (bytes, u, e, k) = >>=-eq-ok (try_fill_bytes n) f w h in
      let (len, taken, same) = try_fill_bytes_lem n w u bytes e in
      (
        bytes,
        u,
        len,
        rw taken (All-take IsByte n w.entropy hb),
        rw same (All-drop IsByte n w.entropy hb),
        same,
        k,
      )

  -- What is left of an encryption behind the derivation, and behind both random draws.
  abbrev pub seal : Bytes → ℕ → Bytes → Bytes → Bytes → Action World Sealed
  seal plain mode salt nonce key = do
    cipher_text ← lift (by_mode mode (seal_arm crypto key nonce plain))
    pure (record { cipher_text = cipher_text; nonce_bytes = nonce; salt = salt })

  abbrev derive_and_seal : Bytes → Bytes → Bytes → ℕ → ℕ → Bytes → Bytes → Action World Sealed
  derive_and_seal plain p s mode n salt nonce = do
    key ← derive_key_two_step crypto p s salt n
    seal plain mode salt nonce key

  pub seal-eq-ok :
      (plain : Bytes) (mode : ℕ) (salt nonce key : Bytes) (w w' : World) (c : Sealed)
      → seal plain mode salt nonce key w ≡ (ok c, w')
      → (by_mode mode (seal_arm crypto key nonce plain) ≡ ok c.cipher_text)
        × (c.nonce_bytes ≡ nonce)
        × (c.salt ≡ salt)
        × (w' ≡ w)
  seal-eq-ok plain mode salt nonce key w w' c h =
      ground (arith, Result-cases (by_mode mode (seal_arm crypto key nonce plain)))

  -- The cache holds only what was derived, and random bytes are bytes.
  pub record IsValid (w : World) : Type 0 where
    pub faithful : IsFaithful crypto w.cache
    pub bytes : All IsByte w.entropy

  -- The outcome of an encryption that started in w.
  abbrev pub Encrypted : Bytes → Bytes → Bytes → ℕ → Sealed → World → World → Type 0
  Encrypted plain p s mode c w w' = Made plain p s mode c × IsValid w' × (w'.files ≡ w.files)

  derive_and_seal-Encrypted :
      (plain p s : Bytes) (mode n : ℕ) (salt nonce : Bytes) (w w' : World) (c : Sealed)
      → IsValid w
      → key_len_of mode ≡ ok n
      → length salt ≡ salt_len
      → length nonce ≡ nonce_len
      → All IsByte salt
      → All IsByte nonce
      → derive_and_seal plain p s mode n salt nonce w ≡ (ok c, w')
      → Encrypted plain p s mode c w w'
  derive_and_seal-Encrypted plain p s mode n salt nonce w w' c v has hs hn bs bn h =
      let (cache, e, f') = derive_key_two_step_lem crypto p s salt n w v.faithful in
      let h' = rw e at h in
      let (key, derived, rest) =
        continue-eq-ok (two_step crypto p s salt n) (seal plain mode salt nonce)
          (record w { cache = cache }) h' in
      let (sealed, cn, cs, ws) = seal-eq-ok plain mode salt nonce key _ w' c rest in
      (
        record {
          key_len = n;
          key = key;
          has_len = has;
          derived = rw cs derived;
          cipher_is = rw cn sealed;
          salt_is = rw cs hs;
          nonce_is = rw cn hn;
          salt_bytes = rw cs bs;
          nonce_bytes = rw cn bn;
        },
        record { faithful = rw ws f'; bytes = rw ws v.bytes },
        rw ws,
      )

  pub encrypt-Encrypted :
      (plain p s : Bytes) (mode : ℕ) (w w' : World) (c : Sealed)
      → IsValid w
      → encrypt_text_aes_gcm crypto plain p s mode w ≡ (ok c, w')
      → Encrypted plain p s mode c w w'
  unfolding encrypt_text_aes_gcm
  encrypt-Encrypted plain p s mode w w' c v h =
      let (n, has, h1) = continue-eq-ok (key_len_of mode) _ w h in
      let (salt, w1, hs, bs, b1, same1, h2) = drawn salt_len _ w v.bytes h1 in
      let (nonce, w2, hn, bn, b2, same2, h3) = drawn nonce_len _ w1 b1 h2 in
      let v2 : IsValid w2 = record { faithful = rw (same2, same1) v.faithful; bytes = b2 } in
      let (made, v', files) =
        derive_and_seal-Encrypted plain p s mode n salt nonce w2 w' c v2 has hs hn bs bn h3 in
      (made, v', files ∙ ap (λ (u : World). u.files) same2 ∙ ap (λ (u : World). u.files) same1)

  -- Decryption of the parts, in any valid world.
  pub decrypt-Made :
      IsAuthentic crypto
      → (plain p s : Bytes) (mode : ℕ) (c : Sealed) (w : World) → Made plain p s mode c
      → IsValid w
      → (cache : Option CachedMasterKey) × (decrypt_text_aes_gcm crypto c.cipher_text p s
            c.nonce_bytes c.salt mode w
          ≡ (ok plain, record w { cache = cache }))
        × IsFaithful crypto cache
  unfolding decrypt_text_aes_gcm
  decrypt-Made auth plain p s mode c w m v =
      let (cache, e, f') = derive_key_two_step_lem crypto p s c.salt m.key_len w v.faithful in
      (
        cache,
        rw (
          m.has_len,
          e,
          m.derived,
          m.nonce_is,
          by_mode-seal crypto auth m.key c.nonce_bytes plain c.cipher_text mode m.cipher_is,
        ),
        f',
      )
