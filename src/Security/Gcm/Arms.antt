-- ===== src/Security/Gcm/Arms.antt =====
-- The two matches on the cipher of src/security.rs: what one arm sealed the other one opens.
use pgmoneta_mcp.Prelude.{ℕ, ◌≡◌, arith, All}
use pgmoneta_mcp.Bytes.{Bytes, IsByte}
use pgmoneta_mcp.Result.{ok, Result-cases}
use pgmoneta_mcp.Libraries.{Crypto, IsAuthentic, Aes, aes_128_gcm, aes_192_gcm, aes_256_gcm}
use pgmoneta_mcp.Security.Gcm.{by_mode, seal_arm, open_arm}

module _ (crypto : Crypto) where
  open_arm-seal_arm :
      IsAuthentic crypto
      → (key nonce plain cipher : Bytes) (a : Aes) → seal_arm crypto key nonce plain a ≡ ok cipher
      → open_arm crypto key nonce cipher a ≡ ok plain
  unfolding seal_arm open_arm
  open_arm-seal_arm auth key nonce plain cipher a h = ground (
    arith,
    Result-cases (crypto.new_from_slice a key),
    Result-cases (crypto.encrypt a key nonce plain),
    auth.decrypt-encrypt a key nonce plain cipher,
  )

  pub by_mode-seal :
      IsAuthentic crypto
      → (key nonce plain cipher : Bytes) (mode : ℕ)
      → by_mode mode (seal_arm crypto key nonce plain) ≡ ok cipher
      → by_mode mode (open_arm crypto key nonce cipher) ≡ ok plain
  unfolding by_mode
  by_mode-seal auth key nonce plain cipher mode h = ground (
    arith,
    open_arm-seal_arm auth key nonce plain cipher aes_128_gcm,
    open_arm-seal_arm auth key nonce plain cipher aes_192_gcm,
    open_arm-seal_arm auth key nonce plain cipher aes_256_gcm,
  )

  seal_arm-IsByte :
      IsAuthentic crypto
      → (key nonce plain cipher : Bytes) (a : Aes) → seal_arm crypto key nonce plain a ≡ ok cipher
      → All IsByte cipher
  unfolding seal_arm
  seal_arm-IsByte auth key nonce plain cipher a h = auth.encrypt-IsByte a key nonce plain cipher (
      ground (
        arith,
        Result-cases (crypto.new_from_slice a key),
        Result-cases (crypto.encrypt a key nonce plain),
      ))

  pub by_mode-IsByte :
      IsAuthentic crypto
      → (key nonce plain cipher : Bytes) (mode : ℕ)
      → by_mode mode (seal_arm crypto key nonce plain) ≡ ok cipher
      → All IsByte cipher
  unfolding by_mode
  by_mode-IsByte auth key nonce plain cipher mode h = ground (
    arith,
    seal_arm-IsByte auth key nonce plain cipher aes_128_gcm,
    seal_arm-IsByte auth key nonce plain cipher aes_192_gcm,
    seal_arm-IsByte auth key nonce plain cipher aes_256_gcm,
  )
