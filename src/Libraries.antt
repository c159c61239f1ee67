-- ===== src/Libraries.antt =====
-- What the program takes from other crates: parameters of the model, and the documented behaviour
-- that theorems rely on. No definition stands for any of these.
use pgmoneta_mcp.Prelude.{ℕ, ◌≡◌, All, length}
use pgmoneta_mcp.Bytes.{Bytes, IsByte}
use pgmoneta_mcp.Bytes.Text.{IsVisible}
use pgmoneta_mcp.Result.{Result, ok}

-- flate2, zstd, lz4 and bzip2. `lz4_decompress` takes the expected size beside the block.
pub record Codecs : Type 0 where
  pub gzip_compress : Bytes → Result Bytes
  pub gzip_decompress : Bytes → Result Bytes
  pub zstd_compress : Bytes → Result Bytes
  pub zstd_decompress : Bytes → Result Bytes
  pub bzip2_compress : Bytes → Result Bytes
  pub bzip2_decompress : Bytes → Result Bytes
  pub lz4_compress : Bytes → Result Bytes
  pub lz4_decompress : Bytes → ℕ → Result Bytes

-- Each codec is lossless.
pub record AreLossless (c : Codecs) : Type 0 where
  pub gzip : (d z : Bytes) → c.gzip_compress d ≡ ok z → c.gzip_decompress z ≡ ok d
  pub zstd : (d z : Bytes) → c.zstd_compress d ≡ ok z → c.zstd_decompress z ≡ ok d
  pub bzip2 : (d z : Bytes) → c.bzip2_compress d ≡ ok z → c.bzip2_decompress z ≡ ok d
  pub lz4 : (d z : Bytes) → c.lz4_compress d ≡ ok z → c.lz4_decompress z (length d) ≡ ok d

-- Each codec gives bytes.
pub record GiveBytes (c : Codecs) : Type 0 where
  pub gzip : (d z : Bytes) → c.gzip_compress d ≡ ok z → All IsByte z
  pub zstd : (d z : Bytes) → c.zstd_compress d ≡ ok z → All IsByte z
  pub bzip2 : (d z : Bytes) → c.bzip2_compress d ≡ ok z → All IsByte z
  pub lz4 : (d z : Bytes) → c.lz4_compress d ≡ ok z → All IsByte z

-- base64 with the standard alphabet and padding.
pub record Base64 : Type 0 where
  pub encode : Bytes → Bytes
  pub decode : Bytes → Result Bytes

pub record IsBase64 (b : Base64) : Type 0 where
  pub decode-encode : (d : Bytes) → All IsByte d → b.decode (b.encode d) ≡ ok d
  pub encode-IsVisible : (d : Bytes) → IsVisible (b.encode d)

-- The types `Aes128Gcm`, `Aes192Gcm` and `Aes256Gcm` of aes-gcm.
pub data Aes : Type 0 where
  aes_128_gcm aes_192_gcm aes_256_gcm : Aes

-- pbkdf2 with HMAC-SHA-256 (password, salt, iterations, length of the output), and AES-GCM: a
-- cipher object is its type and its key, which `new_from_slice` accepts or refuses.
pub record Crypto : Type 0 where
  pub pbkdf2 : Bytes → Bytes → ℕ → ℕ → Result Bytes
  pub new_from_slice : Aes → Bytes → Result (Unit {0})
  pub encrypt : Aes → Bytes → Bytes → Bytes → Result Bytes
  pub decrypt : Aes → Bytes → Bytes → Bytes → Result Bytes

pub record IsAuthentic (c : Crypto) : Type 0 where
  pub decrypt-encrypt :
      (a : Aes) (key nonce plain cipher : Bytes)
      → c.encrypt a key nonce plain ≡ ok cipher
      → c.decrypt a key nonce cipher ≡ ok plain
  pub encrypt-IsByte :
      (a : Aes) (key nonce plain cipher : Bytes)
      → c.encrypt a key nonce plain ≡ ok cipher
      → All IsByte cipher

pub record Libraries : Type 0 where
  pub codecs : Codecs
  pub base64 : Base64
  pub crypto : Crypto

pub record AreSound (l : Libraries) : Type 0 where
  pub lossless : AreLossless l.codecs
  pub give_bytes : GiveBytes l.codecs
  pub is_base64 : IsBase64 l.base64
  pub authentic : IsAuthentic l.crypto
