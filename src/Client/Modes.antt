-- ===== src/Client/Modes.antt =====
-- The configured modes and the codes that a response may carry (src/client.rs).
use pgmoneta_mcp.Prelude.{
  ℕ, ◌≤◌, ◌≡◌, ◌⊎◌, refl, Bool, true, ◌||◌, String, arith, ◌==◌, if◌then◌else◌,
}
use pgmoneta_mcp.Bytes.{Bytes, codes, eq_bytes, eq_bytes→eq}
use pgmoneta_mcp.Bytes.Text.{to_lowercase}
use pgmoneta_mcp.Result.{Result, ok, err, unrecognized_encryption_mode}
use pgmoneta_mcp.Constant.Compression
use pgmoneta_mcp.Constant.Encryption

abbrev is_text : Bytes → String → Bool
is_text s t = eq_bytes s (codes t)

unfoldable pub compression_of : Bytes → ℕ
compression_of s =
    if is_text s "gzip"
    then Compression.gzip
    else if is_text s "zstd"
    then Compression.zstd
    else if is_text s "lz4"
    then Compression.lz4
    else if is_text s "bzip2"
    then Compression.bzip2
    else Compression.none

unfoldable pub parse_compression : Bytes → ℕ
unfolding compression_of
parse_compression compression = compression_of (to_lowercase compression)

unfoldable pub encryption_of : Bytes → Result ℕ
encryption_of s =
    if is_text s "aes_256_gcm" || is_text s "aes" || is_text s "aes_256"
    then ok Encryption.aes_256_gcm
    else if is_text s "aes_192_gcm" || is_text s "aes_192"
    then ok Encryption.aes_192_gcm
    else if is_text s "aes_128_gcm" || is_text s "aes_128"
    then ok Encryption.aes_128_gcm
    else if is_text s "none" || is_text s "" || is_text s "off"
    then ok Encryption.none
    else err (unrecognized_encryption_mode s)

unfoldable pub parse_encryption : Bytes → Result ℕ
unfolding encryption_of
parse_encryption encryption = encryption_of (to_lowercase encryption)

unfoldable pub is_known_compression : ℕ → Bool
is_known_compression value =
    value == Compression.none
    || value == Compression.gzip
    || value == Compression.zstd
    || value == Compression.lz4
    || value == Compression.bzip2
    || value == Compression.server_gzip
    || value == Compression.server_zstd
    || value == Compression.server_lz4

unfoldable pub is_known_encryption : ℕ → Bool
is_known_encryption value =
    value == Encryption.none
    || value == Encryption.aes_256_gcm
    || value == Encryption.aes_192_gcm
    || value == Encryption.aes_128_gcm

-- The explicit names of no encryption.
abbrev pub SaysNone : Bytes → Type 0
SaysNone s = (s ≡ codes "none") ⊎ (s ≡ codes "") ⊎ (s ≡ codes "off")

encryption_of-none : (s : Bytes) → encryption_of s ≡ ok Encryption.none → SaysNone s
unfolding encryption_of
encryption_of-none s h =
    ground
      (arith, eq_bytes→eq s (codes "none"), eq_bytes→eq s (codes ""), eq_bytes→eq s (codes "off"))

-- Encryption is off only if the configuration says so in one of three words, in any case of the
-- letters; and what a configuration selects is a code that a response may carry.
pub parse_encryption_off :
    (s : Bytes)
    → (parse_encryption s ≡ ok Encryption.none → SaysNone (to_lowercase s))
      × ((e : ℕ) → parse_encryption s ≡ ok e → is_known_encryption e ≡ true)
      × (is_known_compression (parse_compression s) ≡ true)
      × (parse_compression s ≤ Compression.bzip2)
unfolding parse_encryption parse_compression is_known_encryption is_known_compression
parse_encryption_off s =
    (encryption_of-none (to_lowercase s), (λ e h. ground arith), ground arith, ground arith)

aliases :
    (parse_encryption (codes "AES") ≡ ok Encryption.aes_256_gcm)
    × (parse_encryption (codes "Off") ≡ ok Encryption.none)
    × (parse_compression (codes "LZ4") ≡ Compression.lz4)
    × (parse_encryption (codes "weird") ≡ err (unrecognized_encryption_mode (codes "weird")))
unfolding parse_encryption parse_compression to_lowercase eq_bytes
aliases = (refl, refl, refl, refl)
