-- ===== src/Constant/Encryption.antt =====
-- `impl Encryption` of src/constant.rs.
use pgmoneta_mcp.Prelude.{ℕ, String, ◌==◌, if◌then◌else◌}
use pgmoneta_mcp.Result.{Result, ok, err, unrecognized_encryption}

abbrev pub none : ℕ
none = 0

abbrev pub aes_256_gcm : ℕ
aes_256_gcm = 1

abbrev pub aes_192_gcm : ℕ
aes_192_gcm = 2

abbrev pub aes_128_gcm : ℕ
aes_128_gcm = 3

unfoldable pub translate_encryption_enum : ℕ → Result String
translate_encryption_enum encryption =
    if encryption == none
    then ok "none"
    else if encryption == aes_256_gcm
    then ok "aes_256_gcm"
    else if encryption == aes_192_gcm
    then ok "aes_192_gcm"
    else if encryption == aes_128_gcm
    then ok "aes_128_gcm"
    else err (unrecognized_encryption encryption)
