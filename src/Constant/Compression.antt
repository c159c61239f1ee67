-- ===== src/Constant/Compression.antt =====
-- `impl Compression` of src/constant.rs.
use pgmoneta_mcp.Prelude.{ℕ, String, ◌==◌, if◌then◌else◌}
use pgmoneta_mcp.Result.{Result, ok, err, unrecognized_compression}

abbrev pub none : ℕ
none = 0

abbrev pub gzip : ℕ
gzip = 1

abbrev pub zstd : ℕ
zstd = 2

abbrev pub lz4 : ℕ
lz4 = 3

abbrev pub bzip2 : ℕ
bzip2 = 4

abbrev pub server_gzip : ℕ
server_gzip = 5

abbrev pub server_zstd : ℕ
server_zstd = 6

abbrev pub server_lz4 : ℕ
server_lz4 = 7

unfoldable pub translate_compression_enum : ℕ → Result String
translate_compression_enum compression =
    if compression == none
    then ok "none"
    else if compression == gzip
    then ok "gzip"
    else if compression == zstd
    then ok "zstd"
    else if compression == lz4
    then ok "lz4"
    else if compression == bzip2
    then ok "bzip2"
    else if compression == server_gzip
    then ok "server-side gzip"
    else if compression == server_zstd
    then ok "server-side zstd"
    else if compression == server_lz4
    then ok "server-side lz4"
    else err (unrecognized_compression compression)
