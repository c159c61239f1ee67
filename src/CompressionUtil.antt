-- ===== src/CompressionUtil.antt =====
-- `CompressionUtil` of src/compression.rs.
pub mod RoundTrip
use pgmoneta_mcp.Prelude.{ℕ, ◌-◌, ◌^◌, [], ◌∷◌, ◌++◌, length, ltb, ◌==◌, not, if◌then◌else◌}
use pgmoneta_mcp.Bytes.{Bytes, to_be_bytes, from_be_bytes}
use pgmoneta_mcp.Result.{
  Result, ok, err, ◌>>=◌, unknown_compression_algorithm, lz4_input_too_large, lz4_buffer_too_small,
  lz4_size_too_large, lz4_size_mismatch,
}
use pgmoneta_mcp.Libraries.{Codecs}
use pgmoneta_mcp.Constant.Compression

-- The size of the data in four bytes, then the block.
unfoldable pub compress_lz4 : Codecs → Bytes → Result Bytes
unfolding to_be_bytes
compress_lz4 codecs data_in =
    if ltb (2 ^ 32 - 1) (length data_in) then err lz4_input_too_large else do
      compressed ← codecs.lz4_compress data_in
      ok (to_be_bytes (length data_in) ++ compressed)

unfoldable pub decompress_lz4 : Codecs → Bytes → Result Bytes
unfolding from_be_bytes
decompress_lz4 codecs (a ∷ b ∷ c ∷ d ∷ payload) =
    let expected_size = from_be_bytes a b c d in
    if ltb (2 ^ 31 - 1) expected_size then err lz4_size_too_large else do
      decompressed ← codecs.lz4_decompress payload expected_size
      if not (length decompressed == expected_size) then err lz4_size_mismatch else ok decompressed
decompress_lz4 codecs _ = err lz4_buffer_too_small

unfoldable pub compress : Codecs → Bytes → ℕ → Result Bytes
compress codecs data_in algorithm =
    if algorithm == Compression.gzip
    then codecs.gzip_compress data_in
    else if algorithm == Compression.zstd
    then codecs.zstd_compress data_in
    else if algorithm == Compression.lz4
    then compress_lz4 codecs data_in
    else if algorithm == Compression.bzip2
    then codecs.bzip2_compress data_in
    else if algorithm == Compression.none
    then ok data_in
    else err (unknown_compression_algorithm algorithm)

unfoldable pub decompress : Codecs → Bytes → ℕ → Result Bytes
decompress codecs data_in algorithm =
    if algorithm == Compression.gzip
    then codecs.gzip_decompress data_in
    else if algorithm == Compression.zstd
    then codecs.zstd_decompress data_in
    else if algorithm == Compression.lz4
    then decompress_lz4 codecs data_in
    else if algorithm == Compression.bzip2
    then codecs.bzip2_decompress data_in
    else if algorithm == Compression.none
    then ok data_in
    else err (unknown_compression_algorithm algorithm)
