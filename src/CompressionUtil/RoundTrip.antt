-- ===== src/CompressionUtil/RoundTrip.antt =====
-- What decompression makes of compressed data (src/compression.rs).
use mathlib.Core.Path.{subst}
use pgmoneta_mcp.Prelude.{
  ℕ, ◌-◌, ◌^◌, ◌%◌, ◌≤◌, ◌<◌, ◌≡◌, inl, inr, ◌∷◌, ◌++◌, length, take, Bool-cases, arith, le→ltb,
  ◌==◌, ==_refl, All, All-append,
}
use pgmoneta_mcp.Bytes.{
  Bytes, IsByte, to_be_bytes, to_be_bytes-IsByte, to_be_bytes-from_be_bytes,
  from_be_bytes-to_be_bytes, from_be_bytes,
}
use pgmoneta_mcp.Result.{ok, err, Result-cases, unknown_compression_algorithm}
use pgmoneta_mcp.Libraries.{Codecs, AreLossless, GiveBytes}
use pgmoneta_mcp.Constant.Compression
use pgmoneta_mcp.CompressionUtil.{compress_lz4, decompress_lz4, compress, decompress}

module _ (c : Codecs) where
  compress_lz4-eq-ok :
      (d z : Bytes)
      → compress_lz4 c d ≡ ok z
      → (block : Bytes) × (c.lz4_compress d ≡ ok block)
        × (z ≡ to_be_bytes (length d) ++ block)
        × (length d < 2 ^ 32)
  unfolding compress_lz4
  compress_lz4-eq-ok d z h = elim (Result-cases (c.lz4_compress d)) [
    | inl (b, e) ↦ (b, e, ground arith, ground arith)
    | inr (x, e) ↦ absurd (ground arith)
  ]

  size-restored : (n : ℕ) → n < 2 ^ 31 → n % 2 ^ 32 ≡ n
  size-restored n h = omega arith

  decompress-block :
      (d block : Bytes)
      → length d < 2 ^ 31
      → c.lz4_decompress block (length d) ≡ ok d
      → decompress_lz4 c (to_be_bytes (length d) ++ block) ≡ ok d
  unfolding decompress_lz4 to_be_bytes
  decompress-block d block small e = rw (
    from_be_bytes-to_be_bytes (length d),
    size-restored (length d) small,
    le→ltb (2 ^ 31 - 1) (length d) (omega arith),
    e,
    ==_refl (length d),
  )

  decompress-compress_lz4 :
      AreLossless c
      → (d z : Bytes) → length d < 2 ^ 31
      → compress_lz4 c d ≡ ok z
      → decompress_lz4 c z ≡ ok d
  decompress-compress_lz4 ll d z small h =
      let (block, e, z_is, _) = compress_lz4-eq-ok d z h in
      rw z_is (decompress-block d block small (ll.lz4 d block e))

  -- What a codec of the program compressed, the same codec decompresses to the same data; with LZ4
  -- the data must be shorter than 2^31 bytes, since the decompressor refuses longer ones.
  pub decompress-compress :
      AreLossless c
      → (d z : Bytes) (algorithm : ℕ) → (algorithm ≡ Compression.lz4 → length d < 2 ^ 31)
      → compress c d algorithm ≡ ok z
      → decompress c z algorithm ≡ ok d
  unfolding compress decompress
  decompress-compress ll d z algorithm small h =
      ground (arith, ll.gzip d z, ll.zstd d z, ll.bzip2 d z, decompress-compress_lz4 ll d z, small)

  compress_lz4-IsByte : GiveBytes c → (d z : Bytes) → compress_lz4 c d ≡ ok z → All IsByte z
  compress_lz4-IsByte gb d z h =
      let (block, e, z_is, _) = compress_lz4-eq-ok d z h in
      rw z_is (
        All-append IsByte (to_be_bytes (length d)) block (to_be_bytes-IsByte (length d))
          (gb.lz4 d block e))

  -- Compressed bytes are bytes.
  pub compress-IsByte :
      GiveBytes c
      → (d z : Bytes) (algorithm : ℕ) → All IsByte d
      → compress c d algorithm ≡ ok z
      → All IsByte z
  unfolding compress
  compress-IsByte gb d z algorithm hd h = elim (Bool-cases (algorithm == Compression.none)) [
    | inl e ↦ subst (All IsByte) (ground arith) hd
    | inr e ↦ ground (arith, gb.gzip d z, gb.zstd d z, gb.bzip2 d z, compress_lz4-IsByte gb d z)
  ]

  -- Decompression with LZ4 succeeds only on data with a header, and gives exactly as many bytes as
  -- the header says, fewer than 2^31.
  pub decompress_lz4_bounds :
      (z d : Bytes)
      → All IsByte z
      → decompress c z Compression.lz4 ≡ ok d
      → (length d < 2 ^ 31) × (4 ≤ length z) × (take 4 z ≡ to_be_bytes (length d))
  unfolding decompress decompress_lz4
  decompress_lz4_bounds (e ∷ f ∷ g ∷ i ∷ payload) d (he, (hf, (hg, (hi, _)))) h = ground (
    arith,
    to_be_bytes-from_be_bytes e f g i he hf hg hi,
    Result-cases (c.lz4_decompress payload (from_be_bytes e f g i)),
  )
  decompress_lz4_bounds _ d _ h = cc

  -- The codes from 5 on, among them the server-side codecs, are errors both ways.
  unsupported_codes :
      (d : Bytes) (algorithm : ℕ)
      → 4 < algorithm
      → (compress c d algorithm ≡ err (unknown_compression_algorithm algorithm))
        × (decompress c d algorithm ≡ err (unknown_compression_algorithm algorithm))
  unfolding compress decompress
  unsupported_codes d algorithm h = ground arith
