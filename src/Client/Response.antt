-- ===== src/Client/Response.antt =====
-- Responses in src/client.rs: `read_response`, and the parser of legacy null-terminated responses.
pub mod Stages
pub mod Inverse
pub mod Accepted
pub mod Legacy
use pgmoneta_mcp.Prelude.{ℕ, ◌*◌, [], ◌∷◌, ◌++◌, not, ltb, ◌==◌, ◌&&◌, if◌then◌else◌}
use pgmoneta_mcp.Bytes.{Bytes}
use pgmoneta_mcp.Bytes.Utf8.{from_utf8}
use pgmoneta_mcp.Result.{
  Result, ok, err, Stage, compression_byte, encryption_byte, message_length, payload,
  legacy_response, failed_to_read, reading_timed_out, unsupported_encryption_code, oversized_frame,
}
use pgmoneta_mcp.Result
use pgmoneta_mcp.Action.{Action, pure, lift, raise, ◌>>=◌, ◌>>◌}
use pgmoneta_mcp.Libraries.{Libraries}
use pgmoneta_mcp.Constant.Compression
use pgmoneta_mcp.Constant.Encryption
use pgmoneta_mcp.CompressionUtil.{decompress}
use pgmoneta_mcp.World.{World}
use pgmoneta_mcp.Stream.{
  Reader, Ending, closes, breaks, stalls, Timed, done, failed, elapsed, read_u8, read_u32,
  read_exact,
}
use pgmoneta_mcp.Security.MasterKey.{SecurityUtil}
use pgmoneta_mcp.Security.Gcm.{decrypt_text_aes_gcm_bundle}
use pgmoneta_mcp.Client.Modes.{is_known_compression, is_known_encryption}

abbrev pub max_frame_len : ℕ
max_frame_len = 64 * 1024 * 1024

-- The arms of the match on a timed read: an error or a timeout ends the method.
abbrev pub timed : {A B : Type 0} → Stage → Timed A → (A → Reader → Action World B) → Action World B
timed stage (done a r) k = k a r
timed stage (failed e) k = raise (failed_to_read stage)
timed stage elapsed k = raise (reading_timed_out stage)

-- Up to a zero byte, the end of the stream, or two seconds of silence.
unfoldable pub legacy_loop : Bytes → Bytes → Ending → Result Bytes
legacy_loop buf [] closes = ok buf
legacy_loop buf [] stalls = ok buf
legacy_loop buf [] breaks = err (failed_to_read legacy_response)
legacy_loop buf (byte ∷ rest) ending =
    let more = legacy_loop (buf ++ byte ∷ []) rest ending in if byte == 0 then ok buf else more

unfoldable pub read_legacy_response_with_prefix : Reader → ℕ → Result Bytes
unfolding legacy_loop
read_legacy_response_with_prefix r first_byte =
    Result.◌>>=◌ (legacy_loop (first_byte ∷ []) r.pending r.ending) from_utf8

-- One trailing zero byte is taken off.
unfoldable pub strip_null : Bytes → Bytes
strip_null [] = []
strip_null (b ∷ []) = if b == 0 then [] else b ∷ []
strip_null (b ∷ c ∷ s) = b ∷ strip_null (c ∷ s)

module _ (l : Libraries) (util : SecurityUtil) where
  -- The closure `secure_parse`.
  unfoldable pub secure_parse : Bytes → ℕ → ℕ → Action World Bytes
  secure_parse buf compression encryption = do
    text ← lift (from_utf8 buf)
    bytes ← lift (l.base64.decode text)
    decrypted ←
        (if encryption == Encryption.none
          then pure bytes
          else decrypt_text_aes_gcm_bundle l util bytes encryption)
    decompressed ← lift (
        if compression == Compression.none
        then ok decrypted
        else decompress l.codecs decrypted compression)
    lift (from_utf8 decompressed)

  -- What is made of the payload.
  unfoldable pub accept : ℕ → ℕ → Bytes → Action World Bytes
  accept compression encryption buf =
      if compression == Compression.none && encryption == Encryption.none
      then lift (from_utf8 (strip_null buf))
      else secure_parse (strip_null buf) compression encryption

  unfoldable pub read_payload : ℕ → ℕ → ℕ → Reader → Action World Bytes
  read_payload compression encryption len r =
      if ltb max_frame_len len
      then raise (oversized_frame len)
      else timed payload (read_exact len r) (λ buf _. accept compression encryption buf)

  unfoldable pub read_response : Reader → Action World Bytes
  unfolding read_payload
  read_response stream = timed compression_byte (read_u8 stream) λ compression r.
      if not (is_known_compression compression)
      then lift (read_legacy_response_with_prefix r compression)
      else timed encryption_byte (read_u8 r) λ encryption r'.
        if not (is_known_encryption encryption)
        then raise (unsupported_encryption_code encryption)
        else timed message_length (read_u32 r')
            λ len r''. read_payload compression encryption len r''
