-- ===== src/Client/Response/Inverse.antt =====
-- `read_response` of src/client.rs undoes `write_request`: a peer with the same key file reads back
-- what was sent.
use mathlib.Core.Path.{subst}
use pgmoneta_mcp.Prelude.{
  ℕ, ◌^◌, ◌≤◌, ◌<◌, ◌≡◌, ◌≢◌, refl, sym, ◌∙◌, ◌+◌, drop, drop-append, length-append, ap, [], ◌∷◌,
  ◌++◌, append_assoc, length, Option, true, le→ltb, ◌==◌, ◌&&◌, arith, Bool-cases, inl, inr, All,
  if◌then◌else◌,
}
use pgmoneta_mcp.Bytes.{Bytes, IsByte, to_be_bytes}
use pgmoneta_mcp.Bytes.Utf8.{from_utf8, from_utf8-IsAscii}
use pgmoneta_mcp.Bytes.Text.{IsVisible→IsAscii, IsVisible}
use pgmoneta_mcp.Result.{Result, ok}
use pgmoneta_mcp.Action.{pure, continue-eq-ok, >>=-eq-ok}
use pgmoneta_mcp.Libraries.{Libraries, AreSound}
use pgmoneta_mcp.Constant.Compression
use pgmoneta_mcp.Constant.Encryption
use pgmoneta_mcp.CompressionUtil.{compress, decompress}
use pgmoneta_mcp.World.{World, CachedMasterKey}
use pgmoneta_mcp.Stream.{Ending, next_u8}
use pgmoneta_mcp.Stream.Reads.{next_u32-to_be_bytes, read_exact-append}
use pgmoneta_mcp.Security.MasterKey.{SecurityUtil}
use pgmoneta_mcp.Security.Gcm.{encrypt_text_aes_gcm_bundle, decrypt_text_aes_gcm_bundle}
use pgmoneta_mcp.Client.Modes.{is_known_compression, is_known_encryption}
use pgmoneta_mcp.Client.Frame.{Env, protect, payload_of, write_request}
use pgmoneta_mcp.Client.Frame.Sent.{frame, write_request-frame}
use pgmoneta_mcp.Client.Response.{max_frame_len, strip_null, secure_parse, accept, read_response}
use pgmoneta_mcp.Client.Response.Stages.{ShareKey, Back, same_ok, compress_stage, encrypt_stage}

-- A text with no zero byte, such as a JSON document.
abbrev pub IsText : Bytes → Type 0
IsText s = All (λ b. (0 < b) × (b < 256)) s

IsText→IsByte : (s : Bytes) → IsText s → All IsByte s
IsText→IsByte [] h = tt
IsText→IsByte (b ∷ s) (p, h) = (p.1, IsText→IsByte s h)

IsVisible→IsText : (s : Bytes) → IsVisible s → IsText s
IsVisible→IsText [] h = tt
IsVisible→IsText (b ∷ s) (p, h) = (omega arith, IsVisible→IsText s h)

strip_null-IsText : (s : Bytes) → IsText s → strip_null s ≡ s
unfolding strip_null
strip_null-IsText [] h = refl
strip_null-IsText (b ∷ []) (p, h) = ground arith
strip_null-IsText (b ∷ c ∷ s) (p, h) = ap (◌∷◌ b) (strip_null-IsText (c ∷ s) h)

known_compression : (c : ℕ) → c ≤ Compression.bzip2 → is_known_compression c ≡ true
unfolding is_known_compression
known_compression c h = ground arith

known_encryption : (e : ℕ) → e ≤ Encryption.aes_128_gcm → is_known_encryption e ≡ true
unfolding is_known_encryption
known_encryption e h = ground arith

same_tail : (xs ys zs : Bytes) → xs ++ ys ≡ xs ++ zs → ys ≡ zs
same_tail xs ys zs h =
    sym (drop-append (length xs) xs ys refl)
    ∙ ap (drop (length xs)) h
    ∙ drop-append (length xs) xs zs refl

length-frame : (c e : ℕ) (body : Bytes) → length (frame c e body) ≡ 6 + length body
unfolding to_be_bytes
length-frame c e body = omega (arith, length-append (to_be_bytes (length body)) body)

module _ (l : Libraries) (sound : AreSound l) (util : SecurityUtil) where
  -- Decoding, and what the two stages behind it give.
  secure_parse-encode :
      (b z request : Bytes) (compression encryption : ℕ) (later kept : World)
      (cache : Option CachedMasterKey)
      → All IsByte b
      → (if encryption == Encryption.none
            then pure b
            else decrypt_text_aes_gcm_bundle l util b encryption)
          later
        ≡ (ok z, record kept { cache = cache })
      → (if compression == Compression.none then ok z else decompress l.codecs z compression)
        ≡ ok request
      → from_utf8 request ≡ ok request
      → secure_parse l util (l.base64.encode b) compression encryption later
        ≡ (ok request, record kept { cache = cache })
  unfolding secure_parse
  secure_parse-encode b z request compression encryption later kept cache hb opened back utf8 = rw (
    from_utf8-IsAscii _ (IsVisible→IsAscii _ (sound.is_base64.encode-IsVisible b)),
    sound.is_base64.decode-encode b hb,
    opened,
    back,
    utf8,
  )

  -- Decoding, decryption and decompression undo compression, encryption and encoding.
  secure_parse-protect :
      (request body : Bytes) (compression encryption : ℕ) (w w' later : World)
      → IsText request
      → from_utf8 request ≡ ok request
      → (compression ≡ Compression.lz4 → length request < 2 ^ 31)
      → (encryption ≢ Encryption.none → ShareKey l util w later)
      → protect l util request compression encryption w ≡ (ok body, w')
      → Back util request later (secure_parse l util body compression encryption later)
        × IsVisible body
  unfolding protect
  secure_parse-protect request body compression encryption w w' later text utf8 small share h =
      let (z, compressed, h1) =
        continue-eq-ok
          (if compression == Compression.none
            then ok request
            else compress l.codecs request compression)
          _ w h in
      let (back, hz) =
        compress_stage l sound util request z compression (IsText→IsByte request text) small
          compressed in
      let (b, u, encrypted, h2) =
        >>=-eq-ok
          (if encryption == Encryption.none
            then pure z
            else encrypt_text_aes_gcm_bundle l util z encryption)
          _ w h1 in
      let (opened, hb) = encrypt_stage l sound util z b encryption w u later hz share encrypted in
      let encoded : l.base64.encode b ≡ body =
        same_ok (ap (λ (x : Result Bytes × World). x.0) h2) in
      let visible = sound.is_base64.encode-IsVisible b in
      (
        record {
          kept = opened.kept;
          cache = opened.cache;
          is_back =
              ap (λ x. secure_parse l util x compression encryption later) (sym encoded)
              ∙ secure_parse-encode b z request compression encryption later opened.kept
                  opened.cache hb opened.is_back back utf8;
          from = opened.from;
        },
        subst IsVisible encoded visible,
      )

  accept-payload_of :
      (request body : Bytes) (compression encryption : ℕ) (w w' later : World)
      → IsText request
      → from_utf8 request ≡ ok request
      → (compression ≡ Compression.lz4 → length request < 2 ^ 31)
      → (encryption ≢ Encryption.none → ShareKey l util w later)
      → payload_of l util request compression encryption w ≡ (ok body, w')
      → Back util request later (accept l util compression encryption body later)
  unfolding payload_of accept
  accept-payload_of request body compression encryption w w' later text utf8 small share h =
      elim (Bool-cases (compression == Compression.none && encryption == Encryption.none)) [
        | inl e ↦
            let same : request ≡ body =
              same_ok (ap (λ (x : Result Bytes × World). x.0) (rw e at h)) in
            record {
              kept = later;
              cache = later.cache;
              is_back = rw (e, ← same, strip_null-IsText request text, utf8);
              from = inl refl;
            }
        | inr e ↦
            let (parsed, visible) =
              secure_parse-protect request body compression encryption w w' later text utf8 small
                share (rw e at h) in
            rw (e, strip_null-IsText body (IsVisible→IsText body visible)) parsed
      ]

  -- The header leads to the payload, and what comes behind the frame stays unread.
  read_response-frame :
      (body rest : Bytes) (ending : Ending) (compression encryption : ℕ) (w : World)
      → compression ≤ Compression.bzip2
      → encryption ≤ Encryption.aes_128_gcm
      → length body ≤ max_frame_len
      → read_response l util
          (record { pending = frame compression encryption body ++ rest; ending = ending })
          w
        ≡ accept l util compression encryption body w
  unfolding read_response next_u8
  read_response-frame body rest ending compression encryption w hc he small = rw (
    known_compression compression hc,
    known_encryption encryption he,
    append_assoc (to_be_bytes (length body)) body rest,
    next_u32-to_be_bytes (length body) (body ++ rest) ending (omega arith),
    le→ltb max_frame_len (length body) small,
    read_exact-append body rest ending,
  )

  -- A peer that shares the key file reads back every request that was written, in any pair of supported
  -- modes, from the bytes that the writing added to the stream, whatever follows them. Of the peer's
  -- world, or of what the loading of its key file left, at most the cache changes. The request is a text
  -- with no zero byte, shorter than 2^31 bytes under LZ4, and its frame has a payload of at most 64 MiB;
  -- where the mode encrypts, both sides load the same key pair, which leaves valid worlds.
  pub read_response-write_request :
      (request sent rest : Bytes) (ending : Ending) (compression encryption : ℕ) (env env' : Env)
      (later : World)
      → IsText request
      → from_utf8 request ≡ ok request
      → compression ≤ Compression.bzip2
      → encryption ≤ Encryption.aes_128_gcm
      → (compression ≡ Compression.lz4 → length request < 2 ^ 31)
      → (encryption ≢ Encryption.none → ShareKey l util env.world later)
      → write_request l util request compression encryption env ≡ (ok tt, env')
      → env'.wire.sent ≡ env.wire.sent ++ sent
      → length sent ≤ 6 + max_frame_len
      → Back util request later
          (read_response l util (record { pending = sent ++ rest; ending = ending }) later)
  read_response-write_request request sent rest ending compression encryption env env' later text
        utf8 hc he small share h added fits =
      let (body, w', prepared, written, _) =
        write_request-frame l util compression encryption request env env' h in
      let same : sent ≡ frame compression encryption body =
        same_tail env.wire.sent sent (frame compression encryption body) (sym added ∙ written) in
      let fits' : length body ≤ max_frame_len =
        omega (arith, length-frame compression encryption body, rw same at fits) in
      rw (same, read_response-frame body rest ending compression encryption later hc he fits')
        (accept-payload_of request body compression encryption env.world w' later text utf8 small
          share prepared)
