-- ===== src/Client/Closed.antt =====
-- Requests of src/client.rs in terms of the steps of src/security.rs.
use pgmoneta_mcp.Prelude.{ℕ, ◌≡◌, not, ◌&&◌, length, ltb, ◌==◌, ◌-◌, ◌^◌, if◌then◌else◌, arith}
use pgmoneta_mcp.Bytes.{Bytes}
use pgmoneta_mcp.Bytes.Utf8.{from_utf8}
use pgmoneta_mcp.Result.{Result, ok, err, Stage, payload, payload_too_large, Result-cases}
use pgmoneta_mcp.Action.{Action, lift, pure, ◌>>=◌}
use pgmoneta_mcp.Constant.Compression
use pgmoneta_mcp.Constant.Encryption
use pgmoneta_mcp.CompressionUtil.{compress, decompress}
use pgmoneta_mcp.Libraries.{Libraries}
use pgmoneta_mcp.Configuration.{Configuration}
use pgmoneta_mcp.Stream.{
  Reader, Writer, Timed, done, failed, elapsed, read_u8, read_u32, read_exact,
}
use pgmoneta_mcp.World.{World}
use pgmoneta_mcp.Security.MasterKey.{SecurityUtil, load_master_key}
use pgmoneta_mcp.Security.Gcm.{
  encrypt_text_aes_gcm_bundle, decrypt_text_aes_gcm_bundle, decrypt_from_base64_string,
}
use pgmoneta_mcp.Security.Closed.{Closed, if-Closed, same-Closed}
use pgmoneta_mcp.Security.Closed.Actions.{
  load_master_key-Closed, decrypt_from_base64_string-Closed, encrypt_text_aes_gcm_bundle-Closed,
  decrypt_text_aes_gcm_bundle-Closed,
}
use pgmoneta_mcp.Security.Handshake.{Scram, Connection, Connecting}
use pgmoneta_mcp.Security.Handshake as Handshake
use pgmoneta_mcp.Client.Modes.{is_known_compression, is_known_encryption}
use pgmoneta_mcp.Client.Frame.{protect, payload_of, write_frame, write_request}
use pgmoneta_mcp.Client.Response.{
  timed, secure_parse, accept, strip_null, max_frame_len, read_payload, read_response,
  read_legacy_response_with_prefix,
}
use pgmoneta_mcp.Client.Request.{
  PgmonetaRequest, admin_of, build_request_header, password_of, exchange, connect_to_server,
  forward_request,
}

module _ (l : Libraries) (util : SecurityUtil) (P : (A : Type 0) → Action World A → Type 0)
    (closed : Closed l.crypto util P) where
  timed-Closed :
      {A B : Type 0} (stage : Stage) (t : Timed A) (k : A → Reader → Action World B)
      → ((a : A) (r : Reader) → P _ (k a r))
      → P _ (timed stage t k)
  timed-Closed stage (done a r) k h = h a r
  timed-Closed stage (failed e) k h = closed.lifted _
  timed-Closed stage elapsed k h = closed.lifted _

  protect-Closed : (request : Bytes) (c e : ℕ) → P _ (protect l util request c e)
  unfolding protect
  protect-Closed request c e =
      let compressed = if c == Compression.none then ok request else compress l.codecs request c in
      closed.chained (lift compressed) _ (closed.lifted compressed) λ body.
        closed.chained
          (if e == Encryption.none then pure body else encrypt_text_aes_gcm_bundle l util body e) _
          (if-Closed P (e == Encryption.none) _ _ (closed.lifted _)
            (encrypt_text_aes_gcm_bundle-Closed l util P closed body e))
          λ sealed. closed.lifted _

  pub payload_of-Closed : (request : Bytes) (c e : ℕ) → P _ (payload_of l util request c e)
  unfolding payload_of
  payload_of-Closed request c e =
      if-Closed P (c == Compression.none && e == Encryption.none) _ _ (closed.lifted _)
        (protect-Closed request c e)

  secure_parse-Closed : (buf : Bytes) (c e : ℕ) → P _ (secure_parse l util buf c e)
  unfolding secure_parse
  secure_parse-Closed buf c e =
      closed.chained (lift (from_utf8 buf)) _ (closed.lifted (from_utf8 buf)) λ text.
        closed.chained (lift (l.base64.decode text)) _ (closed.lifted (l.base64.decode text))
          λ bytes.
            closed.chained
              (if e == Encryption.none
                then pure bytes
                else decrypt_text_aes_gcm_bundle l util bytes e)
              _
              (if-Closed P (e == Encryption.none) _ _ (closed.lifted _)
                (decrypt_text_aes_gcm_bundle-Closed l util P closed bytes e))
              λ plain.
                let unpacked =
                  if c == Compression.none then ok plain else decompress l.codecs plain c in
                closed.chained (lift unpacked) _ (closed.lifted unpacked)
                  λ d. closed.lifted (from_utf8 d)

  accept-Closed : (c e : ℕ) (buf : Bytes) → P _ (accept l util c e buf)
  unfolding accept
  accept-Closed c e buf =
      if-Closed P (c == Compression.none && e == Encryption.none) _ _
        (closed.lifted (from_utf8 (strip_null buf))) (secure_parse-Closed (strip_null buf) c e)

  pub read_response-Closed : (stream : Reader) → P _ (read_response l util stream)
  unfolding read_response read_payload
  read_response-Closed stream = timed-Closed _ (read_u8 stream) _ λ c r.
      if-Closed P (not (is_known_compression c)) _ _
        (closed.lifted (read_legacy_response_with_prefix r c))
        (timed-Closed _ (read_u8 r) _ λ e r'.
          if-Closed P (not (is_known_encryption e)) _ _ (closed.lifted _) (
            timed-Closed _ (read_u32 r') _ λ len r''.
              if-Closed P (ltb max_frame_len len) _ _ (closed.lifted _)
                (timed-Closed payload (read_exact len r'') _ λ buf _. accept-Closed c e buf)))

  -- Writing depends on the world only through the payload.
  written : Bytes → ℕ → ℕ → Writer → Result (Unit {0})
  written p c e wire =
      if ltb (2 ^ 32 - 1) (length p)
      then err (payload_too_large (length p))
      else (write_frame c e p wire).0

  exchanged : Connection → Bytes → ℕ → ℕ → Action World Bytes
  exchanged stream request c e =
      payload_of l util request c e >>= (λ p. lift (written p c e stream.writer)) >>= λ _.
      read_response l util stream.reader

  exchange-exchanged :
      (stream : Connection) (request : Bytes) (c e : ℕ) (w : World)
      → exchange l util stream request c e w ≡ exchanged stream request c e w
  unfolding exchange write_request exchanged written
  exchange-exchanged stream request c e w =
      ground (arith, Result-cases (payload_of l util request c e w).0)

  pub exchange-Closed :
      (stream : Connection) (request : Bytes) (c e : ℕ) → P _ (exchange l util stream request c e)
  unfolding exchanged
  exchange-Closed stream request c e =
      same-Closed P (exchange l util stream request c e) (exchanged stream request c e)
        (exchange-exchanged stream request c e)
        (closed.chained (payload_of l util request c e >>= λ p. lift (written p c e stream.writer))
          _
          (closed.chained (payload_of l util request c e) _ (payload_of-Closed request c e)
            λ p. closed.lifted (written p c e stream.writer))
          λ _. read_response-Closed stream.reader)

  module _ (config : Configuration) where
    pub password_of-Closed : (username : Bytes) → P _ (password_of l util config username)
    unfolding password_of
    password_of-Closed username =
        closed.chained (lift (admin_of config username)) _
          (closed.lifted (admin_of config username))
          λ stored.
            closed.chained (load_master_key util) _ (load_master_key-Closed l util P closed)
              λ master.
                closed.chained (decrypt_from_base64_string l stored master.password master.salt) _
                  (decrypt_from_base64_string-Closed l util P closed stored master.password
                    master.salt)
                  λ password. closed.lifted (from_utf8 password)

    module _ (scram_client : Bytes → Bytes → Scram) (dial : Bytes → ℕ → Connecting) where
      pub connect_to_server-Closed :
          (username : Bytes) → P _ (connect_to_server l util config scram_client dial username)
      unfolding connect_to_server
      connect_to_server-Closed username =
          closed.chained (password_of l util config username) _ (password_of-Closed username)
            λ password. closed.lifted (
              Handshake.connect_to_server (scram_client username password)
                (dial config.pgmoneta_section.host config.pgmoneta_section.port) username)

      pub forward_request-Closed :
          {R : Type 0} (to_string : PgmonetaRequest R → Result Bytes) (timestamp username : Bytes)
          (command : ℕ) (request : R)
          → P _ (
              forward_request l util config scram_client dial to_string timestamp username command
                request)
      unfolding forward_request
      forward_request-Closed to_string timestamp username command request =
          let built = build_request_header config timestamp command in
          closed.chained (lift built) _ (closed.lifted built) λ header.
            closed.chained (connect_to_server l util config scram_client dial username) _
              (connect_to_server-Closed username)
              λ stream.
                let text = to_string (record { header = header; request = request }) in
                closed.chained (lift text) _ (closed.lifted text) λ request_str.
                  exchange-Closed stream request_str header.compression header.encryption
