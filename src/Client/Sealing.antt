-- ===== src/Client/Sealing.antt =====
-- Where the bundle of a request of src/client.rs takes its random bytes from, among all that a call uses.
use pgmoneta_mcp.Prelude.{
  ℕ, ◌+◌, ◌≡◌, ◌≢◌, sym, ap, ◌∙◌, false, [], ◌++◌, take, append_assoc, ◌==◌, ◌&&◌, inl, inr,
  Bool-cases, arith, if◌then◌else◌,
}
use pgmoneta_mcp.Bytes.{Bytes}
use pgmoneta_mcp.Result.{Result, ok, Error, Result-cases}
use pgmoneta_mcp.Action.{
  Action, pure, lift, map_action_err, map_action_err-eq-ok, ◌>>=◌, >>=-eq-ok, continue-eq-ok,
}
use pgmoneta_mcp.Constant.Compression
use pgmoneta_mcp.Constant.Encryption
use pgmoneta_mcp.CompressionUtil.{compress}
use pgmoneta_mcp.Libraries.{Libraries}
use pgmoneta_mcp.Configuration.{Configuration}
use pgmoneta_mcp.World.{World}
use pgmoneta_mcp.Security.MasterKey.{SecurityUtil, salt_len, nonce_len}
use pgmoneta_mcp.Security.Gcm.{encrypt_text_aes_gcm_bundle}
use pgmoneta_mcp.Security.Gcm.RoundTrip.{IsValid}
use pgmoneta_mcp.Security.Evolves.{Evolves, Evolving}
use pgmoneta_mcp.Security.Evolves.Actions.{Evolving-Closed}
use pgmoneta_mcp.Security.Fresh.{encrypt_text_aes_gcm_bundle_lem}
use pgmoneta_mcp.Security.Handshake.{Scram, Connection, Connecting}
use pgmoneta_mcp.Client.Modes.{parse_encryption}
use pgmoneta_mcp.Client.Frame.{Env, protect, payload_of, write_request}
use pgmoneta_mcp.Client.Frame.Sent.{frame, write_request-frame}
use pgmoneta_mcp.Client.Response.Stages.{same_ok}
use pgmoneta_mcp.Client.Closed.{payload_of-Closed, read_response-Closed, connect_to_server-Closed}
use pgmoneta_mcp.Client.Request.{
  RequestHeader, PgmonetaRequest, build_request_header, connect_to_server, exchange,
  forward_request,
}
use pgmoneta_mcp.Client.Request.Forwarded.{exchange_outcome}

module _ (l : Libraries) (util : SecurityUtil) where
  abbrev Safe : (A : Type 0) → Action World A → Type 0
  Safe A m = Evolving l.crypto util m

  -- Between the two worlds a request was written whole with a bundle as its payload, in base64, and the
  -- salt and the nonce of the bundle are random bytes that were used between the two worlds.
  pub record Sealing (w w' : World) : Type 0 where
    pub request_str : Bytes
    pub compression : ℕ
    pub encryption : ℕ
    pub stream : Connection
    pub at : World
    pub env : Env
    pub bundle : Bytes
    pub before : Bytes
    pub after : Bytes
    pub written :
        write_request l util request_str compression encryption
          (record { world = at; wire = stream.writer })
        ≡ (ok tt, env)
    pub framed :
        env.wire.sent ≡ stream.writer.sent ++ frame compression encryption (l.base64.encode bundle)
    pub drawn : w.entropy ≡ before ++ (take (salt_len + nonce_len) bundle ++ (after ++ w'.entropy))

  preceded : (w u w' : World) → Evolves l.crypto util w u → Sealing u w' → Sealing w w'
  preceded w u w' a s = record {
    request_str = s.request_str;
    compression = s.compression;
    encryption = s.encryption;
    stream = s.stream;
    at = s.at;
    env = s.env;
    bundle = s.bundle;
    before = a.used ++ s.before;
    after = s.after;
    written = s.written;
    framed = s.framed;
    drawn = a.drawn ∙ ap (λ x. a.used ++ x) s.drawn ∙ sym (append_assoc a.used s.before _);
  }

  followed : (w u w' : World) → Sealing w u → Evolves l.crypto util u w' → Sealing w w'
  followed w u w' s b = record {
    request_str = s.request_str;
    compression = s.compression;
    encryption = s.encryption;
    stream = s.stream;
    at = s.at;
    env = s.env;
    bundle = s.bundle;
    before = s.before;
    after = s.after ++ b.used;
    written = s.written;
    framed = s.framed;
    drawn =
        s.drawn
        ∙ ap (λ x. s.before ++ (take (salt_len + nonce_len) s.bundle ++ x))
            (ap (λ x. s.after ++ x) b.drawn ∙ sym (append_assoc s.after b.used w'.entropy));
  }

  -- With a success, a request was sealed.
  abbrev pub Seals : {A : Type 0} → Action World A → Type 0
  Seals {A} m = (w w' : World) (a : A) → IsValid l.crypto w → m w ≡ (ok a, w') → Sealing w w'

  module _ {A B : Type 0} (m : Action World A) (f : A → Action World B) where
    pub sealed_first :
        Seals m
        → Evolving l.crypto util m
        → ((a : A) → Evolving l.crypto util (f a))
        → Seals (m >>= f)
    sealed_first seals before after w w' b v h =
        let (a, u, e, k) = >>=-eq-ok m f w h in
        let step = rw e at (before w v) in
        let later = rw k at (after a u step.valid) in followed w u w' (seals w u a v e) later

    sealed_then : Evolving l.crypto util m → ((a : A) → Seals (f a)) → Seals (m >>= f)
    sealed_then before seals w w' b v h =
        let (a, u, e, k) = >>=-eq-ok m f w h in
        let step = rw e at (before w v) in preceded w u w' step (seals a u w' b step.valid k)

  pub renamed-Seals :
      {A : Type 0} (f : Error → Error) (m : Action World A) → Seals m → Seals (map_action_err f m)
  renamed-Seals f m seals w w' a v h = seals w w' a v (map_action_err-eq-ok f m w h)

  encrypt-drawn :
      (z b : Bytes) (e : ℕ) (w u : World)
      → IsValid l.crypto w
      → e ≢ Encryption.none
      → (if e == Encryption.none then pure z else encrypt_text_aes_gcm_bundle l util z e) w
        ≡ (ok b, u)
      → w.entropy ≡ take (salt_len + nonce_len) b ++ u.entropy
  encrypt-drawn z b e w u v on h =
      let off : (e == Encryption.none) ≡ false = ground (arith, on) in
      encrypt_text_aes_gcm_bundle_lem l util z b e w u v (rw off at h)

  payload_of-drawn :
      (request body : Bytes) (c e : ℕ) (w w' : World)
      → IsValid l.crypto w
      → e ≢ Encryption.none
      → payload_of l util request c e w ≡ (ok body, w')
      → (bundle : Bytes) × (body ≡ l.base64.encode bundle)
        × (w.entropy ≡ take (salt_len + nonce_len) bundle ++ w'.entropy)
  unfolding payload_of protect
  payload_of-drawn request body c e w w' v on h =
      elim (Bool-cases (c == Compression.none && e == Encryption.none)) [
        | inl plain ↦ absurd (on (ground (arith, plain)))
        | inr other ↦
            let h0 = rw other at h in
            let (z, compressed, h1) =
              continue-eq-ok
                (if c == Compression.none then ok request else compress l.codecs request c) _ w
                h0 in
            let (b, u, sealed, h2) =
              >>=-eq-ok
                (if e == Encryption.none then pure z else encrypt_text_aes_gcm_bundle l util z e) _
                w h1 in
            let front = encrypt-drawn z b e w u v on sealed in
            (
              b,
              sym (same_ok (ap (λ (x : Result Bytes × World). x.0) h2)),
              front
                  ∙ ap (λ x. take (salt_len + nonce_len) b ++ x)
                      (ap (λ (x : Result Bytes × World). x.1.entropy) h2),
            )
      ]

  exchange-Seals :
      (stream : Connection) (request : Bytes) (c e : ℕ)
      → e ≢ Encryption.none
      → Seals (exchange l util stream request c e)
  unfolding exchange
  exchange-Seals stream request c e on w w' s v h =
      let (r, env) =
        write_request l util request c e (record { world = w; wire = stream.writer }) in
      let (sent, got) = exchange_outcome l util stream r env s w' h in
      let start : Env = record { world = w; wire = stream.writer } in
      let written : write_request l util request c e start ≡ (ok tt, env) = λ i. (sent i, env) in
      let (body, u, prepared, framed, same) =
        write_request-frame l util c e request start env written in
      let steps = Evolving-Closed l.crypto util in
      let sealed = rw prepared at (payload_of-Closed l util Safe steps request c e w v) in
      let valid : IsValid l.crypto env.world = rw same sealed.valid in
      let later =
        rw got at (read_response-Closed l util Safe steps stream.reader env.world valid) in
      let (bundle, is_body, front) = payload_of-drawn request body c e w u v on prepared in
      record {
        request_str = request;
        compression = c;
        encryption = e;
        stream = stream;
        at = w;
        env = env;
        bundle = bundle;
        before = [];
        after = later.used;
        written = written;
        framed = rw⁻¹ is_body framed;
        drawn =
            front
            ∙ ap (λ x. take (salt_len + nonce_len) bundle ++ x)
                (ap (λ (x : World). x.entropy) (sym same) ∙ later.drawn);
      }

  module _ (config : Configuration) (scram_client : Bytes → Bytes → Scram)
      (dial : Bytes → ℕ → Connecting)
      (is_on : (e : ℕ)
        → parse_encryption config.pgmoneta_section.encryption ≡ ok e
        → e ≢ Encryption.none) where
    header-is_on :
        (timestamp : Bytes) (command : ℕ) (header : RequestHeader)
        → build_request_header config timestamp command ≡ ok header
        → header.encryption ≢ Encryption.none
    unfolding build_request_header
    header-is_on timestamp command header h =
        elim (Result-cases (parse_encryption config.pgmoneta_section.encryption)) [
          | inl (e, parsed) ↦
              let k = rw parsed at h in
              let same : e ≡ header.encryption = cc in rw (← same) (is_on e parsed)
          | inr (x, failed) ↦ let clash = rw failed at h in cc
        ]

    pub forward_request-Seals :
        {R : Type 0} (to_string : PgmonetaRequest R → Result Bytes) (timestamp username : Bytes)
        (command : ℕ) (request : R)
        → Seals (
            forward_request l util config scram_client dial to_string timestamp username command
              request)
    unfolding forward_request
    forward_request-Seals to_string timestamp username command request w w' s v h =
        let steps = Evolving-Closed l.crypto util in
        let (header, has_header, h1) =
          continue-eq-ok (build_request_header config timestamp command) _ w h in
        let text : Connection → Result Bytes =
          λ stream. to_string (record { header = header; request = request }) in
        sealed_then (connect_to_server l util config scram_client dial username) _
          (connect_to_server-Closed l util Safe steps config scram_client dial username)
          (λ stream. sealed_then (lift (text stream)) _ (steps.lifted (text stream)) λ request_str.
            exchange-Seals stream request_str header.compression header.encryption
              (header-is_on timestamp command header has_header))
          w w' s v h1
