-- ===== src/Client/Request/Forwarded.antt =====
-- What a request of src/client.rs that returned a response has been through.
use pgmoneta_mcp.Prelude.{ℕ, ◌≡◌, refl}
use pgmoneta_mcp.Bytes.{Bytes}
use pgmoneta_mcp.Bytes.Utf8.{from_utf8}
use pgmoneta_mcp.Result.{Result, ok, err}
use pgmoneta_mcp.Libraries.{Libraries}
use pgmoneta_mcp.Configuration.{Configuration}
use pgmoneta_mcp.World.{World}
use pgmoneta_mcp.Security.MasterKey.{SecurityUtil, KeyPair, load_master_key}
use pgmoneta_mcp.Security.Gcm.{decrypt_from_base64_string}
use pgmoneta_mcp.Security.Handshake.{Scram, Connection, Connecting, connected}
use pgmoneta_mcp.Security.Handshake.Authenticated.{Authenticated}
use pgmoneta_mcp.Client.Frame.{Env, write_request}
use pgmoneta_mcp.Client.Response.{read_response}
use pgmoneta_mcp.Client.Response.Accepted.{Accepted}
use pgmoneta_mcp.Client.Request.{RequestHeader, PgmonetaRequest, admin_of, build_request_header}

module _ (l : Libraries) (util : SecurityUtil) where
  pub exchange_outcome :
      (stream : Connection) (r : Result (Unit {0})) (env : Env) (s : Bytes) (w' : World)
      → ◌≡◌ {A = Result Bytes × World}
          (elim r [
            | err e ↦ (err e, env.world)
            | ok _ ↦ read_response l util stream.reader env.world
          ])
          (ok s, w')
      → (r ≡ ok tt) × (read_response l util stream.reader env.world ≡ (ok s, w'))
  exchange_outcome stream (ok u) env s w' h = (refl, h)
  exchange_outcome stream (err e) env s w' h = cc

  -- A request that was written whole on the stream, and a response that was accepted from it.
  pub record Exchanged (stream : Connection) (request_str : Bytes) (compression encryption : ℕ)
      (w : World) (s : Bytes) (w' : World) : Type 0 where
    pub env : Env
    pub written :
        write_request l util request_str compression encryption
          (record { world = w; wire = stream.writer })
        ≡ (ok tt, env)
    pub answered : Accepted l util stream.reader.ending env.world s w' stream.reader.pending

  module _ (config : Configuration) where
    -- The password is the one that is configured for the user, decrypted under the loaded key pair.
    pub record HasPassword (username password : Bytes) (w w' : World) : Type 0 where
      pub password_encrypted : Bytes
      pub master : KeyPair
      pub opened : World
      pub plain : Bytes
      pub configured : admin_of config username ≡ ok password_encrypted
      pub loaded : load_master_key util w ≡ (ok master, opened)
      pub decrypted :
          decrypt_from_base64_string l password_encrypted master.password master.salt opened
          ≡ (ok plain, w')
      pub is_text : from_utf8 plain ≡ ok password

    module _ (scram_client : Bytes → Bytes → Scram) (dial : Bytes → ℕ → Connecting) where
      -- The stages of a request that returned the response s.
      pub record Forwarded {R : Type 0} (to_string : PgmonetaRequest R → Result Bytes)
          (timestamp username : Bytes) (command : ℕ) (request : R) (w : World) (s : Bytes)
          (w' : World) : Type 0 where
        pub header : RequestHeader
        pub password : Bytes
        pub w1 : World
        pub before : Connection
        pub stream : Connection
        pub request_str : Bytes
        pub has_header : build_request_header config timestamp command ≡ ok header
        pub has_password : HasPassword username password w w1
        pub dialled :
            dial config.pgmoneta_section.host config.pgmoneta_section.port ≡ connected before
        pub authenticated : Authenticated (scram_client username password) username before stream
        pub serialized : to_string (record { header = header; request = request }) ≡ ok request_str
        pub exchanged : Exchanged stream request_str header.compression header.encryption w1 s w'
