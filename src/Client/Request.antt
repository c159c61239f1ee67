-- ===== src/Client/Request.antt =====
-- `forward_request` of src/client.rs: header, login, request and response, and the requests of
-- src/client/info.rs. The clock, the JSON printer, the network and the scram crate are parameters.
pub mod Forwarded
use pgmoneta_mcp.Prelude.{ℕ, Option, none, some, List, [], ◌∷◌, if◌then◌else◌}
use pgmoneta_mcp.Bytes.{Bytes, codes, eq_bytes}
use pgmoneta_mcp.Bytes.Utf8.{from_utf8}
use pgmoneta_mcp.Result.{Result, ok, err, user_not_found}
use pgmoneta_mcp.Result
use pgmoneta_mcp.Action.{Action, pure, lift, raise, ◌>>=◌, ◌>>◌}
use pgmoneta_mcp.Dict.{lookup}
use pgmoneta_mcp.Libraries.{Libraries}
use pgmoneta_mcp.Constant.{client_version}
use pgmoneta_mcp.Constant.Command
use pgmoneta_mcp.Constant.Format
use pgmoneta_mcp.Configuration.{Configuration}
use pgmoneta_mcp.World.{World}
use pgmoneta_mcp.Stream.{Reader, Writer}
use pgmoneta_mcp.Security.MasterKey.{SecurityUtil, load_master_key}
use pgmoneta_mcp.Security.Gcm.{decrypt_from_base64_string}
use pgmoneta_mcp.Security.Handshake.{Scram, Connection, Connecting}
use pgmoneta_mcp.Security.Handshake as Handshake
use pgmoneta_mcp.Client.Modes.{parse_compression, parse_encryption}
use pgmoneta_mcp.Client.Frame.{write_request}
use pgmoneta_mcp.Client.Response.{read_response}

pub record RequestHeader : Type 0 where
  pub command : ℕ
  pub client_version : Bytes
  pub output_format : ℕ
  pub timestamp : Bytes
  pub compression : ℕ
  pub encryption : ℕ

pub record PgmonetaRequest (R : Type 0) : Type 0 where
  pub header : RequestHeader
  pub request : R

pub record InfoRequest : Type 0 where
  pub server : Bytes
  pub backup : Bytes

pub record ListBackupsRequest : Type 0 where
  pub server : Bytes
  pub sort : Bytes

unfoldable pub admin_of : Configuration → Bytes → Result Bytes
admin_of config username = elim (lookup username config.admins) [
  | none ↦ err (user_not_found username)
  | some password ↦ ok password
]

-- The configuration is set before the first request.
unfoldable pub build_request_header : Configuration → Bytes → ℕ → Result RequestHeader
build_request_header config timestamp command =
    Result.◌>>=◌ (parse_encryption config.pgmoneta_section.encryption) λ encryption. ok (record {
      command = command;
      client_version = codes client_version;
      output_format = Format.json;
      timestamp = timestamp;
      compression = parse_compression config.pgmoneta_section.compression;
      encryption = encryption;
    })

module _ (l : Libraries) (util : SecurityUtil) where
  -- Writing to the stream that was handed out, then reading from it.
  unfoldable pub exchange : Connection → Bytes → ℕ → ℕ → Action World Bytes
  exchange stream request_str compression encryption w =
      let (r, env) =
        write_request l util request_str compression encryption
          (record { world = w; wire = stream.writer }) in
      elim r [ err e ↦ (err e, env.world) | ok _ ↦ read_response l util stream.reader env.world ]

  module _ (config : Configuration) where
    -- The password of the user, decrypted under the master key file.
    unfoldable pub password_of : Bytes → Action World Bytes
    password_of username = do
      password_encrypted ← lift (admin_of config username)
      master ← load_master_key util
      password ← decrypt_from_base64_string l password_encrypted master.password master.salt
      lift (from_utf8 password)

    module _ (scram_client : Bytes → Bytes → Scram) (dial : Bytes → ℕ → Connecting) where
      unfoldable pub connect_to_server : Bytes → Action World Connection
      connect_to_server username = do
        password ← password_of username
        lift (
            Handshake.connect_to_server (scram_client username password)
              (dial config.pgmoneta_section.host config.pgmoneta_section.port) username)

      unfoldable pub forward_request :
          {R : Type 0}
          → (PgmonetaRequest R → Result Bytes)
          → Bytes
          → Bytes
          → ℕ
          → R
          → Action World Bytes
      forward_request to_string timestamp username command request = do
        header ← lift (build_request_header config timestamp command)
        stream ← connect_to_server username
        request_str ← lift (to_string (record { header = header; request = request }))
        exchange stream request_str header.compression header.encryption

      unfoldable pub request_backup_info :
          (PgmonetaRequest InfoRequest → Result Bytes)
          → Bytes
          → Bytes
          → Bytes
          → Bytes
          → Action World Bytes
      request_backup_info to_string timestamp username server backup =
          forward_request to_string timestamp username Command.info
            (record { server = server; backup = backup })

      unfoldable pub request_list_backups :
          (PgmonetaRequest ListBackupsRequest → Result Bytes)
          → Bytes
          → Bytes
          → Bytes
          → Bytes
          → Action World Bytes
      request_list_backups to_string timestamp username server sort =
          forward_request to_string timestamp username Command.list_backup
            (record { server = server; sort = sort })
