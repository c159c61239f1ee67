-- ===== src/Tests/Requests.antt =====
-- A whole request of src/client.rs on a concrete server.
use pgmoneta_mcp.Prelude.{ℕ, ◌≡◌, refl, none, some, if◌then◌else◌, [], ◌∷◌, ◌++◌}
use pgmoneta_mcp.Bytes.{Bytes, codes, eq_bytes, to_be_bytes, from_be_bytes}
use pgmoneta_mcp.Bytes.Utf8.{from_utf8, is_utf8}
use pgmoneta_mcp.Bytes.Text.{lines, trim, to_lowercase}
use pgmoneta_mcp.Result.{Result, ok}
use pgmoneta_mcp.Stream.{closes, put, write_all, write_u8, write_u32, next_u8, next_u32, read_exact}
use pgmoneta_mcp.Constant.Command
use pgmoneta_mcp.Dict.{lookup}
use pgmoneta_mcp.World.{World, file, metadata_mode, set_permissions, read_to_string}
use pgmoneta_mcp.Configuration.{
  Configuration, default_port, default_log_path, default_log_level, default_log_type,
  default_log_line_prefix, default_log_mode, default_log_rotation_age,
}
use pgmoneta_mcp.Security.MasterKey.{
  SecurityUtil, new_with_path, parse_lines, restrict, load_master_key,
}
use pgmoneta_mcp.Security.Kdf.{
  cached_key, derive_and_store, get_or_derive_master_key, derive_key_two_step,
}
use pgmoneta_mcp.Security.Gcm.{
  key_len_of, by_mode, open_arm, decrypt_text_aes_gcm, open_layout, decrypt_from_base64_string,
}
use pgmoneta_mcp.Security.Wire.{create_startup_message, startup_parameters, read_message}
use pgmoneta_mcp.Security.Handshake.{
  Scram, Connection, Connecting, connected, header_of, send, receive, auth_message, startup_answer,
  authenticate,
}
use pgmoneta_mcp.Security.Handshake as Handshake
use pgmoneta_mcp.Client.Modes.{
  compression_of, parse_compression, encryption_of, parse_encryption, is_known_compression,
  is_known_encryption,
}
use pgmoneta_mcp.Client.Frame.{payload_of, write_frame, write_request}
use pgmoneta_mcp.Client.Response.{read_payload, strip_null, accept, read_response}
use pgmoneta_mcp.Client.Request.{
  InfoRequest, admin_of, build_request_header, password_of, request_list_backups, connect_to_server,
  exchange, forward_request,
}
use pgmoneta_mcp.Client.Request.Forwarded.{Forwarded}
use pgmoneta_mcp.Handler.{
  Members, no_members, member, null, generate_call_tool_result_string, parse_and_check_result,
  contains_key, translate_result, put_member, translate_value,
}
use pgmoneta_mcp.Handler.Tools.{Texts, Invocation, list_call, list_backups, invoke}
use pgmoneta_mcp.Tests.{libraries, engine, encode, decode, key_world, key_file}

abbrev pub util : SecurityUtil
unfolding new_with_path
util = new_with_path engine (codes "/k")

-- The password "pw" of the user "u", behind its salt and nonce.
abbrev pub conf : Configuration
conf = record {
  pgmoneta_mcp_section = record {
    port = default_port;
    log_path = default_log_path;
    log_level = default_log_level;
    log_type = default_log_type;
    log_line_prefix = default_log_line_prefix;
    log_mode = default_log_mode;
    log_rotation_age = default_log_rotation_age;
  };
  pgmoneta_section = record {
    host = codes "localhost";
    port = 5000;
    compression = codes "none";
    encryption = codes "none";
  };
  admins =
      (codes "u", encode (codes "the salt, 16 by." ++ (codes "the nonce 12" ++ codes "pw"))) ∷ [];
  llm = none;
}

abbrev pub scram_client : Bytes → Bytes → Scram
scram_client username password = record {
  client_first = codes "n,,n=u,r=c";
  handle_server_first = λ s. ok (codes "c=biws,r=cs,p=x");
  handle_server_final = λ s t. ok tt;
}

-- A server that trusts the client and answers with a plain frame.
abbrev pub dial : Bytes → ℕ → Connecting
dial host port = connected (record {
  reader = record {
    pending = b'R' ∷ (to_be_bytes 8 ++ (to_be_bytes 0 ++ (0 ∷ 0 ∷ (to_be_bytes 2 ++ codes "{}"))));
    ending = closes;
  };
  writer = record { sent = []; room = none };
})

abbrev info_request : InfoRequest
info_request = record { server = codes "primary"; backup = codes "newest" }

-- A tool whose answer is the response as it came.
abbrev response : Members
response = member (codes "Outcome") null no_members

abbrev pub texts : Texts
texts = record {
  info_request = λ r. ok (codes "{}");
  list_request = λ r. ok (codes "{}");
  from_str = λ s. ok response;
  to_string = λ m. ok (codes "{}");
}

-- The key file is open to all readers.
abbrev pub loose_world : World
loose_world = record key_world {
  files = λ p. if eq_bytes p (codes "/k") then some (file key_file 0o644) else none;
}

abbrev pub listing : Invocation
listing = list_call (record { username = codes "u"; server = codes "primary"; sort = none })

abbrev pub listed : Result Bytes × World
listed =
    invoke libraries util conf scram_client dial texts (codes "20260101000000") listing loose_world

pub served : listed ≡ (ok (codes "{}"), listed.1)
unfolding invoke list_backups request_list_backups generate_call_tool_result_string
    parse_and_check_result contains_key translate_result put_member translate_value forward_request
    connect_to_server exchange password_of build_request_header admin_of lookup read_response
    read_payload accept strip_null write_request write_frame payload_of is_known_compression
    is_known_encryption parse_encryption encryption_of parse_compression compression_of authenticate
    startup_answer auth_message receive send header_of Handshake.connect_to_server
    create_startup_message startup_parameters read_message decrypt_from_base64_string open_layout
    decrypt_text_aes_gcm open_arm by_mode key_len_of derive_key_two_step get_or_derive_master_key
    derive_and_store cached_key new_with_path load_master_key restrict set_permissions metadata_mode
    read_to_string from_utf8 is_utf8 lines trim to_lowercase parse_lines encode decode eq_bytes put
    write_all write_u8 write_u32 next_u8 next_u32 read_exact to_be_bytes from_be_bytes
served = refl
