-- ===== src/Tests/Wire.antt =====
-- The handshake of src/security.rs on concrete streams.
use pgmoneta_mcp.Prelude.{ℕ, ◌+◌, ◌≡◌, refl, none, [], ◌∷◌, ◌++◌, arith, length}
use pgmoneta_mcp.Bytes.{Bytes, codes, to_be_bytes, from_be_bytes}
use pgmoneta_mcp.Bytes.Utf8.{from_utf8, is_utf8}
use pgmoneta_mcp.Result.{ok}
use pgmoneta_mcp.Stream.{ended, closes, stalls, put, write_all, next_u8, next_u32, read_exact}
use pgmoneta_mcp.Security.Wire.{
  create_startup_message, startup_parameters, client_first_message, client_final_message,
  read_message,
}
use pgmoneta_mcp.Security.Wire.Reading.{read_message-client_final}
use pgmoneta_mcp.Security.Handshake.{
  Scram, Connection, connected, header_of, has_window, send, receive, auth_message, sasl_payload,
  check_success, sasl_exchange, startup_answer, authenticate, connect_to_server,
}
use pgmoneta_mcp.Security.Handshake.Authenticated.{Authenticated, connect_to_server-Authenticated}

-- A session that accepts every message.
abbrev scram : Scram
scram = record {
  client_first = codes "n,,n=u,r=c";
  handle_server_first = λ s. ok (codes "c=biws,r=cs,p=x");
  handle_server_final = λ s t. ok tt;
}

abbrev message : ℕ → Bytes → Bytes
message code payload = b'R' ∷ (to_be_bytes (8 + length payload) ++ (to_be_bytes code ++ payload))

-- A server that asks for SCRAM-SHA-256 and answers each message.
abbrev before : Connection
before = record {
  reader = record {
    pending =
        message 10 (codes "SCRAM-SHA-256" ++ 0 ∷ 0 ∷ [])
        ++ (message 11 (codes "r=cs") ++ (message 12 (codes "v=y") ++ message 0 []));
    ending = stalls;
  };
  writer = record { sent = []; room = none };
}

abbrev after : Connection
after = record {
  reader = record { pending = []; ending = stalls };
  writer = record {
    sent =
        create_startup_message (codes "u")
        ++ (client_first_message (codes "n,,n=u,r=c")
            ++ client_final_message (codes "c=biws,r=cs,p=x"));
    room = none;
  };
}

connects : connect_to_server scram (connected before) (codes "u") ≡ ok after
unfolding connect_to_server authenticate startup_answer sasl_exchange check_success sasl_payload
    auth_message receive send has_window header_of create_startup_message startup_parameters
    client_first_message client_final_message read_message put write_all next_u8 next_u32 read_exact
    from_utf8 is_utf8 to_be_bytes from_be_bytes
connects = refl

connect_to_server-Authenticated_example :
    (c : Connection) × (connected before ≡ connected c) × Authenticated scram (codes "u") c after
connect_to_server-Authenticated_example =
    connect_to_server-Authenticated scram (codes "u") (connected before) after connects

read_message-client_final_example :
    read_message (record { pending = client_final_message (codes "p=x"); ending = closes })
    ≡ ended closes
read_message-client_final_example = read_message-client_final (codes "p=x") closes (omega arith)
