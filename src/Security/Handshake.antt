-- ===== src/Security/Handshake.antt =====
-- `SecurityUtil::connect_to_server` of src/security.rs: the SCRAM-SHA-256 handshake over a stream.
pub mod Messages
pub mod Authenticated
use pgmoneta_mcp.Prelude.{
  ℕ, ◌-◌, ◌≤◌, Bool, true, false, Option, none, some, [], ◌∷◌, ◌++◌, ◌||◌, ◌&&◌, not, length, ltb,
  ◌==◌, if◌then◌else◌,
}
use pgmoneta_mcp.Bytes.{Bytes, codes, from_be_bytes}
use pgmoneta_mcp.Bytes.Utf8.{from_utf8}
use pgmoneta_mcp.Result.{
  Result, ok, err, map_err, Phase, startup, client_first, client_final, startup_response,
  server_first, server_final, auth_success, failed_to_connect, connection_timed_out, failed_to_send,
  waiting_timed_out, invalid_message, unsupported_auth_type, unexpected_auth_type,
  authentication_did_not_succeed, scram_not_offered, authentication_failed,
  unexpected_success_response, io,
}
use pgmoneta_mcp.Action.{Action, pure, lift, raise, ◌>>=◌, ◌>>◌}
use pgmoneta_mcp.Stream.{Reader, Writer, Timed, done, failed, elapsed, write_all}
use pgmoneta_mcp.Security.Wire.{
  create_startup_message, client_first_message, client_final_message, read_message,
}

abbrev pub auth_ok : ℕ
auth_ok = 0

abbrev pub auth_sasl : ℕ
auth_sasl = 10

abbrev pub auth_sasl_continue : ℕ
auth_sasl_continue = 11

abbrev pub auth_sasl_final : ℕ
auth_sasl_final = 12

-- A session of the scram crate for one user name and password, by the server's messages so far: the
-- first message, the answer to `server_first`, and the verdict on `server_final` behind it.
pub record Scram : Type 0 where
  pub client_first : Bytes
  pub handle_server_first : Bytes → Result Bytes
  pub handle_server_final : Bytes → Bytes → Result (Unit {0})

-- Both directions of the connection.
pub record Connection : Type 0 where
  pub reader : Reader
  pub writer : Writer

-- The outcome of `timeout(5 s, TcpStream::connect(address))`.
pub data Connecting : Type 0 where
  connected : Connection → Connecting
  refused timed_out : Connecting

-- Type byte, authentication code and payload of a message of at least nine bytes. The code is the
-- bit pattern of an `i32`, and is only compared with small constants.
pub record Header : Type 0 where
  pub kind : ℕ
  pub auth_type : ℕ
  pub payload : Bytes

unfoldable pub header_of : Bytes → Option Header
header_of (t ∷ l1 ∷ l2 ∷ l3 ∷ l4 ∷ a ∷ b ∷ c ∷ d ∷ payload) =
    some (record { kind = t; auth_type = from_be_bytes a b c d; payload = payload })
header_of _ = none

is_prefix : Bytes → Bytes → Bool
is_prefix [] s = true
is_prefix (x ∷ xs) [] = false
is_prefix (x ∷ xs) (y ∷ ys) = x == y && is_prefix xs ys

-- `payload.windows(n).any(|w| w == needle)`
unfoldable pub has_window : Bytes → Bytes → Bool
unfolding is_prefix
has_window needle [] = is_prefix needle []
has_window needle (c ∷ s) = is_prefix needle (c ∷ s) || has_window needle s

unfoldable pub send : Phase → Bytes → Action Connection (Unit {0})
send phase message c =
    let (r, w) = write_all message c.writer in
    (map_err (λ e. failed_to_send phase) r, record c { writer = w })

abbrev pub receive_outcome : Phase → Timed (Result Bytes) → Action Connection Bytes
receive_outcome phase (done r reader) c = (r, record c { reader = reader })
receive_outcome phase (failed e) c = (err io, c)
receive_outcome phase elapsed c = (err (waiting_timed_out phase), c)

unfoldable pub receive : Phase → Action Connection Bytes
receive phase c = receive_outcome phase (read_message c.reader) c

-- A message of type 'R' with its code; the server's two SASL messages must have a payload.
unfoldable pub auth_message : Phase → Bytes → Result Header
auth_message phase message = elim (header_of message) [
  | none ↦ err (invalid_message phase)
  | some h ↦ if h.kind == b'R' then ok h else err (invalid_message phase)
]

unfoldable pub sasl_payload : Phase → ℕ → Bytes → Result Bytes
sasl_payload phase expected message = elim (auth_message phase message) [
  | err e ↦ err e
  | ok h ↦ elim h.payload [
    | [] ↦ err (invalid_message phase)
    | b ∷ s ↦
        if h.auth_type == expected
        then from_utf8 (b ∷ s)
        else err (unexpected_auth_type h.auth_type)
  ]
]

unfoldable pub check_success : Bytes → Result (Unit {0})
check_success [] = err authentication_failed
check_success (t ∷ rest) =
    if t == b'E' then err authentication_failed else elim (header_of (t ∷ rest)) [
      | none ↦ err unexpected_success_response
      | some h ↦
          if not (t == b'R')
          then err unexpected_success_response
          else if h.auth_type == auth_ok
          then ok tt
          else err (authentication_did_not_succeed h.auth_type)
    ]

module _ (scram : Scram) where
  -- From the client-first message on.
  unfoldable pub sasl_exchange : Action Connection (Unit {0})
  sasl_exchange = do
    send client_first (client_first_message scram.client_first)
    first_message ← receive server_first
    first ← lift (sasl_payload server_first auth_sasl_continue first_message)
    final ← lift (scram.handle_server_first first)
    send client_final (client_final_message final)
    final_message ← receive server_final
    last ← lift (sasl_payload server_final auth_sasl_final final_message)
    lift (scram.handle_server_final first last)
    success ← receive auth_success
    lift (check_success success)

  -- The match on the code of the startup response.
  unfoldable pub startup_answer : Header → Action Connection (Unit {0})
  startup_answer h =
      if h.auth_type == auth_ok
      then pure tt
      else if h.auth_type == auth_sasl
      then (if has_window (codes "SCRAM-SHA-256") h.payload
          then sasl_exchange
          else raise scram_not_offered)
      else raise (unsupported_auth_type h.auth_type)

  unfoldable pub authenticate : Bytes → Action Connection (Unit {0})
  authenticate username = do
    send startup (create_startup_message username)
    response ← receive startup_response
    h ← lift (auth_message startup_response response)
    startup_answer h

  -- The stream that is handed out is the connection behind the exchange.
  unfoldable pub connect_to_server : Connecting → Bytes → Result Connection
  connect_to_server refused username = err failed_to_connect
  connect_to_server timed_out username = err connection_timed_out
  connect_to_server (connected c) username =
      let (r, c') = authenticate username c in elim r [ ok _ ↦ ok c' | err e ↦ err e ]
