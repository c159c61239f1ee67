-- ===== src/Security/Wire.antt =====
-- PostgreSQL wire messages in src/security.rs: the three that the client builds, and the reader of
-- those that the server sends.
pub mod Lengths
pub mod Reading
use pgmoneta_mcp.Prelude.{ℕ, ◌+◌, ◌-◌, ◌*◌, [], ◌∷◌, ◌++◌, length, ltb, leb, ◌&&◌, if◌then◌else◌}
use pgmoneta_mcp.Bytes.{Bytes, codes, to_be_bytes}
use pgmoneta_mcp.Result.{Result, ok, err, invalid_message_length}
use pgmoneta_mcp.Stream.{Reader, Timed, done, failed, elapsed, read_u8, read_u32, read_exact}

abbrev pub key_user : Bytes
key_user = codes "user"

abbrev pub key_database : Bytes
key_database = codes "database"

abbrev pub key_app_name : Bytes
key_app_name = codes "application_name"

abbrev pub app_pgmoneta : Bytes
app_pgmoneta = codes "pgmoneta"

abbrev pub db_admin : Bytes
db_admin = codes "admin"

abbrev pub magic : ℕ
magic = 196608

abbrev pub header_offset : ℕ
header_offset = 9

abbrev pub max_pg_message_len : ℕ
max_pg_message_len = 64 * 1024

-- "SCRAM-SHA-256\0"
abbrev pub mechanism : Bytes
mechanism = codes "SCRAM-SHA-256" ++ (0 ∷ [])

-- A text, its zero byte, and what follows.
abbrev pub cstring : Bytes → Bytes → Bytes
cstring text rest = text ++ (0 ∷ rest)

-- The parameters, each name and value ended by a zero byte, and one more zero byte.
unfoldable pub startup_parameters : Bytes → Bytes
startup_parameters username = cstring key_user (
    cstring username (
      cstring key_database
        (cstring db_admin (cstring key_app_name (cstring app_pgmoneta (0 ∷ []))))))

unfoldable pub create_startup_message : Bytes → Bytes
create_startup_message username =
    let size = 4 + 4 + 4 + 1 + length username + 1 + 8 + 1 + length db_admin + 1 + 17 + 9 + 1 in
    to_be_bytes size ++ (to_be_bytes magic ++ startup_parameters username)

-- The SASLInitialResponse.
unfoldable pub client_first_message : Bytes → Bytes
client_first_message client_first =
    let size = 4 + length mechanism + 4 + length client_first in
    b'p' ∷ (to_be_bytes size ++ (mechanism ++ (to_be_bytes (length client_first) ++ client_first)))

-- The SASLResponse.
unfoldable pub client_final_message : Bytes → Bytes
client_final_message client_final =
    let size = 1 + 4 + length client_final in b'p' ∷ (to_be_bytes size ++ client_final)

-- An error or a timeout of the inner read is one of the whole.
abbrev pub then_read : {A B : Type 0} → Timed A → (A → Reader → Timed B) → Timed B
then_read (done a r) k = k a r
then_read (failed e) k = failed e
then_read elapsed k = elapsed

-- Type, length and payload, where the length counts itself.
unfoldable pub read_message : Reader → Timed (Result Bytes)
read_message stream = then_read (read_u8 stream) λ msg_type r. then_read (read_u32 r) λ len r'.
    if leb 4 len && leb len max_pg_message_len
    then then_read (read_exact (len - 4) r')
        (λ payload r''. done (ok (msg_type ∷ (to_be_bytes len ++ payload))) r'')
    else done (err (invalid_message_length len)) r'
