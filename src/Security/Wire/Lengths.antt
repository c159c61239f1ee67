-- ===== src/Security/Wire/Lengths.antt =====
-- The length fields of the messages that src/security.rs sends.
use pgmoneta_mcp.Prelude.{
  ℕ, ◌+◌, ◌≡◌, refl, ap, ◌∙◌, [], ◌∷◌, length, length-append, take, take-append, arith,
}
use pgmoneta_mcp.Bytes.{Bytes, to_be_bytes}
use pgmoneta_mcp.Security.Wire.{
  cstring, key_database, key_app_name, app_pgmoneta, db_admin, startup_parameters,
  create_startup_message,
}

pub length-to_be_bytes : (n : ℕ) → length (to_be_bytes n) ≡ 4
unfolding to_be_bytes
length-to_be_bytes n = refl

length-startup_parameters :
    (username : Bytes) → length (startup_parameters username) ≡ 48 + length username
unfolding startup_parameters
length-startup_parameters username = omega (
  arith,
  length-append username (
      0
      ∷ cstring key_database
          (cstring db_admin (cstring key_app_name (cstring app_pgmoneta (0 ∷ []))))),
)

length-startup :
    (username : Bytes) → length (create_startup_message username) ≡ 56 + length username
unfolding create_startup_message to_be_bytes
length-startup username = omega (arith, length-startup_parameters username)

-- The length field of the startup message is the length of the whole message, the field included,
-- for every user name.
create_startup_message-length :
    (username : Bytes)
    → (take 4 (create_startup_message username)
        ≡ to_be_bytes (length (create_startup_message username)))
      × (length (create_startup_message username) ≡ 56 + length username)
unfolding create_startup_message
create_startup_message-length username = (
  take-append 4 _ _ (length-to_be_bytes _)
      ∙ ap to_be_bytes (omega (arith, length-startup username)),
  length-startup username,
)
