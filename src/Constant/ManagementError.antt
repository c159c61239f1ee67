-- ===== src/Constant/ManagementError.antt =====
-- `ManagementError::translate_error_enum` of src/constant.rs.
pub mod Table
use Table.{ErrorTable, error_table}
use pgmoneta_mcp.Prelude.{ℕ, String, [], ◌∷◌, ◌==◌, if◌then◌else◌}

abbrev pub unknown_error : String
unknown_error = "Unknown error"

-- The first arm whose code is the scrutinee; the last arm of the match is `_`.
unfoldable pub first_arm : ErrorTable → ℕ → String
first_arm [] error = unknown_error
first_arm ((code, text) ∷ arms) error = if error == code then text else first_arm arms error

unfoldable pub translate_error_enum : ℕ → String
unfolding first_arm
translate_error_enum error = first_arm error_table error
