-- ===== src/Constant/Format.antt =====
-- `impl Format` of src/constant.rs.
use pgmoneta_mcp.Prelude.{ℕ, String, ◌==◌, if◌then◌else◌}
use pgmoneta_mcp.Result.{Result, ok, err, unrecognized_format}

abbrev pub text : ℕ
text = 0

abbrev pub json : ℕ
json = 1

unfoldable pub translate_format_enum : ℕ → Result String
translate_format_enum format =
    if format == text
    then ok "text"
    else if format == json
    then ok "json"
    else err (unrecognized_format format)
