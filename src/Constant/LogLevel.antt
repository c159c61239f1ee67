-- ===== src/Constant/LogLevel.antt =====
-- `impl LogLevel` of src/constant.rs.
use pgmoneta_mcp.Prelude.{String}

abbrev pub trace : String
trace = "trace"

abbrev pub debug : String
debug = "debug"

abbrev pub info : String
info = "info"

abbrev pub warn : String
warn = "warn"

abbrev pub error : String
error = "error"
