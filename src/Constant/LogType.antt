-- ===== src/Constant/LogType.antt =====
-- `impl LogType` of src/constant.rs.
use pgmoneta_mcp.Prelude.{String}

abbrev pub console : String
console = "console"

abbrev pub file : String
file = "file"

abbrev pub syslog : String
syslog = "syslog"
