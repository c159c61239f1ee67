-- ===== src/Constant/LogMode.antt =====
-- `impl LogMode` of src/constant.rs.
use pgmoneta_mcp.Prelude.{String}

abbrev pub append : String
append = "append"

abbrev pub create : String
create = "create"
