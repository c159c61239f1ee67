-- ===== src/Constant/Sort.antt =====
-- `impl Sort` of src/constant.rs.
use pgmoneta_mcp.Prelude.{String}

abbrev pub asc : String
asc = "asc"

abbrev pub desc : String
desc = "desc"
