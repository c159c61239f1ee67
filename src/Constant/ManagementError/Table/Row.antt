-- ===== src/Constant/ManagementError/Table/Row.antt =====
-- A table of management error codes and their texts (src/constant.rs).
use pgmoneta_mcp.Prelude.{ℕ, List, String}

abbrev pub ErrorTable : Type 0
ErrorTable = List (ℕ × String)
