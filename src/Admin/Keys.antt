-- ===== src/Admin/Keys.antt =====
-- `set_master_key` of src/bin/admin.rs: the key that was chosen is the one that is loaded later.
use pgmoneta_mcp.Bytes.{Bytes}
use pgmoneta_mcp.Result.{Result}
