-- ===== src/Constant.antt =====
-- The codes and keywords of src/constant.rs, a module for each of its types.
pub mod Command
pub mod Format
pub mod Compression
pub mod Encryption
pub mod ManagementError
pub mod Sort
pub mod LogLevel
pub mod LogType
pub mod LogMode
pub mod Names
use pgmoneta_mcp.Prelude.{String}

-- The client version that goes into each request header.
abbrev pub client_version : String
client_version = "0.21.0"

abbrev pub management_category_outcome : String
management_category_outcome = "Outcome"

abbrev management_argument_status : String
management_argument_status = "Status"
