-- ===== src/Handler/Tools/Offered.antt =====
-- What src/handler/info.rs and src/handler/hello.rs tell about the tools, as an agent that asks for them
-- gets it, and the capabilities of the server (src/handler.rs). The schemas of the parameters are made
-- by schemars, the one of no parameters by rmcp.
use pgmoneta_mcp.Prelude.{◌≡◌, refl, Bool, true, Option, some, List, [], ◌∷◌, ◌++◌, map}
use pgmoneta_mcp.Bytes.{Bytes, codes}
use pgmoneta_mcp.Llm.{Tool, ToolDefinition, mcp_tools_to_llm_schema}
use pgmoneta_mcp.Handler.Tools.{
  say_hello_name, get_backup_info_name, list_backups_name, tool_router,
}

-- The parts of `ServerInfo` that `get_info` sets.
pub record ServerInfo : Type 0 where
  pub enable_tools : Bool
  pub instructions : Bytes

abbrev pub get_info : ServerInfo
get_info = record {
  enable_tools = true;
  instructions =
      codes
        "This server provides capabilities to interact with pgmoneta, a backup/restore tool for PostgreSQL.";
}

abbrev say_hello_description : Option Bytes
say_hello_description = some (codes "Say hello to the client")

abbrev get_backup_info_description : Option Bytes
get_backup_info_description = some (
    codes "Get information of a backup using given backup ID and server name. "
    ++ (codes "\"newest\", \"latest\" or \"oldest\" are also accepted as backup identifier. "
        ++ codes "The username has to be one of the pgmoneta admins to be able to access pgmoneta"))

abbrev list_backups_description : Option Bytes
list_backups_description = some (
    codes "List backups of a server. "
    ++ (codes "Specify asc or desc to determine the sorting order. "
        ++ codes "The backups are sorted in ascending order if not specified."))

module _ {Value : Type 0} (no_parameters info_schema list_schema : Value) where
  -- The tools of the router.
  abbrev pub offered_tools : List (Tool Value)
  offered_tools =
      record {
        name = say_hello_name;
        description = say_hello_description;
        input_schema = no_parameters;
      }
      ∷ record {
        name = get_backup_info_name;
        description = get_backup_info_description;
        input_schema = info_schema;
      }
      ∷ record {
        name = list_backups_name;
        description = list_backups_description;
        input_schema = list_schema;
      }
      ∷ []

  -- The model is offered the tools of the router under their names.
  offered_names :
      map (λ (d : ToolDefinition Value). d.function.name) (mcp_tools_to_llm_schema offered_tools)
      ≡ tool_router
  unfolding mcp_tools_to_llm_schema
  offered_names = refl
