-- ===== src/Handler/Tools.antt =====
-- The tools of src/handler/info.rs and src/handler/hello.rs, from their parameters to the text that the
-- caller gets. rmcp finds the tool of a name and reads the parameters.
pub mod Invoked
pub mod Offered
use pgmoneta_mcp.Prelude.{ℕ, Option, none, some, List, [], ◌∷◌}
use pgmoneta_mcp.Bytes.{Bytes, codes}
use pgmoneta_mcp.Result.{Result, ok, backup_info_failed, list_backups_failed}
use pgmoneta_mcp.Action.{Action, lift, map_action_err, ◌>>=◌}
use pgmoneta_mcp.Libraries.{Libraries}
use pgmoneta_mcp.Constant.Sort
use pgmoneta_mcp.Configuration.{Configuration}
use pgmoneta_mcp.World.{World}
use pgmoneta_mcp.Security.MasterKey.{SecurityUtil}
use pgmoneta_mcp.Security.Handshake.{Scram, Connecting}
use pgmoneta_mcp.Client.Request as Client
use pgmoneta_mcp.Client.Request.{PgmonetaRequest, request_backup_info, request_list_backups}
use pgmoneta_mcp.Handler.{Members, generate_call_tool_result_string}

pub record InfoRequest : Type 0 where
  pub username : Bytes
  pub server : Bytes
  pub backup_id : Bytes

pub record ListBackupsRequest : Type 0 where
  pub username : Bytes
  pub server : Bytes
  pub sort : Option Bytes

abbrev pub say_hello_name : Bytes
say_hello_name = codes "say_hello"

abbrev pub get_backup_info_name : Bytes
get_backup_info_name = codes "get_backup_info"

abbrev pub list_backups_name : Bytes
list_backups_name = codes "list_backups"

-- The names of the registered tools.
abbrev pub tool_router : List Bytes
tool_router = say_hello_name ∷ get_backup_info_name ∷ list_backups_name ∷ []

abbrev pub say_hello : Result Bytes
say_hello = ok (codes "Hello from pgmoneta MCP server!")

-- `request.sort.unwrap_or(Sort::ASC.to_string())`
abbrev pub sort_or_asc : Option Bytes → Bytes
sort_or_asc none = codes Sort.asc
sort_or_asc (some sort) = sort

-- A call of one of the registered tools, with its parameters.
pub data Invocation : Type 0 where
  hello_call : Invocation
  info_call : InfoRequest → Invocation
  list_call : ListBackupsRequest → Invocation

-- The printers of the two requests, the parser of responses and the printer of answers.
pub record Texts : Type 0 where
  pub info_request : PgmonetaRequest Client.InfoRequest → Result Bytes
  pub list_request : PgmonetaRequest Client.ListBackupsRequest → Result Bytes
  pub from_str : Bytes → Result Members
  pub to_string : Members → Result Bytes

module _ (l : Libraries) (util : SecurityUtil) (config : Configuration)
    (scram_client : Bytes → Bytes → Scram) (dial : Bytes → ℕ → Connecting) (texts : Texts)
    (timestamp : Bytes) where
  unfoldable pub get_backup_info : InfoRequest → Action World Bytes
  get_backup_info request = do
    result ← map_action_err backup_info_failed (
        request_backup_info l util config scram_client dial texts.info_request timestamp
          request.username request.server request.backup_id)
    lift (generate_call_tool_result_string texts.from_str texts.to_string result)

  unfoldable pub list_backups : ListBackupsRequest → Action World Bytes
  list_backups request = do
    result ← map_action_err list_backups_failed (
        request_list_backups l util config scram_client dial texts.list_request timestamp
          request.username request.server (sort_or_asc request.sort))
    lift (generate_call_tool_result_string texts.from_str texts.to_string result)

  unfoldable pub invoke : Invocation → Action World Bytes
  invoke hello_call = lift say_hello
  invoke (info_call request) = get_backup_info request
  invoke (list_call request) = list_backups request
