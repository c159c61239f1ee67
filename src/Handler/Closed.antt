-- ===== src/Handler/Closed.antt =====
-- The tools of src/handler/ in terms of the steps of src/security.rs.
use pgmoneta_mcp.Prelude.{ℕ}
use pgmoneta_mcp.Bytes.{Bytes}
use pgmoneta_mcp.Result.{Result, Error, backup_info_failed, list_backups_failed}
use pgmoneta_mcp.Action.{Action, lift, map_action_err, ◌>>=◌}
use pgmoneta_mcp.Libraries.{Libraries}
use pgmoneta_mcp.Constant.Command
use pgmoneta_mcp.Configuration.{Configuration}
use pgmoneta_mcp.World.{World}
use pgmoneta_mcp.Security.MasterKey.{SecurityUtil}
use pgmoneta_mcp.Security.Handshake.{Scram, Connecting}
use pgmoneta_mcp.Security.Closed.{Closed}
use pgmoneta_mcp.Client.Closed.{forward_request-Closed}
use pgmoneta_mcp.Client.Request.{
  PgmonetaRequest, forward_request, request_backup_info, request_list_backups,
}
use pgmoneta_mcp.Handler.{generate_call_tool_result_string}
use pgmoneta_mcp.Handler.Tools.{
  Texts, Invocation, hello_call, info_call, list_call, say_hello, invoke, get_backup_info,
  list_backups,
}

module _ (l : Libraries) (util : SecurityUtil) (config : Configuration)
    (scram_client : Bytes → Bytes → Scram) (dial : Bytes → ℕ → Connecting) (texts : Texts)
    (timestamp : Bytes) (P : (A : Type 0) → Action World A → Type 0)
    (closed : Closed l.crypto util P) where
  translated-Closed :
      {R : Type 0} (failed : Error → Error) (printer : PgmonetaRequest R → Result Bytes)
      (username : Bytes) (command : ℕ) (request : R)
      → P _ (
          map_action_err failed (
            forward_request l util config scram_client dial printer timestamp username command
              request)
          >>= λ result.
              lift (generate_call_tool_result_string texts.from_str texts.to_string result))
  translated-Closed failed printer username command request =
      let forward =
        forward_request l util config scram_client dial printer timestamp username command
          request in
      closed.chained (map_action_err failed forward) _
        (closed.renamed failed forward (
          forward_request-Closed l util P closed config scram_client dial printer timestamp username
            command request))
        λ result.
          closed.lifted (generate_call_tool_result_string texts.from_str texts.to_string result)

  pub invoke-Closed :
      (call : Invocation) → P _ (invoke l util config scram_client dial texts timestamp call)
  unfolding invoke get_backup_info list_backups request_backup_info request_list_backups
  invoke-Closed hello_call = closed.lifted say_hello
  invoke-Closed (info_call r) =
      translated-Closed backup_info_failed texts.info_request r.username Command.info _
  invoke-Closed (list_call r) =
      translated-Closed list_backups_failed texts.list_request r.username Command.list_backup _
