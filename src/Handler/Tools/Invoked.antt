-- ===== src/Handler/Tools/Invoked.antt =====
-- What stands behind an answer of the tools of src/handler/info.rs: the whole way to pgmoneta and back.
use pgmoneta_mcp.Prelude.{ℕ, ◌≡◌}
use pgmoneta_mcp.Bytes.{Bytes}
use pgmoneta_mcp.Result.{Result, ok}
use pgmoneta_mcp.Libraries.{Libraries}
use pgmoneta_mcp.Constant.Command
use pgmoneta_mcp.Configuration.{Configuration}
use pgmoneta_mcp.World.{World}
use pgmoneta_mcp.Security.MasterKey.{SecurityUtil}
use pgmoneta_mcp.Security.Handshake.{Scram, Connecting}
use pgmoneta_mcp.Client.Request.{PgmonetaRequest}
use pgmoneta_mcp.Client.Request.Forwarded.{Forwarded}
use pgmoneta_mcp.Handler.Keys.{Answered}
use pgmoneta_mcp.Handler.Tools.{
  Texts, Invocation, hello_call, info_call, list_call, say_hello, sort_or_asc,
}

module _ (l : Libraries) (util : SecurityUtil) (config : Configuration)
    (scram_client : Bytes → Bytes → Scram) (dial : Bytes → ℕ → Connecting) (texts : Texts)
    (timestamp : Bytes) where
  -- A request that was forwarded for the user, and the text that is the answer to its response.
  pub record Invoked {R : Type 0} (printer : PgmonetaRequest R → Result Bytes) (username : Bytes)
      (command : ℕ) (request : R) (text : Bytes) (w w' : World) : Type 0 where
    pub response : Bytes
    pub forwarded :
        Forwarded l util config scram_client dial printer timestamp username command request w
          response w'
    pub answered : Answered texts.from_str texts.to_string response text

  -- What an answer of a tool rests on. The list is asked for in ascending order where the caller names
  -- no order.
  abbrev pub Served : Invocation → Bytes → World → World → Type 0
  Served hello_call text w w' = (ok text ≡ say_hello) × (w' ≡ w)
  Served (info_call r) text w w' =
      Invoked texts.info_request r.username Command.info
        (record { server = r.server; backup = r.backup_id }) text w w'
  Served (list_call r) text w w' =
      Invoked texts.list_request r.username Command.list_backup
        (record { server = r.server; sort = sort_or_asc r.sort }) text w w'
