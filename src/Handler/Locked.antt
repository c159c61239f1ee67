-- ===== src/Handler/Locked.antt =====
-- No tool of src/handler/info.rs answers while others may read the key file.
use pgmoneta_mcp.Prelude.{ℕ, ◌≡◌}
use pgmoneta_mcp.Bytes.{Bytes}
use pgmoneta_mcp.Bytes.Utf8.{from_utf8}
use pgmoneta_mcp.Result.{Result, ok, Error, backup_info_failed, list_backups_failed}
use pgmoneta_mcp.Action.{Action, lift, map_action_err, ◌>>=◌}
use pgmoneta_mcp.Libraries.{Libraries}
use pgmoneta_mcp.Constant.Command
use pgmoneta_mcp.Configuration.{Configuration}
use pgmoneta_mcp.World.{World}
use pgmoneta_mcp.Security.MasterKey.{SecurityUtil, key_path, load_master_key}
use pgmoneta_mcp.Security.Gcm.{decrypt_from_base64_string}
use pgmoneta_mcp.Security.Gcm.RoundTrip.{IsValid}
use pgmoneta_mcp.Security.Handshake.{Scram, Connecting}
use pgmoneta_mcp.Security.Handshake as Handshake
use pgmoneta_mcp.Security.Evolves.{Evolving, IsPrivate}
use pgmoneta_mcp.Security.Evolves.Actions.{Evolving-Closed}
use pgmoneta_mcp.Security.Closed.Actions.{load_master_key-Closed, decrypt_from_base64_string-Closed}
use pgmoneta_mcp.Security.Locks.{
  Locks, locked_first, locked_then, renamed-Locks, load_master_key-Locks,
}
use pgmoneta_mcp.Client.Closed.{
  password_of-Closed, connect_to_server-Closed, exchange-Closed, forward_request-Closed,
}
use pgmoneta_mcp.Client.Request.{
  PgmonetaRequest, admin_of, build_request_header, password_of, connect_to_server, forward_request,
  request_backup_info, request_list_backups,
}
use pgmoneta_mcp.Handler.{generate_call_tool_result_string}
use pgmoneta_mcp.Handler.Tools.{
  Texts, Invocation, hello_call, info_call, list_call, invoke, get_backup_info, list_backups,
}

-- A call that goes to pgmoneta.
abbrev pub IsRequest : Invocation → Type 0
IsRequest hello_call = ⊥
IsRequest (info_call r) = Unit
IsRequest (list_call r) = Unit

module _ (l : Libraries) (util : SecurityUtil) (config : Configuration)
    (scram_client : Bytes → Bytes → Scram) (dial : Bytes → ℕ → Connecting) (texts : Texts)
    (timestamp key : Bytes) (is_key : key_path util ≡ ok key) where
  abbrev Safe : (A : Type 0) → Action World A → Type 0
  Safe A m = Evolving l.crypto util m

  password_of-Locks : (username : Bytes) → Locks l util key (password_of l util config username)
  unfolding password_of
  password_of-Locks username =
      let steps = Evolving-Closed l.crypto util in
      locked_then l util key (lift (admin_of config username)) _
        (steps.lifted (admin_of config username))
        λ stored.
          locked_first l util key (load_master_key util) _ (load_master_key-Locks l util key is_key)
            (load_master_key-Closed l util Safe steps)
            λ master.
              steps.chained (decrypt_from_base64_string l stored master.password master.salt) _
                (decrypt_from_base64_string-Closed l util Safe steps stored master.password
                  master.salt)
                λ password. steps.lifted (from_utf8 password)

  connect_to_server-Locks :
      (username : Bytes)
      → Locks l util key (connect_to_server l util config scram_client dial username)
  unfolding connect_to_server
  connect_to_server-Locks username =
      let steps = Evolving-Closed l.crypto util in
      locked_first l util key (password_of l util config username) _ (password_of-Locks username)
        (password_of-Closed l util Safe steps config username)
        λ password. steps.lifted (
          Handshake.connect_to_server (scram_client username password)
            (dial config.pgmoneta_section.host config.pgmoneta_section.port) username)

  forward_request-Locks :
      {R : Type 0} (to_string : PgmonetaRequest R → Result Bytes) (username : Bytes) (command : ℕ)
      (request : R)
      → Locks l util key (
          forward_request l util config scram_client dial to_string timestamp username command
            request)
  unfolding forward_request
  forward_request-Locks to_string username command request =
      let steps = Evolving-Closed l.crypto util in
      let built = build_request_header config timestamp command in
      locked_then l util key (lift built) _ (steps.lifted built) λ header.
        locked_first l util key (connect_to_server l util config scram_client dial username) _
          (connect_to_server-Locks username)
          (connect_to_server-Closed l util Safe steps config scram_client dial username)
          λ stream.
            let text = to_string (record { header = header; request = request }) in
            steps.chained (lift text) _ (steps.lifted text) λ request_str.
              exchange-Closed l util Safe steps stream request_str header.compression
                header.encryption

  translated-Locks :
      {R : Type 0} (failed : Error → Error) (printer : PgmonetaRequest R → Result Bytes)
      (username : Bytes) (command : ℕ) (request : R)
      → Locks l util key (
          map_action_err failed (
            forward_request l util config scram_client dial printer timestamp username command
              request)
          >>= λ result.
              lift (generate_call_tool_result_string texts.from_str texts.to_string result))
  translated-Locks failed printer username command request =
      let steps = Evolving-Closed l.crypto util in
      let forward =
        forward_request l util config scram_client dial printer timestamp username command
          request in
      locked_first l util key (map_action_err failed forward) _
        (renamed-Locks l util key failed forward
          (forward_request-Locks printer username command request))
        (steps.renamed failed forward (
          forward_request-Closed l util Safe steps config scram_client dial printer timestamp
            username command request))
        λ result.
          steps.lifted (generate_call_tool_result_string texts.from_str texts.to_string result)

  -- Where a tool of pgmoneta answered in a valid world, nobody but the owner may read or write the key
  -- file, whatever its permissions were before.
  pub invoke-IsPrivate :
      (call : Invocation) (text : Bytes) (w w' : World)
      → IsRequest call
      → IsValid l.crypto w
      → invoke l util config scram_client dial texts timestamp call w ≡ (ok text, w')
      → IsPrivate (w'.files key)
  unfolding invoke get_backup_info list_backups request_backup_info request_list_backups
  invoke-IsPrivate hello_call text w w' never v h = absurd never
  invoke-IsPrivate (info_call r) text w w' is_request v h =
      translated-Locks backup_info_failed texts.info_request r.username Command.info _ w w' text v h
  invoke-IsPrivate (list_call r) text w w' is_request v h =
      translated-Locks list_backups_failed texts.list_request r.username Command.list_backup _ w w'
        text v h
