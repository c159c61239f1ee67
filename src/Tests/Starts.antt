-- ===== src/Tests/Starts.antt =====
-- The server of src/bin/server.rs, started on two concrete files.
use pgmoneta_mcp.Prelude.{◌≡◌, ◌⊎◌, refl, true, false, none, some}
use pgmoneta_mcp.Bytes.{codes}
use pgmoneta_mcp.Result.{Result, ok}
use pgmoneta_mcp.World.{file}
use pgmoneta_mcp.Logging.{LogFiles, unix}
use pgmoneta_mcp.Server.{Args, Process, main}
use pgmoneta_mcp.Server.Started.{Fails, Serving, main-Serving}
use pgmoneta_mcp.Tests.{empty_world}
use pgmoneta_mcp.Tests.Requests as Requests

abbrev process : Process
process = record {
  world = record empty_world { files = λ p. some (file (codes "[pgmoneta]") 0o644) };
  log = none;
  listening = none;
  config = none;
  serving = false;
}

abbrev args : Args
args = record { conf = codes "/conf"; users = codes "/users" }

abbrev log_files : LogFiles
log_files = record { opens = λ p. false; rolls = λ p. false }

abbrev started : Result (Unit {0}) × Process
started = main (λ c u. ok Requests.conf) log_files (unix true) (λ a. ok tt) args process

main-Serving_example :
    ((started.0 ≡ ok tt)
      × Serving
          (λ c u. ok Requests.conf)
          log_files
          (unix true)
          (λ a. ok tt)
          args
          process.world
          started.1)
    ⊎ Fails (λ c u. ok Requests.conf) log_files (unix true) (λ a. ok tt) none started.0 started.1
main-Serving_example =
    main-Serving (λ c u. ok Requests.conf) log_files (unix true) (λ a. ok tt) args process refl refl
