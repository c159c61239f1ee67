-- ===== src/Handler/Running.antt =====
-- The server while it runs (src/bin/server.rs and src/handler/): tools are called one after another, each
-- call with its own network and clock, and other programs may change any file between the calls.
use pgmoneta_mcp.Prelude.{ℕ, ◌≡◌, refl, sym, ap, ◌∙◌, Option, [], ◌++◌, append_assoc}
use pgmoneta_mcp.Bytes.{Bytes}
use pgmoneta_mcp.Result.{Result}
use pgmoneta_mcp.Libraries.{Libraries}
use pgmoneta_mcp.Configuration.{Configuration}
use pgmoneta_mcp.World.{World, Node}
use pgmoneta_mcp.Security.MasterKey.{SecurityUtil}
use pgmoneta_mcp.Security.Gcm.RoundTrip.{IsValid}
use pgmoneta_mcp.Security.Handshake.{Scram, Connecting}
use pgmoneta_mcp.Handler.Tools.{Texts, Invocation, invoke}
use pgmoneta_mcp.Handler.Evolves.{invoke-Evolves}

module _ (l : Libraries) (util : SecurityUtil) (config : Configuration) (texts : Texts) where
  -- The worlds that the server comes to.
  pub data Runs (start : World) : World → Type 0 where
    idle : Runs start start
    -- A call, with whatever outcome.
    called :
        (scram_client : Bytes → Bytes → Scram) (dial : Bytes → ℕ → Connecting) (timestamp : Bytes)
        (call : Invocation) (answer : Result Bytes) (w w' : World)
        → Runs start w
        → invoke l util config scram_client dial texts timestamp call w ≡ (answer, w')
        → Runs start w'
    -- Another program writes, removes or protects files, also the key file.
    edited :
        (files : Bytes → Option Node) (w : World)
        → Runs start w
        → Runs start (record w { files = files })

  -- What holds of a world that the server comes to.
  pub record Lasts (start w : World) : Type 0 where
    pub used : Bytes
    pub drawn : start.entropy ≡ used ++ w.entropy
    pub valid : IsValid l.crypto w

  -- Whatever the callers ask for, whatever the network answers and whatever other programs do to the
  -- files, every world that a server comes to from a valid one is valid: its key cache holds only what was
  -- derived from the password and the salt next to it. Random bytes are used up from the front, each once.
  pub Runs-Lasts : (start w : World) → IsValid l.crypto start → Runs start w → Lasts start w
  Runs-Lasts start _ v idle = record { used = []; drawn = refl; valid = v }
  Runs-Lasts start _ v (called scram_client dial timestamp call answer u w r e) =
      let before = Runs-Lasts start u v r in
      let step =
        invoke-Evolves l util config scram_client dial texts timestamp call u before.valid in
      let after = rw e at step in
      record {
        used = before.used ++ after.used;
        drawn =
            before.drawn
            ∙ ap (λ x. before.used ++ x) after.drawn
            ∙ sym (append_assoc before.used after.used w.entropy);
        valid = after.valid;
      }
  Runs-Lasts start _ v (edited files u r) =
      let before = Runs-Lasts start u v r in
      record {
        used = before.used;
        drawn = before.drawn;
        valid = record { faithful = before.valid.faithful; bytes = before.valid.bytes };
      }
