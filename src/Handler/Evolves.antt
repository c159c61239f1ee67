-- ===== src/Handler/Evolves.antt =====
-- What a call of the tools of src/handler/ may do to the world, whatever its outcome, and what the
-- key cache has to do with it.
use pgmoneta_mcp.Prelude.{ℕ, Option}
use pgmoneta_mcp.Bytes.{Bytes}
use pgmoneta_mcp.Libraries.{Libraries}
use pgmoneta_mcp.Configuration.{Configuration}
use pgmoneta_mcp.World.{World, CachedMasterKey}
use pgmoneta_mcp.Security.MasterKey.{SecurityUtil}
use pgmoneta_mcp.Security.Handshake.{Scram, Connecting}
use pgmoneta_mcp.Security.Gcm.RoundTrip.{IsValid}
use pgmoneta_mcp.Security.Evolves.{Evolves, Evolving}
use pgmoneta_mcp.Security.Evolves.Actions.{Evolving-Closed}
use pgmoneta_mcp.Security.Kdf.Cached.{IsFaithful}
use pgmoneta_mcp.Security.Blind.{SameButCache, Blind, Blind-Closed}
use pgmoneta_mcp.Handler.Tools.{Texts, Invocation, invoke}
use pgmoneta_mcp.Handler.Closed.{invoke-Closed}

module _ (l : Libraries) (util : SecurityUtil) (config : Configuration)
    (scram_client : Bytes → Bytes → Scram) (dial : Bytes → ℕ → Connecting) (texts : Texts)
    (timestamp : Bytes) where
  -- Whatever a call of a tool comes to, an answer or an error of any layer, the content of every file is
  -- as before, a file other than the key file is untouched with its permissions, and no file that was
  -- closed to others is open to them; random bytes were used up from the front only, and the key cache
  -- still holds nothing but what was derived.
  pub invoke-Evolves :
      (call : Invocation) (w : World)
      → IsValid l.crypto w
      → Evolves l.crypto util w (invoke l util config scram_client dial texts timestamp call w).1
  invoke-Evolves =
      invoke-Closed l util config scram_client dial texts timestamp
        (λ A m. Evolving l.crypto util m) (Evolving-Closed l.crypto util)

  -- The key cache never changes an answer: a call from a world with any faithful cache comes to the same
  -- answer or error as from the same world with any other faithful cache, an empty one for example, and
  -- leaves the same files and the same random bytes, and again a faithful cache.
  pub invoke-Blind :
      (call : Invocation) (w : World) (cache : Option CachedMasterKey)
      → IsFaithful l.crypto w.cache
      → IsFaithful l.crypto cache
      → SameButCache l.crypto
          (invoke l util config scram_client dial texts timestamp call w)
          (invoke l util config scram_client dial texts timestamp call (record w { cache = cache }))
  invoke-Blind =
      invoke-Closed l util config scram_client dial texts timestamp (λ A m. Blind l.crypto m)
        (Blind-Closed l.crypto util)
