-- ===== src/Handler/Fresh.antt =====
-- The salts and the nonces that the tools of src/handler/info.rs send while the server runs.
use pgmoneta_mcp.Prelude.{ℕ, ◌+◌, ◌≡◌, ◌≢◌, ◌++◌, take}
use pgmoneta_mcp.Bytes.{Bytes}
use pgmoneta_mcp.Result.{Result, ok}
use pgmoneta_mcp.Constant.Command
use pgmoneta_mcp.Constant.Encryption
use pgmoneta_mcp.Libraries.{Libraries}
use pgmoneta_mcp.Configuration.{Configuration}
use pgmoneta_mcp.World.{World}
use pgmoneta_mcp.Security.MasterKey.{SecurityUtil, salt_len, nonce_len}
use pgmoneta_mcp.Security.Handshake.{Scram, Connecting}
use pgmoneta_mcp.Client.Modes.{parse_encryption}
use pgmoneta_mcp.Client.Sealing.{Sealing}
use pgmoneta_mcp.Handler.Tools.{Texts}

module _ (l : Libraries) (util : SecurityUtil) (config : Configuration) (texts : Texts)
    (is_on : (e : ℕ)
      → parse_encryption config.pgmoneta_section.encryption ≡ ok e
      → e ≢ Encryption.none) where
  -- How a call reaches pgmoneta: the session of SCRAM, the network and the clock.
  pub record Outside : Type 0 where
    pub scram_client : Bytes → Bytes → Scram
    pub dial : Bytes → ℕ → Connecting
    pub timestamp : Bytes

  -- Both calls sent a bundle, and the salts and nonces of the two are disjoint parts of the random bytes.
  pub record AreFresh (start w w' end : World) : Type 0 where
    pub first : Sealing l util start w
    pub second : Sealing l util w' end
    pub between : Bytes
    pub disjoint :
        start.entropy
        ≡ first.before
          ++ (take (salt_len + nonce_len) first.bundle
              ++ (between
                  ++ (take (salt_len + nonce_len) second.bundle ++ (second.after ++ end.entropy))))
