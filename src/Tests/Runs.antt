-- ===== src/Tests/Runs.antt =====
-- A server that runs: calls, files that change under it, and bundles.
use pgmoneta_mcp.Prelude.{◌≡◌, refl, ◌++◌, none, some, ℕ, ◌≢◌, arith}
use pgmoneta_mcp.Bytes.{Bytes, codes, eq_bytes}
use pgmoneta_mcp.Bytes.Text.{to_lowercase}
use pgmoneta_mcp.Result.{Result, ok}
use pgmoneta_mcp.World.{World}
use pgmoneta_mcp.Security.MasterKey.{key_path, new_with_path}
use pgmoneta_mcp.Security.Gcm.RoundTrip.{IsValid}
use pgmoneta_mcp.Security.Evolves.{Evolves, IsPrivate}
use pgmoneta_mcp.Security.Blind.{SameButCache}
use pgmoneta_mcp.Handler.Tools.{hello_call, say_hello, invoke}
use pgmoneta_mcp.Handler.Evolves.{invoke-Evolves, invoke-Blind}
use pgmoneta_mcp.Handler.Locked.{invoke-IsPrivate}
use pgmoneta_mcp.Handler.Running.{Runs, idle, called, edited, Lasts, Runs-Lasts}
use pgmoneta_mcp.Tests.{bytes_lem, libraries, crypto, key_salt, key_world}
use pgmoneta_mcp.Tests.Requests.{
  util, conf, scram_client, dial, texts, listing, listed, served, loose_world,
}
use pgmoneta_mcp.Configuration.{Configuration}
use pgmoneta_mcp.Client.Modes.{encryption_of, parse_encryption}
use pgmoneta_mcp.Handler.Fresh.{Outside}
use pgmoneta_mcp.Constant.Encryption
use pgmoneta_mcp.Security.Handshake as Handshake

loose_world-IsValid : IsValid crypto loose_world
loose_world-IsValid = record { faithful = tt; bytes = bytes_lem loose_world.entropy refl }

invoke-Evolves_example : Evolves crypto util loose_world listed.1
invoke-Evolves_example =
    invoke-Evolves libraries util conf scram_client dial texts (codes "20260101000000") listing
      loose_world loose_world-IsValid

-- The key of "secret" under the salt of the key file, as the first step derives it.
abbrev warm : World
warm = record loose_world {
  cache = some (record {
    password = codes "secret";
    salt = key_salt;
    derived_key = key_salt ++ codes "secret";
  });
}

invoke-Blind_example :
    SameButCache crypto
      (invoke libraries util conf scram_client dial texts (codes "20260101000000") listing warm)
      listed
invoke-Blind_example =
    invoke-Blind libraries util conf scram_client dial texts (codes "20260101000000") listing warm
      none refl tt

-- A listing, then all files are gone.
abbrev run : Runs libraries util conf texts loose_world (record listed.1 { files = λ p. none })
run =
    edited (λ p. none) listed.1
      (called scram_client dial (codes "20260101000000") listing listed.0 loose_world listed.1 idle
        refl)

Runs-Lasts_example :
    Lasts libraries util conf texts loose_world (record listed.1 { files = λ p. none })
Runs-Lasts_example =
    Runs-Lasts libraries util conf texts loose_world (record listed.1 { files = λ p. none })
      loose_world-IsValid run

-- Encryption is on, and 64 random bytes are left.
abbrev sealing_conf : Configuration
sealing_conf = record conf {
  pgmoneta_section = record conf.pgmoneta_section { encryption = codes "aes_256_gcm" };
}

is_on :
    (e : ℕ) → parse_encryption sealing_conf.pgmoneta_section.encryption ≡ ok e → e ≢ Encryption.none
unfolding parse_encryption encryption_of to_lowercase eq_bytes
is_on e h = ground arith

abbrev rich : World
rich = record loose_world { entropy = key_world.entropy ++ key_world.entropy }

abbrev outside : Outside libraries util sealing_conf texts is_on
outside = record { scram_client = scram_client; dial = dial; timestamp = codes "20260101000000" }

abbrev once : Result Bytes × World
once =
    invoke libraries util sealing_conf scram_client dial texts (codes "20260101000000") listing rich

abbrev greeted : World
greeted = record once.1 { files = rich.files }

abbrev twice : Result Bytes × World
twice =
    invoke libraries util sealing_conf scram_client dial texts (codes "20260101000000") listing
      greeted

-- A greeting, and the key file is opened to others again.
between : Runs libraries util sealing_conf texts once.1 greeted
unfolding invoke
between =
    edited rich.files once.1 (
      called scram_client dial (codes "20260101000000") hello_call say_hello once.1 once.1 idle
        refl)

key_is : key_path util ≡ ok (codes "/k")
unfolding new_with_path
key_is = refl

invoke-IsPrivate_example : IsPrivate (listed.1.files (codes "/k"))
invoke-IsPrivate_example =
    invoke-IsPrivate libraries util conf scram_client dial texts (codes "20260101000000")
      (codes "/k") key_is listing (codes "{}") loose_world listed.1 tt loose_world-IsValid served
