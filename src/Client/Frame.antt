-- ===== src/Client/Frame.antt =====
-- Requests of src/client.rs: the payload is compressed, encrypted and base64 encoded as the modes
-- say, then sent behind a header of six bytes.
pub mod Sent
pub mod Typed
use pgmoneta_mcp.Prelude.{ℕ, ◌-◌, ◌^◌, [], ◌∷◌, ◌++◌, length, ltb, ◌==◌, ◌&&◌, if◌then◌else◌}
use pgmoneta_mcp.Bytes.{Bytes, to_be_bytes}
use pgmoneta_mcp.Result.{ok, payload_too_large}
use pgmoneta_mcp.Action.{Action, pure, lift, raise, ◌>>=◌, ◌>>◌}
use pgmoneta_mcp.Libraries.{Libraries}
use pgmoneta_mcp.Constant.Compression
use pgmoneta_mcp.Constant.Encryption
use pgmoneta_mcp.CompressionUtil.{compress}
use pgmoneta_mcp.World.{World}
use pgmoneta_mcp.Stream.{Writer, write_u8, write_u32, write_all}
use pgmoneta_mcp.Security.MasterKey.{SecurityUtil}
use pgmoneta_mcp.Security.Gcm.{encrypt_text_aes_gcm_bundle}

-- Both sides that a request touches.
pub record Env : Type 0 where
  pub world : World
  pub wire : Writer

abbrev pub on_world : {A : Type 0} → Action World A → Action Env A
on_world m env = let (r, w) = m env.world in (r, record env { world = w })

abbrev pub on_wire : {A : Type 0} → Action Writer A → Action Env A
on_wire m env = let (r, w) = m env.wire in (r, record env { wire = w })

-- Header and payload, each part by a call of its own.
unfoldable pub write_frame : ℕ → ℕ → Bytes → Action Writer (Unit {0})
write_frame compression encryption payload = do
  write_u8 compression
  write_u8 encryption
  write_u32 (length payload)
  write_all payload

module _ (l : Libraries) (util : SecurityUtil) where
  -- Compression, encryption, base64, in this order.
  unfoldable pub protect : Bytes → ℕ → ℕ → Action World Bytes
  protect request compression encryption = do
    compressed ← lift (
        if compression == Compression.none
        then ok request
        else compress l.codecs request compression)
    encrypted ←
        (if encryption == Encryption.none
          then pure compressed
          else encrypt_text_aes_gcm_bundle l util compressed encryption)
    pure (l.base64.encode encrypted)

  unfoldable pub payload_of : Bytes → ℕ → ℕ → Action World Bytes
  payload_of request compression encryption =
      if compression == Compression.none && encryption == Encryption.none
      then pure request
      else protect request compression encryption

  unfoldable pub write_request : Bytes → ℕ → ℕ → Action Env (Unit {0})
  write_request request compression encryption = do
    payload ← on_world (payload_of request compression encryption)
    if ltb (2 ^ 32 - 1) (length payload)
        then raise (payload_too_large (length payload))
        else on_wire (write_frame compression encryption payload)
