-- ===== src/Client/Response/Stages.antt =====
-- Compression and encryption of src/client.rs, each with its inverse at a peer with the same key file.
use mathlib.Core.Path.{subst}
use pgmoneta_mcp.Prelude.{
  ℕ, ◌^◌, ◌<◌, ◌≡◌, ◌≢◌, ◌⊎◌, refl, ap, length, Option, ◌==◌, arith, Bool-cases, inl, inr, All,
  if◌then◌else◌,
}
use pgmoneta_mcp.Bytes.{Bytes, IsByte}
use pgmoneta_mcp.Result.{Result, ok}
use pgmoneta_mcp.Action.{pure}
use pgmoneta_mcp.Libraries.{Libraries, AreSound}
use pgmoneta_mcp.Constant.Compression
use pgmoneta_mcp.Constant.Encryption
use pgmoneta_mcp.CompressionUtil.{compress, decompress}
use pgmoneta_mcp.CompressionUtil.RoundTrip.{decompress-compress, compress-IsByte}
use pgmoneta_mcp.World.{World, CachedMasterKey}
use pgmoneta_mcp.Security.MasterKey.{SecurityUtil, KeyPair, load_master_key}
use pgmoneta_mcp.Security.Gcm.{encrypt_text_aes_gcm_bundle, decrypt_text_aes_gcm_bundle}
use pgmoneta_mcp.Security.Gcm.RoundTrip.{IsValid}
use pgmoneta_mcp.Security.Gcm.Stored.{open-bundle}

-- Reader and writer load the same key pair from their key files, and that leaves valid worlds.
pub record ShareKey (l : Libraries) (util : SecurityUtil) (w later : World) : Type 0 where
  pub master : KeyPair
  pub opened : World
  pub opened_later : World
  pub loaded : load_master_key util w ≡ (ok master, opened)
  pub opened_valid : IsValid l.crypto opened
  pub loaded_later : load_master_key util later ≡ (ok master, opened_later)
  pub later_valid : IsValid l.crypto opened_later

-- The value came back. Of the world, or of what the loading of its key file left, at most the cache
-- changed.
pub record Back (util : SecurityUtil) (value : Bytes) (w : World) (out : Result Bytes × World)
    : Type 0 where
  pub kept : World
  pub cache : Option CachedMasterKey
  pub is_back : out ≡ (ok value, record kept { cache = cache })
  pub from : (kept ≡ w) ⊎ ((master : KeyPair) × (load_master_key util w ≡ (ok master, kept)))

pub same_ok : {a b : Bytes} → ok a ≡ ok b → a ≡ b
same_ok h = cc

module _ (l : Libraries) (sound : AreSound l) (util : SecurityUtil) where
  -- The compression stage and its inverse.
  pub compress_stage :
      (request z : Bytes) (compression : ℕ)
      → All IsByte request
      → (compression ≡ Compression.lz4 → length request < 2 ^ 31)
      → (if compression == Compression.none
          then ok request
          else compress l.codecs request compression)
        ≡ ok z
      → ((if compression == Compression.none then ok z else decompress l.codecs z compression)
          ≡ ok request)
        × All IsByte z
  compress_stage request z compression hb small h =
      elim (Bool-cases (compression == Compression.none)) [
        | inl e ↦
            let same : request ≡ z = same_ok (rw e at h) in
            (rw (e, same), subst (All IsByte) same hb)
        | inr e ↦
            let h' = rw e at h in
            (
              rw e (decompress-compress l.codecs sound.lossless request z compression small h'),
              compress-IsByte l.codecs sound.give_bytes request z compression hb h',
            )
      ]

  -- The encryption stage and its inverse.
  pub encrypt_stage :
      (z b : Bytes) (encryption : ℕ) (w w' later : World)
      → All IsByte z
      → (encryption ≢ Encryption.none → ShareKey l util w later)
      → (if encryption == Encryption.none
            then pure z
            else encrypt_text_aes_gcm_bundle l util z encryption)
          w
        ≡ (ok b, w')
      → Back util z later (
          (if encryption == Encryption.none
              then pure b
              else decrypt_text_aes_gcm_bundle l util b encryption)
            later)
        × All IsByte b
  encrypt_stage z b encryption w w' later hz share h =
      elim (Bool-cases (encryption == Encryption.none)) [
        | inl e ↦
            let same : z ≡ b = same_ok (ap (λ (x : Result Bytes × World). x.0) (rw e at h)) in
            (
              record {
                kept = later;
                cache = later.cache;
                is_back = rw (e, same) refl;
                from = inl refl;
              },
              subst (All IsByte) same hz,
            )
        | inr e ↦
            let s = share (λ q. ground arith) in
            let (opened, hb, _, _) =
              open-bundle l sound util z b encryption s.master w s.opened w' later s.opened_later
                s.loaded s.opened_valid (rw e at h) s.loaded_later s.later_valid in
            let (cache, eq, _) = opened in
            (
              record {
                kept = s.opened_later;
                cache = cache;
                is_back = rw e eq;
                from = inr (s.master, s.loaded_later);
              },
              hb,
            )
      ]
