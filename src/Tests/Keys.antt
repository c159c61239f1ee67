-- ===== src/Tests/Keys.antt =====
-- Keys, encryption and compression of src/security.rs and src/compression.rs on concrete inputs.
use pgmoneta_mcp.Security.Password.{generate_password, generate_password_lem}
use pgmoneta_mcp.Prelude.{
  drop, ◌≡◌, ◌<◌, ◌≤◌, ◌^◌, refl, Option, some, [], ◌∷◌, ◌++◌, arith, length, All,
}
use pgmoneta_mcp.Bytes.{Bytes, IsByte, codes, eq_bytes, to_be_bytes, from_be_bytes}
use pgmoneta_mcp.Bytes.Utf8.{from_utf8, is_utf8}
use pgmoneta_mcp.Bytes.Text.{IsVisible, lines, trim}
use pgmoneta_mcp.Result.{io, Result, ok, err}
use pgmoneta_mcp.Constant.Compression
use pgmoneta_mcp.Constant.Encryption
use pgmoneta_mcp.CompressionUtil.{compress, decompress, compress_lz4, decompress_lz4}
use pgmoneta_mcp.CompressionUtil.RoundTrip.{decompress-compress, decompress_lz4_bounds}
use pgmoneta_mcp.World.{World, CachedMasterKey, file, metadata_mode, read_to_string, try_fill_bytes}
use pgmoneta_mcp.Security.MasterKey.{
  KeyPair, SecurityUtil, new_with_path, parse_lines, restrict, load_master_key, write_master_key,
}
use pgmoneta_mcp.Security.MasterKey.Reload.{loaded, load-write_master_key}
use pgmoneta_mcp.Security.Kdf.{
  cached_key, derive_and_store, get_or_derive_master_key, derive_key_two_step,
}
use pgmoneta_mcp.Security.Kdf.Cached.{IsFaithful, two_step, derive_key_two_step_lem}
use pgmoneta_mcp.Security.Gcm.{
  key_len_of, by_mode, seal_arm, encrypt_text_aes_gcm, encrypt_text_aes_gcm_bundle,
  decrypt_text_aes_gcm_bundle, encrypt_to_base64_string,
}
use pgmoneta_mcp.Security.Gcm.RoundTrip.{IsValid}
use pgmoneta_mcp.Security.Gcm.Stored.{Opened, open-bundle}
use pgmoneta_mcp.Tests.{
  bytes_lem, libraries, libraries-AreSound, codecs, codecs-AreLossless, crypto, engine,
  engine-IsBase64, same_bytes, encode, decode, empty_world, key_world, key_salt, key_world-IsValid,
  value_of,
}

abbrev util : SecurityUtil
unfolding new_with_path
util = new_with_path engine (codes "/k")

abbrev master : KeyPair
master = record { password = codes "secret"; salt = key_salt }

loads : load_master_key util key_world ≡ (ok master, key_world)
unfolding new_with_path load_master_key restrict metadata_mode read_to_string from_utf8 is_utf8
    lines trim parse_lines encode decode eq_bytes
loads = refl

abbrev bundle : Result Bytes × World
bundle = encrypt_text_aes_gcm_bundle libraries util (codes "data") Encryption.aes_128_gcm key_world

bundle_is : bundle ≡ (ok (value_of bundle.0), bundle.1)
unfolding new_with_path same_bytes encrypt_text_aes_gcm_bundle encrypt_text_aes_gcm load_master_key
    restrict metadata_mode read_to_string from_utf8 is_utf8 lines trim parse_lines encode decode
    eq_bytes try_fill_bytes key_len_of by_mode seal_arm derive_key_two_step get_or_derive_master_key
    cached_key derive_and_store
bundle_is = refl

open-bundle_example :
    Opened libraries libraries-AreSound (codes "data") key_world (
      decrypt_text_aes_gcm_bundle libraries util
        (value_of bundle.0)
        Encryption.aes_128_gcm
        key_world)
    × All IsByte (value_of bundle.0)
    × IsValid crypto bundle.1
    × (bundle.1.files ≡ key_world.files)
open-bundle_example =
    open-bundle libraries libraries-AreSound util (codes "data") (value_of bundle.0)
      Encryption.aes_128_gcm master key_world key_world bundle.1 key_world key_world loads
      key_world-IsValid bundle_is loads key_world-IsValid

abbrev stored : Result Bytes × World
stored = encrypt_to_base64_string libraries (codes "pw") (codes "secret") key_salt key_world

-- A first key file, with a salt of the right length.
load-write_master_key_example :
    let (r, w') =
      write_master_key (new_with_path engine (codes "/k")) (codes "secret") key_salt empty_world in
    (r ≡ ok tt)
    × (load_master_key (new_with_path engine (codes "/k")) w'
        ≡ (loaded engine engine-IsBase64 (codes "secret") key_salt, w'))
    × (w'.files (codes "/k")
        ≡ some (file (encode (codes "secret") ++ (10 ∷ (encode key_salt ++ 10 ∷ []))) 0o600))
load-write_master_key_example =
    load-write_master_key engine engine-IsBase64 (codes "/k") (codes "secret") key_salt empty_world
      (λ mode h. cc) (bytes_lem (codes "secret") refl) (bytes_lem key_salt refl)

-- A cache that holds the key of another salt.
abbrev other_cache : World
other_cache = record empty_world {
  cache = some (record { password = codes "p"; salt = codes "s"; derived_key = codes "sp" });
}

derive_key_two_step_lem_example :
    (c : Option CachedMasterKey) × (derive_key_two_step crypto
        (codes "p")
        (codes "t")
        (codes "f")
        16
        other_cache
      ≡ (two_step crypto (codes "p") (codes "t") (codes "f") 16, record other_cache { cache = c }))
    × IsFaithful crypto c
derive_key_two_step_lem_example =
    derive_key_two_step_lem crypto (codes "p") (codes "t") (codes "f") 16 other_cache refl

lz4_is : compress codecs (codes "aa") Compression.lz4 ≡ ok (0 ∷ 0 ∷ 0 ∷ 2 ∷ codes "aa")
unfolding compress compress_lz4 same_bytes to_be_bytes
lz4_is = refl

decompress-compress_example :
    decompress codecs (0 ∷ 0 ∷ 0 ∷ 2 ∷ codes "aa") Compression.lz4 ≡ ok (codes "aa")
decompress-compress_example =
    decompress-compress codecs codecs-AreLossless (codes "aa") (0 ∷ 0 ∷ 0 ∷ 2 ∷ codes "aa")
      Compression.lz4 (λ h. omega arith) lz4_is

decompress_is : decompress codecs (0 ∷ 0 ∷ 0 ∷ 2 ∷ codes "aa") Compression.lz4 ≡ ok (codes "aa")
unfolding decompress decompress_lz4 from_be_bytes
decompress_is = refl

decompress_lz4_bounds_example : (2 < 2 ^ 31) × (4 ≤ 6) × (0 ∷ 0 ∷ 0 ∷ 2 ∷ [] ≡ to_be_bytes 2)
decompress_lz4_bounds_example =
    decompress_lz4_bounds codecs (0 ∷ 0 ∷ 0 ∷ 2 ∷ codes "aa") (codes "aa")
      (bytes_lem (0 ∷ 0 ∷ 0 ∷ 2 ∷ codes "aa") refl) decompress_is

generate_password_lem_example :
    (8 ≤ length key_world.entropy
      → (password : Bytes) × (generate_password 8 key_world
          ≡ (ok password, record key_world { entropy = drop 8 key_world.entropy }))
        × (length password ≡ 8)
        × IsVisible password)
    × (length key_world.entropy < 8 → generate_password 8 key_world ≡ (err io, key_world))
generate_password_lem_example = generate_password_lem 8 key_world
