-- ===== src/Tests/Frames.antt =====
-- Requests and responses of src/client.rs on concrete streams.
use pgmoneta_mcp.Prelude.{◌≡◌, refl, [], ◌∷◌, ◌++◌, some, arith, length}
use pgmoneta_mcp.Bytes.{Bytes, codes, eq_bytes, from_be_bytes, to_be_bytes}
use pgmoneta_mcp.Bytes.Utf8.{from_utf8, is_utf8}
use pgmoneta_mcp.Bytes.Text.{lines, trim}
use pgmoneta_mcp.Result.{Result, ok, err}
use pgmoneta_mcp.Constant.Compression
use pgmoneta_mcp.Constant.Encryption
use pgmoneta_mcp.CompressionUtil.{compress}
use pgmoneta_mcp.World.{World, metadata_mode, read_to_string, try_fill_bytes}
use pgmoneta_mcp.Security.MasterKey.{
  KeyPair, SecurityUtil, new_with_path, parse_lines, restrict, load_master_key,
}
use pgmoneta_mcp.Security.Kdf.{
  cached_key, derive_and_store, get_or_derive_master_key, derive_key_two_step,
}
use pgmoneta_mcp.Security.Gcm.{
  key_len_of, by_mode, seal_arm, encrypt_text_aes_gcm, encrypt_text_aes_gcm_bundle,
}
use pgmoneta_mcp.Client.Frame.{Env, protect, payload_of, write_frame, write_request}
use pgmoneta_mcp.Client.Frame.Sent.{frame}
use pgmoneta_mcp.Client.Response.{read_response, accept, strip_null}
use pgmoneta_mcp.Client.Modes.{is_known_compression, is_known_encryption}
use pgmoneta_mcp.Client.Response.Inverse.{read_response-write_request}
use pgmoneta_mcp.Client.Response.Stages.{ShareKey, Back}
use pgmoneta_mcp.Client.Response.Accepted.{Accepted, read_response-Accepted}
use pgmoneta_mcp.Client.Response.Legacy.{at_end, read_response-legacy}
use pgmoneta_mcp.Stream.{
  put, write_all, write_u8, write_u32, Reader, Writer, closes, breaks, stalls, next_u8, next_u32,
  read_exact,
}
use pgmoneta_mcp.Client.Frame.Typed.{Sends, write_request-Sends}
use pgmoneta_mcp.Tests.{
  engine-IsBase64, bytes_lem, libraries, libraries-AreSound, engine, same_bytes, encode, decode,
  key_world, key_salt,
}

abbrev util : SecurityUtil
unfolding new_with_path
util = new_with_path engine (codes "/k")

abbrev sent : Result Bytes × World
sent = payload_of libraries util (codes "{}") Compression.gzip Encryption.aes_256_gcm key_world

abbrev body_of : Result Bytes → Bytes
body_of (ok b) = b
body_of (err e) = []

abbrev master : KeyPair
master = record { password = codes "secret"; salt = key_salt }

loads : load_master_key util key_world ≡ (ok master, key_world)
unfolding new_with_path load_master_key restrict metadata_mode read_to_string from_utf8 is_utf8
    lines trim parse_lines encode decode eq_bytes
loads = refl

share : ShareKey libraries util key_world key_world
share = record {
  master = master;
  opened = key_world;
  opened_later = key_world;
  loaded = loads;
  opened_valid = record { faithful = tt; bytes = bytes_lem key_world.entropy refl };
  loaded_later = loads;
  later_valid = record { faithful = tt; bytes = bytes_lem key_world.entropy refl };
}

utf8 : from_utf8 (codes "{}") ≡ ok (codes "{}")
unfolding from_utf8 is_utf8
utf8 = refl

-- A connection that has room.
abbrev wide : Env
wide = record { world = key_world; wire = record { sent = codes "old"; room = some 100 } }

abbrev written : Result (Unit {0}) × Env
written = write_request libraries util (codes "{}") Compression.gzip Encryption.aes_256_gcm wide

abbrev frame_sent : Bytes
frame_sent = frame Compression.gzip Encryption.aes_256_gcm (body_of sent.0)

is_written :
    (written ≡ (ok tt, written.1))
    × (written.1.wire.sent ≡ codes "old" ++ frame_sent)
    × (length frame_sent ≡ 66)
unfolding write_request write_frame put write_all write_u8 write_u32 to_be_bytes new_with_path
    payload_of protect compress same_bytes encrypt_text_aes_gcm_bundle encrypt_text_aes_gcm
    load_master_key restrict metadata_mode read_to_string from_utf8 is_utf8 lines trim parse_lines
    encode decode eq_bytes try_fill_bytes key_len_of by_mode seal_arm derive_key_two_step
    get_or_derive_master_key cached_key derive_and_store
is_written = (refl, refl, refl)

-- A compressed and encrypted request in front of other bytes.
read_response-write_request_example : Back util (codes "{}") key_world (
    read_response libraries util
      (record { pending = frame_sent ++ codes "next"; ending = closes })
      key_world)
read_response-write_request_example =
    let (done, added, len) = is_written in
    read_response-write_request libraries libraries-AreSound util (codes "{}") frame_sent
      (codes "next") closes Compression.gzip Encryption.aes_256_gcm wide written.1 key_world
      ((omega arith, omega arith), ((omega arith, omega arith), tt)) utf8 (omega arith)
      (omega arith) (λ h. absurd (omega arith)) (λ h. share) done added (omega (arith, len))

abbrev plain_reader : Reader
plain_reader = record {
  pending = 0 ∷ 0 ∷ 0 ∷ 0 ∷ 0 ∷ 3 ∷ codes "{}" ++ 0 ∷ codes "rest";
  ending = stalls;
}

reads_plain : read_response libraries util plain_reader key_world ≡ (ok (codes "{}"), key_world)
unfolding read_response is_known_compression is_known_encryption accept strip_null next_u8 next_u32
    read_exact from_utf8 is_utf8 from_be_bytes
reads_plain = refl

-- A plain frame with a null terminator.
read_response-Accepted_example :
    Accepted libraries util stalls key_world (codes "{}") key_world plain_reader.pending
read_response-Accepted_example =
    read_response-Accepted libraries util plain_reader key_world key_world (codes "{}") reads_plain

-- A legacy JSON text.
read_response-legacy_example :
    (read_response libraries util
        (record { pending = b'{' ∷ (codes "}" ++ 0 ∷ codes "x"); ending = breaks })
        key_world
      ≡ (from_utf8 (b'{' ∷ codes "}"), key_world))
    × (read_response libraries util
          (record { pending = b'{' ∷ codes "}"; ending = breaks })
          key_world
        ≡ (at_end breaks (b'{' ∷ codes "}"), key_world))
read_response-legacy_example =
    read_response-legacy libraries util b'{' (codes "}") (codes "x") breaks key_world (omega arith)
      (omega arith, tt)

-- A connection that breaks within the payload.
abbrev narrow : Writer
narrow = record { sent = []; room = some 8 }

-- A connection that breaks inside of the header.
abbrev tight : Env
tight = record { world = key_world; wire = record { sent = codes "old"; room = some 5 } }

write_request-Sends_example :
    Sends Compression.gzip Encryption.aes_256_gcm
      (codes "old")
      (write_request libraries util (codes "{}") Compression.gzip Encryption.aes_256_gcm tight).0
      (write_request libraries util
        (codes "{}")
        Compression.gzip
        Encryption.aes_256_gcm
        tight).1.wire.sent
write_request-Sends_example =
    write_request-Sends libraries util engine-IsBase64 (codes "{}") Compression.gzip
      Encryption.aes_256_gcm tight (omega arith) (omega arith) (bytes_lem (codes "{}") refl)
