-- ===== src/Tests.antt =====
-- Concrete libraries, files and streams, on which the theorems of the other modules are tried.
mod Wire
mod Keys
mod Frames
mod Settings
mod Requests
mod Answers
mod Users
mod Login
mod Threads
mod Chats
mod Starts
mod Runs
use pgmoneta_mcp.Prelude.{
  ℕ, ◌+◌, ◌-◌, ◌*◌, ◌/◌, ◌%◌, ◌<◌, ◌≡◌, refl, sym, ap, ◌∙◌, Bool, true, false, ◌&&◌, List, [], ◌∷◌,
  ◌++◌, Option, none, some, arith, ltb, All, all, if◌then◌else◌,
}
use pgmoneta_mcp.Bytes.{Bytes, IsByte, codes, eq_bytes}
use pgmoneta_mcp.Bytes.Text.{IsVisible}
use pgmoneta_mcp.Result.{Result, ok, err, io, ◌>>=◌}
use pgmoneta_mcp.Libraries.{
  Codecs, AreLossless, GiveBytes, Base64, IsBase64, Aes, Crypto, IsAuthentic, Libraries, AreSound,
}
use pgmoneta_mcp.World.{World, Node, file}
use pgmoneta_mcp.Security.Gcm.RoundTrip.{IsValid}

pub bytes_lem : (d : Bytes) → all (λ b. ltb b 256) d ≡ true → All IsByte d
bytes_lem [] h = tt
bytes_lem (b ∷ d) h = (ground arith, bytes_lem d (ground arith))

-- Bytes as they are, and an error for what is no byte.
unfoldable pub same_bytes : Bytes → Result Bytes
same_bytes d = if all (λ b. ltb b 256) d then ok d else err io

same_bytes_outcome :
    (t : Bool) (d z : Bytes) → (if t then ok d else err io) ≡ ok z → (t ≡ true) × (d ≡ z)
same_bytes_outcome true d z h = (refl, cc)
same_bytes_outcome false d z h = cc

same_bytes_lem : (d z : Bytes) → same_bytes d ≡ ok z → (d ≡ z) × All IsByte z
unfolding same_bytes
same_bytes_lem d z h =
    let (test, same) = same_bytes_outcome (all (λ b. ltb b 256) d) d z h in
    (same, bytes_lem z (ap (all (λ b. ltb b 256)) (sym same) ∙ test))

-- Two visible characters for a byte.
unfoldable pub encode : Bytes → Bytes
encode [] = []
encode (b ∷ d) = (33 + (b / 16) % 16) ∷ (33 + b % 16) ∷ encode d

unfoldable pub decode : Bytes → Result Bytes
decode [] = ok []
decode (x ∷ []) = err io
decode (x ∷ y ∷ s) = decode s >>= λ d. ok (((x - 33) * 16 + (y - 33)) ∷ d)

decode-encode : (d : Bytes) → All IsByte d → decode (encode d) ≡ ok d
unfolding encode decode
decode-encode [] h = refl
decode-encode (b ∷ d) (p, h) =
    ap
      (λ (r : Result Bytes).
        r >>= λ d'. ok ((((33 + (b / 16) % 16) - 33) * 16 + ((33 + b % 16) - 33)) ∷ d'))
      (decode-encode d h)
    ∙ ap (λ x. ok (x ∷ d)) (omega arith)

encode-IsVisible : (d : Bytes) → IsVisible (encode d)
unfolding encode
encode-IsVisible [] = tt
encode-IsVisible (b ∷ d) =
    ((omega arith, omega arith), ((omega arith, omega arith), encode-IsVisible d))

abbrev pub codecs : Codecs
codecs = record {
  gzip_compress = same_bytes;
  gzip_decompress = ok;
  zstd_compress = same_bytes;
  zstd_decompress = ok;
  bzip2_compress = same_bytes;
  bzip2_decompress = ok;
  lz4_compress = same_bytes;
  lz4_decompress = λ z n. ok z;
}

pub codecs-AreLossless : AreLossless codecs
codecs-AreLossless =
    let back : (d z : Bytes) → same_bytes d ≡ ok z → ok z ≡ ok d =
      λ d z h. ap ok (sym (same_bytes_lem d z h).0) in
    record { gzip = back; zstd = back; bzip2 = back; lz4 = back }

pub codecs-GiveBytes : GiveBytes codecs
codecs-GiveBytes =
    let bytes : (d z : Bytes) → same_bytes d ≡ ok z → All IsByte z =
      λ d z h. (same_bytes_lem d z h).1 in
    record { gzip = bytes; zstd = bytes; bzip2 = bytes; lz4 = bytes }

abbrev pub engine : Base64
engine = record { encode = encode; decode = decode }

pub engine-IsBase64 : IsBase64 engine
engine-IsBase64 = record { decode-encode = decode-encode; encode-IsVisible = encode-IsVisible }

-- A key is the password behind the salt, and a ciphertext is the plain text.
abbrev pub crypto : Crypto
crypto = record {
  pbkdf2 = λ p s n len. ok (s ++ p);
  new_from_slice = λ a key. ok tt;
  encrypt = λ a key nonce plain. same_bytes plain;
  decrypt = λ a key nonce cipher. ok cipher;
}

pub crypto-IsAuthentic : IsAuthentic crypto
crypto-IsAuthentic = record {
  decrypt-encrypt = λ a key nonce plain cipher h. ap ok (sym (same_bytes_lem plain cipher h).0);
  encrypt-IsByte = λ a key nonce plain cipher h. (same_bytes_lem plain cipher h).1;
}

abbrev pub libraries : Libraries
libraries = record { codecs = codecs; base64 = engine; crypto = crypto }

pub libraries-AreSound : AreSound libraries
libraries-AreSound = record {
  lossless = codecs-AreLossless;
  give_bytes = codecs-GiveBytes;
  is_base64 = engine-IsBase64;
  authentic = crypto-IsAuthentic;
}

-- A key file and 32 random bytes.
abbrev pub key_salt : Bytes
key_salt = codes "0123456789abcdef"

abbrev pub key_file : Bytes
key_file = encode (codes "secret") ++ 10 ∷ encode key_salt ++ 10 ∷ []

abbrev pub empty_world : World
empty_world = record {
  files = λ p. none;
  entropy = codes "the random bytes of the machine.";
  cache = none;
}

abbrev pub key_world : World
key_world = record empty_world {
  files = λ p. if eq_bytes p (codes "/k") then some (file key_file 0o600) else none;
}

pub key_world-IsValid : IsValid crypto key_world
key_world-IsValid = record { faithful = tt; bytes = bytes_lem key_world.entropy refl }

abbrev pub value_of : Result Bytes → Bytes
value_of (ok b) = b
value_of (err e) = []
