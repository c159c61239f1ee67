-- ===== src/World.antt =====
-- The state outside the program that src/security.rs and src/bin/admin.rs read and write: the file
-- system by path, the operating system's random bytes, and the process-wide `MASTER_KEY_CACHE`.
pub mod Keeps
use pgmoneta_mcp.Prelude.{
  ℕ, Bool, true, Option, none, some, [], ◌∷◌, ◌++◌, take, drop, length, ltb, ◌==◌, if◌then◌else◌,
}
use pgmoneta_mcp.Bytes.{Bytes, eq_bytes}
use pgmoneta_mcp.Bytes.Utf8.{from_utf8}
use pgmoneta_mcp.Result.{ok, err, io, map_err}
use pgmoneta_mcp.Action.{Action}

-- A file has a content and permission bits.
pub data Node : Type 0 where
  file : Bytes → ℕ → Node
  directory : ℕ → Node

-- The entry of the cache: the key that was derived from that password and that salt.
pub record CachedMasterKey : Type 0 where
  pub password : Bytes
  pub salt : Bytes
  pub derived_key : Bytes

pub record World : Type 0 where
  pub files : Bytes → Option Node
  -- what the random number generator will give
  pub entropy : Bytes
  pub cache : Option CachedMasterKey

-- `h.join(name)` of `std::path` for a relative name: a separator unless there is one.
abbrev pub ends_with_slash : Bytes → Bool
ends_with_slash [] = true
ends_with_slash (c ∷ []) = c == b'/'
ends_with_slash (c ∷ d ∷ s) = ends_with_slash (d ∷ s)

abbrev pub join : Bytes → Bytes → Bytes
join base name = if ends_with_slash base then base ++ name else base ++ (b'/' ∷ name)

abbrev pub put_file : Bytes → Node → World → World
put_file path node w = record w { files = λ p. if eq_bytes p path then some node else w.files p }

-- `fs::metadata(path)?.permissions().mode()`
unfoldable pub metadata_mode : Bytes → Action World ℕ
metadata_mode path w = elim (w.files path) [
  | none ↦ (err io, w)
  | some (file content mode) ↦ (ok mode, w)
  | some (directory mode) ↦ (ok mode, w)
]

-- `fs::set_permissions(path, Permissions::from_mode(mode))?`
unfoldable pub set_permissions : Bytes → ℕ → Action World (Unit {0})
set_permissions path mode w = elim (w.files path) [
  | none ↦ (err io, w)
  | some (file content old) ↦ (ok tt, put_file path (file content mode) w)
  | some (directory old) ↦ (ok tt, put_file path (directory mode) w)
]

-- `fs::read_to_string(path)?`: text that is not UTF-8 is an error too.
unfoldable pub read_to_string : Bytes → Action World Bytes
read_to_string path w = elim (w.files path) [
  | none ↦ (err io, w)
  | some (file content mode) ↦ (map_err (λ e. io) (from_utf8 content), w)
  | some (directory mode) ↦ (err io, w)
]

-- Opening for writing with `create`, `truncate` and a mode for a new file, then `write_all`. An
-- old file keeps its mode.
unfoldable pub write_file : Bytes → Bytes → ℕ → Action World (Unit {0})
write_file path content mode w = elim (w.files path) [
  | none ↦ (ok tt, put_file path (file content mode) w)
  | some (file old old_mode) ↦ (ok tt, put_file path (file content old_mode) w)
  | some (directory old_mode) ↦ (err io, w)
]

-- `OsRng.try_fill_bytes` on a buffer of n bytes.
unfoldable pub try_fill_bytes : ℕ → Action World Bytes
try_fill_bytes n w =
    if ltb (length w.entropy) n
    then (err io, w)
    else (ok (take n w.entropy), record w { entropy = drop n w.entropy })
