-- ===== src/Handler.antt =====
-- src/handler.rs: responses of pgmoneta made readable for the caller of a tool. The parser and the
-- printer of serde_json are parameters; an object is the list of its members in the order of its keys.
pub mod Running
pub mod Evolves
pub mod Closed
pub mod Keys
pub mod Locked
pub mod Fresh
pub mod Tools
pub mod Readable
use pgmoneta_mcp.Prelude.{
  ℕ, ◌%◌, ◌^◌, Bool, true, false, ◌||◌, List, [], ◌∷◌, any, String, ◌==◌, if◌then◌else◌,
}
use pgmoneta_mcp.Bytes.{Bytes, codes, eq_bytes}
use pgmoneta_mcp.Result.{
  Result, ok, err, map_err, ◌>>=◌, panicked, outcome_missing, parse_failed, translate_failed,
  serialize_failed,
}
use pgmoneta_mcp.Constant.{management_category_outcome}
use pgmoneta_mcp.Constant.Compression.{translate_compression_enum}
use pgmoneta_mcp.Constant.Encryption.{translate_encryption_enum}
use pgmoneta_mcp.Constant.Command.{translate_command_enum}
use pgmoneta_mcp.Constant.ManagementError.{translate_error_enum}
use pgmoneta_mcp.Utility.{format_file_size, hex_string}

-- `serde_json::Value`, its arrays and its maps; a number is a `u64` or prints as some other text.
mutual
  pub data Value : Type 0 where
    null : Value
    boolean : Bool → Value
    unsigned : ℕ → Value
    other_number : Bytes → Value
    string : Bytes → Value
    array : Values → Value
    object : Members → Value

  pub data Values : Type 0 where
    no_values : Values
    value : Value → Values → Values

  pub data Members : Type 0 where
    no_members : Members
    member : Bytes → Value → Members → Members

-- `value.as_u64().unwrap()`
abbrev pub as_u64 : Value → Result ℕ
as_u64 null = err panicked
as_u64 (boolean b) = err panicked
as_u64 (unsigned n) = ok n
as_u64 (other_number n) = err panicked
as_u64 (string s) = err panicked
as_u64 (array a) = err panicked
as_u64 (object o) = err panicked

abbrev pub file_size_fields : List String
file_size_fields =
    "BackupSize" ∷ "RestoreSize" ∷ "BiggestFileSize" ∷ "Delta" ∷ "TotalSpace" ∷ "FreeSpace"
    ∷ "UsedSpace" ∷ "WorkspaceFreeSpace" ∷ "HotStandbySize" ∷ []

abbrev pub hex_string_fields : List String
hex_string_fields =
    "CheckpointHiLSN" ∷ "CheckpointLoLSN" ∷ "StartHiLSN" ∷ "StartLoLSN" ∷ "EndHiLSN" ∷ "EndLoLSN"
    ∷ []

abbrev pub is_key : Bytes → String → Bool
is_key key name = eq_bytes key (codes name)

abbrev pub contains : List String → Bytes → Bool
contains names key = any (is_key key) names

-- What the chain of tests on a key other than "Backups" makes of a value; `nested` is the value with
-- its members translated, if it is an object, and the value itself if not.
unfoldable pub translate_value : Bytes → Value → Result Value → Result Value
translate_value key v nested =
    if contains file_size_fields key
    then (as_u64 v >>= λ n. ok (string (format_file_size n)))
    else if contains hex_string_fields key
    then (as_u64 v >>= λ n. ok (string (hex_string n)))
    else if is_key key "Compression"
    then (as_u64 v >>= λ n. translate_compression_enum (n % 2 ^ 8) >>= λ s. ok (string (codes s)))
    else if is_key key "Encryption"
    then (as_u64 v >>= λ n. translate_encryption_enum (n % 2 ^ 8) >>= λ s. ok (string (codes s)))
    else if is_key key "Command"
    then (as_u64 v >>= λ n. translate_command_enum (n % 2 ^ 32) >>= λ s. ok (string (codes s)))
    else if is_key key "Error"
    then (as_u64 v >>= λ n. ok (string (codes (translate_error_enum (n % 2 ^ 32)))))
    else nested

-- The members behind the key "Backups" are not looked at.
unfoldable pub put_member : Bytes → Result Value → Result Value → Result Members → Result Members
put_member key backups translated rest =
    if is_key key "Backups"
    then (backups >>= λ v. ok (member key v no_members))
    else (translated >>= λ v. rest >>= λ m. ok (member key v m))

unfoldable mutual
  pub translate_result : Members → Result Members
  translate_result no_members = ok no_members
  translate_result (member key v rest) =
      put_member key (translate_array v) (translate_value key v (translate_nested v))
        (translate_result rest)

  -- The value of "Backups": what is no array becomes an empty one.
  pub translate_array : Value → Result Value
  translate_array null = ok (array no_values)
  translate_array (boolean b) = ok (array no_values)
  translate_array (unsigned n) = ok (array no_values)
  translate_array (other_number n) = ok (array no_values)
  translate_array (string s) = ok (array no_values)
  translate_array (object o) = ok (array no_values)
  translate_array (array a) = translate_items a >>= λ b. ok (array b)

  -- An object is translated, any other value stays.
  pub translate_nested : Value → Result Value
  translate_nested null = ok null
  translate_nested (boolean b) = ok (boolean b)
  translate_nested (unsigned n) = ok (unsigned n)
  translate_nested (other_number n) = ok (other_number n)
  translate_nested (string s) = ok (string s)
  translate_nested (array a) = ok (array a)
  translate_nested (object o) = translate_result o >>= λ m. ok (object m)

  pub translate_items : Values → Result Values
  translate_items no_values = ok no_values
  translate_items (value v rest) =
      translate_nested v >>= λ t. translate_items rest >>= λ ts. ok (value t ts)

unfoldable pub contains_key : Members → Bytes → Bool
contains_key no_members name = false
contains_key (member key v rest) name = eq_bytes key name || contains_key rest name

module _ (from_str : Bytes → Result Members) where
  unfoldable pub parse_and_check_result : Bytes → Result Members
  parse_and_check_result result = map_err parse_failed (from_str result) >>= λ response.
      if contains_key response (codes management_category_outcome)
      then ok response
      else err outcome_missing

  unfoldable pub generate_call_tool_result_string : (Members → Result Bytes) → Bytes → Result Bytes
  generate_call_tool_result_string to_string result = parse_and_check_result result >>= λ res.
      map_err translate_failed (translate_result res) >>= λ trans_res.
      map_err serialize_failed (to_string trans_res)
