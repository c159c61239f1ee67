-- ===== src/Utility.antt =====
-- Numbers as text: `format_file_size` of src/utils.rs, and the hexadecimal form of src/handler.rs.
pub mod Digits
pub mod Rounded
use pgmoneta_mcp.Prelude.{
  ℕ, zero, suc, ◌+◌, ◌*◌, ◌/◌, ◌%◌, ◌^◌, List, [], ◌∷◌, ◌++◌, ltb, ◌==◌, if◌then◌else◌,
}
use pgmoneta_mcp.Bytes.{Bytes, codes}

-- A digit below 16, with upper case letters.
unfoldable pub digit : ℕ → ℕ
digit d = if ltb d 10 then 48 + d else 55 + d

-- The digits of n in a base, without leading zeros, in front of a text; at most `fuel` of them.
unfoldable pub digits : ℕ → ℕ → ℕ → Bytes → Bytes
unfolding digit
digits zero base n text = text
digits (suc fuel) base n text =
    let more = digits fuel base (n / base) (digit (n % base) ∷ text) in
    if n / base == 0 then digit (n % base) ∷ text else more

-- Twenty digits are enough for a `u64` in base 10, and sixteen in base 16.
unfoldable pub decimal : ℕ → Bytes
decimal n = digits 20 10 n []

-- `format!("0x{:X}", num)`
unfoldable pub hex_string : ℕ → Bytes
hex_string n = codes "0x" ++ digits 16 16 n []

-- The integer nearest to n / d, the even one of two.
unfoldable pub round_half_even : ℕ → ℕ → ℕ
round_half_even n d =
    if ltb (2 * (n % d)) d
    then n / d
    else if ltb d (2 * (n % d))
    then n / d + 1
    else n / d + (n / d) % 2

-- The unit in the last place of the `f64` nearest to a `u64`: eleven halvings bring it below 2^53.
unfoldable pub unit_of : ℕ → ℕ → ℕ
unit_of zero n = 1
unit_of (suc fuel) n = let half = unit_of fuel (n / 2) in if ltb n (2 ^ 53) then 1 else 2 * half

-- `size as f64`; the quotient by a power of two is exact.
unfoldable pub as_f64 : ℕ → ℕ
unfolding round_half_even unit_of
as_f64 n = let unit = unit_of 11 n in round_half_even n unit * unit

-- `{:.2}` of `size as f64 / unit as f64`, in hundredths.
unfoldable pub hundredths : ℕ → ℕ → ℕ
unfolding as_f64 round_half_even
hundredths size unit = round_half_even (100 * as_f64 size) unit

unfoldable pub two_decimals : ℕ → Bytes
unfolding decimal digit
two_decimals h = decimal (h / 100) ++ (b'.' ∷ digit ((h % 100) / 10) ∷ digit (h % 10) ∷ [])

abbrev pub kb : ℕ
kb = 1024

abbrev pub mb : ℕ
mb = 1_048_576

abbrev pub gb : ℕ
gb = 1_073_741_824

abbrev pub tb : ℕ
tb = 1_099_511_627_776

unfoldable pub format_file_size : ℕ → Bytes
format_file_size size =
    if ltb size kb
    then decimal size ++ codes " B"
    else if ltb size mb
    then two_decimals (hundredths size kb) ++ codes " KB"
    else if ltb size gb
    then two_decimals (hundredths size mb) ++ codes " MB"
    else if ltb size tb
    then two_decimals (hundredths size gb) ++ codes " GB"
    else two_decimals (hundredths size tb) ++ codes " TB"
