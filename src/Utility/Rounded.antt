-- ===== src/Utility/Rounded.antt =====
-- How far the two decimals of `format_file_size` of src/utils.rs are from the size.
use pgmoneta_mcp.Prelude.{◌⊎◌, ◌++◌, ℕ, ◌+◌, ◌*◌, ◌≤◌, ◌≡◌}
use pgmoneta_mcp.Bytes.{Bytes, codes}
use pgmoneta_mcp.Utility.{kb, mb, gb, tb, two_decimals}

-- The hundredths of a unit are nearest to the size.
abbrev pub IsNearest : ℕ → ℕ → ℕ → Type 0
IsNearest size unit h = (2 * (h * unit) ≤ 200 * size + unit) × (200 * size ≤ 2 * (h * unit) + unit)

-- The units from 1024 bytes on, with the text behind the number.
abbrev pub Scale : ℕ → Bytes → Type 0
Scale unit suffix =
    ((unit ≡ kb) × (suffix ≡ codes " KB"))
    ⊎ ((unit ≡ mb) × (suffix ≡ codes " MB"))
    ⊎ ((unit ≡ gb) × (suffix ≡ codes " GB"))
    ⊎ ((unit ≡ tb) × (suffix ≡ codes " TB"))

-- The text of a size in one of the units, the size itself being at least the unit.
abbrev pub Shown : ℕ → Bytes → Type 0
Shown size text =
    (unit h : ℕ) × (suffix : Bytes) × (text ≡ two_decimals h ++ suffix)
    × Scale unit suffix
    × (unit ≤ size)
    × IsNearest size unit h
