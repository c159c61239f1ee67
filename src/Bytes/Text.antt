-- ===== src/Bytes/Text.antt =====
-- `str::trim`, `str::lines` and `str::to_lowercase` of the standard library, on UTF-8 bytes.
use pgmoneta_mcp.Prelude.{
  ℕ, ◌+◌, ◌<◌, ◌≡◌, refl, ap, Bool, true, false, ◌&&◌, ◌||◌, List, [], ◌∷◌, ◌++◌, map, arith,
  append-nil, append_assoc, leb, ◌==◌, All, if◌then◌else◌,
}
use pgmoneta_mcp.Bytes.{Bytes, codes}
use pgmoneta_mcp.Bytes.Utf8.{IsAscii}

-- White space of one byte: tab, line feed, vertical tab, form feed, carriage return, space.
is_white : ℕ → Bool
is_white a = (leb 9 a && leb a 13) || a == 32

-- U+0085 and U+00A0.
is_white2 : ℕ → ℕ → Bool
is_white2 a b = a == 0xc2 && (b == 0x85 || b == 0xa0)

-- U+1680, U+2000 to U+200A, U+2028, U+2029, U+202F, U+205F, U+3000.
is_white3 : ℕ → ℕ → ℕ → Bool
is_white3 a b c =
    (a == 0xe1 && b == 0x9a && c == 0x80)
    || (a == 0xe2 && b == 0x80 && leb 0x80 c && (leb c 0x8a || c == 0xa8 || c == 0xa9 || c == 0xaf))
    || (a == 0xe2 && b == 0x81 && c == 0x9f)
    || (a == 0xe3 && b == 0x80 && c == 0x80)

pub trim_start : Bytes → Bytes
unfolding is_white is_white2 is_white3
trim_start [] = []
trim_start (a ∷ []) = if is_white a then [] else a ∷ []
trim_start (a ∷ b ∷ []) =
    let rest = trim_start (b ∷ []) in
    if is_white a then rest else if is_white2 a b then [] else a ∷ b ∷ []
trim_start (a ∷ b ∷ c ∷ s) =
    let rest = trim_start (b ∷ c ∷ s) in
    let rest2 = trim_start (c ∷ s) in
    let rest3 = trim_start s in
    if is_white a
    then rest
    else if is_white2 a b
    then rest2
    else if is_white3 a b c
    then rest3
    else a ∷ b ∷ c ∷ s

is_empty : Bytes → Bool
is_empty [] = true
is_empty (x ∷ xs) = false

-- A suffix that is all white space is cut off.
pub trim_end : Bytes → Bytes
unfolding is_empty trim_start
trim_end [] = []
trim_end (a ∷ s) = if is_empty (trim_start (a ∷ s)) then [] else a ∷ trim_end s

unfoldable pub trim : Bytes → Bytes
unfolding trim_start trim_end
trim s = trim_end (trim_start s)

-- `line.strip_suffix('\r')`
strip_cr : Bytes → Bytes
strip_cr [] = []
strip_cr (a ∷ []) = if a == 13 then [] else a ∷ []
strip_cr (a ∷ b ∷ s) = a ∷ strip_cr (b ∷ s)

lines_from : Bytes → Bytes → List Bytes
unfolding strip_cr
lines_from [] [] = []
lines_from (x ∷ cur) [] = (x ∷ cur) ∷ []
lines_from cur (c ∷ s) = elim (c == 10) [
  | true ↦ strip_cr cur ∷ lines_from [] s
  | false ↦ lines_from (cur ++ c ∷ []) s
]

-- The lines without their ends; text behind the last line feed is a line if it is not empty.
unfoldable pub lines : Bytes → List Bytes
unfolding lines_from
lines s = lines_from [] s

lower : ℕ → ℕ
lower c = if leb b'A' c && leb c b'Z' then c + 32 else c

-- ASCII letters only: no other letter has a lower case that a keyword of the program holds.
unfoldable pub to_lowercase : Bytes → Bytes
unfolding lower
to_lowercase = map lower

-- Printable ASCII and no space: what base64 text consists of.
abbrev pub IsVisible : Bytes → Type 0
IsVisible = All (λ c. (32 < c) × (c < 127))

pub IsVisible→IsAscii : (s : Bytes) → IsVisible s → IsAscii s
IsVisible→IsAscii [] h = tt
IsVisible→IsAscii (b ∷ s) (p, h) = (omega arith, IsVisible→IsAscii s h)

trim_start-IsVisible : (s : Bytes) → IsVisible s → trim_start s ≡ s
unfolding trim_start
trim_start-IsVisible [] h = refl
trim_start-IsVisible (a ∷ []) h = ground arith
trim_start-IsVisible (a ∷ b ∷ []) h = ground arith
trim_start-IsVisible (a ∷ b ∷ c ∷ s) h = ground arith

trim_end-IsVisible : (s : Bytes) → IsVisible s → trim_end s ≡ s
unfolding trim_end
trim_end-IsVisible [] h = refl
trim_end-IsVisible (a ∷ s) (p, h) =
    ground (arith, trim_start-IsVisible (a ∷ s) (p, h), trim_end-IsVisible s h)

pub trim-IsVisible : (s : Bytes) → IsVisible s → trim s ≡ s
unfolding trim
trim-IsVisible s h = rw (trim_start-IsVisible s h) (trim_end-IsVisible s h)

strip_cr-IsVisible : (s : Bytes) → IsVisible s → strip_cr s ≡ s
unfolding strip_cr
strip_cr-IsVisible [] h = refl
strip_cr-IsVisible (a ∷ []) h = ground arith
strip_cr-IsVisible (a ∷ b ∷ s) (p, h) = ap (◌∷◌ a) (strip_cr-IsVisible (b ∷ s) h)

lines_from-IsVisible :
    (s rest cur : Bytes)
    → IsVisible s
    → lines_from cur (s ++ 10 ∷ rest) ≡ strip_cr (cur ++ s) ∷ lines_from [] rest
unfolding lines_from
lines_from-IsVisible [] rest cur h = rw append-nil
lines_from-IsVisible (c ∷ s) rest cur (p, h) =
    ground (arith, lines_from-IsVisible s rest (cur ++ c ∷ []) h, append_assoc cur (c ∷ []) s)

-- A visible text and a line feed in front make the first line.
pub lines-IsVisible : (s rest : Bytes) → IsVisible s → lines (s ++ 10 ∷ rest) ≡ s ∷ lines rest
unfolding lines
lines-IsVisible s rest h = rw (lines_from-IsVisible s rest [] h, strip_cr-IsVisible s h)

pub lines-nil : lines [] ≡ []
unfolding lines
lines-nil = refl

crlf_and_tail : lines (codes "ab" ++ 13 ∷ 10 ∷ 10 ∷ codes "c") ≡ codes "ab" ∷ [] ∷ codes "c" ∷ []
unfolding lines
crlf_and_tail = refl

trim_both : trim (codes " a b " ++ 0xe2 ∷ 0x80 ∷ 0xa8 ∷ []) ≡ codes "a b"
unfolding trim
trim_both = refl
