-- ===== src/Bytes/Utf8.antt =====
-- `String::from_utf8` and `str::from_utf8` of the standard library: the bytes are checked, and kept.
use pgmoneta_mcp.Prelude.{
  ℕ, ◌<◌, ◌≡◌, refl, Bool, true, false, ◌&&◌, Option, none, some, [], ◌∷◌, arith, ltb, leb, ◌==◌,
  All, if◌then◌else◌,
}
use pgmoneta_mcp.Bytes.{Bytes}
use pgmoneta_mcp.Result.{Result, ok, err, invalid_utf8}

-- What a well-formed text still needs: nothing, that many continuation bytes, or a continuation
-- byte in the range that the first byte leaves (no overlong form, no surrogate, at most U+10FFFF).
pub data Pending : Type 0 where
  start one two three : Pending
  after_e0 after_ed after_f0 after_f4 : Pending

between : ℕ → ℕ → ℕ → Bool
between lo hi b = leb lo b && leb b hi

lead : ℕ → Option Pending
unfolding between
lead b =
    if ltb b 0x80
    then some start
    else if between 0xc2 0xdf b
    then some one
    else if b == 0xe0
    then some after_e0
    else if b == 0xed
    then some after_ed
    else if between 0xe1 0xef b
    then some two
    else if b == 0xf0
    then some after_f0
    else if b == 0xf4
    then some after_f4
    else if between 0xf1 0xf3 b
    then some three
    else none

step : Pending → ℕ → Option Pending
unfolding lead
step start b = lead b
step one b = if between 0x80 0xbf b then some start else none
step two b = if between 0x80 0xbf b then some one else none
step three b = if between 0x80 0xbf b then some two else none
step after_e0 b = if between 0xa0 0xbf b then some one else none
step after_ed b = if between 0x80 0x9f b then some one else none
step after_f0 b = if between 0x90 0xbf b then some two else none
step after_f4 b = if between 0x80 0x8f b then some two else none

pub runs : Option Pending → Bytes → Bool
unfolding step
runs none bs = false
runs (some start) [] = true
runs (some p) [] = false
runs (some p) (b ∷ bs) = runs (step p b) bs

unfoldable pub is_utf8 : Bytes → Bool
unfolding runs
is_utf8 bs = runs (some start) bs

unfoldable pub from_utf8 : Bytes → Result Bytes
from_utf8 bs = if is_utf8 bs then ok bs else err invalid_utf8

abbrev pub IsAscii : Bytes → Type 0
IsAscii = All (λ b. b < 128)

-- An ASCII text is well formed.
pub is_utf8-IsAscii : (bs : Bytes) → IsAscii bs → is_utf8 bs ≡ true
unfolding is_utf8
is_utf8-IsAscii [] h = refl
is_utf8-IsAscii (b ∷ bs) (p, h) = ground (arith, is_utf8-IsAscii bs h)

pub from_utf8-IsAscii : (bs : Bytes) → IsAscii bs → from_utf8 bs ≡ ok bs
unfolding from_utf8
from_utf8-IsAscii bs h = ground (arith, is_utf8-IsAscii bs h)

pub from_utf8-eq-ok : (bs : Bytes) {s : Bytes} → from_utf8 bs ≡ ok s → s ≡ bs
unfolding from_utf8
from_utf8-eq-ok bs h = ground arith
