-- ===== src/Security/Password.antt =====
-- `SecurityUtil::generate_password` of src/security.rs.
use pgmoneta_mcp.Prelude.{
  suc, ◌&&◌, all_below, all_below_sound, lt→ltb, ℕ, ◌%◌, ◌<◌, ◌≤◌, ◌≡◌, refl, ap, ◌∙◌, true, none,
  some, [], ◌∷◌, map, arith, length, take, drop, ltb, get_elem?, le→ltb, length-take,
}
use pgmoneta_mcp.Bytes.{Bytes, codes}
use pgmoneta_mcp.Bytes.Utf8.{from_utf8, from_utf8-IsAscii}
use pgmoneta_mcp.Bytes.Text.{IsVisible→IsAscii, IsVisible}
use pgmoneta_mcp.Result.{ok, err, io}
use pgmoneta_mcp.Action.{Action, lift, ◌>>=◌}
use pgmoneta_mcp.World.{World, try_fill_bytes}

abbrev pub chars : Bytes
chars =
    codes
      "ABCDEFGHIJKLMNOPQRSTUVWXYZabcdefghijklmnopqrstuvwxyz0123456789!@$%^&*()-_=+[{]}\\|:'\",<.>/?"

-- `CHARS[i]` for an index in range.
unfoldable pub char_at : ℕ → ℕ
char_at i = elim (get_elem? chars i) [ none ↦ 0 | some c ↦ c ]

unfoldable pub password_char : ℕ → ℕ
password_char byte = char_at (byte % length chars)

unfoldable pub generate_password : ℕ → Action World Bytes
generate_password n = do
  random_bytes ← try_fill_bytes n
  lift (from_utf8 (map password_char random_bytes))

count : length chars ≡ 90
count = refl

chars_visible : all_below 90 (λ i. ltb 32 (char_at i) && ltb (char_at i) 127) ≡ true
unfolding char_at all_below
chars_visible = refl

IsVisible-password_char : (byte : ℕ) → (32 < password_char byte) × (password_char byte < 127)
unfolding password_char
IsVisible-password_char byte =
    let h =
      all_below_sound 90 (λ i. ltb 32 (char_at i) && ltb (char_at i) 127) (byte % 90) chars_visible
        (omega arith) in
    ground arith

IsVisible-map : (bytes : Bytes) → IsVisible (map password_char bytes)
IsVisible-map [] = tt
IsVisible-map (b ∷ bytes) = (IsVisible-password_char b, IsVisible-map bytes)

length-map : (bytes : Bytes) → length (map password_char bytes) ≡ length bytes
length-map [] = refl
length-map (b ∷ bytes) = ap suc (length-map bytes)

-- Where the system has enough random bytes, a password is generated: it has the length that was
-- asked for and consists of printable characters other than the space, and exactly as many random
-- bytes are used up. Where it has not, there is an error, and nothing changes.
pub generate_password_lem :
    (n : ℕ) (w : World)
    → (n ≤ length w.entropy
        → (password : Bytes) × (generate_password n w
            ≡ (ok password, record w { entropy = drop n w.entropy }))
          × (length password ≡ n)
          × IsVisible password)
      × (length w.entropy < n → generate_password n w ≡ (err io, w))
unfolding generate_password try_fill_bytes
generate_password_lem n w = (
  λ h.
      let bytes = take n w.entropy in
      let ascii =
        from_utf8-IsAscii (map password_char bytes) (IsVisible→IsAscii _ (IsVisible-map bytes)) in
      (
        map password_char bytes,
        rw (le→ltb (length w.entropy) n h, ascii) refl,
        length-map bytes ∙ omega (arith, length-take n w.entropy),
        IsVisible-map bytes,
      ),
  λ h. rw (lt→ltb (length w.entropy) n h) refl,
)
