-- ===== src/Handler/Readable.antt =====
-- Which responses `_translate_result` of src/handler.rs translates, and which of them it cannot.
use pgmoneta_mcp.Prelude.{
  ℕ, ◌%◌, ◌^◌, ◌≡◌, refl, ap, ◌∙◌, Bool, true, false, ◌&&◌, leb, ltb, arith, if◌then◌else◌,
}
use pgmoneta_mcp.Bytes.{Bytes}
use pgmoneta_mcp.Result.{Result, ok, err, is_ok, ◌>>=◌}
use pgmoneta_mcp.Constant.Compression.{translate_compression_enum}
use pgmoneta_mcp.Constant.Encryption.{translate_encryption_enum}
use pgmoneta_mcp.Constant.Command.{translate_command_enum}
use pgmoneta_mcp.Handler.{
  Value, null, boolean, unsigned, other_number, string, array, object, Values, no_values, value,
  Members, no_members, member, as_u64, file_size_fields, hex_string_fields, is_key, contains,
  translate_value, put_member, translate_result, translate_array, translate_nested, translate_items,
}

-- An unsigned number that passes the test.
abbrev pub unsigned_with : (ℕ → Bool) → Value → Bool
unsigned_with p null = false
unsigned_with p (boolean b) = false
unsigned_with p (unsigned n) = p n
unsigned_with p (other_number n) = false
unsigned_with p (string s) = false
unsigned_with p (array a) = false
unsigned_with p (object o) = false

-- What a member other than "Backups" must hold: a number where its key says so, a known code where the
-- key says so, after the narrowing to 8 or 32 bits; `nested` is for any other key.
unfoldable pub is_readable : Bytes → Value → Bool → Bool
is_readable key v nested =
    if contains file_size_fields key
    then unsigned_with (λ n. true) v
    else if contains hex_string_fields key
    then unsigned_with (λ n. true) v
    else if is_key key "Compression"
    then unsigned_with (λ n. ltb (n % 2 ^ 8) 8) v
    else if is_key key "Encryption"
    then unsigned_with (λ n. ltb (n % 2 ^ 8) 4) v
    else if is_key key "Command"
    then unsigned_with (λ n. leb 1 (n % 2 ^ 32) && leb (n % 2 ^ 32) 24) v
    else if is_key key "Error"
    then unsigned_with (λ n. true) v
    else nested

-- A response of which every member up to "Backups" is readable, objects inside of it too, and every
-- object in the array of "Backups".
unfoldable mutual
  pub fits : Members → Bool
  fits no_members = true
  fits (member key v rest) =
      if is_key key "Backups" then fits_array v else is_readable key v (fits_nested v) && fits rest

  pub fits_array : Value → Bool
  fits_array null = true
  fits_array (boolean b) = true
  fits_array (unsigned n) = true
  fits_array (other_number n) = true
  fits_array (string s) = true
  fits_array (object o) = true
  fits_array (array a) = fits_items a

  pub fits_nested : Value → Bool
  fits_nested null = true
  fits_nested (boolean b) = true
  fits_nested (unsigned n) = true
  fits_nested (other_number n) = true
  fits_nested (string s) = true
  fits_nested (array a) = true
  fits_nested (object o) = fits o

  pub fits_items : Values → Bool
  fits_items no_values = true
  fits_items (value v rest) = fits_nested v && fits_items rest

is_ok-if :
    {A : Type 0} (b : Bool) (x y : Result A) {p q : Bool}
    → is_ok x ≡ p
    → is_ok y ≡ q
    → is_ok (if b then x else y) ≡ (if b then p else q)
is_ok-if true x y hx hy = hx
is_ok-if false x y hx hy = hy

is_ok-map : {A B : Type 0} (r : Result A) (f : A → B) → is_ok (r >>= λ a. ok (f a)) ≡ is_ok r
is_ok-map (ok a) f = refl
is_ok-map (err e) f = refl

is_ok-both :
    {A B C : Type 0} (r : Result A) (s : Result B) (f : A → B → C)
    → is_ok (r >>= λ a. s >>= λ b. ok (f a b)) ≡ (is_ok r && is_ok s)
is_ok-both (ok a) s f = is_ok-map s (f a)
is_ok-both (err e) s f = refl

is_ok-as_u64 :
    {B : Type 0} (v : Value) (f : ℕ → Result B) (p : ℕ → Bool)
    → ((n : ℕ) → is_ok (f n) ≡ p n)
    → is_ok (as_u64 v >>= f) ≡ unsigned_with p v
is_ok-as_u64 null f p h = refl
is_ok-as_u64 (boolean b) f p h = refl
is_ok-as_u64 (unsigned n) f p h = h n
is_ok-as_u64 (other_number n) f p h = refl
is_ok-as_u64 (string s) f p h = refl
is_ok-as_u64 (array a) f p h = refl
is_ok-as_u64 (object o) f p h = refl

is_ok-compression : (n : ℕ) → is_ok (translate_compression_enum n) ≡ ltb n 8
unfolding translate_compression_enum
is_ok-compression n = ground arith

is_ok-encryption : (n : ℕ) → is_ok (translate_encryption_enum n) ≡ ltb n 4
unfolding translate_encryption_enum
is_ok-encryption n = ground arith

is_ok-command : (n : ℕ) → is_ok (translate_command_enum n) ≡ (leb 1 n && leb n 24)
unfolding translate_command_enum
is_ok-command n = ground arith

is_ok-value :
    (key : Bytes) (v : Value) (nested : Result Value)
    → is_ok (translate_value key v nested) ≡ is_readable key v (is_ok nested)
unfolding translate_value is_readable
is_ok-value key v nested =
    is_ok-if (contains file_size_fields key) _ _ (is_ok-as_u64 v _ (λ n. true) (λ n. refl)) (
      is_ok-if (contains hex_string_fields key) _ _ (is_ok-as_u64 v _ (λ n. true) (λ n. refl)) (
        is_ok-if (is_key key "Compression") _ _
          (is_ok-as_u64 v _ (λ n. ltb (n % 2 ^ 8) 8)
            (λ n.
              is_ok-map (translate_compression_enum (n % 2 ^ 8)) _ ∙ is_ok-compression (n % 2 ^ 8)))
          (is_ok-if (is_key key "Encryption") _ _
            (is_ok-as_u64 v _ (λ n. ltb (n % 2 ^ 8) 4)
              (λ n.
                is_ok-map (translate_encryption_enum (n % 2 ^ 8)) _ ∙ is_ok-encryption (n % 2 ^ 8)))
            (is_ok-if (is_key key "Command") _ _
              (is_ok-as_u64 v _ (λ n. leb 1 (n % 2 ^ 32) && leb (n % 2 ^ 32) 24)
                (λ n.
                  is_ok-map (translate_command_enum (n % 2 ^ 32)) _ ∙ is_ok-command (n % 2 ^ 32)))
              (is_ok-if (is_key key "Error") _ _ (is_ok-as_u64 v _ (λ n. true) (λ n. refl))
                refl)))))

is_ok-put :
    (key : Bytes) (backups translated : Result Value) (rest : Result Members) {b t r : Bool}
    → is_ok backups ≡ b
    → is_ok translated ≡ t
    → is_ok rest ≡ r
    → is_ok (put_member key backups translated rest) ≡ (if is_key key "Backups" then b else t && r)
unfolding put_member
is_ok-put key backups translated rest hb ht hr =
    is_ok-if (is_key key "Backups") _ _ (is_ok-map backups _ ∙ hb)
      (is_ok-both translated rest _ ∙ rw (ht, hr) refl)

mutual
  unfolding translate_result fits

  is_ok-members : (m : Members) → is_ok (translate_result m) ≡ fits m
  is_ok-members no_members = refl
  is_ok-members (member key v rest) =
      is_ok-put key _ _ _ (is_ok-array v)
        (is_ok-value key v (translate_nested v) ∙ ap (is_readable key v) (is_ok-nested v))
        (is_ok-members rest)

  is_ok-array : (v : Value) → is_ok (translate_array v) ≡ fits_array v
  is_ok-array null = refl
  is_ok-array (boolean b) = refl
  is_ok-array (unsigned n) = refl
  is_ok-array (other_number n) = refl
  is_ok-array (string s) = refl
  is_ok-array (object o) = refl
  is_ok-array (array a) = is_ok-map (translate_items a) array ∙ is_ok-items a

  is_ok-nested : (v : Value) → is_ok (translate_nested v) ≡ fits_nested v
  is_ok-nested null = refl
  is_ok-nested (boolean b) = refl
  is_ok-nested (unsigned n) = refl
  is_ok-nested (other_number n) = refl
  is_ok-nested (string s) = refl
  is_ok-nested (array a) = refl
  is_ok-nested (object o) = is_ok-map (translate_result o) object ∙ is_ok-members o

  is_ok-items : (a : Values) → is_ok (translate_items a) ≡ fits_items a
  is_ok-items no_values = refl
  is_ok-items (value v rest) =
      is_ok-both (translate_nested v) (translate_items rest) value
      ∙ ap (λ b. b && is_ok (translate_items rest)) (is_ok-nested v)
      ∙ ap (λ b. fits_nested v && b) (is_ok-items rest)
