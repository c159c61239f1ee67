-- ===== src/Utility/Digits.antt =====
-- The digits that src/handler.rs and src/utils.rs print stand for the number.
use native.Mathlib.Numerals.{unary_clauses}
use pgmoneta_mcp.Prelude.{
  ℕ, zero, suc, ◌+◌, ◌-◌, ◌*◌, ◌/◌, ◌%◌, ◌^◌, ◌<◌, ◌≡◌, ap, ◌∙◌, [], ◌∷◌, arith, ltb, ◌==◌,
  if◌then◌else◌, drop, Bool-cases, inl, inr, ==_iff,
}
use pgmoneta_mcp.Bytes.{Bytes}
use pgmoneta_mcp.Utility.{digit, digits, decimal, hex_string}

abbrev pub digit_value : ℕ → ℕ
digit_value c = if ltb c 65 then c - 48 else c - 55

-- The number that the digits behind n continue.
unfoldable pub read_digits : ℕ → ℕ → Bytes → ℕ
read_digits base n [] = n
read_digits base n (c ∷ s) = read_digits base (n * base + digit_value c) s

digit_value-digit : (d : ℕ) → d < 16 → digit_value (digit d) ≡ d
unfolding digit
digit_value-digit d h = ground arith

zero_plus : (base n : ℕ) → 0 * base + n ≡ n
zero_plus base n = omega arith

module _ (base : ℕ) (split : (n : ℕ) → (n / base) * base + n % base ≡ n)
    (small : (n : ℕ) → n % base < 16)
    (shorter : (n fuel : ℕ) → n < base ^ suc fuel → n / base < base ^ fuel)
    (low : (n : ℕ) → n / base ≡ 0 → n % base ≡ n) where
  read_digits-digits :
      (fuel n : ℕ) (text : Bytes)
      → n < base ^ fuel
      → read_digits base 0 (digits fuel base n text) ≡ read_digits base n text
  unfolding digits read_digits
  read_digits-digits zero n text h =
      let below : n < 1 = simp unary_clauses at h in
      ap (λ k. read_digits base k text) (omega (arith, below))
  read_digits-digits (suc fuel) n text h = elim (Bool-cases (n / base == 0)) [
    | inl e ↦ rw e (
        ap (λ k. read_digits base k text)
          (zero_plus base _
            ∙ digit_value-digit (n % base) (small n)
            ∙ low n ((==_iff (n / base) 0).0 e)))
    | inr e ↦ rw e (
        read_digits-digits fuel (n / base) (digit (n % base) ∷ text) (shorter n fuel h)
        ∙ ap (λ d. read_digits base ((n / base) * base + d) text)
            (digit_value-digit (n % base) (small n))
        ∙ ap (λ k. read_digits base k text) (split n))
  ]

-- The hexadecimal text of a `u64` reads back as the number, and so does the decimal one.
read_digits-hex_string :
    (n : ℕ)
    → n < 2 ^ 64
    → (read_digits 16 0 (drop 2 (hex_string n)) ≡ n) × (read_digits 10 0 (decimal n) ≡ n)
unfolding hex_string decimal read_digits
read_digits-hex_string n h = (
  read_digits-digits 16 (λ k. omega arith) (λ k. omega arith) (λ k f l. omega arith)
      (λ k l. omega arith) 16 n [] (omega arith),
  read_digits-digits 10 (λ k. omega arith) (λ k. omega arith) (λ k f l. omega arith)
      (λ k l. omega arith) 20 n [] (omega arith),
)
