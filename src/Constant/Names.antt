-- ===== src/Constant/Names.antt =====
-- The names that src/constant.rs gives to command codes.
use text.Mathlib.Text.{◌==◌ as str_eq}
use pgmoneta_mcp.Prelude.{
  ℕ, ◌≤◌, ◌<◌, ◌≡◌, ◌↔◌, ◌∙◌, sym, ap, refl, true, String, arith, ◌==◌, ==_iff, all_below,
  all_below_sound, if◌then◌else◌,
}
use pgmoneta_mcp.Result.{Result, ok, is_ok, unrecognized_command, err}
use pgmoneta_mcp.Constant.Command.{translate_command_enum}

-- The code that a name stands for.
command_code : String → ℕ
command_code name =
    if str_eq name "backup"
    then 1
    else if str_eq name "list-backup"
    then 2
    else if str_eq name "restore"
    then 3
    else if str_eq name "archive"
    then 4
    else if str_eq name "delete"
    then 5
    else if str_eq name "shutdown"
    then 6
    else if str_eq name "status"
    then 7
    else if str_eq name "status details"
    then 8
    else if str_eq name "ping"
    then 9
    else if str_eq name "clear prometheus"
    then 10
    else if str_eq name "conf reload"
    then 11
    else if str_eq name "retain"
    then 12
    else if str_eq name "expunge"
    then 13
    else if str_eq name "decrypt"
    then 14
    else if str_eq name "encrypt"
    then 15
    else if str_eq name "decompress"
    then 16
    else if str_eq name "compress"
    then 17
    else if str_eq name "info"
    then 18
    else if str_eq name "verify"
    then 19
    else if str_eq name "annotate"
    then 20
    else if str_eq name "conf ls"
    then 21
    else if str_eq name "conf get"
    then 22
    else if str_eq name "conf set"
    then 23
    else if str_eq name "mode"
    then 24
    else 0

result_code : Result String → ℕ
result_code (ok name) = command_code name
result_code (err e) = 0

codes_table : all_below 25 (λ c. result_code (translate_command_enum c) == c) ≡ true
unfolding all_below result_code command_code translate_command_enum
codes_table = refl

-- Exactly the codes 1 to 24 have a name, and any other code is an error that carries it.
translate_command_enum_total :
    (c : ℕ)
    → ((is_ok (translate_command_enum c) ≡ true) ↔ ((1 ≤ c) × (c ≤ 24)))
      × (24 < c → translate_command_enum c ≡ err (unrecognized_command c))
      × (translate_command_enum 0 ≡ err (unrecognized_command 0))
unfolding translate_command_enum
translate_command_enum_total c = ground arith

ok_bound : (c : ℕ) (s : String) → translate_command_enum c ≡ ok s → c < 25
unfolding translate_command_enum
ok_bound c s h = ground arith

command_code-translate : (c : ℕ) (s : String) → translate_command_enum c ≡ ok s → command_code s ≡ c
unfolding result_code
command_code-translate c s h =
    sym (ap result_code h)
    ∙ (==_iff _ c).0 (
        all_below_sound 25 (λ k. result_code (translate_command_enum k) == k) c codes_table
          (ok_bound c s h))

-- Two commands never have the same name.
translate_command_enum_injective :
    (c d : ℕ) (s : String)
    → translate_command_enum c ≡ ok s
    → translate_command_enum d ≡ ok s
    → c ≡ d
translate_command_enum_injective c d s p q =
    sym (command_code-translate c s p) ∙ command_code-translate d s q
