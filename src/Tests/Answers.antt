-- ===== src/Tests/Answers.antt =====
-- The translation of responses in src/handler.rs and src/utils.rs on concrete responses.
use pgmoneta_mcp.Prelude.{◌≡◌, refl}
use pgmoneta_mcp.Bytes.{codes, eq_bytes}
use pgmoneta_mcp.Result.{ok}
use pgmoneta_mcp.Constant.Compression.{translate_compression_enum}
use pgmoneta_mcp.Handler.{
  Members, no_members, member, string, unsigned, array, no_values, object, put_member,
  translate_value, translate_result, contains_key, parse_and_check_result,
  generate_call_tool_result_string,
}
use pgmoneta_mcp.Handler.Keys.{
  keys, up_to_backups, keys-translate_result, Answered, generate-Answered,
}
use pgmoneta_mcp.Utility.{
  decimal, hex_string, format_file_size, digits, digit, hundredths, as_f64, round_half_even,
  unit_of, two_decimals,
}

-- An answer whose list of backups stands in front of the server's name.
abbrev listing : Members
listing =
    member (codes "Backups") (array no_values)
      (member (codes "Server") (string (codes "primary")) no_members)

abbrev listed : Members
listed = member (codes "Backups") (array no_values) no_members

listing_is : translate_result listing ≡ ok listed
unfolding translate_result put_member eq_bytes
listing_is = refl

keys-translate_result_example : keys listed ≡ up_to_backups (keys listing)
keys-translate_result_example = keys-translate_result listing listed listing_is

-- A response with a nested object.
abbrev response : Members
response = member (codes "Header") (object (member (codes "Compression") (unsigned 2) no_members)) (
    member (codes "Outcome") (object (member (codes "StartHiLSN") (unsigned 255) no_members))
      no_members)

answer_is :
    generate_call_tool_result_string (λ s. ok response) (λ m. ok (codes "{}")) (codes "{}")
    ≡ ok (codes "{}")
unfolding generate_call_tool_result_string parse_and_check_result contains_key translate_result
    put_member translate_value translate_compression_enum eq_bytes hex_string digits digit
answer_is = refl

generate-Answered_example :
    Answered (λ s. ok response) (λ m. ok (codes "{}")) (codes "{}") (codes "{}")
generate-Answered_example =
    generate-Answered (λ s. ok response) (λ m. ok (codes "{}")) (codes "{}") (codes "{}") answer_is

texts :
    (format_file_size 1000 ≡ codes "1000 B")
    × (format_file_size 1_048_575 ≡ codes "1024.00 KB")
    × (hex_string 48879 ≡ codes "0xBEEF")
unfolding format_file_size hundredths as_f64 round_half_even unit_of decimal digits digit
    two_decimals hex_string
texts = (refl, refl, refl)
