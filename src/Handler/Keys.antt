-- ===== src/Handler/Keys.antt =====
-- Which members of a response survive its translation in src/handler.rs.
use pgmoneta_mcp.Prelude.{
  ◌≡◌, refl, sym, ap, ◌∙◌, Bool, true, false, ◌||◌, List, [], ◌∷◌, any, if◌then◌else◌, arith,
}
use pgmoneta_mcp.Bytes.{Bytes, codes, eq_bytes}
use pgmoneta_mcp.Result.{
  Result, ok, err, Error, map_err, ◌>>=◌, >>=-eq-ok, parse_failed, translate_failed,
  serialize_failed, outcome_missing,
}
use pgmoneta_mcp.Constant.{management_category_outcome}
use pgmoneta_mcp.Handler.{
  Value, Members, no_members, member, is_key, put_member, translate_value, translate_array,
  translate_nested, translate_result, contains_key, parse_and_check_result,
  generate_call_tool_result_string,
}

abbrev pub keys : Members → List Bytes
keys no_members = []
keys (member key v rest) = key ∷ keys rest

-- The keys up to and with the first "Backups".
abbrev pub up_to_backups : List Bytes → List Bytes
up_to_backups [] = []
up_to_backups (k ∷ ks) = k ∷ (if is_key k "Backups" then [] else up_to_backups ks)

ok_is : {a b : Members} → ok a ≡ ok b → a ≡ b
ok_is e = cc

keys_outcome :
    (stop : Bool) (key : Bytes) (backups translated : Result Value) (rest : Result Members)
    (ks : List Bytes) (m : Members)
    → ((r : Members) → rest ≡ ok r → keys r ≡ ks)
    → (if stop
        then (backups >>= λ v. ok (member key v no_members))
        else (translated >>= λ v. rest >>= λ r. ok (member key v r)))
      ≡ ok m
    → keys m ≡ key ∷ (if stop then [] else ks)
keys_outcome true key backups translated rest ks m tail h =
    let (v, _, same) = >>=-eq-ok backups _ h in ap keys (sym (ok_is same))
keys_outcome false key backups translated rest ks m tail h =
    let (v, _, h1) = >>=-eq-ok translated _ h in
    let (r, found, same) = >>=-eq-ok rest _ h1 in
    ap keys (sym (ok_is same)) ∙ ap (λ x. key ∷ x) (tail r found)

-- A translated response has the keys of the response in their order, but none behind the key
-- "Backups": whatever comes later in the response is lost.
pub keys-translate_result :
    (m m' : Members) → translate_result m ≡ ok m' → keys m' ≡ up_to_backups (keys m)
unfolding translate_result put_member
keys-translate_result no_members m' h = ap keys (ok_is (sym h))
keys-translate_result (member key v rest) m' h =
    keys_outcome (is_key key "Backups") key (translate_array v)
      (translate_value key v (translate_nested v)) (translate_result rest)
      (up_to_backups (keys rest)) m' (keys-translate_result rest) h

has_key : List Bytes → Bytes → Bool
has_key ks name = any (λ k. eq_bytes k name) ks

contains_key_lem : (m : Members) (name : Bytes) → contains_key m name ≡ has_key (keys m) name
unfolding contains_key has_key
contains_key_lem no_members name = refl
contains_key_lem (member key v rest) name =
    ap (λ b. eq_bytes key name || b) (contains_key_lem rest name)

all_kept : (ks : List Bytes) → has_key ks (codes "Backups") ≡ false → up_to_backups ks ≡ ks
unfolding has_key
all_kept [] h = refl
all_kept (k ∷ ks) h = ground (arith, all_kept ks)

map_err-eq-ok :
    {A : Type 0} (f : Error → Error) (r : Result A) {a : A} → map_err f r ≡ ok a → r ≡ ok a
map_err-eq-ok f (ok x) h = h
map_err-eq-ok f (err e) h = cc

checked_outcome :
    (found : Bool) (response m : Members)
    → (if found then ok response else err outcome_missing) ≡ ok m
    → (found ≡ true) × (response ≡ m)
checked_outcome true response m h = (refl, cc)
checked_outcome false response m h = cc

-- The steps of a text that is returned, and the outcome that it shows.
pub record Answered (from_str : Bytes → Result Members) (to_string : Members → Result Bytes)
    (result text : Bytes) : Type 0 where
  pub response : Members
  pub shown : Members
  pub parsed : from_str result ≡ ok response
  pub has_outcome : contains_key response (codes management_category_outcome) ≡ true
  pub translated : translate_result response ≡ ok shown
  pub printed : to_string shown ≡ ok text
  pub keeps_outcome :
      contains_key response (codes "Backups") ≡ false
      → contains_key shown (codes management_category_outcome) ≡ true

keeps :
    (response shown : Members) (name : Bytes)
    → translate_result response ≡ ok shown
    → contains_key response name ≡ true
    → contains_key response (codes "Backups") ≡ false
    → contains_key shown name ≡ true
keeps response shown name t found h =
    contains_key_lem shown name
    ∙ ap (λ ks. has_key ks name)
        (keys-translate_result response shown t
          ∙ all_kept (keys response) (sym (contains_key_lem response (codes "Backups")) ∙ h))
    ∙ sym (contains_key_lem response name)
    ∙ found

-- A text is returned only for a response that parses and has an outcome: it is the print of the
-- translated response, and unless the response has a key "Backups" of its own, that has the outcome.
pub generate-Answered :
    (from_str : Bytes → Result Members) (to_string : Members → Result Bytes) (result text : Bytes)
    → generate_call_tool_result_string from_str to_string result ≡ ok text
    → Answered from_str to_string result text
unfolding generate_call_tool_result_string parse_and_check_result
generate-Answered from_str to_string result text h =
    let (response, checked, h1) = >>=-eq-ok (parse_and_check_result from_str result) _ h in
    let (m, parsed, tested) = >>=-eq-ok (map_err parse_failed (from_str result)) _ checked in
    let (found, same) =
      checked_outcome (contains_key m (codes management_category_outcome)) m response tested in
    let (shown, translated, printed) =
      >>=-eq-ok (map_err translate_failed (translate_result response)) _ h1 in
    let t = map_err-eq-ok translate_failed (translate_result response) translated in
    let f : contains_key response (codes management_category_outcome) ≡ true =
      ap (λ x. contains_key x (codes management_category_outcome)) (sym same) ∙ found in
    record {
      response = response;
      shown = shown;
      parsed = map_err-eq-ok parse_failed (from_str result) parsed ∙ ap ok same;
      has_outcome = f;
      translated = t;
      printed = map_err-eq-ok serialize_failed (to_string shown) printed;
      keeps_outcome = keeps response shown (codes management_category_outcome) t f;
    }
