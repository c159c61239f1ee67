-- ===== src/Security/Fresh.antt =====
-- Where the salt and the nonce of a bundle come from (`encrypt_text_aes_gcm_bundle` of src/security.rs):
-- the front of the random bytes, which are gone afterwards.
use pgmoneta_mcp.Prelude.{
  ℕ, ◌+◌, ◌%◌, ◌≡◌, refl, sym, ap, ◌∙◌, ◌++◌, take, length, not, ◌==◌, inl, inr, Bool-cases,
  take-append-drop, take-append, length-append, append_assoc, arith,
}
use pgmoneta_mcp.Bytes.{Bytes}
use pgmoneta_mcp.Bytes.Text.{lines}
use pgmoneta_mcp.Result.{Result, ok, err}
use pgmoneta_mcp.Action.{Action, lift, continue, ◌>>=◌, ◌>>◌, >>=-eq-ok, continue-eq-ok}
use pgmoneta_mcp.Libraries.{Libraries}
use pgmoneta_mcp.World.{World, metadata_mode, set_permissions, read_to_string, try_fill_bytes}
use pgmoneta_mcp.Security.MasterKey.{
  KeyPair, SecurityUtil, key_path, restrict, parse_lines, load_master_key, salt_len, nonce_len,
}
use pgmoneta_mcp.Security.Kdf.Cached.{derive_key_two_step_lem, two_step}
use pgmoneta_mcp.Security.Gcm.{
  Sealed, layout, key_len_of, encrypt_text_aes_gcm, encrypt_text_aes_gcm_bundle,
}
use pgmoneta_mcp.Security.Evolves.{Evolving}
use pgmoneta_mcp.Security.Evolves.Actions.{Evolving-Closed}
use pgmoneta_mcp.Security.Closed.Actions.{load_master_key-Closed}
use pgmoneta_mcp.Security.Gcm.RoundTrip.{IsValid, try_fill_bytes_lem, seal, seal-eq-ok}

-- Actions that use no random bytes, also where they fail.
abbrev Spares : {A : Type 0} → Action World A → Type 0
Spares m = (w : World) → (m w).1.entropy ≡ w.entropy

continue-Spares :
    {A B : Type 0} (r : Result A) (f : A → Action World B)
    → ((a : A) → Spares (f a))
    → Spares (continue r f)
continue-Spares (ok a) f k w = k a w
continue-Spares (err e) f k w = refl

>>=-Spares :
    {A B : Type 0} (m : Action World A) (f : A → Action World B)
    → Spares m
    → ((a : A) → Spares (f a))
    → Spares (m >>= f)
>>=-Spares m f km kf w = let (r, u) = m w in continue-Spares r f kf u ∙ km w

metadata_mode-Spares : (p : Bytes) → Spares (metadata_mode p)
unfolding metadata_mode
metadata_mode-Spares p w = ground arith

set_permissions-Spares : (p : Bytes) (mode : ℕ) → Spares (set_permissions p mode)
unfolding set_permissions
set_permissions-Spares p mode w = ground arith

read_to_string-Spares : (p : Bytes) → Spares (read_to_string p)
unfolding read_to_string
read_to_string-Spares p w = ground arith

restrict-Spares : (k : Bytes) → Spares (restrict k)
unfolding restrict
restrict-Spares k = >>=-Spares (metadata_mode k) _ (metadata_mode-Spares k) λ mode.
    elim (Bool-cases (not ((mode % 0o1000) % 0o100 == 0))) [
      | inl e ↦ rw e (set_permissions-Spares k 0o600)
      | inr e ↦ rw e (λ w. refl)
    ]

load_from-Spares :
    (util : SecurityUtil) (k : Bytes)
    → Spares (
        restrict k
        >> (read_to_string k >>= λ content. lift (parse_lines util.base64_engine (lines content))))
load_from-Spares util k =
    >>=-Spares (restrict k) _ (restrict-Spares k)
      λ _. >>=-Spares (read_to_string k) _ (read_to_string-Spares k) λ content w. refl

load_master_key-Spares : (util : SecurityUtil) → Spares (load_master_key util)
unfolding load_master_key
load_master_key-Spares util = continue-Spares (key_path util) _ (load_from-Spares util)

-- The random bytes were used from the front: first the salt, then the nonce.
abbrev Drawn : Sealed → World → World → Type 0
Drawn c w w' =
    (w.entropy ≡ c.salt ++ (c.nonce_bytes ++ w'.entropy))
    × (length c.salt ≡ salt_len)
    × (length c.nonce_bytes ≡ nonce_len)

try_fill_bytes-front :
    (n : ℕ) (w u : World) (bytes : Bytes)
    → try_fill_bytes n w ≡ (ok bytes, u)
    → (w.entropy ≡ bytes ++ u.entropy) × (length bytes ≡ n) × (u.cache ≡ w.cache)
try_fill_bytes-front n w u bytes h =
    let (len, taken, same) = try_fill_bytes_lem n w u bytes h in
    (rw (taken, same) (sym (take-append-drop n w.entropy)), len, rw same)

two_draws :
    {start middle rest end : Bytes} {salt nonce s n : Bytes}
    → start ≡ salt ++ middle
    → middle ≡ nonce ++ rest
    → s ≡ salt
    → n ≡ nonce
    → end ≡ rest
    → start ≡ s ++ (n ++ end)
two_draws a b c d e = cc

module _ (l : Libraries) (util : SecurityUtil) where
  encrypt-Drawn :
      (plain p s : Bytes) (mode : ℕ) (w w' : World) (c : Sealed)
      → IsValid l.crypto w
      → encrypt_text_aes_gcm l.crypto plain p s mode w ≡ (ok c, w')
      → Drawn c w w'
  unfolding encrypt_text_aes_gcm
  encrypt-Drawn plain p s mode w w' c v h =
      let (n, has, h1) = continue-eq-ok (key_len_of mode) _ w h in
      let (salt, w1, e1, h2) = >>=-eq-ok (try_fill_bytes salt_len) _ w h1 in
      let (nonce, w2, e2, h3) = >>=-eq-ok (try_fill_bytes nonce_len) _ w1 h2 in
      let (front1, len1, c1) = try_fill_bytes-front salt_len w w1 salt e1 in
      let (front2, len2, c2) = try_fill_bytes-front nonce_len w1 w2 nonce e2 in
      let (cache, e, f') =
        derive_key_two_step_lem l.crypto p s salt n w2 (rw (c2, c1) v.faithful) in
      let h' = rw e at h3 in
      let (key, derived, rest) =
        continue-eq-ok (two_step l.crypto p s salt n) (seal l.crypto plain mode salt nonce)
          (record w2 { cache = cache }) h' in
      let (sealed, cn, cs, ws) = seal-eq-ok l.crypto plain mode salt nonce key _ w' c rest in
      (
        two_draws front1 front2 cs cn (ap (λ (u : World). u.entropy) ws),
        ap length cs ∙ len1,
        ap length cn ∙ len2,
      )

  bundle-Drawn :
      (plain bundle : Bytes) (mode : ℕ) (w w' : World)
      → IsValid l.crypto w
      → encrypt_text_aes_gcm_bundle l util plain mode w ≡ (ok bundle, w')
      → (c : Sealed) × (bundle ≡ layout c) × Drawn c w w'
  unfolding encrypt_text_aes_gcm_bundle
  bundle-Drawn plain bundle mode w w' v h =
      let (master, u, e, k) = >>=-eq-ok (load_master_key util) _ w h in
      let same : u.entropy ≡ w.entropy =
        sym (ap (λ (x : Result KeyPair × World). x.1.entropy) e) ∙ load_master_key-Spares util w in
      let vm =
        (load_master_key-Closed l util (λ A m. Evolving l.crypto util m)
          (Evolving-Closed l.crypto util) w v).valid in
      let vu : IsValid l.crypto u = rw e at vm in
      let (c, w1, sealed, done) =
        >>=-eq-ok (encrypt_text_aes_gcm l.crypto plain master.password master.salt mode) _ u k in
      let (front, len_salt, len_nonce) =
        encrypt-Drawn plain master.password master.salt mode u w1 c vu sealed in
      let left : w1.entropy ≡ w'.entropy = ap (λ (x : Result Bytes × World). x.1.entropy) done in
      let made : ok (layout c) ≡ ok bundle = ap (λ (x : Result Bytes × World). x.0) done in
      (
        c,
        ground (arith, made),
        (sym same ∙ front ∙ ap (λ x. c.salt ++ (c.nonce_bytes ++ x)) left, len_salt, len_nonce),
      )

  front_of_layout :
      (c : Sealed) (w w' : World)
      → Drawn c w w'
      → w.entropy ≡ take (salt_len + nonce_len) (layout c) ++ w'.entropy
  front_of_layout c w w' (front, len_salt, len_nonce) =
      let len : length (c.salt ++ c.nonce_bytes) ≡ salt_len + nonce_len =
        length-append c.salt c.nonce_bytes ∙ rw (len_salt, len_nonce) refl in
      let whole = sym (append_assoc c.salt c.nonce_bytes c.cipher_text) in
      rw
        (
          front,
          whole,
          take-append (salt_len + nonce_len) (c.salt ++ c.nonce_bytes) c.cipher_text len,
        )
        (sym (append_assoc c.salt c.nonce_bytes w'.entropy))

  -- A bundle starts with the random bytes that it took.
  pub encrypt_text_aes_gcm_bundle_lem :
      (plain bundle : Bytes) (mode : ℕ) (w w' : World)
      → IsValid l.crypto w
      → encrypt_text_aes_gcm_bundle l util plain mode w ≡ (ok bundle, w')
      → w.entropy ≡ take (salt_len + nonce_len) bundle ++ w'.entropy
  encrypt_text_aes_gcm_bundle_lem plain bundle mode w w' v h =
      let (c, is_layout, drawn) = bundle-Drawn plain bundle mode w w' v h in
      rw is_layout (front_of_layout c w w' drawn)
