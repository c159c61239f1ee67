-- ===== src/Security/Evolves/Actions.antt =====
-- The steps of src/security.rs in the world, one by one.
use pgmoneta_mcp.Prelude.{
  ℕ, ◌≡◌, refl, sym, Option, none, some, take, length, ltb, arith, All-drop, inl, inr, Bool-cases,
  take-append-drop, [],
}
use pgmoneta_mcp.Bytes.{Bytes, IsByte, eq_bytes, eq_bytes→eq}
use pgmoneta_mcp.Result.{ok}
use pgmoneta_mcp.Action.{Action}
use pgmoneta_mcp.Libraries.{Crypto}
use pgmoneta_mcp.World.{
  World, Node, file, directory, put_file, metadata_mode, set_permissions, read_to_string,
  try_fill_bytes,
}
use pgmoneta_mcp.Security.MasterKey.{SecurityUtil, key_path}
use pgmoneta_mcp.Security.Kdf.{derive_key_two_step}
use pgmoneta_mcp.Security.Kdf.Cached.{derive_key_two_step_lem}
use pgmoneta_mcp.Security.Closed.{Closed}
use pgmoneta_mcp.Security.Gcm.RoundTrip.{IsValid}
use pgmoneta_mcp.Security.Evolves.{
  content_of, IsPrivate, Evolves, Evolves-refl, Evolving, lift-Evolving, >>=-Evolving,
  map_action_err-Evolving,
}

module _ (crypto : Crypto) (util : SecurityUtil) where
  -- An action that only looks.
  same-Evolving :
      {A : Type 0} (m : Action World A) → ((w : World) → (m w).1 ≡ w) → Evolving crypto util m
  same-Evolving m same w v = rw (same w) (Evolves-refl crypto util w v)

  metadata_mode-Evolving : (p : Bytes) → Evolving crypto util (metadata_mode p)
  unfolding metadata_mode
  metadata_mode-Evolving p = same-Evolving (metadata_mode p) (λ w. ground arith)

  read_to_string-Evolving : (p : Bytes) → Evolving crypto util (read_to_string p)
  unfolding read_to_string
  read_to_string-Evolving p = same-Evolving (read_to_string p) (λ w. ground arith)

  try_fill_bytes-Evolving : (n : ℕ) → Evolving crypto util (try_fill_bytes n)
  unfolding try_fill_bytes
  try_fill_bytes-Evolving n w v = elim (Bool-cases (ltb (length w.entropy) n)) [
    | inl e ↦ rw e (Evolves-refl crypto util w v)
    | inr e ↦ rw e (record {
      used = take n w.entropy;
      drawn = sym (take-append-drop n w.entropy);
      kept = λ p other. refl;
      contents = λ p. refl;
      stays_private = λ p h. h;
      valid = record { faithful = v.faithful; bytes = All-drop IsByte n w.entropy v.bytes };
    })
  ]

  derive_key_two_step-Evolving :
      (p s salt : Bytes) (n : ℕ) → Evolving crypto util (derive_key_two_step crypto p s salt n)
  derive_key_two_step-Evolving p s salt n w v =
      let (c, e, f) = derive_key_two_step_lem crypto p s salt n w v.faithful in
      rw e (record {
        used = [];
        drawn = refl;
        kept = λ q other. refl;
        contents = λ q. refl;
        stays_private = λ q h. h;
        valid = record { faithful = f; bytes = v.bytes };
      })

  put_file-Evolves :
      (k : Bytes) (old new : Node) (w : World)
      → key_path util ≡ ok k
      → IsValid crypto w
      → w.files k ≡ some old
      → content_of (some new) ≡ content_of (some old)
      → IsPrivate (some new)
      → Evolves crypto util w (put_file k new w)
  put_file-Evolves k old new w key v found same private = record {
    used = [];
    drawn = refl;
    kept = λ p other. rw (other k key) refl;
    contents = λ p. elim (Bool-cases (eq_bytes p k)) [
      | inl e ↦ rw (e, eq_bytes→eq p k e, found) same
      | inr e ↦ rw e refl
    ];
    stays_private =
        λ p h. elim (Bool-cases (eq_bytes p k)) [ inl e ↦ rw e private | inr e ↦ rw e h ];
    valid = record { faithful = v.faithful; bytes = v.bytes };
  }

  -- The permissions of the key file are taken from everyone else.
  set_permissions-Evolving :
      (k : Bytes) → key_path util ≡ ok k → Evolving crypto util (set_permissions k 0o600)
  unfolding set_permissions
  set_permissions-Evolving k key w v = by_node (w.files k) refl
    where
      by_node :
          (n : Option Node) → w.files k ≡ n → Evolves crypto util w (set_permissions k 0o600 w).1
      by_node none e = rw (set_permissions, e) (Evolves-refl crypto util w v)
      by_node (some (file content mode)) e =
          rw (set_permissions, e)
            (put_file-Evolves k (file content mode) (file content 0o600) w key v e refl refl)
      by_node (some (directory mode)) e =
          rw (set_permissions, e)
            (put_file-Evolves k (directory mode) (directory 0o600) w key v e refl refl)

  pub Evolving-Closed : Closed crypto util (λ A m. Evolving crypto util m)
  Evolving-Closed = record {
    lifted = lift-Evolving crypto util;
    chained = >>=-Evolving crypto util;
    renamed = map_action_err-Evolving crypto util;
    permissions_read = metadata_mode-Evolving;
    key_restricted = set_permissions-Evolving;
    file_read = read_to_string-Evolving;
    drawn = try_fill_bytes-Evolving;
    derived = derive_key_two_step-Evolving;
  }
