-- ===== src/Security/Kdf/Cached.antt =====
-- The cache of src/security.rs never changes what is derived.
use pgmoneta_mcp.Prelude.{ℕ, ◌≡◌, Option, none, some, arith, inl, inr, Option-cases}
use pgmoneta_mcp.Bytes.{Bytes, eq_bytes→eq}
use pgmoneta_mcp.Result.{Result, ok, map_err, step1_failed, step2_failed, ◌>>=◌, Result-cases}
use pgmoneta_mcp.Libraries.{Crypto}
use pgmoneta_mcp.World.{World, CachedMasterKey}
use pgmoneta_mcp.Security.Kdf.{
  master_pbkdf2_iterations, file_pbkdf2_iterations, cached_key, derive_and_store,
  get_or_derive_master_key, derive_key_two_step,
}

module _ (crypto : Crypto) where
  -- The first step with no cache.
  abbrev pub master_key_of : Bytes → Bytes → Result Bytes
  master_key_of p s = map_err step1_failed (crypto.pbkdf2 p s master_pbkdf2_iterations 64)

  -- Both steps with no cache.
  abbrev pub two_step : Bytes → Bytes → Bytes → ℕ → Result Bytes
  two_step p s file_salt key_len = master_key_of p s >>= λ key.
      map_err step2_failed (crypto.pbkdf2 key file_salt file_pbkdf2_iterations key_len)

  -- What the cache holds is what the first step derives.
  abbrev pub IsFaithful : Option CachedMasterKey → Type 0
  IsFaithful none = Unit
  IsFaithful (some e) = master_key_of e.password e.salt ≡ ok e.derived_key

  pub cached_key-IsFaithful :
      (cache : Option CachedMasterKey) (p s : Bytes) {key : Bytes}
      → IsFaithful cache
      → cached_key cache p s ≡ some key
      → master_key_of p s ≡ ok key
  unfolding cached_key
  cached_key-IsFaithful none p s f h = cc
  cached_key-IsFaithful (some e) p s f h =
      ground (arith, eq_bytes→eq e.password p, eq_bytes→eq e.salt s)

  derive_and_store_lem :
      (p s : Bytes) (w : World)
      → IsFaithful w.cache
      → (c : Option CachedMasterKey) × (derive_and_store crypto p s w
          ≡ (master_key_of p s, record w { cache = c }))
        × IsFaithful c
  unfolding derive_and_store
  derive_and_store_lem p s w f =
      elim (Result-cases (crypto.pbkdf2 p s master_pbkdf2_iterations 64)) [
        | inl (k, e) ↦ (some (record { password = p; salt = s; derived_key = k }), rw e, rw e)
        | inr (x, e) ↦ (w.cache, rw e, f)
      ]

  -- From a cache that holds only what was derived, the answer is the derived key or the error of
  -- the derivation, and of the world at most the cache changes, to one of that kind.
  pub get_or_derive_lem :
      (p s : Bytes) (w : World)
      → IsFaithful w.cache
      → (c : Option CachedMasterKey) × (get_or_derive_master_key crypto p s w
          ≡ (master_key_of p s, record w { cache = c }))
        × IsFaithful c
  unfolding get_or_derive_master_key
  get_or_derive_lem p s w f = elim (Option-cases (cached_key w.cache p s)) [
    | inl miss ↦ rw (miss, get_or_derive_master_key) (derive_and_store_lem p s w f)
    | inr (key, hit) ↦ (w.cache, ground (arith, cached_key-IsFaithful w.cache p s f hit), f)
  ]

  -- From a cache that holds only what was derived, both steps give what the two derivations give
  -- without a cache, and of the world at most the cache changes, to one of that kind.
  pub derive_key_two_step_lem :
      (p s file_salt : Bytes) (key_len : ℕ) (w : World)
      → IsFaithful w.cache
      → (c : Option CachedMasterKey) × (derive_key_two_step crypto p s file_salt key_len w
          ≡ (two_step p s file_salt key_len, record w { cache = c }))
        × IsFaithful c
  unfolding derive_key_two_step
  derive_key_two_step_lem p s file_salt key_len w f =
      let (c, e, f') = get_or_derive_lem p s w f in
      (c, rw e (ground (arith, Result-cases (master_key_of p s))), f')
