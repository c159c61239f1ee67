-- ===== src/Security/Blind.antt =====
-- The key cache of src/security.rs is invisible: no step gives another result, or leaves other files or
-- random bytes, because of what the cache holds.
use pgmoneta_mcp.Prelude.{ℕ, ◌≡◌, refl, Option, arith}
use pgmoneta_mcp.Bytes.{Bytes}
use pgmoneta_mcp.Result.{Result, ok, err, Error}
use pgmoneta_mcp.Action.{Action, lift, continue, map_action_err, ◌>>=◌}
use pgmoneta_mcp.Libraries.{Crypto}
use pgmoneta_mcp.World.{
  World, CachedMasterKey, metadata_mode, set_permissions, read_to_string, try_fill_bytes,
}
use pgmoneta_mcp.Security.MasterKey.{SecurityUtil}
use pgmoneta_mcp.Security.Kdf.{derive_key_two_step}
use pgmoneta_mcp.Security.Kdf.Cached.{IsFaithful, derive_key_two_step_lem}
use pgmoneta_mcp.Security.Closed.{Closed}

module _ (crypto : Crypto) where
  -- The second outcome differs from the first in the cache alone, and both caches are faithful.
  abbrev pub SameButCache : {A : Type 0} → Result A × World → Result A × World → Type 0
  SameButCache (r, w) y =
      (c : Option CachedMasterKey) × (y ≡ (r, record w { cache = c }))
      × IsFaithful crypto w.cache
      × IsFaithful crypto c

  -- From worlds with faithful caches that differ in the cache alone.
  abbrev pub Blind : {A : Type 0} → Action World A → Type 0
  Blind m =
      (w : World) (c : Option CachedMasterKey)
      → IsFaithful crypto w.cache
      → IsFaithful crypto c
      → SameButCache (m w) (m (record w { cache = c }))

  lift-Blind : {A : Type 0} (r : Result A) → Blind (lift r)
  lift-Blind r w c fw fc = (c, refl, fw, fc)

  continue-Blind :
      {A B : Type 0} (r : Result A) (f : A → Action World B)
      → ((a : A) → Blind (f a))
      → Blind (continue r f)
  continue-Blind (ok a) f k = k a
  continue-Blind (err e) f k = lift-Blind (err e)

  >>=-Blind :
      {A B : Type 0} (m : Action World A) (f : A → Action World B)
      → Blind m
      → ((a : A) → Blind (f a))
      → Blind (m >>= f)
  >>=-Blind m f km kf w c fw fc =
      let (c', e, fu, fc') = km w c fw fc in rw e (continue-Blind (m w).0 f kf (m w).1 c' fu fc')

  map_action_err-Blind :
      {A : Type 0} (f : Error → Error) (m : Action World A) → Blind m → Blind (map_action_err f m)
  map_action_err-Blind f m k w c fw fc =
      let (c', e, fu, fc') = k w c fw fc in (c', rw e refl, fu, fc')

  -- A step that leaves the cache alone and does not look at it.
  uncached-Blind :
      {A : Type 0} (m : Action World A)
      → ((w : World) → (m w).1.cache ≡ w.cache)
      → ((w : World) (c : Option CachedMasterKey)
          → m (record w { cache = c }) ≡ ((m w).0, record (m w).1 { cache = c }))
      → Blind m
  uncached-Blind m leaves ignores w c fw fc = (c, ignores w c, rw (leaves w) fw, fc)

  metadata_mode-Blind : (path : Bytes) → Blind (metadata_mode path)
  unfolding metadata_mode
  metadata_mode-Blind path =
      uncached-Blind (metadata_mode path) (λ w. ground arith) (λ w c. ground arith)

  set_permissions-Blind : (path : Bytes) (mode : ℕ) → Blind (set_permissions path mode)
  unfolding set_permissions
  set_permissions-Blind path mode =
      uncached-Blind (set_permissions path mode) (λ w. ground arith) (λ w c. ground arith)

  read_to_string-Blind : (path : Bytes) → Blind (read_to_string path)
  unfolding read_to_string
  read_to_string-Blind path =
      uncached-Blind (read_to_string path) (λ w. ground arith) (λ w c. ground arith)

  try_fill_bytes-Blind : (n : ℕ) → Blind (try_fill_bytes n)
  unfolding try_fill_bytes
  try_fill_bytes-Blind n =
      uncached-Blind (try_fill_bytes n) (λ w. ground arith) (λ w c. ground arith)

  derive_key_two_step-Blind :
      (p s salt : Bytes) (n : ℕ) → Blind (derive_key_two_step crypto p s salt n)
  derive_key_two_step-Blind p s salt n w c fw fc =
      let (c1, e1, f1) = derive_key_two_step_lem crypto p s salt n w fw in
      let (c2, e2, f2) = derive_key_two_step_lem crypto p s salt n (record w { cache = c }) fc in
      rw (e1, e2) (c2, refl, f1, f2)

  pub Blind-Closed : (util : SecurityUtil) → Closed crypto util (λ A m. Blind m)
  Blind-Closed util = record {
    lifted = lift-Blind;
    chained = >>=-Blind;
    renamed = map_action_err-Blind;
    permissions_read = metadata_mode-Blind;
    key_restricted = λ key is_key. set_permissions-Blind key 0o600;
    file_read = read_to_string-Blind;
    drawn = try_fill_bytes-Blind;
    derived = derive_key_two_step-Blind;
  }
