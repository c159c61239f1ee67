-- ===== src/Security/Kdf/Threads/Alone.antt =====
-- A thread of src/security.rs with no other beside it does what the function does.
use pgmoneta_mcp.Prelude.{ℕ, ◌≡◌, refl, false, Option, zero, suc, arith, inl, inr, Option-cases}
use pgmoneta_mcp.Bytes.{Bytes}
use pgmoneta_mcp.Result.{Result-cases}
use pgmoneta_mcp.Libraries.{Crypto}
use pgmoneta_mcp.World.{World, CachedMasterKey}
use pgmoneta_mcp.Security.Kdf.{
  master_pbkdf2_iterations, cached_key, derive_and_store, get_or_derive_master_key,
}
use pgmoneta_mcp.Security.Kdf.Threads.{Call, asking, missed, finished, Mutex, advance}

module _ (crypto : Crypto) where
  unfoldable run_alone : ℕ → Call → Mutex → Call × Mutex
  run_alone zero call mutex = (call, mutex)
  run_alone (suc n) call mutex =
      let (call', mutex') = advance crypto call mutex in run_alone n call' mutex'

  abbrev free : Option CachedMasterKey → Mutex
  free cache = record { locked = false; cache = cache }

  derive_alone :
      (p s : Bytes) (w : World)
      → let (r, w') = derive_and_store crypto p s w in
        run_alone 3 (missed p s) (free w.cache) ≡ (finished p s r, free w'.cache)
  unfolding run_alone advance derive_and_store
  derive_alone p s w = ground (arith, Result-cases (crypto.pbkdf2 p s master_pbkdf2_iterations 64))

  -- A thread with no other beside it answers in five steps what the function answers, and leaves the
  -- cache that the function leaves.
  run_alone_lem :
      (p s : Bytes) (w : World)
      → let (r, w') = get_or_derive_master_key crypto p s w in
        run_alone 5 (asking p s) (free w.cache) ≡ (finished p s r, free w'.cache)
  unfolding run_alone advance get_or_derive_master_key
  run_alone_lem p s w = elim (Option-cases (cached_key w.cache p s)) [
    | inl miss ↦ rw (run_alone, advance, miss, get_or_derive_master_key) (derive_alone p s w)
    | inr (key, hit) ↦ rw (run_alone, advance, hit, get_or_derive_master_key) refl
  ]
