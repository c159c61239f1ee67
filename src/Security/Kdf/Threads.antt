-- ===== src/Security/Kdf/Threads.antt =====
-- `get_or_derive_master_key` of src/security.rs run by several threads over the one cache behind its
-- mutex. A thread waits where the mutex is locked. Its first guard lives while it looks into the cache,
-- its second while it updates it; between them it derives with no guard.
pub mod Alone
pub mod Answers
pub mod Guards
pub mod Ends
use pgmoneta_mcp.Prelude.{
  ℕ, ◌+◌, ◌≤◌, ◌<◌, ◌≡◌, refl, Bool, true, false, not, Option, none, some, List, [], ◌∷◌, map, zero,
  suc, arith, inl, inr, Option-cases, ap, ◌∙◌,
}
use pgmoneta_mcp.Bytes.{Bytes}
use pgmoneta_mcp.Result.{Result, ok, err, map_err, step1_failed, Result-cases}
use pgmoneta_mcp.Libraries.{Crypto}
use pgmoneta_mcp.World.{World, CachedMasterKey}
use pgmoneta_mcp.Security.Kdf.{
  master_pbkdf2_iterations, cached_key, derive_and_store, get_or_derive_master_key,
}

-- Where a thread is in its call: in front of the first `lock`, looking under the first guard, behind a
-- miss with no guard, in front of the second `lock` with the key that it derived, updating under the
-- second guard, or back with its answer.
pub data Call : Type 0 where
  asking looking missed : Bytes → Bytes → Call
  storing updating : Bytes → Bytes → Bytes → Call
  finished : Bytes → Bytes → Result Bytes → Call

-- `MASTER_KEY_CACHE`: whether a guard of it lives, and what it guards.
pub record Mutex : Type 0 where
  pub locked : Bool
  pub cache : Option CachedMasterKey

pub record Process : Type 0 where
  pub threads : List Call
  pub mutex : Mutex

unfoldable pub is_finished : Call → Bool
is_finished (finished p s r) = true
is_finished (asking p s) = false
is_finished (looking p s) = false
is_finished (missed p s) = false
is_finished (storing p s k) = false
is_finished (updating p s k) = false

-- `lock` does not return while the mutex is locked.
unfoldable pub can_go : Call → Bool → Bool
can_go (asking p s) locked = not locked
can_go (looking p s) locked = true
can_go (missed p s) locked = true
can_go (storing p s k) locked = not locked
can_go (updating p s k) locked = true
can_go (finished p s r) locked = false

module _ (crypto : Crypto) where
  -- What a thread does in one step, and the mutex behind it.
  unfoldable pub advance : Call → Mutex → Call × Mutex
  advance (asking p s) mutex = (looking p s, record mutex { locked = true })
  advance (looking p s) mutex = elim (cached_key mutex.cache p s) [
    | some key ↦ (finished p s (ok key), record mutex { locked = false })
    | none ↦ (missed p s, record mutex { locked = false })
  ]
  advance (missed p s) mutex =
      elim (map_err step1_failed (crypto.pbkdf2 p s master_pbkdf2_iterations 64)) [
        | ok key ↦ (storing p s key, mutex)
        | err e ↦ (finished p s (err e), mutex)
      ]
  advance (storing p s key) mutex = (updating p s key, record mutex { locked = true })
  advance (updating p s key) mutex = (
    finished p s (ok key),
    record { locked = false; cache = some (record { password = p; salt = s; derived_key = key }) },
  )
  advance (finished p s r) mutex = (finished p s r, mutex)

  -- One of the threads that can go goes on.
  pub data Moves : List Call → Mutex → List Call → Mutex → Type 0 where
    here :
        (call : Call) (threads : List Call) (mutex : Mutex)
        → can_go call mutex.locked ≡ true
        → Moves (call ∷ threads) mutex ((advance call mutex).0 ∷ threads) (advance call mutex).1
    there :
        (call : Call) {threads threads' : List Call} {mutex mutex' : Mutex}
        → Moves threads mutex threads' mutex'
        → Moves (call ∷ threads) mutex (call ∷ threads') mutex'

  abbrev pub Step : Process → Process → Type 0
  Step a b = Moves a.threads a.mutex b.threads b.mutex

  pub data Steps (a : Process) : ℕ → Process → Type 0 where
    stay : Steps a 0 a
    next : {n : ℕ} {b c : Process} → Steps a n b → Step b c → Steps a (suc n) c
