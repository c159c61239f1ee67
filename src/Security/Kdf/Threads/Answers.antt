-- ===== src/Security/Kdf/Threads/Answers.antt =====
-- However the threads of src/security.rs interleave over the cache, each is answered what the derivation
-- alone gives.
use pgmoneta_mcp.Prelude.{
  ℕ, ◌≡◌, refl, sym, false, Option, List, [], ◌∷◌, map, All, inl, inr, Option-cases, ap, ◌∙◌,
}
use pgmoneta_mcp.Bytes.{Bytes}
use pgmoneta_mcp.Result.{ok, map_err, step1_failed, Result-cases}
use pgmoneta_mcp.Libraries.{Crypto}
use pgmoneta_mcp.World.{CachedMasterKey}
use pgmoneta_mcp.Security.Kdf.{master_pbkdf2_iterations, cached_key}
use pgmoneta_mcp.Security.Kdf.Cached.{IsFaithful, master_key_of, cached_key-IsFaithful}
use pgmoneta_mcp.Security.Kdf.Threads.{
  Call, asking, looking, missed, storing, updating, finished, Mutex, Process, advance, Moves, here,
  there, Steps, stay, next,
}

-- The password and the salt of a call.
abbrev pub request_of : Call → Bytes × Bytes
request_of (asking p s) = (p, s)
request_of (looking p s) = (p, s)
request_of (missed p s) = (p, s)
request_of (storing p s k) = (p, s)
request_of (updating p s k) = (p, s)
request_of (finished p s r) = (p, s)

abbrev pub start_call : Bytes × Bytes → Call
start_call (p, s) = asking p s

-- Threads that all start together.
abbrev pub start : List (Bytes × Bytes) → Option CachedMasterKey → Process
start requests cache = record {
  threads = map start_call requests;
  mutex = record { locked = false; cache = cache };
}

module _ (crypto : Crypto) where
  -- What is known of a call: a key that waits for the lock is the derived one, and so is an answer.
  abbrev pub IsRight : Call → Type 0
  IsRight (asking p s) = Unit
  IsRight (looking p s) = Unit
  IsRight (missed p s) = Unit
  IsRight (storing p s k) = master_key_of crypto p s ≡ ok k
  IsRight (updating p s k) = master_key_of crypto p s ≡ ok k
  IsRight (finished p s r) = r ≡ master_key_of crypto p s

  abbrev pub IsSound : Process → Type 0
  IsSound t = IsFaithful crypto t.mutex.cache × All IsRight t.threads

  advance-IsRight :
      (c : Call) (m : Mutex)
      → IsFaithful crypto m.cache
      → IsRight c
      → let (c', m') = advance crypto c m in
        IsFaithful crypto m'.cache × IsRight c' × (request_of c' ≡ request_of c)
  unfolding advance
  advance-IsRight (asking p s) m f h = (f, tt, refl)
  advance-IsRight (looking p s) m f h = elim (Option-cases (cached_key m.cache p s)) [
    | inl miss ↦ rw (miss, advance) (f, tt, refl)
    | inr (key, hit) ↦
        rw (hit, advance) (f, sym (cached_key-IsFaithful crypto m.cache p s f hit), refl)
  ]
  advance-IsRight (missed p s) m f h =
      elim (Result-cases (crypto.pbkdf2 p s master_pbkdf2_iterations 64)) [
        | inl (k, e) ↦ rw (e, advance) (f, ap (map_err step1_failed) e, refl)
        | inr (x, e) ↦ rw (e, advance) (f, sym (ap (map_err step1_failed) e), refl)
      ]
  advance-IsRight (storing p s k) m f h = (f, h, refl)
  advance-IsRight (updating p s k) m f h = (h, sym h, refl)
  advance-IsRight (finished p s r) m f h = (f, h, refl)

  Moves-IsRight :
      {cs cs' : List Call} {m m' : Mutex}
      → Moves crypto cs m cs' m'
      → IsFaithful crypto m.cache
      → All IsRight cs
      → IsFaithful crypto m'.cache × All IsRight cs' × (map request_of cs' ≡ map request_of cs)
  Moves-IsRight (here c cs m u) f (h, hs) =
      let (f', h', e) = advance-IsRight c m f h in (f', (h', hs), ap (λ r. r ∷ map request_of cs) e)
  Moves-IsRight (there c move) f (h, hs) =
      let (f', hs', e) = Moves-IsRight move f hs in (f', (h, hs'), ap (λ rs. request_of c ∷ rs) e)

  start-request :
      (requests : List (Bytes × Bytes)) → map request_of (map start_call requests) ≡ requests
  start-request [] = refl
  start-request ((p, s) ∷ requests) = ap (λ rs. (p, s) ∷ rs) (start-request requests)

  start-IsRight : (requests : List (Bytes × Bytes)) → All IsRight (map start_call requests)
  start-IsRight [] = tt
  start-IsRight ((p, s) ∷ requests) = (tt, start-IsRight requests)

  -- After any steps of threads that started with a cache of derived keys, the cache holds only what
  -- was derived, a thread that is answered has what the derivation gives, or its error, and one that
  -- waits to store a key has the derived one; no thread has lost its password or its salt.
  pub Steps-IsSound :
      (requests : List (Bytes × Bytes)) (cache : Option CachedMasterKey) (n : ℕ) (t : Process)
      → IsFaithful crypto cache
      → Steps crypto (start requests cache) n t
      → IsSound t × (map request_of t.threads ≡ requests)
  Steps-IsSound requests cache n t f stay = ((f, start-IsRight requests), start-request requests)
  Steps-IsSound requests cache n t f (next {n = m} {b = b} steps step) =
      let ((f', h), e) = Steps-IsSound requests cache m b f steps in
      let (f'', h', e') = Moves-IsRight step f' h in ((f'', h'), e' ∙ e)
