-- ===== src/Security/Kdf/Threads/Ends.antt =====
-- All threads of src/security.rs come to their answers.
use pgmoneta_mcp.Prelude.{
  ℕ, ◌+◌, ◌*◌, ◌≤◌, ◌≡◌, ◌⊎◌, refl, Bool, true, false, Option, List, [], ◌∷◌, map, length, All,
  zero, suc, arith, inl, inr, Option-cases, ap, ◌∙◌,
}
use pgmoneta_mcp.Bytes.{Bytes}
use pgmoneta_mcp.Result.{Result-cases}
use pgmoneta_mcp.Libraries.{Crypto}
use pgmoneta_mcp.World.{CachedMasterKey}
use pgmoneta_mcp.Security.Kdf.{master_pbkdf2_iterations, cached_key}
use pgmoneta_mcp.Security.Kdf.Cached.{IsFaithful, master_key_of}
use pgmoneta_mcp.Security.Kdf.Threads.{
  Call, asking, looking, missed, storing, updating, finished, Mutex, Process, is_finished, can_go,
  advance, Moves, here, there, Step, Steps, stay, next,
}
use pgmoneta_mcp.Security.Kdf.Threads.Guards.{
  all_guards, guards_of, AllFinished, Steps-guards, goes_on,
}
use pgmoneta_mcp.Security.Kdf.Threads.Answers.{
  request_of, start_call, start, IsRight, Steps-IsSound,
}

-- The steps that a call has left at most.
abbrev left : Call → ℕ
left (asking p s) = 5
left (looking p s) = 4
left (missed p s) = 3
left (storing p s k) = 2
left (updating p s k) = 1
left (finished p s r) = 0

abbrev all_left : List Call → ℕ
all_left [] = 0
all_left (c ∷ cs) = left c + all_left cs

module _ (crypto : Crypto) where
  advance-left :
      (c : Call) (m : Mutex) → can_go c m.locked ≡ true → suc (left (advance crypto c m).0) ≤ left c
  unfolding advance can_go
  advance-left (asking p s) m h = omega arith
  advance-left (looking p s) m h = elim (Option-cases (cached_key m.cache p s)) [
    | inl miss ↦ rw (miss, advance) (omega arith)
    | inr (key, hit) ↦ rw (hit, advance) (omega arith)
  ]
  advance-left (missed p s) m h =
      elim (Result-cases (crypto.pbkdf2 p s master_pbkdf2_iterations 64)) [
        | inl (k, e) ↦ rw (e, advance) (omega arith)
        | inr (x, e) ↦ rw (e, advance) (omega arith)
      ]
  advance-left (storing p s k) m h = omega arith
  advance-left (updating p s k) m h = omega arith
  advance-left (finished p s r) m h = cc

  Moves-all_left :
      {cs cs' : List Call} {m m' : Mutex}
      → Moves crypto cs m cs' m'
      → suc (all_left cs') ≤ all_left cs
  Moves-all_left (here c cs m u) = omega (arith, advance-left c m u)
  Moves-all_left (there c move) = omega (arith, Moves-all_left move)

  start-left :
      (requests : List (Bytes × Bytes)) → all_left (map start_call requests) ≡ 5 * length requests
  start-left [] = refl
  start-left ((p, s) ∷ requests) = omega (arith, start-left requests)

  -- A finished call with the answer of the derivation.
  abbrev pub answered : Bytes × Bytes → Call
  answered (p, s) = finished p s (master_key_of crypto p s)

  all-answered :
      (cs : List Call)
      → All (IsRight crypto) cs
      → AllFinished crypto cs
      → cs ≡ map answered (map request_of cs)
  unfolding is_finished AllFinished
  all-answered [] h d = refl
  all-answered (finished p s r ∷ cs) (h, hs) (d, ds) =
      rw h (ap (λ x. finished p s (master_key_of crypto p s) ∷ x) (all-answered cs hs ds))
  all-answered (asking p s ∷ cs) h (d, ds) = cc
  all-answered (looking p s ∷ cs) h (d, ds) = cc
  all-answered (missed p s ∷ cs) h (d, ds) = cc
  all-answered (storing p s k ∷ cs) h (d, ds) = cc
  all-answered (updating p s k ∷ cs) h (d, ds) = cc

  at_most_one : (locked : Bool) (n : ℕ) → n ≡ guards_of locked → n ≤ 1
  at_most_one true n h = omega (arith, h)
  at_most_one false n h = omega (arith, h)

  -- Wherever a run of threads that started with a free mutex over a cache of derived keys is, at most one
  -- guard lives, and some thread can go on, although it may not lock a mutex that is locked, or every
  -- thread is finished with the answer of its own derivation.
  pub Steps-progress :
      (requests : List (Bytes × Bytes)) (cache : Option CachedMasterKey) (n : ℕ) (t : Process)
      → IsFaithful crypto cache
      → Steps crypto (start requests cache) n t
      → (all_guards t.threads ≤ 1)
        × (((u : Process) × Step crypto t u) ⊎ (t.threads ≡ map answered requests))
  Steps-progress requests cache n t f steps =
      let ((f', h), e) = Steps-IsSound crypto requests cache n t f steps in
      let held = Steps-guards crypto requests cache n t steps in
      (
        at_most_one t.mutex.locked (all_guards t.threads) held,
        elim (goes_on crypto t.threads t.mutex held) [
          | inl (cs, m, move) ↦ inl (record { threads = cs; mutex = m }, move)
          | inr all ↦ inr (all-answered t.threads h all ∙ ap (map answered) e)
        ],
      )

  Steps-left :
      (requests : List (Bytes × Bytes)) (cache : Option CachedMasterKey) (n : ℕ) (t : Process)
      → Steps crypto (start requests cache) n t
      → n + all_left t.threads ≤ 5 * length requests
  Steps-left requests cache n t stay = omega (arith, start-left requests)
  Steps-left requests cache n t (next {n = m} {b = b} steps step) =
      omega (arith, Steps-left requests cache m b steps, Moves-all_left step)

  in_front :
      {a b c : Process} {n : ℕ} → Step crypto a b → Steps crypto b n c → Steps crypto a (suc n) c
  in_front step stay = next stay step
  in_front step (next steps last) = next (in_front step steps) last

  -- More steps end in the answers.
  abbrev pub Finishes : List (Bytes × Bytes) → ℕ → Process → Type 0
  Finishes requests n t =
      (m : ℕ) × (u : Process) × Steps crypto t m u
      × (u.threads ≡ map answered requests)
      × (n + m ≤ 5 * length requests)

  finish :
      (fuel : ℕ) (requests : List (Bytes × Bytes)) (cache : Option CachedMasterKey) (n : ℕ)
      (t : Process)
      → IsFaithful crypto cache
      → all_left t.threads ≤ fuel
      → Steps crypto (start requests cache) n t
      → Finishes requests n t
  finish zero requests cache n t f enough steps =
      elim (Steps-progress requests cache n t f steps).1 [
        | inr done ↦ (0, t, stay, done, omega (arith, Steps-left requests cache n t steps))
        | inl (u, step) ↦ absurd (omega (arith, Moves-all_left step, enough))
      ]
  finish (suc fuel) requests cache n t f enough steps =
      elim (Steps-progress requests cache n t f steps).1 [
        | inr done ↦ (0, t, stay, done, omega (arith, Steps-left requests cache n t steps))
        | inl (u, step) ↦
            let (m, v, after, done, bound) =
              finish fuel requests cache (suc n) u f (omega (arith, Moves-all_left step, enough))
                (next steps step) in
            (suc m, v, in_front step after, done, omega (arith, bound))
      ]

  -- Wherever a run of threads that started with a free mutex over a cache of derived keys is, further
  -- steps bring every thread to the answer of its own derivation, with five steps per thread in total at
  -- most.
  pub Steps-Finishes :
      (requests : List (Bytes × Bytes)) (cache : Option CachedMasterKey) (n : ℕ) (t : Process)
      → IsFaithful crypto cache
      → Steps crypto (start requests cache) n t
      → Finishes requests n t
  Steps-Finishes requests cache n t f steps =
      finish (all_left t.threads) requests cache n t f (omega arith) steps
