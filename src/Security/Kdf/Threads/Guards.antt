-- ===== src/Security/Kdf/Threads/Guards.antt =====
-- One guard of the mutex of src/security.rs lives at most, and its threads never block each other for good.
use pgmoneta_mcp.Prelude.{
  ℕ, ◌+◌, ◌≤◌, ◌≡◌, ◌⊎◌, refl, Bool, true, false, Option, List, [], ◌∷◌, map, All, arith, inl, inr,
  Option-cases, Bool-cases,
}
use pgmoneta_mcp.Bytes.{Bytes}
use pgmoneta_mcp.Result.{Result-cases}
use pgmoneta_mcp.Libraries.{Crypto}
use pgmoneta_mcp.World.{CachedMasterKey}
use pgmoneta_mcp.Security.Kdf.{master_pbkdf2_iterations, cached_key}
use pgmoneta_mcp.Security.Kdf.Threads.{
  Call, asking, looking, missed, storing, updating, finished, Mutex, Process, is_finished, can_go,
  advance, Moves, here, there, Steps, stay, next,
}
use pgmoneta_mcp.Security.Kdf.Threads.Answers.{start_call, start}

-- Whether a guard of the mutex lives in the call.
abbrev pub guards : Call → ℕ
guards (asking p s) = 0
guards (looking p s) = 1
guards (missed p s) = 0
guards (storing p s k) = 0
guards (updating p s k) = 1
guards (finished p s r) = 0

abbrev pub all_guards : List Call → ℕ
all_guards [] = 0
all_guards (c ∷ cs) = guards c + all_guards cs

abbrev pub guards_of : Bool → ℕ
guards_of true = 1
guards_of false = 0

module _ (crypto : Crypto) where
  -- A thread takes and drops its guards, where the rest of the guards are `others`.
  advance-guards :
      (others : ℕ) (c : Call) (m : Mutex)
      → can_go c m.locked ≡ true
      → others + guards c ≡ guards_of m.locked
      → let (c', m') = advance crypto c m in others + guards c' ≡ guards_of m'.locked
  unfolding advance can_go
  advance-guards others (asking p s) m go h = elim (Bool-cases m.locked) [
    | inl e ↦ let clash = rw e at go in cc
    | inr e ↦ let h' = rw e at h in omega (arith, h')
  ]
  advance-guards others (looking p s) m go h =
      let none_else : others ≡ 0 = elim (Bool-cases m.locked) [
        | inl e ↦ let h' = rw e at h in omega (arith, h')
        | inr e ↦ let h' = rw e at h in omega (arith, h')
      ] in
      elim (Option-cases (cached_key m.cache p s)) [
        | inl miss ↦ rw (miss, advance) (omega (arith, none_else))
        | inr (key, hit) ↦ rw (hit, advance) (omega (arith, none_else))
      ]
  advance-guards others (missed p s) m go h =
      elim (Result-cases (crypto.pbkdf2 p s master_pbkdf2_iterations 64)) [
        | inl (k, e) ↦ rw (e, advance) h
        | inr (x, e) ↦ rw (e, advance) h
      ]
  advance-guards others (storing p s k) m go h = elim (Bool-cases m.locked) [
    | inl e ↦ let clash = rw e at go in cc
    | inr e ↦ let h' = rw e at h in omega (arith, h')
  ]
  advance-guards others (updating p s k) m go h = elim (Bool-cases m.locked) [
    | inl e ↦ let h' = rw e at h in omega (arith, h')
    | inr e ↦ let h' = rw e at h in omega (arith, h')
  ]
  advance-guards others (finished p s r) m go h = cc

  Moves-guards :
      (others : ℕ) {cs cs' : List Call} {m m' : Mutex}
      → Moves crypto cs m cs' m'
      → others + all_guards cs ≡ guards_of m.locked
      → others + all_guards cs' ≡ guards_of m'.locked
  Moves-guards others (here c cs m u) h =
      omega (arith, advance-guards (others + all_guards cs) c m u (omega (arith, h)))
  Moves-guards others (there c move) h =
      omega (arith, Moves-guards (others + guards c) move (omega (arith, h)))

  start-guards : (requests : List (Bytes × Bytes)) → all_guards (map start_call requests) ≡ 0
  start-guards [] = refl
  start-guards ((p, s) ∷ requests) = omega (arith, start-guards requests)

  -- The mutex is locked exactly while one guard lives.
  pub Steps-guards :
      (requests : List (Bytes × Bytes)) (cache : Option CachedMasterKey) (n : ℕ) (t : Process)
      → Steps crypto (start requests cache) n t
      → all_guards t.threads ≡ guards_of t.mutex.locked
  Steps-guards requests cache n t stay = start-guards requests
  Steps-guards requests cache n t (next {n = m} {b = b} steps step) =
      omega (arith, Moves-guards 0 step (omega (arith, Steps-guards requests cache m b steps)))

  unfoldable pub AllFinished : List Call → Type 0
  AllFinished = All (λ c. is_finished c ≡ true)

  abbrev pub GoesOn : List Call → Mutex → Type 0
  GoesOn cs m = (cs' : List Call) × (m' : Mutex) × Moves crypto cs m cs' m'

  goes_behind : (c : Call) (cs : List Call) (m : Mutex) → GoesOn cs m → GoesOn (c ∷ cs) m
  goes_behind c cs m (cs', m', move) = (c ∷ cs', m', there c move)

  -- The thread with the guard can go.
  holder_goes : (cs : List Call) (m : Mutex) → 1 ≤ all_guards cs → GoesOn cs m
  unfolding can_go
  holder_goes [] m h = absurd (omega (arith, h))
  holder_goes (looking p s ∷ cs) m h = (_, _, here (looking p s) cs m refl)
  holder_goes (updating p s k ∷ cs) m h = (_, _, here (updating p s k) cs m refl)
  holder_goes (asking p s ∷ cs) m h =
      goes_behind (asking p s) cs m (holder_goes cs m (omega (arith, h)))
  holder_goes (missed p s ∷ cs) m h =
      goes_behind (missed p s) cs m (holder_goes cs m (omega (arith, h)))
  holder_goes (storing p s k ∷ cs) m h =
      goes_behind (storing p s k) cs m (holder_goes cs m (omega (arith, h)))
  holder_goes (finished p s r ∷ cs) m h =
      goes_behind (finished p s r) cs m (holder_goes cs m (omega (arith, h)))

  can_go-free : (c : Call) → is_finished c ≡ false → can_go c false ≡ true
  unfolding can_go is_finished
  can_go-free (asking p s) h = refl
  can_go-free (looking p s) h = refl
  can_go-free (missed p s) h = refl
  can_go-free (storing p s k) h = refl
  can_go-free (updating p s k) h = refl
  can_go-free (finished p s r) h = cc

  -- Where no guard lives, each thread that is not finished can go.
  free_goes : (cs : List Call) (m : Mutex) → m.locked ≡ false → GoesOn cs m ⊎ AllFinished cs
  unfolding AllFinished
  free_goes [] m e = inr tt
  free_goes (c ∷ cs) m e = elim (Bool-cases (is_finished c)) [
    | inr runs ↦ inl (_, _, here c cs m (rw e (can_go-free c runs)))
    | inl done ↦ elim (free_goes cs m e) [
      | inl on ↦ inl (goes_behind c cs m on)
      | inr all ↦ inr (done, all)
    ]
  ]

  pub goes_on :
      (cs : List Call) (m : Mutex)
      → all_guards cs ≡ guards_of m.locked
      → GoesOn cs m ⊎ AllFinished cs
  goes_on cs m h = elim (Bool-cases m.locked) [
    | inl e ↦ let h' = rw e at h in inl (holder_goes cs m (omega (arith, h')))
    | inr e ↦ free_goes cs m e
  ]
