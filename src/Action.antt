-- ===== src/Action.antt =====
-- Methods that change state and may fail: the state comes back beside the error too.
use pgmoneta_mcp.Prelude.{◌≡◌, refl}
use pgmoneta_mcp.Result.{Result, ok, err, Error, map_err}

abbrev pub Action : Type 0 → Type 0 → Type 0
Action S A = S → Result A × S

module _ {S A : Type 0} where
  abbrev pub pure : A → Action S A
  pure a s = (ok a, s)

  abbrev pub raise : Error → Action S A
  raise e s = (err e, s)

  -- `?` on a value that needs no state
  abbrev pub lift : Result A → Action S A
  lift r s = (r, s)

  -- `map_err` on the result
  abbrev pub map_action_err : (Error → Error) → Action S A → Action S A
  map_action_err f m s = let (r, s') = m s in (map_err f r, s')

  map_pair-eq-ok :
      (f : Error → Error) (r : Result A) (s : S) {a : A} {t : S}
      → ◌≡◌ {A = Result A × S} (map_err f r, s) (ok a, t)
      → ◌≡◌ {A = Result A × S} (r, s) (ok a, t)
  map_pair-eq-ok f (ok x) s h = h
  map_pair-eq-ok f (err e) s h = cc

  pub map_action_err-eq-ok :
      (f : Error → Error) (m : Action S A) (s : S) {a : A} {t : S}
      → map_action_err f m s ≡ (ok a, t)
      → m s ≡ (ok a, t)
  map_action_err-eq-ok f m s h = let (r, u) = m s in map_pair-eq-ok f r u h

module _ {S A B : Type 0} where
  abbrev pub continue : Result A → (A → Action S B) → Action S B
  continue (ok a) f s = f a s
  continue (err e) f s = (err e, s)

  infixl 5 ◌>>=◌ ◌>>◌
  abbrev pub ◌>>=◌ : Action S A → (A → Action S B) → Action S B
  ◌>>=◌ m f s = let (r, s') = m s in continue r f s'

  abbrev pub ◌>>◌ : Action S A → Action S B → Action S B
  m >> n = m >>= λ _. n

  pub continue-eq-ok :
      (r : Result A) (f : A → Action S B) (s : S) {b : B} {t : S}
      → continue r f s ≡ (ok b, t)
      → (a : A) × (r ≡ ok a) × (f a s ≡ (ok b, t))
  continue-eq-ok (ok a) f s h = (a, refl, h)
  continue-eq-ok (err e) f s h = cc

  -- Inversion of a chain that succeeded.
  pub >>=-eq-ok :
      (m : Action S A) (f : A → Action S B) (s : S) {b : B} {t : S}
      → (m >>= f) s ≡ (ok b, t)
      → (a : A) × (u : S) × (m s ≡ (ok a, u)) × (f a u ≡ (ok b, t))
  >>=-eq-ok m f s h =
      let (r, u) = m s in let (a, e, k) = continue-eq-ok r f u h in (a, u, (λ i. (e i, u)), k)
