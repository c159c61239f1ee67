-- ===== src/Admin/Refinement.antt =====
-- The commands on users of src/bin/admin.rs, as they are run from the terminal, implement changes of a
-- registry: what succeeds changes it at one user, and what fails leaves it alone.
use pgmoneta_mcp.Prelude.{ℕ, ◌≡◌, ◌≢◌, refl, none, some, List, [], ◌∷◌, inl, inr, ◌⊎◌}
use pgmoneta_mcp.Bytes.{Bytes, codes}
use pgmoneta_mcp.Result.{Result, ok, err, Error}
use pgmoneta_mcp.Action.{Action, continue, ◌>>◌}
use pgmoneta_mcp.Libraries.{Libraries}
use pgmoneta_mcp.World.{World}
use pgmoneta_mcp.Security.MasterKey.{SecurityUtil}
use pgmoneta_mcp.Security.Untouched.{IsOther}
use pgmoneta_mcp.Admin.{Ini, store_user, change_user, drop_user}
use pgmoneta_mcp.Admin.Registry.{Registry, update}
use pgmoneta_mcp.Admin.Stores.{Stores, Carries, Stores-same}
use pgmoneta_mcp.Admin.Changes.{Seals, store_user-Stores, change_user-Stores, drop_user-Stores}
use pgmoneta_mcp.Admin.Failures.{
  store_user-KeepsFailing, change_user-KeepsFailing, drop_user-KeepsFailing,
}
use pgmoneta_mcp.Admin.Console.{
  OutputFormat, AdminResponse, Shell, in_world, succeeded, print_response, add_user, edit_user,
  remove_user,
}

pub data Change : Type 0 where
  adds edits : Bytes → Bytes → Change
  removes : Bytes → Change

module _ (l : Libraries) (util : SecurityUtil) where
  abbrev pub IsSecret : World → Bytes → Bytes → Type 0
  IsSecret w password secret = (u : World) × Seals l util password secret w u

  -- What a change is to do: a user that is added was not there, one that is edited or removed was,
  -- and the password that is stored is an encryption of the one that was given, under the master key
  -- as it was loaded.
  abbrev pub Performs : World → Change → Registry → Registry → Type 0
  Performs w (adds user password) reg reg' =
      (secret : Bytes) × IsSecret w password secret
      × (reg user ≡ none)
      × (reg' ≡ update reg user (some secret))
  Performs w (edits user password) reg reg' =
      (secret : Bytes) × IsSecret w password secret
      × (reg user ≢ none)
      × (reg' ≡ update reg user (some secret))
  Performs w (removes user) reg reg' = (reg user ≢ none) × (reg' ≡ update reg user none)

  module _ (to_string : AdminResponse → Result Bytes) (ini : Ini) (new_mode : ℕ) (path : Bytes)
      (format : OutputFormat) where
    unfoldable pub perform : Change → Action Shell (Unit {0})
    perform (adds user password) = add_user to_string ini new_mode l util path user password format
    perform (edits user password) =
        edit_user to_string ini new_mode l util path user password format
    perform (removes user) = remove_user to_string ini new_mode path user format

    -- A command prints its response if and only if its work succeeds.
    command_cases :
        (m : Action World (Unit {0})) (command : Bytes) (users : List Bytes) (s : Shell)
        → let (r, s') = (in_world m >> succeeded to_string format command users) s in
          ((m s.world ≡ (ok tt, s'.world)) × (r ≡ ok tt))
          ⊎ ((e : Error) × (m s.world ≡ (err e, s'.world)) × (r ≡ err e) × (s'.printed ≡ s.printed))
    unfolding succeeded print_response
    command_cases m command users s = by_result (m s.world).0 (m s.world).1 refl
      where
        by_result :
            (r : Result (Unit {0})) (w : World)
            → m s.world ≡ (r, w)
            → let (q, s') : Result (Unit {0}) × Shell =
                continue r
                  (λ _. succeeded to_string format command users)
                  (record s { world = w }) in
              ((m s.world ≡ (ok tt, s'.world)) × (q ≡ ok tt))
              ⊎ ((e : Error) × (m s.world ≡ (err e, s'.world))
                  × (q ≡ err e)
                  × (s'.printed ≡ s.printed))
        by_result (ok u) w e = inl (e, refl)
        by_result (err x) w e = inr (x, e, refl, refl)

    -- A command on a user of a stored registry succeeds with the change that it is to do, stored in the
    -- file; or it fails, prints nothing, and the file stores the registry as before. The path is not the
    -- one of the key file, and the INI text of the changed registry is read back.
    pub perform-Refines :
        (c : Change) (reg : Registry) (s : Shell)
        → IsOther util path
        → Stores ini path s.world reg
        → ((reg' : Registry) → Performs s.world c reg reg' → Carries ini reg')
        → let (r, s') = perform c s in
          ((r ≡ ok tt)
            × (reg' : Registry) × Performs s.world c reg reg'
            × Stores ini path s'.world reg')
          ⊎ ((e : Error) × (r ≡ err e) × Stores ini path s'.world reg × (s'.printed ≡ s.printed))
    unfolding perform add_user edit_user remove_user
    perform-Refines (adds user password) reg s other stores carries =
        elim (command_cases (store_user ini new_mode l util path user password) (codes "user add")
          (user ∷ []) s) [
            | inl (done, r) ↦
                let (secret, u, seals, was, stored) =
                  store_user-Stores ini new_mode l util path user password reg s.world _ other
                    stores
                    (λ secret u seals was.
                      carries (update reg user (some secret)) (secret, (u, seals), was, refl))
                    done in
                inl (r, update reg user (some secret), (secret, (u, seals), was, refl), stored)
            | inr (e, failed, r, quiet) ↦
                let kept =
                  store_user-KeepsFailing path ini new_mode l util other user password s.world _ e
                    failed in
                inr (e, r, Stores-same ini path s.world _ reg kept stores, quiet)
          ]
    perform-Refines (edits user password) reg s other stores carries =
        elim (command_cases (change_user ini new_mode l util path user password) (codes "user edit")
          (user ∷ []) s) [
            | inl (done, r) ↦
                let (secret, u, seals, was, stored) =
                  change_user-Stores ini new_mode l util path user password reg s.world _ other
                    stores
                    (λ secret u seals was.
                      carries (update reg user (some secret)) (secret, (u, seals), was, refl))
                    done in
                inl (r, update reg user (some secret), (secret, (u, seals), was, refl), stored)
            | inr (e, failed, r, quiet) ↦
                let kept =
                  change_user-KeepsFailing path ini new_mode l util other user password s.world _ e
                    failed in
                inr (e, r, Stores-same ini path s.world _ reg kept stores, quiet)
          ]
    perform-Refines (removes user) reg s other stores carries =
        elim (command_cases (drop_user ini new_mode path user) (codes "user del") (user ∷ []) s) [
          | inl (done, r) ↦
              let (was, stored) =
                drop_user-Stores ini new_mode path user reg s.world _ stores
                  (λ was. carries (update reg user none) (was, refl)) done in
              inl (r, update reg user none, (was, refl), stored)
          | inr (e, failed, r, quiet) ↦
              let kept = drop_user-KeepsFailing path ini new_mode user s.world _ e failed in
              inr (e, r, Stores-same ini path s.world _ reg kept stores, quiet)
        ]
