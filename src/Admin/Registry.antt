-- ===== src/Admin/Registry.antt =====
-- The users file of src/bin/admin.rs as a function from users to stored passwords, and its operations
-- as changes of that function at one user.
use pgmoneta_mcp.Prelude.{
  ◌≡◌, ◌≢◌, refl, sym, ap, ◌∙◌, Option, none, some, [], ◌∷◌, if◌then◌else◌, inl, inr, Option-cases,
  Bool-cases,
}
use pgmoneta_mcp.Bytes.{Bytes, eq_bytes, eq_bytes→eq}
use pgmoneta_mcp.Result.{ok}
use pgmoneta_mcp.Dict.{
  Dict, lookup, without, insert, lookup-without_self, lookup-without_ne, lookup-insert_self,
  lookup-insert_ne,
}
use pgmoneta_mcp.Configuration.Files.{UserConf}
use pgmoneta_mcp.Admin.{admins, first_user, with_user, without_user, with_password}

abbrev pub Registry : Type 0
Registry = Bytes → Option Bytes

-- Changed at one user.
abbrev pub update : Registry → Bytes → Option Bytes → Registry
update reg user v u = if eq_bytes user u then v else reg u

-- The section of the administrators holds the registry.
abbrev pub HasRegistry : UserConf → Registry → Type 0
HasRegistry conf reg =
    (users : Dict Bytes) × (lookup admins conf ≡ some users)
    × ((u : Bytes) → lookup u users ≡ reg u)

module _ (user : Bytes) where
  lookup-changed :
      (v : Bytes) (users : Dict Bytes) (reg : Registry)
      → ((u : Bytes) → lookup u users ≡ reg u)
      → (u : Bytes) → lookup u (insert user v users) ≡ update reg user (some v) u
  lookup-changed v users reg h u = elim (Bool-cases (eq_bytes user u)) [
    | inl e ↦ rw (e, ← eq_bytes→eq user u e) (lookup-insert_self user v users)
    | inr e ↦ rw e (lookup-insert_ne user u v users e ∙ h u)
  ]

  lookup-removed :
      (users : Dict Bytes) (reg : Registry)
      → ((u : Bytes) → lookup u users ≡ reg u)
      → (u : Bytes) → lookup u (without user users) ≡ update reg user none u
  lookup-removed users reg h u = elim (Bool-cases (eq_bytes user u)) [
    | inl e ↦ rw (e, ← eq_bytes→eq user u e) (lookup-without_self user users)
    | inr e ↦ rw e (lookup-without_ne user u users e ∙ h u)
  ]

  pub first_user-HasRegistry :
      (v : Bytes) → HasRegistry (first_user user v) (update (λ u. none) user (some v))
  unfolding first_user lookup eq_bytes
  first_user-HasRegistry v = ((user, v) ∷ [], refl, λ u. refl)

  same_conf : {a b : UserConf} → ok a ≡ ok b → a ≡ b
  same_conf e = cc

  -- Writing the changed section back.
  put_back :
      (users : Dict Bytes) (conf conf' : UserConf) (reg : Registry)
      → ((u : Bytes) → lookup u users ≡ reg u)
      → insert admins users conf ≡ conf'
      → HasRegistry conf' reg
  put_back users conf conf' reg h e =
      (users, ap (lookup admins) (sym e) ∙ lookup-insert_self admins users conf, h)

  pub with_user-HasRegistry :
      (v : Bytes) (conf conf' : UserConf) (reg : Registry)
      → HasRegistry conf reg
      → with_user user v conf ≡ ok conf'
      → (reg user ≡ none) × HasRegistry conf' (update reg user (some v))
  unfolding with_user
  with_user-HasRegistry v conf conf' reg (users, section, h) e =
      elim (Option-cases (lookup user users)) [
        | inl fresh ↦ (
          sym (h user) ∙ fresh,
          put_back (insert user v users) conf conf' _ (lookup-changed v users reg h)
              (same_conf (rw (section, fresh, with_user) at e)),
        )
        | inr (old, taken) ↦ let clash = rw (section, taken, with_user) at e in cc
      ]

  pub with_password-HasRegistry :
      (v : Bytes) (conf conf' : UserConf) (reg : Registry)
      → HasRegistry conf reg
      → with_password user v conf ≡ ok conf'
      → (reg user ≢ none) × HasRegistry conf' (update reg user (some v))
  unfolding with_password
  with_password-HasRegistry v conf conf' reg (users, section, h) e =
      elim (Option-cases (lookup user users)) [
        | inl fresh ↦ let clash = rw (section, fresh, with_password) at e in cc
        | inr (old, taken) ↦ (
          λ x. let y = h user in cc,
          put_back (insert user v users) conf conf' _ (lookup-changed v users reg h)
              (same_conf (rw (section, taken, with_password) at e)),
        )
      ]

  pub without_user-HasRegistry :
      (conf conf' : UserConf) (reg : Registry)
      → HasRegistry conf reg
      → without_user user conf ≡ ok conf'
      → (reg user ≢ none) × HasRegistry conf' (update reg user none)
  unfolding without_user
  without_user-HasRegistry conf conf' reg (users, section, h) e =
      elim (Option-cases (lookup user users)) [
        | inl fresh ↦ let clash = rw (section, fresh, without_user) at e in cc
        | inr (old, taken) ↦ (
          λ x. let y = h user in cc,
          put_back (without user users) conf conf' _ (lookup-removed users reg h)
              (same_conf (rw (section, taken, without_user) at e)),
        )
      ]
