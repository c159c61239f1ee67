-- ===== src/Security/Evolves.antt =====
-- What the code of src/security.rs may do to the world, in any of its outcomes: random bytes are used up
-- from the front, the cache gets what was derived, and a key file loses permissions. Nothing else changes.
pub mod Actions
use pgmoneta_mcp.Prelude.{
  ℕ, ◌%◌, ◌≡◌, refl, sym, ap, ◌∙◌, Bool, true, false, Option, none, some, [], ◌++◌, append_assoc,
  arith, if◌then◌else◌, All,
}
use pgmoneta_mcp.Bytes.{Bytes}
use pgmoneta_mcp.Result.{Result, ok, err, Error}
use pgmoneta_mcp.Action.{Action, lift, raise, continue, map_action_err, ◌>>=◌}
use pgmoneta_mcp.Libraries.{Crypto}
use pgmoneta_mcp.World.{World, Node, file, directory}
use pgmoneta_mcp.Security.MasterKey.{SecurityUtil}
use pgmoneta_mcp.Security.Gcm.RoundTrip.{IsValid}
use pgmoneta_mcp.Security.Untouched.{IsOther}

-- A node without its permissions.
abbrev pub content_of : Option Node → Option (Option Bytes)
content_of none = none
content_of (some (file content mode)) = some (some content)
content_of (some (directory mode)) = some none

-- Nobody but the owner may read or write.
abbrev pub IsPrivate : Option Node → Type 0
IsPrivate none = Unit
IsPrivate (some (file content mode)) = (mode % 0o1000) % 0o100 ≡ 0
IsPrivate (some (directory mode)) = (mode % 0o1000) % 0o100 ≡ 0

module _ (crypto : Crypto) (util : SecurityUtil) where
  pub record Evolves (w w' : World) : Type 0 where
    pub used : Bytes
    pub drawn : w.entropy ≡ used ++ w'.entropy
    pub kept : (p : Bytes) → IsOther util p → w'.files p ≡ w.files p
    pub contents : (p : Bytes) → content_of (w'.files p) ≡ content_of (w.files p)
    pub stays_private : (p : Bytes) → IsPrivate (w.files p) → IsPrivate (w'.files p)
    pub valid : IsValid crypto w'

  pub Evolves-refl : (w : World) → IsValid crypto w → Evolves w w
  Evolves-refl w v = record {
    used = [];
    drawn = refl;
    kept = λ p other. refl;
    contents = λ p. refl;
    stays_private = λ p h. h;
    valid = v;
  }

  pub Evolves-trans : (w u w' : World) → Evolves w u → Evolves u w' → Evolves w w'
  Evolves-trans w u w' a b = record {
    used = a.used ++ b.used;
    drawn = a.drawn ∙ ap (λ x. a.used ++ x) b.drawn ∙ sym (append_assoc a.used b.used w'.entropy);
    kept = λ p other. b.kept p other ∙ a.kept p other;
    contents = λ p. b.contents p ∙ a.contents p;
    stays_private = λ p h. b.stays_private p (a.stays_private p h);
    valid = b.valid;
  }

  -- A valid world evolves under the action, whether it succeeds or fails.
  abbrev pub Evolving : {A : Type 0} → Action World A → Type 0
  Evolving m = (w : World) → IsValid crypto w → Evolves w (m w).1

  pub lift-Evolving : {A : Type 0} (r : Result A) → Evolving (lift r)
  lift-Evolving r w v = Evolves-refl w v

  continue-Evolving :
      {A B : Type 0} (r : Result A) (f : A → Action World B)
      → ((a : A) → Evolving (f a))
      → Evolving (continue r f)
  continue-Evolving (ok a) f k w v = k a w v
  continue-Evolving (err e) f k w v = Evolves-refl w v

  pub >>=-Evolving :
      {A B : Type 0} (m : Action World A) (f : A → Action World B)
      → Evolving m
      → ((a : A) → Evolving (f a))
      → Evolving (m >>= f)
  >>=-Evolving m f km kf w v =
      let first = km w v in
      Evolves-trans w (m w).1 (continue (m w).0 f (m w).1).1 first
        (continue-Evolving (m w).0 f kf (m w).1 first.valid)

  pub map_action_err-Evolving :
      {A : Type 0} (f : Error → Error) (m : Action World A)
      → Evolving m
      → Evolving (map_action_err f m)
  map_action_err-Evolving f m k w v = k w v
