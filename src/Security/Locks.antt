-- ===== src/Security/Locks.antt =====
-- After the key file was loaded by src/security.rs nobody but its owner may read or write it.
use pgmoneta_mcp.Prelude.{◌%◌, ◌≡◌, refl, ap, Option, none, some, ◌==◌, Bool-cases, inl, inr, arith}
use pgmoneta_mcp.Bytes.{Bytes, eq_bytes_refl}
use pgmoneta_mcp.Bytes.Text.{lines}
use pgmoneta_mcp.Result.{Result, ok, Error}
use pgmoneta_mcp.Action.{Action, lift, map_action_err, map_action_err-eq-ok, ◌>>=◌, >>=-eq-ok}
use pgmoneta_mcp.Libraries.{Libraries}
use pgmoneta_mcp.World.{
  World, Node, file, directory, metadata_mode, set_permissions, read_to_string,
}
use pgmoneta_mcp.Security.MasterKey.{SecurityUtil, key_path, restrict, parse_lines, load_master_key}
use pgmoneta_mcp.Security.Gcm.RoundTrip.{IsValid}
use pgmoneta_mcp.Security.Evolves.Actions.{Evolving-Closed}
use pgmoneta_mcp.Security.Closed.Actions.{restrict-Closed}
use pgmoneta_mcp.Security.Evolves.{Evolving, IsPrivate}

outcome :
    {A : Type 0} {r s : Result A} {u w : World} → ◌≡◌ {A = Result A × World} (r, u) (s, w) → u ≡ w
outcome {A} h = ap (λ (x : Result A × World). x.1) h

-- A world that `restrict` gave, when the node at the path is known.
restricted-IsPrivate :
    (key : Bytes) (n : Option Node) (w w' : World)
    → w.files key ≡ n
    → restrict key w ≡ (ok tt, w')
    → IsPrivate (w'.files key)
unfolding restrict metadata_mode set_permissions
restricted-IsPrivate key none w w' e h = let clash = rw (metadata_mode, e) at h in cc
restricted-IsPrivate key (some (file content mode)) w w' e h =
    elim (Bool-cases ((mode % 0o1000) % 0o100 == 0)) [
      | inl shut ↦
          let k = rw (metadata_mode, e, shut) at h in rw⁻¹ (outcome k) (rw e (ground (arith, shut)))
      | inr loose ↦
          let k = rw (metadata_mode, e, loose, set_permissions, e) at h in
          rw⁻¹ (outcome k) (rw (eq_bytes_refl key) refl)
    ]
restricted-IsPrivate key (some (directory mode)) w w' e h =
    elim (Bool-cases ((mode % 0o1000) % 0o100 == 0)) [
      | inl shut ↦
          let k = rw (metadata_mode, e, shut) at h in rw⁻¹ (outcome k) (rw e (ground (arith, shut)))
      | inr loose ↦
          let k = rw (metadata_mode, e, loose, set_permissions, e) at h in
          rw⁻¹ (outcome k) (rw (eq_bytes_refl key) refl)
    ]

module _ (l : Libraries) (util : SecurityUtil) (key : Bytes) where
  -- With a success, the key file is closed to others.
  abbrev pub Locks : {A : Type 0} → Action World A → Type 0
  Locks {A} m =
      (w w' : World) (a : A) → IsValid l.crypto w → m w ≡ (ok a, w') → IsPrivate (w'.files key)

  module _ {A B : Type 0} (m : Action World A) (f : A → Action World B) where
    pub locked_first :
        Locks m
        → Evolving l.crypto util m
        → ((a : A) → Evolving l.crypto util (f a))
        → Locks (m >>= f)
    locked_first locks before after w w' b v h =
        let (a, u, e, k) = >>=-eq-ok m f w h in
        let step = before w v in
        let vu : IsValid l.crypto u = (rw e at step).valid in
        let later = after a u vu in (rw k at later).stays_private key (locks w u a v e)

    pub locked_then : Evolving l.crypto util m → ((a : A) → Locks (f a)) → Locks (m >>= f)
    locked_then before locks w w' b v h =
        let (a, u, e, k) = >>=-eq-ok m f w h in
        let step = before w v in locks a u w' b (rw e at step).valid k

  pub renamed-Locks :
      {A : Type 0} (f : Error → Error) (m : Action World A) → Locks m → Locks (map_action_err f m)
  renamed-Locks f m locks w w' a v h = locks w w' a v (map_action_err-eq-ok f m w h)

  reads-Evolving :
      Evolving l.crypto util
        (read_to_string key >>= λ content. lift (parse_lines util.base64_engine (lines content)))
  reads-Evolving =
      let steps = Evolving-Closed l.crypto util in
      steps.chained (read_to_string key) _ (steps.file_read key)
        λ content. steps.lifted (parse_lines util.base64_engine (lines content))

  pub load_master_key-Locks : key_path util ≡ ok key → Locks (load_master_key util)
  unfolding load_master_key
  load_master_key-Locks is_key w w' pair v h =
      let k = rw is_key at h in
      locked_first (restrict key) _
        (λ u u' x vu e. restricted-IsPrivate key (u.files key) u u' refl e)
        (restrict-Closed l util (λ A m. Evolving l.crypto util m) (Evolving-Closed l.crypto util)
          key is_key)
        (λ x. reads-Evolving) w w' pair v k
