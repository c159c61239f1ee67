-- ===== src/Logging/Accepted.antt =====
-- Which texts the rotation age and the log writer of src/logging.rs accept.
use pgmoneta_mcp.Prelude.{◌⊎◌, ap, ◌∙◌, ℕ, ◌≡◌, ◌↔◌, refl, [], ◌∷◌, arith}
use pgmoneta_mcp.Bytes.{Bytes}
use pgmoneta_mcp.Result.{ok}
use pgmoneta_mcp.Logging.{
  Rotation, minutely, hourly, daily, weekly, never, rotation_of, map_log_rotation_age,
}

-- The letters of the documentation, each in both cases, and the digit 0.
abbrev pub Names : ℕ → Rotation → Type 0
Names c minutely = (c ≡ b'm') ⊎ (c ≡ b'M')
Names c hourly = (c ≡ b'h') ⊎ (c ≡ b'H')
Names c daily = (c ≡ b'd') ⊎ (c ≡ b'D')
Names c weekly = (c ≡ b'w') ⊎ (c ≡ b'W')
Names c never = c ≡ b'0'

rotation_of_iff : (c : ℕ) (r : Rotation) → (rotation_of c ≡ ok r) ↔ Names c r
unfolding rotation_of
rotation_of_iff c minutely = ground arith
rotation_of_iff c hourly = ground arith
rotation_of_iff c daily = ground arith
rotation_of_iff c weekly = ground arith
rotation_of_iff c never = ground arith

-- A rotation age is accepted exactly if it is one character that names a rotation, and is that
-- rotation then.
pub map_log_rotation_age_iff :
    (age : Bytes) (r : Rotation)
    → (map_log_rotation_age age ≡ ok r) ↔ ((c : ℕ) × (age ≡ c ∷ []) × Names c r)
unfolding map_log_rotation_age
map_log_rotation_age_iff [] r = (λ h. cc, λ h. let (c, e, _) = h in cc)
map_log_rotation_age_iff (c ∷ []) r = (
  λ h. (c, refl, (rotation_of_iff c r).0 h),
  λ h.
      let (d, e, named) = h in
      let same : c ≡ d = cc in ap rotation_of same ∙ (rotation_of_iff d r).1 named,
)
map_log_rotation_age_iff (c ∷ d ∷ s) r = (λ h. cc, λ h. let (x, e, _) = h in cc)
