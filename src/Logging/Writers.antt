-- ===== src/Logging/Writers.antt =====
-- Which writer src/logging.rs selects for a configuration.
use pgmoneta_mcp.Prelude.{
  ℕ, ◌≡◌, ◌↔◌, refl, Bool, true, false, [], ◌∷◌, if◌then◌else◌, Bool-cases, inl, inr,
}
use pgmoneta_mcp.Bytes.{Bytes, codes, eq_bytes, eq_bytes→eq}
use pgmoneta_mcp.Result.{
  ok, err, panicked, cannot_open_log, invalid_log_mode, invalid_log_type, ◌>>=◌, >>=-eq-ok,
}
use pgmoneta_mcp.Logging.{
  LogFiles, LogWriter, to_stderr, to_new_file, to_rolling_file, to_syslog, to_sink, Rotation,
  Platform, unix, windows, map_log_rotation_age, file_writer, make_writer, event_log, syslog_writer,
}
use pgmoneta_mcp.Logging.Accepted.{Names, map_log_rotation_age_iff}

module _ (files : LogFiles) where
  -- The writers of the documentation, by platform, type, path, mode and rotation age.
  pub data Selects : Platform → Bytes → Bytes → Bytes → Bytes → LogWriter → Type 0 where
    console :
        (p : Platform) (path mode age : Bytes) → Selects p (codes "console") path mode age to_stderr
    created :
        (p : Platform) (path age : Bytes)
        → files.opens path ≡ true
        → Selects p (codes "file") path (codes "create") age (to_new_file path)
    appended :
        (p : Platform) (path : Bytes) (c : ℕ) (r : Rotation)
        → Names c r
        → files.rolls path ≡ true
        → Selects p (codes "file") path (codes "append") (c ∷ []) (to_rolling_file r path)
    logged : (path mode age : Bytes) → Selects (unix true) (codes "syslog") path mode age to_syslog
    events :
        (u v : Unit {0}) (path mode age : Bytes)
        → Selects (windows (ok u) (ok v)) (codes "syslog") path mode age to_sink

  selects_made :
      (p : Platform) (type path mode age : Bytes) (w : LogWriter)
      → Selects p type path mode age w
      → make_writer files p type path mode age ≡ ok w
  unfolding make_writer file_writer syslog_writer event_log eq_bytes
  selects_made p type path mode age w (console _ _ _ _) = refl
  selects_made p type path mode age w (created _ _ _ h) = rw h refl
  selects_made p type path mode age w (appended _ _ c r h rolls) =
      rw ((map_log_rotation_age_iff (c ∷ []) r).1 (c, refl, h), rolls) refl
  selects_made p type path mode age w (logged _ _ _) = refl
  selects_made p type path mode age w (events u v _ _ _) = refl

  syslog_selected :
      (p : Platform) (path mode age : Bytes) (w : LogWriter)
      → syslog_writer p ≡ ok w
      → Selects p (codes "syslog") path mode age w
  unfolding syslog_writer event_log
  syslog_selected (unix true) path mode age w h =
      let same : w ≡ to_syslog = cc in rw same (logged path mode age)
  syslog_selected (unix false) path mode age w h = cc
  syslog_selected (windows (ok u) (ok v)) path mode age w h =
      let same : w ≡ to_sink = cc in rw same (events u v path mode age)
  syslog_selected (windows (ok u) (err e)) path mode age w h = cc
  syslog_selected (windows (err e) v) path mode age w h = cc

  opened_selected :
      (good : Bool) (p : Platform) (path age : Bytes) (w : LogWriter)
      → files.opens path ≡ good
      → (if good then ok (to_new_file path) else err cannot_open_log) ≡ ok w
      → Selects p (codes "file") path (codes "create") age w
  opened_selected true p path age w o h =
      let same : w ≡ to_new_file path = cc in rw same (created p path age o)
  opened_selected false p path age w o h = cc

  appended_selected :
      (p : Platform) (path age : Bytes) (w : LogWriter)
      → (map_log_rotation_age age >>= λ rotation.
          if files.rolls path then ok (to_rolling_file rotation path) else err panicked)
        ≡ ok w
      → Selects p (codes "file") path (codes "append") age w
  appended_selected p path age w h =
      let (r, accepted, made) = >>=-eq-ok (map_log_rotation_age age) _ h in
      let (c, age_is, named) = (map_log_rotation_age_iff age r).0 accepted in
      elim (Bool-cases (files.rolls path)) [
        | inl rolls ↦
            let made' = rw rolls at made in
            let same : w ≡ to_rolling_file r path = cc in
            rw (same, age_is) (appended p path c r named rolls)
        | inr stuck ↦ let clash = rw stuck at made in cc
      ]

  file_selected :
      (new old : Bool) (p : Platform) (path mode age : Bytes) (w : LogWriter)
      → eq_bytes mode (codes "create") ≡ new
      → eq_bytes mode (codes "append") ≡ old
      → (if new
          then (if files.opens path then ok (to_new_file path) else err cannot_open_log)
          else if old
          then (map_log_rotation_age age >>= λ rotation.
              if files.rolls path then ok (to_rolling_file rotation path) else err panicked)
          else err (invalid_log_mode mode))
        ≡ ok w
      → Selects p (codes "file") path mode age w
  file_selected true old p path mode age w n o h =
      rw (eq_bytes→eq mode (codes "create") n)
        (opened_selected (files.opens path) p path age w refl h)
  file_selected false true p path mode age w n o h =
      rw (eq_bytes→eq mode (codes "append") o) (appended_selected p path age w h)
  file_selected false false p path mode age w n o h = cc

  selected :
      (c f s : Bool) (p : Platform) (type path mode age : Bytes) (w : LogWriter)
      → eq_bytes type (codes "console") ≡ c
      → eq_bytes type (codes "file") ≡ f
      → eq_bytes type (codes "syslog") ≡ s
      → (if c
          then ok to_stderr
          else if f
          then file_writer files p path mode age
          else if s
          then syslog_writer p
          else err (invalid_log_type type))
        ≡ ok w
      → Selects p type path mode age w
  unfolding file_writer
  selected true f s p type path mode age w ec ef es h =
      let same : w ≡ to_stderr = cc in
      rw (same, eq_bytes→eq type (codes "console") ec) (console p path mode age)
  selected false true s p type path mode age w ec ef es h =
      rw (eq_bytes→eq type (codes "file") ef) (file_selected _ _ p path mode age w refl refl h)
  selected false false true p type path mode age w ec ef es h =
      rw (eq_bytes→eq type (codes "syslog") es) (syslog_selected p path mode age w h)
  selected false false false p type path mode age w ec ef es h = cc

  -- The writer is made exactly where the configuration selects it and the system gives it: stderr for the
  -- console, the file that opens in the mode create, the rolling file of a named rotation whose appender
  -- opens in the mode append, and the log of the system. In any other case there is an error or a panic.
  pub make_writer_iff :
      (p : Platform) (type path mode age : Bytes) (w : LogWriter)
      → (make_writer files p type path mode age ≡ ok w) ↔ Selects p type path mode age w
  unfolding make_writer
  make_writer_iff p type path mode age w =
      (selected _ _ _ p type path mode age w refl refl refl, selects_made p type path mode age w)
