-- ===== src/Logging.antt =====
-- src/logging.rs: the level, the writer and the rotation that texts of the configuration select, and
-- the subscriber that is set up with them. That the log file opens is a parameter, and so are the
-- answers of the logs of the system; what a subscriber does is left to tracing.
pub mod Accepted
pub mod Writers
use pgmoneta_mcp.Prelude.{ℕ, Bool, true, false, ◌||◌, List, [], ◌∷◌, String, ◌==◌, if◌then◌else◌}
use pgmoneta_mcp.Bytes.{Bytes, codes, eq_bytes}
use pgmoneta_mcp.Result.{
  Result, ok, err, panicked, map_err, event_log_not_registered, event_log_not_started, ◌>>=◌,
  invalid_log_mode, invalid_log_type, invalid_rotation_age, cannot_open_log,
}
use pgmoneta_mcp.Constant.LogLevel
use pgmoneta_mcp.Constant.LogType
use pgmoneta_mcp.Constant.LogMode

pub data LevelFilter : Type 0 where
  trace_level debug_level info_level warn_level error_level off_level : LevelFilter

pub data Rotation : Type 0 where
  minutely hourly daily weekly never : Rotation

-- The `BoxMakeWriter` and whether a `WorkerGuard` comes with it.
pub data LogWriter : Type 0 where
  to_stderr : LogWriter
  to_new_file : Bytes → LogWriter
  to_rolling_file : Rotation → Bytes → LogWriter
  to_syslog to_sink : LogWriter

-- `Some(_guard)` for the writers that work in a thread of their own.
abbrev pub has_guard : LogWriter → Bool
has_guard to_stderr = false
has_guard (to_new_file path) = true
has_guard (to_rolling_file rotation path) = true
has_guard to_syslog = false
has_guard to_sink = false

-- Where the program was built for; on Unix with whether `Syslog::new` gives an instance, which it does
-- once in a process, and on Windows with what `winlog2::register` and `winlog2::init` answer.
pub data Platform : Type 0 where
  unix : Bool → Platform
  windows : Result (Unit {0}) → Result (Unit {0}) → Platform

-- Whether a log file opens for the mode create, and whether a `RollingFileAppender` on it does.
pub record LogFiles : Type 0 where
  pub opens : Bytes → Bool
  pub rolls : Bytes → Bool

-- The levels of the targets that are named, and of all others.
pub record Targets : Type 0 where
  pub named : List (Bytes × LevelFilter)
  pub default : LevelFilter

-- The layer that `init` registers.
pub record Subscriber : Type 0 where
  pub line_number : Bool
  pub timer : Bytes
  pub writer : LogWriter
  pub ansi : Bool
  pub filter : Targets

abbrev is_text : Bytes → String → Bool
is_text s t = eq_bytes s (codes t)

unfoldable pub get_level : Bytes → LevelFilter
get_level log_level =
    if is_text log_level LogLevel.trace
    then trace_level
    else if is_text log_level LogLevel.debug
    then debug_level
    else if is_text log_level LogLevel.info
    then info_level
    else if is_text log_level LogLevel.warn
    then warn_level
    else if is_text log_level LogLevel.error
    then error_level
    else info_level

-- The tests on the only character of an age of one byte.
unfoldable pub rotation_of : ℕ → Result Rotation
rotation_of c =
    if c == b'm' || c == b'M'
    then ok minutely
    else if c == b'h' || c == b'H'
    then ok hourly
    else if c == b'd' || c == b'D'
    then ok daily
    else if c == b'w' || c == b'W'
    then ok weekly
    else if c == b'0'
    then ok never
    else err (invalid_rotation_age (c ∷ []))

unfoldable pub map_log_rotation_age : Bytes → Result Rotation
map_log_rotation_age [] = err (invalid_rotation_age [])
map_log_rotation_age (c ∷ []) = rotation_of c
map_log_rotation_age (c ∷ d ∷ s) = err (invalid_rotation_age (c ∷ d ∷ s))

unfoldable pub event_log : Result (Unit {0}) → Result (Unit {0}) → Result LogWriter
event_log registered started = map_err event_log_not_registered registered >>= λ _.
    map_err event_log_not_started started >>= λ _. ok to_sink

unfoldable pub syslog_writer : Platform → Result LogWriter
syslog_writer (unix gives) = if gives then ok to_syslog else err panicked
syslog_writer (windows registered started) = event_log registered started

unfoldable pub targets_of : LevelFilter → Targets
targets_of level = record {
  named =
      (codes "pgmoneta_mcp", level) ∷ (codes "tokio", warn_level) ∷ (codes "rmcp", warn_level) ∷ [];
  default = off_level;
}

-- `unwrap_or_else`: an error is reported, and stderr is written to. A panic goes on.
abbrev pub or_stderr : Result LogWriter → Result LogWriter
or_stderr (ok writer) = ok writer
or_stderr (err panicked) = err panicked
or_stderr (err _) = ok to_stderr

module _ (files : LogFiles) (platform : Platform) where
  unfoldable pub file_writer : Bytes → Bytes → Bytes → Result LogWriter
  file_writer log_path log_mode log_rotation_age =
      if is_text log_mode LogMode.create
      then (if files.opens log_path then ok (to_new_file log_path) else err cannot_open_log)
      else if is_text log_mode LogMode.append
      then (map_log_rotation_age log_rotation_age >>= λ rotation.
          if files.rolls log_path then ok (to_rolling_file rotation log_path) else err panicked)
      else err (invalid_log_mode log_mode)

  unfoldable pub make_writer : Bytes → Bytes → Bytes → Bytes → Result LogWriter
  make_writer log_type log_path log_mode log_rotation_age =
      if is_text log_type LogType.console
      then ok to_stderr
      else if is_text log_type LogType.file
      then file_writer log_path log_mode log_rotation_age
      else if is_text log_type LogType.syslog
      then syslog_writer platform
      else err (invalid_log_type log_type)

  -- The subscriber, and whether a guard is returned.
  unfoldable pub init : Bytes → Bytes → Bytes → Bytes → Bytes → Bytes → Result (Subscriber × Bool)
  init log_level log_type log_format log_path log_mode log_rotation_age =
      or_stderr (make_writer log_type log_path log_mode log_rotation_age) >>= λ writer. ok (
        record {
          line_number = true;
          timer = log_format;
          writer = writer;
          ansi = false;
          filter = targets_of (get_level log_level);
        },
        has_guard writer,
      )
