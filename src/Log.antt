-- ===== src/Log.antt =====
-- log.go. A call writes at most one text; the numbers of bytes and the errors that the calls return
-- are used by none of the callers and left out. `stamp` is the time, as formatted.
pub mod Filter
use smudge.Prelude.{
  ℕ, ◌-◌, Bool, List, [], ◌∷◌, ◌++◌, length, replicate, get_or, leb, if◌then◌else◌,
}
use smudge.Prelude.Text.{Text, runes}

abbrev pub LogLevel : Type 0
LogLevel = ℕ

abbrev pub log_all_level : LogLevel
log_all_level = 0

abbrev pub log_trace_level : LogLevel
log_trace_level = 1

abbrev pub log_debug_level : LogLevel
log_debug_level = 2

abbrev pub log_info_level : LogLevel
log_info_level = 3

abbrev pub log_warn_level : LogLevel
log_warn_level = 4

abbrev pub log_error_level : LogLevel
log_error_level = 5

abbrev pub log_fatal_level : LogLevel
log_fatal_level = 6

abbrev pub log_off_level : LogLevel
log_off_level = 7

unfoldable pub level_string : LogLevel → Text
level_string level =
    get_or
      (runes "All"
        ∷ runes "Trace"
        ∷ runes "Debug"
        ∷ runes "Info"
        ∷ runes "Warn"
        ∷ runes "Error"
        ∷ runes "Fatal"
        ∷ runes "Off"
        ∷ [])
      level (runes "Unknown")

-- What is logged: the operands, as Fprintln writes them, or a format, and what Fprintf makes of a
-- format with the operands of the call.
pub data Content : Type 0 where
  operands : Text → Content
  format : Text → (Text → Text) → Content

pub record Entry : Type 0 where
  pub level : LogLevel
  pub content : Content

-- DefaultLogger, or another, to which SetLogger was given.
pub data Logger : Type 0 where
  default_logger : Logger
  plugged : ℕ → Logger

-- A text on the standard error, or a call of another logger.
pub data Output : Type 0 where
  stderr : Text → Output
  handed : ℕ → Entry → Output

pub record Logging : Type 0 where
  pub log_threshhold : LogLevel
  pub logger : Logger
  pub outputs : List Output

unfoldable pub set_log_threshold : Logging → LogLevel → Logging
set_log_threshold l level = record l { log_threshhold = level }

unfoldable pub set_logger : Logging → Logger → Logging
set_logger l logger = record l { logger = logger }

-- init().
unfoldable pub init : Logging → Logging
init l = set_log_threshold (set_logger l default_logger) log_info_level

-- `%5s`.
abbrev pub padded : Text → Text
padded s = replicate (5 - length s) b' ' ++ s

unfoldable pub prefix : Text → LogLevel → Text
prefix stamp level = padded (level_string level) ++ (b' ' ∷ (stamp ++ runes " -"))

abbrev pub print : Logging → Output → Logging
print l output = record l { outputs = l.outputs ++ (output ∷ []) }

-- What is written behind a prefix.
abbrev pub text_of : Text → Content → Text
text_of start (operands line) = start ++ (b' ' ∷ line)
text_of start (format pattern render) = render (start ++ (b' ' ∷ (pattern ++ (b'\n' ∷ []))))

-- DefaultLogger.Log and DefaultLogger.Logf.
unfoldable pub default_log : Text → Logging → Entry → Logging
default_log stamp l e =
    if leb l.log_threshhold e.level
    then print l (stderr (text_of (prefix stamp e.level) e.content))
    else l

-- `logger.Log` and `logger.Logf`.
unfoldable pub hand_over : Text → Logging → Logger → Entry → Logging
hand_over stamp l default_logger e = default_log stamp l e
hand_over stamp l (plugged k) e = print l (handed k e)

-- log and logf.
unfoldable pub log : Text → Logging → Entry → Logging
log stamp l e = if leb l.log_threshhold e.level then hand_over stamp l l.logger e else l

abbrev pub log_line : LogLevel → Text → Logging → Text → Logging
log_line level stamp l line = log stamp l (record { level = level; content = operands line })

abbrev pub log_format : LogLevel → Text → Logging → Text → (Text → Text) → Logging
log_format level stamp l pattern render =
    log stamp l (record { level = level; content = format pattern render })

unfoldable pub log_trace : Text → Logging → Text → Logging
log_trace stamp l line = log_line log_trace_level stamp l line

unfoldable pub log_debug : Text → Logging → Text → Logging
log_debug stamp l line = log_line log_debug_level stamp l line

unfoldable pub log_info : Text → Logging → Text → Logging
log_info stamp l line = log_line log_info_level stamp l line

unfoldable pub log_warn : Text → Logging → Text → Logging
log_warn stamp l line = log_line log_warn_level stamp l line

unfoldable pub log_error : Text → Logging → Text → Logging
log_error stamp l line = log_line log_error_level stamp l line

unfoldable pub log_fatal : Text → Logging → Text → Logging
log_fatal stamp l line = log_line log_fatal_level stamp l line

unfoldable pub logf_trace : Text → Logging → Text → (Text → Text) → Logging
logf_trace stamp l pattern render = log_format log_trace_level stamp l pattern render

unfoldable pub logf_debug : Text → Logging → Text → (Text → Text) → Logging
logf_debug stamp l pattern render = log_format log_debug_level stamp l pattern render

unfoldable pub logf_info : Text → Logging → Text → (Text → Text) → Logging
logf_info stamp l pattern render = log_format log_info_level stamp l pattern render

unfoldable pub logf_warn : Text → Logging → Text → (Text → Text) → Logging
logf_warn stamp l pattern render = log_format log_warn_level stamp l pattern render

unfoldable pub logf_error : Text → Logging → Text → (Text → Text) → Logging
logf_error stamp l pattern render = log_format log_error_level stamp l pattern render

unfoldable pub logf_fatal : Text → Logging → Text → (Text → Text) → Logging
logf_fatal stamp l pattern render = log_format log_fatal_level stamp l pattern render
