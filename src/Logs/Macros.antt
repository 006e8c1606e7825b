-- ===== src/Logs/Macros.antt =====
-- app/src/logs/log.h: the macros through which the program logs.
use network_broker.Prelude.{ℕ, Text, Bool, Option, some}
use network_broker.Logs.{
  LogLevels, debug, info, warning, error, fatal, LogDirection, console, log, all, LogManager,
  write_log, get_instance,
}

-- LOG_INTERNAL: the instance is made if there is none, and gets the message.
unfoldable pub log_internal :
    Bool → LogLevels → LogDirection → Text → ℕ → Text → Text → Option LogManager → Option LogManager
unfolding write_log get_instance
log_internal is_open level direction file line time msg instance_ =
    some (write_log level direction file line time msg (get_instance is_open instance_))

-- The macros, over `log_internal` or a part of it.
abbrev pub Macro {ℓ} : Type ℓ → Type ℓ
Macro A = (LogLevels → LogDirection → A) → A

module _ {ℓ} {A : Type ℓ} where
  abbrev pub debug_log : Macro A
  debug_log log_with = log_with debug log

  abbrev pub info_log : Macro A
  info_log log_with = log_with info log

  abbrev pub warning_log : Macro A
  warning_log log_with = log_with warning log

  abbrev pub error_log : Macro A
  error_log log_with = log_with error log

  abbrev pub fatal_log : Macro A
  fatal_log log_with = log_with fatal log

  abbrev pub debug_all : Macro A
  debug_all log_with = log_with debug all

  abbrev pub info_all : Macro A
  info_all log_with = log_with info all

  abbrev pub warning_all : Macro A
  warning_all log_with = log_with warning all

  abbrev pub error_all : Macro A
  error_all log_with = log_with error all

  abbrev pub fatal_all : Macro A
  fatal_all log_with = log_with fatal all

  abbrev pub debug_shell : Macro A
  debug_shell log_with = log_with debug console

  abbrev pub info_shell : Macro A
  info_shell log_with = log_with info console

  abbrev pub warning_shell : Macro A
  warning_shell log_with = log_with warning console

  abbrev pub error_shell : Macro A
  error_shell log_with = log_with error console

  abbrev pub fatal_shell : Macro A
  fatal_shell log_with = log_with fatal console
