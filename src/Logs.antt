-- ===== src/Logs.antt =====
-- app/src/logs: the levels and directions of log_configs.h, the two writers with their queues and
-- threads (logger.h, logger.cpp, shell_printer.h, shell_printer.cpp), and the manager in front of them
-- (log_manager.h, log_manager.cpp). The time of day is an argument.
pub mod Writers
pub mod Manager
pub mod Singleton
pub mod Macros
use network_broker.Prelude.{
  ℕ, zero, suc, ◌-◌, Text, codes, is_empty, length, Bool, true, false, not, ◌||◌, Option, none,
  some, List, [], ◌∷◌, ◌++◌, if◌then◌else◌, nat_beq, leb, text_beq,
}
use network_broker.Prelude.Decimal.{to_string}

pub data LogLevels : Type 0 where
  debug info warning error fatal : LogLevels

abbrev pub level_value : LogLevels → ℕ
level_value debug = 0
level_value info = 1
level_value warning = 2
level_value error = 3
level_value fatal = 4

-- loggerMap
abbrev pub level_name : LogLevels → Text
level_name debug = codes "DEBUG"
level_name info = codes "INFO"
level_name warning = codes "WARNING"
level_name error = codes "ERROR"
level_name fatal = codes "FATAL"

pub data LogDirection : Type 0 where
  console log all : LogDirection

unfoldable pub config_to_level : Text → LogLevels
config_to_level level =
    if text_beq level (codes "debug")
    then debug
    else if text_beq level (codes "info")
    then info
    else if text_beq level (codes "warning")
    then warning
    else if text_beq level (codes "error")
    then error
    else if text_beq level (codes "fatal")
    then fatal
    else warning

-- Where the thread of a writer stands in its loop: at the test, before the lock, with a message that
-- it has taken, or at the end.
pub data Phase : Type 0 where
  testing popping returned : Phase
  writing : Text → Phase

-- A writer: Logger or ShellPrinter. `lines` is what went to the file or to the console.
pub record Writer : Type 0 where
  pub queue : List Text
  pub stop : Bool
  pub phase : Phase
  pub lines : List Text

-- Logger::Logger; the thread of a logger whose file is not open returns at once.
unfoldable pub new_logger : Bool → Writer
new_logger is_open = record {
  queue = [];
  stop = false;
  phase = if is_open then testing else returned;
  lines = [];
}

abbrev pub ShellPrinter : Type 0
ShellPrinter = Writer

-- ShellPrinter::ShellPrinter
unfoldable pub new_printer : ShellPrinter
new_printer = record { queue = []; stop = false; phase = testing; lines = [] }

-- The next step of the thread, in Logger::Log.
unfoldable pub turn : Writer → Writer
turn w = elim w.phase [
  | testing ↦
      if not w.stop || not (is_empty w.queue)
      then record w { phase = popping }
      else record w { phase = returned }
  | popping ↦ elim w.queue [
    | [] ↦ record w { phase = testing }
    | message ∷ rest ↦ record w { queue = rest; phase = writing message }
  ]
  | returned ↦ w
  | writing message ↦ record w { lines = w.lines ++ message ∷ []; phase = testing }
]

-- ShellPrinter::Log has the same loop, with the console in place of the file.
unfoldable pub print_turn : ShellPrinter → ShellPrinter
unfolding turn
print_turn w = turn w

-- The push at the end of both SetQueue.
unfoldable pub push : Text → Writer → Writer
push msg w = record w { queue = w.queue ++ msg ∷ [] }

-- The first statement of the destructor, which then waits for the thread.
unfoldable pub ask_to_stop : Writer → Writer
ask_to_stop w = record w { stop = true }

-- ~ShellPrinter
unfoldable pub ask_printer_to_stop : ShellPrinter → ShellPrinter
ask_printer_to_stop w = record w { stop = true }

-- What follows the last `/` or `\` of a path.
unfoldable pub file_name : Text → Text → Text
file_name name [] = name
file_name name (c ∷ path) =
    let start = if nat_beq c 47 || nat_beq c 92 then [] else name ++ c ∷ [] in file_name start path

unfoldable pub blanks : ℕ → Text
blanks zero = []
blanks (suc n) = 32 ∷ blanks n

-- std::left << std::setw( width ) << text
unfoldable pub pad : ℕ → Text → Text
unfolding blanks
pad width text = text ++ blanks (width - length text)

-- The text that Logger::SetQueue makes of a message.
unfoldable pub log_line : Text → LogLevels → Text → ℕ → Text → Text
unfolding pad file_name
log_line time level file line msg =
    codes "[ "
    ++ time
    ++ codes " ]  "
    ++ pad 35 (file_name [] file ++ codes ":" ++ to_string line)
    ++ pad 11 (codes "[ " ++ level_name level ++ codes " ]")
    ++ msg

-- LogManager
pub record LogManager : Type 0 where
  pub level : LogLevels
  pub logger : Writer
  pub shell_printer : ShellPrinter

-- LogManager::LogManager
unfoldable pub new : Bool → Text → LogManager
unfolding config_to_level new_logger
new is_open level = record {
  level = config_to_level level;
  logger = new_logger is_open;
  shell_printer = new_printer;
}

abbrev pub to_console : LogDirection → Bool
to_console console = true
to_console log = false
to_console all = true

abbrev pub to_log : LogDirection → Bool
to_log console = false
to_log log = true
to_log all = true

-- LogManager::Log
unfoldable pub write_log :
    LogLevels → LogDirection → Text → ℕ → Text → Text → LogManager → LogManager
unfolding push log_line
write_log level direction file line time msg m =
    if leb (level_value m.level) (level_value level)
    then (let m' : LogManager =
          if to_console direction
          then record m { shell_printer = push msg m.shell_printer }
          else m in
        if to_log direction
        then record m' { logger = push (log_line time level file line msg) m'.logger }
        else m')
    else m

-- LogManager::Init: the first call decides.
unfoldable pub init : Bool → Text → Option LogManager → Option LogManager
unfolding new
init is_open level none = some (new is_open level)
init is_open level (some m) = some m

-- LogManager::Instance
unfoldable pub get_instance : Bool → Option LogManager → LogManager
unfolding new
get_instance is_open none = new is_open (codes "warning")
get_instance is_open (some m) = m
