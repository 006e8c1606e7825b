-- ===== src/Tests/Logging.antt =====
-- The log, run on a few calls.
use network_broker.Prelude.{
  some, none, ◌≡◌, ◌≢◌, refl, Text, codes, true, false, List, [], ◌∷◌, ◌++◌, arith,
}
use network_broker.Prelude.Decimal.{to_string}
use network_broker.Logs.{
  console, blanks, pad, file_name, warning, info, error, all, LogManager, Writer, testing, writing,
  returned, log_line,
}
use network_broker.Logs.Singleton.{Use, uses_log, inits, level_of, run_uses, run-level}
use network_broker.Logs.Writers.{
  only_turns, turns_needed, IsFinished, turns_needed-IsFinished, passed, run as run_writer,
}
use network_broker.Logs.Manager.{
  Call, LogEvent, calls, logger_turns, run, run-passed, file_texts, console_texts,
}

abbrev busy : Writer
busy = record {
  queue = codes "b" ∷ codes "c" ∷ [];
  stop = true;
  phase = writing (codes "a");
  lines = [];
}

writing-ne-returned : (msg : Text) → writing msg ≢ returned
writing-ne-returned msg e = ground (arith, e)

turns_needed-IsFinished_example :
    IsFinished
      (run_writer (only_turns (turns_needed busy.phase busy.queue)) busy)
      (codes "a" ∷ codes "b" ∷ codes "c" ∷ [])
turns_needed-IsFinished_example =
    turns_needed-IsFinished busy refl (writing-ne-returned (codes "a"))

abbrev quiet : Writer
quiet = record { queue = []; stop = false; phase = testing; lines = [] }

abbrev manager : LogManager
manager = record { level = warning; logger = quiet; shell_printer = quiet }

abbrev failed : Call
failed = record {
  level = error;
  direction = all;
  file = codes "src/server.cpp";
  line = 12;
  time = codes "10:00:00.000";
  msg = codes "failed";
}

abbrev events : List LogEvent
events = calls failed ∷ logger_turns ∷ calls (record failed { level = info }) ∷ logger_turns ∷ []

run-passed_example :
    (passed (run events manager).logger ≡ [] ++ file_texts warning events)
    × (passed (run events manager).shell_printer ≡ [] ++ console_texts warning events)
run-passed_example = run-passed events manager

-- The first call passes the level and the second does not.
failed_once : console_texts warning events ≡ codes "failed" ∷ []
unfolding console_texts
failed_once = refl

failed_line :
    log_line (codes "10:00:00.000") error (codes "src/server.cpp") 12 (codes "failed")
    ≡ codes "[ 10:00:00.000 ]  server.cpp:12                      [ ERROR ]  failed"
unfolding log_line file_name pad blanks to_string
failed_line = refl

abbrev uses : List Use
uses =
    uses_log true info console (codes "main.cpp") 31 (codes "12:00:00.000") (codes "started")
    ∷ inits true (codes "debug")
    ∷ []

uses_level : level_of (run_uses uses none) ≡ some warning
uses_level = run-level uses
