-- ===== src/Logs/Manager.antt =====
-- What the calls of the log manager bring to the file and to the console.
use network_broker.Prelude.{
  ℕ, ◌≡◌, ◌∙◌, ap, sym, Text, Bool, true, false, ◌&&◌, List, [], ◌∷◌, ◌++◌, append-nil,
  append_assoc, arith, leb, if◌then◌else◌,
}
use network_broker.Logs.{
  LogLevels, LogDirection, LogManager, level_value, to_console, to_log, log_line, write_log, turn,
  print_turn,
}
use network_broker.Logs.Writers.{passed, turn-passed, push-passed}

-- A call of LogManager::Log, with the time at which it is made.
pub record Call : Type 0 where
  pub level : LogLevels
  pub direction : LogDirection
  pub file : Text
  pub line : ℕ
  pub time : Text
  pub msg : Text

-- What can happen to the log, in any order.
pub data LogEvent : Type 0 where
  calls : Call → LogEvent
  logger_turns printer_turns : LogEvent

unfoldable pub step : LogEvent → LogManager → LogManager
unfolding write_log turn print_turn
step (calls c) m = write_log c.level c.direction c.file c.line c.time c.msg m
step logger_turns m = record m { logger = turn m.logger }
step printer_turns m = record m { shell_printer = print_turn m.shell_printer }

unfoldable pub run : List LogEvent → LogManager → LogManager
unfolding step
run [] m = m
run (e ∷ es) m = run es (step e m)

-- A call passes the filter of a level.
abbrev passes : LogLevels → Call → Bool
passes level c = leb (level_value level) (level_value c.level)

-- The texts for the file, and those for the console, of the calls at a level or above it.
unfoldable pub file_texts : LogLevels → List LogEvent → List Text
file_texts level [] = []
file_texts level (logger_turns ∷ es) = file_texts level es
file_texts level (printer_turns ∷ es) = file_texts level es
file_texts level (calls c ∷ es) =
    let rest = file_texts level es in
    if passes level c && to_log c.direction
    then log_line c.time c.level c.file c.line c.msg ∷ rest
    else rest

unfoldable pub console_texts : LogLevels → List LogEvent → List Text
console_texts level [] = []
console_texts level (logger_turns ∷ es) = console_texts level es
console_texts level (printer_turns ∷ es) = console_texts level es
console_texts level (calls c ∷ es) =
    let rest = console_texts level es in
    if passes level c && to_console c.direction then c.msg ∷ rest else rest

-- One call: each writer gets a text if the level and the direction say so.
write_log-passed :
    (c : Call) (m : LogManager)
    → let m' = step (calls c) m in
      (m'.level ≡ m.level)
      × (passed m'.logger
          ≡ passed m.logger
            ++ (if passes m.level c && to_log c.direction
                then log_line c.time c.level c.file c.line c.msg ∷ []
                else []))
      × (passed m'.shell_printer
          ≡ passed m.shell_printer
            ++ (if passes m.level c && to_console c.direction then c.msg ∷ [] else []))
unfolding step write_log
write_log-passed c m = ground (
  arith,
  push-passed (log_line c.time c.level c.file c.line c.msg) m.logger,
  push-passed c.msg m.shell_printer,
  append-nil (passed m.logger),
  append-nil (passed m.shell_printer),
)

append_if :
    (b : Bool) (t : Text) (xs ys : List Text)
    → (xs ++ (if b then t ∷ [] else [])) ++ ys ≡ xs ++ (if b then t ∷ ys else ys)
append_if true t xs ys = append_assoc xs (t ∷ []) ys
append_if false t xs ys = ap (λ l. l ++ ys) (append-nil xs)

-- Whatever is logged and however the threads of the writers run: what the logger has written or still
-- holds is what it had, followed by the lines of the calls at the level of the manager or above whose
-- direction is the file, in order; and so for the console.
pub run-passed :
    (es : List LogEvent) (m : LogManager)
    → (passed (run es m).logger ≡ passed m.logger ++ file_texts m.level es)
      × (passed (run es m).shell_printer ≡ passed m.shell_printer ++ console_texts m.level es)
unfolding run step file_texts console_texts
run-passed [] m = (sym (append-nil (passed m.logger)), sym (append-nil (passed m.shell_printer)))
run-passed (logger_turns ∷ es) m =
    let (f, c) = run-passed es (step logger_turns m) in
    (f ∙ ap (λ l. l ++ file_texts m.level es) (turn-passed m.logger), c)
run-passed (printer_turns ∷ es) m =
    let (f, c) = run-passed es (step printer_turns m) in
    (f, c ∙ ap (λ l. l ++ console_texts m.level es) (turn-passed m.shell_printer))
run-passed (calls c ∷ es) m =
    let (f, g) = run-passed es (step (calls c) m) in
    let (same, f', g') = write_log-passed c m in
    let line : Text = log_line c.time c.level c.file c.line c.msg in
    let msg : Text = c.msg in
    (
      f
          ∙ ap (λ l. l ++ file_texts (step (calls c) m).level es) f'
          ∙ append_if (passes m.level c && to_log c.direction) line (passed m.logger)
              (file_texts (step (calls c) m).level es)
          ∙ ap
              (λ l.
                passed m.logger
                ++ (if passes m.level c && to_log c.direction
                    then line ∷ file_texts l es
                    else file_texts l es))
              same,
      g
          ∙ ap (λ l. l ++ console_texts (step (calls c) m).level es) g'
          ∙ append_if (passes m.level c && to_console c.direction) msg (passed m.shell_printer)
              (console_texts (step (calls c) m).level es)
          ∙ ap
              (λ l.
                passed m.shell_printer
                ++ (if passes m.level c && to_console c.direction
                    then msg ∷ console_texts l es
                    else console_texts l es))
              same,
    )
