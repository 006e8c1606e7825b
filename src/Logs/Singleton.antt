-- ===== src/Logs/Singleton.antt =====
-- The one instance of the manager: `LogManager::Init`, and the macros of log.h.
use network_broker.Prelude.{
  ℕ, ◌≡◌, ◌∙◌, refl, ap, Text, codes, Bool, Option, none, some, List, [], ◌∷◌, arith,
}
use network_broker.Logs.{
  LogLevels, warning, LogDirection, LogManager, config_to_level, new, init, write_log, get_instance,
}
use network_broker.Logs.Macros.{log_internal}

-- The calls that a program makes, each with whether its log file can be opened.
pub data Use : Type 0 where
  inits : Bool → Text → Use
  uses_log : Bool → LogLevels → LogDirection → Text → ℕ → Text → Text → Use

unfoldable pub make : Use → Option LogManager → Option LogManager
unfolding init log_internal
make (inits is_open level) m = init is_open level m
make (uses_log is_open level direction file line time msg) m =
    log_internal is_open level direction file line time msg m

unfoldable pub run_uses : List Use → Option LogManager → Option LogManager
unfolding make
run_uses [] m = m
run_uses (c ∷ calls) m = run_uses calls (make c m)

abbrev pub level_of : Option LogManager → Option LogLevels
level_of none = none
level_of (some m) = some m.level

-- The level that the first call asks for.
abbrev pub first_level : List Use → Option LogLevels
first_level [] = none
first_level (inits is_open level ∷ calls) = some (config_to_level level)
first_level (uses_log is_open level direction file line time msg ∷ calls) = some warning

write_log_level :
    (level : LogLevels) (direction : LogDirection) (file : Text) (line : ℕ) (time msg : Text)
    (m : LogManager)
    → (write_log level direction file line time msg m).level ≡ m.level
unfolding write_log
write_log_level level direction file line time msg m = ground arith

make-some :
    (c : Use) (m : LogManager)
    → (m' : LogManager) × (make c (some m) ≡ some m') × (m'.level ≡ m.level)
unfolding make get_instance write_log init
make-some (inits is_open level) m = (m, refl, refl)
make-some (uses_log is_open level direction file line time msg) m = (
  write_log level direction file line time msg m,
  refl,
  write_log_level level direction file line time msg m,
)

run_uses-some :
    (calls : List Use) (m : LogManager) → level_of (run_uses calls (some m)) ≡ some m.level
unfolding run_uses
run_uses-some [] m = refl
run_uses-some (c ∷ calls) m =
    let (m', e, same) = make-some c m in
    ap (λ x. level_of (run_uses calls x)) e ∙ run_uses-some calls m' ∙ ap some same

make-none :
    (c : Use) (calls : List Use)
    → (m : LogManager) × (make c none ≡ some m) × (some m.level ≡ first_level (c ∷ calls))
unfolding make get_instance write_log init new
make-none (inits is_open level) calls = (new is_open level, refl, refl)
make-none (uses_log is_open level direction file line time msg) calls = (
  write_log level direction file line time msg (new is_open (codes "warning")),
  refl,
  ap some (
      write_log_level level direction file line time msg (new is_open (codes "warning"))
      ∙ (unfold config_to_level in refl)),
)

-- The first call decides on the level of the log for good: it is the one that a first `Init` asks for,
-- and the level of warnings if something is logged before; what later calls of `Init` ask for is
-- ignored. Without a call there is no manager.
pub run-level : (calls : List Use) → level_of (run_uses calls none) ≡ first_level calls
unfolding run_uses
run-level [] = refl
run-level (c ∷ calls) =
    let (m, e, same) = make-none c calls in
    ap (λ x. level_of (run_uses calls x)) e ∙ run_uses-some calls m ∙ same
