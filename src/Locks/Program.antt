-- ===== src/Locks/Program.antt =====
-- What threads of a program do with the log system: calls, one after another.
use final_designer.Formatter.Scan.{Formatter}
use final_designer.Level.{Level}
use final_designer.Locks.Appenders
use final_designer.Locks.Appenders.{make_appender}
use final_designer.Locks.Code.{Code, done, act, System}
use final_designer.Locks.Loggers
use final_designer.Locks.Loggers.{
  add_appender, del_appender, set_pattern, get_logger_formatter, log_macro, logger_to_yaml_string,
}
use final_designer.Locks.Managers.{get_root, get_logger, manager_to_yaml_string}
use final_designer.Logging.Sink.{Disk}
use final_designer.Logging.World.{new_console, new_file, World}
use final_designer.Prelude.{ℕ, ℤ, List, [], ◌∷◌, Text, some, map}
use final_designer.Yaml.{Api}

-- A logger is named by its name. An appender is made, dressed with a level and a formatter of its
-- own where it has one, and added. `files` is a change of the files by another program.
pub data Call : Type 0 where
  log_to : Text → Level → Text → ℤ → ℕ → ℕ → ℕ → Text → Call
  log_to_root : Level → Text → ℤ → ℕ → ℕ → ℕ → Text → Call
  add_console : Text → Call
  add_file : Text → Text → Call
  add_dressed : Text → Text → Level → Formatter → Call
  del : Text → ℕ → Call
  level_of : Text → Level → Call
  formatter_of : Text → Formatter → Call
  pattern_of : Text → Text → Call
  formatter_asked : Text → Call
  describe : Text → Call
  describe_all : Call
  files : Disk → Call

module _ (local_time : Text → ℕ → Text) (api : Api) where
  -- A call, in front of the rest of the thread.
  unfoldable pub call : Call → Code World → Code World
  call (log_to name level source line thread fiber now text) k =
      get_logger name λ i. log_macro local_time i level source line thread fiber now text k
  call (log_to_root level source line thread fiber now text) k =
      get_root λ i. log_macro local_time i level source line thread fiber now text k
  call (add_console name) k = get_logger name λ i. make_appender new_console λ j. add_appender i j k
  call (add_file name filename) k =
      get_logger name λ i. make_appender (new_file filename) λ j. add_appender i j k
  call (add_dressed name filename level f) k = get_logger name λ i.
      make_appender (new_file filename)
        λ j. Appenders.set_level j level (Appenders.set_formatter j (some f) (add_appender i j k))
  call (del name j) k = get_logger name λ i. del_appender i j k
  call (level_of name level) k = get_logger name λ i. Loggers.set_level i level k
  call (formatter_of name f) k = get_logger name λ i. Loggers.set_formatter i (some f) k
  call (pattern_of name val) k = get_logger name λ i. set_pattern i val k
  call (formatter_asked name) k = get_logger name λ i. get_logger_formatter i λ f. k
  call (describe name) k = get_logger name λ i. logger_to_yaml_string api i λ out. k
  call describe_all k = manager_to_yaml_string api λ out. k
  call (files d) k = act (λ w. record w { disk = d }) (λ w. k)

  unfoldable pub program : List Call → Code World
  unfolding call
  program [] = done
  program (c ∷ cs) = call c (program cs)

-- Threads that have not begun yet.
abbrev pub launch : {W : Type 0} → W → List (Code W) → System W
launch w cs = record { world = w; threads = map (λ c. record { code = c; held = [] }) cs }
